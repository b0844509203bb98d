-- ===== src/Timeouts/Chain.antt =====
-- The order of the three timeouts.
use shelldon.Base.{
  ap, ◌∙◌, ℕ, ◌-◌, ◌≤◌, ◌<◌, Option, none, some, [], ◌∷◌, ltb, ◌≡◌, refl, inl, inr, ◌⊎◌, arith,
  Bool-cases,
}
use shelldon.Base.Text.{Text}
use shelldon.Timeouts.{
  Seconds, finite, negative, huge, infinite, nan, clamp_timeout, parsed_timeout,
  resolve_turn_timeout, reap_timeout, completion_timeout, minus, min_turn_timeout, reap_margin,
  completion_margin,
}

-- The worker's, the reaper's and core's timeout, all finite, in this order, above the five seconds that
-- the worker's last write may take.
abbrev pub IsChain : Seconds → Type 0
IsChain limit =
    (w : ℕ) × ((r : ℕ) × ((t : ℕ) × ((completion_timeout limit ≡ finite w)
          × ((reap_timeout limit ≡ finite r)
              × ((limit ≡ finite t) × ((5000 < w) × ((w < r) × (r < t))))))))

minus_lem : (t n : ℕ) → n ≤ t → minus (finite t) n ≡ finite (t - n)
unfolding minus
minus_lem t n h = ground arith

floor-IsChain : (t : ℕ) → min_turn_timeout ≤ t → IsChain (finite t)
unfolding completion_timeout reap_timeout
floor-IsChain t h = (
  t - completion_margin,
  (
    t - reap_margin,
    (
      t,
      (
        minus_lem t completion_margin (omega arith),
        (minus_lem t reap_margin (omega arith), (refl, (omega arith, (omega arith, omega arith)))),
      ),
    ),
  ),
)

clamp-IsChain :
    (s : Seconds) → IsChain (clamp_timeout s) ⊎ ((s ≡ huge) ⊎ ((s ≡ infinite) ⊎ (s ≡ nan)))
unfolding clamp_timeout
clamp-IsChain (finite t) = elim (Bool-cases (ltb t min_turn_timeout)) [
  | inl low ↦ inl (rw low (floor-IsChain min_turn_timeout (omega arith)))
  | inr high ↦ inl (rw high (floor-IsChain t (ground arith)))
]
clamp-IsChain negative = inl (floor-IsChain min_turn_timeout (omega arith))
clamp-IsChain huge = inr (inl refl)
clamp-IsChain infinite = inr (inr (inl refl))
clamp-IsChain nan = inr (inr (inr refl))

-- Whatever the variable holds, the three timeouts come out in their order, unless `float` reads it as
-- infinity, as NaN, or as a number so huge that a margin can be rounded away.
pub resolve-IsChain :
    (parse : Text → Option Seconds) (raw : Option Text)
    → IsChain (resolve_turn_timeout parse raw)
      ⊎ ((text : Text) × ((raw ≡ some text)
            × ((parse text ≡ some huge)
                ⊎ ((parse text ≡ some infinite) ⊎ (parse text ≡ some nan)))))
unfolding resolve_turn_timeout parsed_timeout
resolve-IsChain parse none = inl (floor-IsChain 30_000 (omega arith))
resolve-IsChain parse (some []) = inl (floor-IsChain 30_000 (omega arith))
resolve-IsChain parse (some (c ∷ cs)) = split (parse (c ∷ cs)) refl
  where
    split :
        (o : Option Seconds)
        → parse (c ∷ cs) ≡ o
        → IsChain (parsed_timeout o)
          ⊎ ((text : Text) × ((some (c ∷ cs) ≡ some text)
                × ((parse text ≡ some huge)
                    ⊎ ((parse text ≡ some infinite) ⊎ (parse text ≡ some nan)))))
    split none h = inl (floor-IsChain 30_000 (omega arith))
    split (some s) h = elim (clamp-IsChain s) [
      | inl ordered ↦ inl ordered
      | inr (inl e) ↦ inr (c ∷ cs, (refl, inl (h ∙ ap some e)))
      | inr (inr (inl e)) ↦ inr (c ∷ cs, (refl, inr (inl (h ∙ ap some e))))
      | inr (inr (inr e)) ↦ inr (c ∷ cs, (refl, inr (inr (h ∙ ap some e))))
    ]
