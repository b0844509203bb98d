-- ===== src/Broker/Chain.antt =====
-- The chain that is built from the configuration.
use shelldon.Base.{
  Option, none, some, true, false, ◌||◌, List, [], ◌∷◌, ◌++◌, ◌≡◌, refl, inl, inr, ◌↔◌, subst,
  arith, Bool-cases,
}
use shelldon.Base.Result.{Result, ok, err, runtime_error, ◌>>=◌}
use shelldon.Base.Text.{Text, text_eq, text_eq_refl, text_eq→eq}
use shelldon.Broker.{is_in, dedupe, entries, build_all, build_one, build_chain}

pub text_eq_iff : (a b : Text) → (text_eq a b ≡ true) ↔ (a ≡ b)
text_eq_iff a b = (text_eq→eq a b, λ e. subst (λ c. text_eq a c ≡ true) e (text_eq_refl a))

-- No name stands twice.
abbrev pub IsDistinct : List Text → Type 0
IsDistinct [] = Unit
IsDistinct (n ∷ ns) = (is_in n ns ≡ false) × IsDistinct ns

is_in-append : (n : Text) (a b : List Text) → is_in n (a ++ b) ≡ (is_in n a || is_in n b)
is_in-append n [] b = refl
is_in-append n (m ∷ a) b = ground (arith, is_in-append n a b)

IsDistinct-snoc :
    (n : Text) (a : List Text) → IsDistinct a → is_in n a ≡ false → IsDistinct (a ++ n ∷ [])
IsDistinct-snoc n [] d h = (refl, tt)
IsDistinct-snoc n (m ∷ a) d h = (
  ground (arith, is_in-append m a (n ∷ []), text_eq_iff m n, text_eq_iff n m, d.0),
  IsDistinct-snoc n a d.1 (ground arith),
)

dedupe-IsDistinct : (ns kept : List Text) → IsDistinct kept → IsDistinct (dedupe ns kept)
unfolding dedupe
dedupe-IsDistinct [] kept d = d
dedupe-IsDistinct (n ∷ ns) kept d = elim (Bool-cases (is_in n kept)) [
  | inl e ↦ rw e (dedupe-IsDistinct ns kept d)
  | inr e ↦ rw e (dedupe-IsDistinct ns (kept ++ n ∷ []) (IsDistinct-snoc n kept d e))
]

is_in-dedupe :
    (k : Text) (ns kept : List Text) → is_in k (dedupe ns kept) ≡ (is_in k kept || is_in k ns)
unfolding dedupe
is_in-dedupe k [] kept = ground arith
is_in-dedupe k (n ∷ ns) kept = ground (
  arith,
  text_eq_iff n k,
  is_in-append k kept (n ∷ []),
  is_in-dedupe k ns kept,
  is_in-dedupe k ns (kept ++ n ∷ []),
)

module _ {P Env : Type 0} (presets : Text → Option (Env → Result P)) (env : Env) where
  -- Each provider was built by the builder of its name.
  abbrev pub Built : List Text → List P → Type 0
  Built [] [] = Unit
  Built [] (p ∷ ps) = ⊥
  Built (n ∷ ns) [] = ⊥
  Built (n ∷ ns) (p ∷ ps) =
      ((f : Env → Result P) × ((presets n ≡ some f) × (f env ≡ ok p))) × Built ns ps

  bind_ok :
      (a : Result P) (b : Result (List P)) (ps : List P)
      → (a >>= λ p. b >>= λ qs. ok (p ∷ qs)) ≡ ok ps
      → (p : P) × ((qs : List P) × ((a ≡ ok p) × ((b ≡ ok qs) × (ps ≡ p ∷ qs))))
  bind_ok (err e) b ps h = cc
  bind_ok (ok p) (err e) ps h = cc
  bind_ok (ok p) (ok qs) ps h = (p, (qs, (refl, (refl, cc))))

  one-Built :
      (n : Text) (o : Option (Env → Result P)) (p : P)
      → presets n ≡ o
      → build_one presets env o ≡ ok p
      → (f : Env → Result P) × ((presets n ≡ some f) × (f env ≡ ok p))
  unfolding build_one
  one-Built n none p h e = cc
  one-Built n (some f) p h e = (f, (h, e))

  build_all-Built : (ns : List Text) (ps : List P) → build_all presets env ns ≡ ok ps → Built ns ps
  unfolding build_all
  build_all-Built [] [] e = tt
  build_all-Built [] (p ∷ ps) e = cc
  build_all-Built (n ∷ ns) ps e =
      let (p, (qs, (one, (all, same)))) =
        bind_ok (build_one presets env (presets n)) (build_all presets env ns) ps e in
      rw same (one-Built n (presets n) p refl one, build_all-Built ns qs all)

  -- The chain has one provider for each name in the configuration, each name once however often it
  -- is listed, each built by its own builder: with an unknown name, or a builder that raises, no
  -- chain is built at all.
  pub build_chain-Built :
      (lower : Text → Text) (raw : Text) (ps : List P)
      → build_chain presets lower raw env ≡ ok ps
      → let names = dedupe (entries lower raw) [] in
        IsDistinct names
        × (((k : Text) → is_in k names ≡ is_in k (entries lower raw)) × Built names ps)
  unfolding build_chain
  build_chain-Built lower raw ps e = (
    dedupe-IsDistinct (entries lower raw) [] tt,
    (λ k. is_in-dedupe k (entries lower raw) [], built (entries lower raw) e),
  )
    where
      built :
          (ns : List Text)
          → elim ns [ [] ↦ err runtime_error | n ∷ ns ↦ build_all presets env (dedupe (n ∷ ns) []) ]
            ≡ ok ps
          → Built (dedupe ns []) ps
      built [] e = cc
      built (n ∷ ns) e = build_all-Built (dedupe (n ∷ ns) []) ps e
