-- ===== src/Broker/Fallback.antt =====
-- Retry once, then the next provider: the first success wins.
use mathlib.Core.Bool.{false≢true}
use shelldon.Base.{
  Option, none, some, true, false, List, [], ◌∷◌, ◌++◌, ◌≡◌, refl, sym, ap, ◌∙◌, inl, inr, ◌⊎◌,
  any_pass, All, Bool-cases,
}
use shelldon.Base.Text.{Text, codes}
use shelldon.Broker.{
  Job, Completion, Outcome, returned, transient, permanent, unexpected, Provider, failure, ask,
  conclude, attempts, handle_job, advance, handle_job_chain,
}

module _ {J : Type 0} (job : Job J) where
  -- The provider answers `c` at its first attempt, or at the second after a transient error.
  abbrev pub Answers : Provider J → Completion J → Type 0
  Answers p c =
      (ask job p 1 ≡ returned c)
      ⊎ ((e : Text) × ((ask job p 1 ≡ transient e) × (ask job p 2 ≡ returned c)))

  last_bad : (last : Option Text) (p : Provider J) → (attempts 0 3 job p last).is_ok ≡ false
  unfolding attempts failure
  last_bad none p = refl
  last_bad (some []) p = refl
  last_bad (some (c ∷ cs)) p = refl

  conclude_ok :
      (o : Outcome (Completion J)) (k : Text → Completion J)
      → (conclude o k).is_ok ≡ true
      → (o ≡ returned (conclude o k))
        ⊎ ((e : Text) × ((o ≡ transient e)
              × (conclude o k ≡ k (codes "transient provider error: " ++ e))))
  unfolding conclude failure
  conclude_ok (returned c) k h = inl refl
  conclude_ok (transient e) k h = inr (e, (refl, refl))
  conclude_ok (permanent e) k h = cc
  conclude_ok (unexpected e) k h = cc

  second_try :
      (p : Provider J) (last : Option Text)
      → (attempts 1 2 job p last).is_ok ≡ true
      → ask job p 2 ≡ returned (attempts 1 2 job p last)
  unfolding attempts
  second_try p last h = elim (conclude_ok (ask job p 2) (λ e. attempts 0 3 job p (some e)) h) [
    | inl e ↦ e
    | inr (e, (at, same)) ↦ absurd (
        false≢true (
          sym (
            sym h
            ∙ ap (λ c. c.is_ok) same
            ∙ last_bad (some (codes "transient provider error: " ++ e)) p)))
  ]

  -- A provider's answer, at the first attempt or at the second after a transient error, is the
  -- result; and a result without an error is such an answer.
  pub handle_job-Answers :
      (p : Provider J)
      → ((c : Completion J) → Answers p c → handle_job job p ≡ c)
        × ((handle_job job p).is_ok ≡ true → Answers p (handle_job job p))
  unfolding handle_job attempts conclude
  handle_job-Answers p = (given, found)
    where
      given : (c : Completion J) → Answers p c → handle_job job p ≡ c
      given c (inl e) = rw e refl
      given c (inr (e, (first, next))) = rw (first, next) refl

      found : (handle_job job p).is_ok ≡ true → Answers p (handle_job job p)
      found h = elim (conclude_ok (ask job p 1) (λ e. attempts 1 2 job p (some e)) h) [
        | inl e ↦ inl e
        | inr (e, (at, same)) ↦ inr (
          e,
          (
            at,
            second_try p (some (codes "transient provider error: " ++ e))
                  (ap (λ c. c.is_ok) (sym same) ∙ h)
                ∙ ap returned (sym same),
          ),
        )
      ]

  advance_ok :
      (ps : List (Provider J)) (last : Completion J)
      → last.is_ok ≡ false
      → (advance job ps last).is_ok ≡ any_pass (λ p. (handle_job job p).is_ok) ps
  unfolding advance
  advance_ok [] last h = h
  advance_ok (p ∷ ps) last h = elim (Bool-cases (handle_job job p).is_ok) [
    | inl e ↦ rw e e
    | inr n ↦ rw n (advance_ok ps (handle_job job p) n)
  ]

  -- The chain answers exactly when one of its providers does.
  handle_job_chain_ok :
      (ps : List (Provider J))
      → (handle_job_chain job ps).is_ok ≡ any_pass (λ p. (handle_job job p).is_ok) ps
  unfolding handle_job_chain failure
  handle_job_chain_ok ps = advance_ok ps (failure (codes "empty provider chain")) refl

  abbrev pub Fails : List (Provider J) → Type 0
  Fails = All (λ p. (handle_job job p).is_ok ≡ false)

  advance_over :
      (bad : List (Provider J)) (p : Provider J) (rest : List (Provider J)) (last : Completion J)
      → Fails bad
      → ((handle_job job p).is_ok ≡ true) ⊎ (rest ≡ [])
      → advance job (bad ++ p ∷ rest) last ≡ handle_job job p
  unfolding advance
  advance_over [] p rest last f (inl e) = rw e refl
  advance_over [] p rest last f (inr e) =
      rw e (elim (Bool-cases (handle_job job p).is_ok) [ inl y ↦ rw y refl | inr n ↦ rw n refl ])
  advance_over (q ∷ bad) p rest last f w = rw f.0 (advance_over bad p rest (handle_job job q) f.1 w)

  -- After providers that fail, the first one that succeeds gives the completion, whatever stands
  -- behind it in the chain; when all fail, the last one's failure does.
  pub handle_job_chain-Fails :
      (bad : List (Provider J)) (p : Provider J) (rest : List (Provider J))
      → Fails bad
      → ((handle_job job p).is_ok ≡ true) ⊎ (rest ≡ [])
      → handle_job_chain job (bad ++ p ∷ rest) ≡ handle_job job p
  unfolding handle_job_chain
  handle_job_chain-Fails bad p rest f w =
      advance_over bad p rest (failure (codes "empty provider chain")) f w
