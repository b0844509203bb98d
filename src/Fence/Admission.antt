-- ===== src/Fence/Admission.antt =====
-- Which Results pass the fence.
use shelldon.Base.{
  ◌≡◌, refl, Option, none, some, true, false, List, [], ◌∷◌, String, has, str_eq, eq_iff, eq_refl,
  arith, Bool-cases, inl, inr, discard, length, ◌==◌,
}
use shelldon.Fence.{
  TurnFence, is_current, close, open_turn, supersede, remember, forget_oldest, end_current, accept,
  Move, opens, closes, moves,
}
use shelldon.Fence.Valid.{has-append}

-- No move of the list opens `t`.
abbrev pub NeverOpens : String → List Move → Type 0
NeverOpens t [] = Unit
NeverOpens t (opens u ∷ ms) = (str_eq u t ≡ false) × NeverOpens t ms
NeverOpens t (closes u ∷ ms) = NeverOpens t ms

close_not_current : (t : String) (f : TurnFence) → is_current (close t f).current t ≡ false
unfolding close is_current remember
close_not_current t f = ground (arith)

close_keeps_not_current :
    (t u : String) (f : TurnFence)
    → is_current f.current t ≡ false
    → is_current (close u f).current t ≡ false
unfolding close is_current remember
close_keeps_not_current t u f h = ground arith

open_not_current :
    (t u : String) (f : TurnFence)
    → str_eq u t ≡ false
    → is_current (open_turn u f).current t ≡ false
unfolding open_turn is_current
open_not_current t u f h = h

moves_not_current :
    (t : String) (ms : List Move) (f : TurnFence)
    → NeverOpens t ms
    → is_current f.current t ≡ false
    → is_current (moves ms f).current t ≡ false
unfolding moves
moves_not_current t [] f n h = h
moves_not_current t (opens u ∷ ms) f n h =
    moves_not_current t ms (open_turn u f) n.1 (open_not_current t u f n.0)
moves_not_current t (closes u ∷ ms) f n h =
    moves_not_current t ms (close u f) n (close_keeps_not_current t u f h)

-- A closed turn's Result is discarded from then on, whatever other turns are opened and closed in
-- between, as long as that turn is not opened again.
pub accept-close :
    (t : String) (ms : List Move) (f : TurnFence)
    → NeverOpens t ms
    → accept (some t) (moves ms (close t f)) ≡ false
unfolding accept
accept-close t ms f n = rw (moves_not_current t ms (close t f) n (close_not_current t f))

-- Opening a turn supersedes the one that was open: its Result is discarded, until it is opened again.
pub accept-superseded :
    (t u : String) (ms : List Move) (f : TurnFence)
    → str_eq u t ≡ false
    → NeverOpens t ms
    → accept (some t) (moves ms (open_turn u f)) ≡ false
unfolding accept
accept-superseded t u ms f e n =
    rw (moves_not_current t ms (open_turn u f) n (open_not_current t u f e))

has-discard : (t k : String) (xs : List String) → has t xs ≡ false → has t (discard k xs) ≡ false
has-discard t k [] h = refl
has-discard t k (x ∷ xs) h = ground (arith, has-discard t k xs)

has-forget_oldest :
    (t : String) (os xs : List String) → has t xs ≡ false → has t (forget_oldest os xs) ≡ false
unfolding forget_oldest
has-forget_oldest t [] xs h = h
has-forget_oldest t (o ∷ os) xs h = has-discard t o xs h

remember_keeps_fresh :
    (t u : String) (f : TurnFence)
    → str_eq u t ≡ false
    → has t f.closed ≡ false
    → has t (remember u f).closed ≡ false
unfolding remember
remember_keeps_fresh t u f e h = elim (Bool-cases (length f.closed_order == f.max_closed)) [
  | inl full ↦ rw (
    full,
    has-append t (forget_oldest f.closed_order f.closed) (u ∷ []),
    has-forget_oldest t f.closed_order f.closed h,
    e,
  )
  | inr free ↦ rw (free, has-append t f.closed (u ∷ []), h, e)
]

close_keeps_fresh :
    (t u : String) (f : TurnFence)
    → str_eq u t ≡ false
    → has t f.closed ≡ false
    → has t (close u f).closed ≡ false
unfolding close
close_keeps_fresh t u f e h = elim (Bool-cases (has u f.closed)) [
  | inl known ↦ rw known h
  | inr fresh ↦ rw fresh (remember_keeps_fresh t u (end_current u f) e h)
]

supersede_keeps_fresh :
    (o : Option String) (t : String) (f : TurnFence)
    → has t f.closed ≡ false
    → has t (supersede o t f).closed ≡ false
unfolding supersede
supersede_keeps_fresh none t f h = h
supersede_keeps_fresh (some c) t f h = elim (Bool-cases (str_eq c t)) [
  | inl e ↦ rw e h
  | inr e ↦ rw e (close_keeps_fresh t c f e h)
]

-- A turn whose id is not among the closed ones is accepted once it is open, and no other id is.
pub accept-open_turn :
    (t : String) (f : TurnFence)
    → has t f.closed ≡ false
    → (accept (some t) (open_turn t f) ≡ true)
      × ((u : String) → accept (some u) (open_turn t f) ≡ true → t ≡ u)
unfolding accept open_turn
accept-open_turn t f h =
    (rw (eq_refl t, supersede_keeps_fresh f.current t f h), λ u e. ground (arith, eq_iff t u))

close_known :
    (t : String) (f : TurnFence)
    → has t f.closed ≡ true
    → is_current f.current t ≡ false
    → close t f ≡ f
unfolding close
close_known t f h c = rw (h, c)

remember_knows : (t : String) (f : TurnFence) → has t (remember t f).closed ≡ true
unfolding remember
remember_knows t f = rw (has-append t _ (t ∷ []), eq_refl t) (ground arith)

close_knows : (t : String) (f : TurnFence) → has t (close t f).closed ≡ true
unfolding close
close_knows t f = elim (Bool-cases (has t f.closed)) [
  | inl known ↦ rw known known
  | inr fresh ↦ rw fresh (remember_knows t (end_current t f))
]

-- Closing a turn twice is closing it once.
pub close_idem : (t : String) (f : TurnFence) → close t (close t f) ≡ close t f
close_idem t f = close_known t (close t f) (close_knows t f) (close_not_current t f)
