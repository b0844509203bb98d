-- ===== src/Fence/Valid.antt =====
-- The fence's invariant: the set of closed ids and the deque of closed ids hold the same ids, none
-- twice, and at most `max_closed` of them.
use shelldon.Base.{
  ℕ, ◌≤◌, ◌<◌, ◌≡◌, refl, Option, none, some, false, List, [], ◌∷◌, ◌++◌, String, length,
  length-append, drop, has, str_eq, eq_iff, eq_refl, arith, Bool-cases, inl, inr, ◌==◌, ◌||◌,
}
use shelldon.Fence.{
  TurnFence, new_fence, close, open_turn, supersede, remember, push_bounded, forget_oldest,
  end_current, Move, opens, closes, moves,
}

-- No id stands twice.
abbrev pub IsDistinct : List String → Type 0
IsDistinct [] = Unit
IsDistinct (t ∷ ts) = (has t ts ≡ false) × IsDistinct ts

pub record IsValid (f : TurnFence) : Type 0 where
  pub same : f.closed ≡ f.closed_order
  pub distinct : IsDistinct f.closed_order
  pub bounded : length f.closed_order ≤ f.max_closed
  pub room : 0 < f.max_closed

pub has-append : (t : String) (xs ys : List String) → has t (xs ++ ys) ≡ (has t xs || has t ys)
has-append t [] ys = refl
has-append t (x ∷ xs) ys = ground (arith, has-append t xs ys)

IsDistinct-snoc :
    (t : String) (xs : List String) → IsDistinct xs → has t xs ≡ false → IsDistinct (xs ++ t ∷ [])
IsDistinct-snoc t [] d h = (refl, tt)
IsDistinct-snoc t (x ∷ xs) d h = (
  ground (arith, has-append x xs (t ∷ []), eq_iff x t, eq_iff t x, d.0),
  IsDistinct-snoc t xs d.1 (ground arith),
)

-- Dropping the oldest of a full history.
forget_oldest_self : (xs : List String) → forget_oldest xs xs ≡ drop 1 xs
unfolding forget_oldest
forget_oldest_self [] = refl
forget_oldest_self (x ∷ xs) = rw (eq_refl x)

IsDistinct-drop : (xs : List String) → IsDistinct xs → IsDistinct (drop 1 xs)
IsDistinct-drop [] d = tt
IsDistinct-drop (x ∷ xs) d = d.1

has-drop : (t : String) (xs : List String) → has t xs ≡ false → has t (drop 1 xs) ≡ false
has-drop t [] h = refl
has-drop t (x ∷ xs) h = ground arith

remember_max : (t : String) (f : TurnFence) → (remember t f).max_closed ≡ f.max_closed
unfolding remember
remember_max t f = refl

length-push :
    (n : ℕ) (t : String) (xs : List String)
    → 0 < n
    → length xs ≤ n
    → length (push_bounded n t xs) ≤ n
unfolding push_bounded
length-push n t [] p b = ground arith
length-push n t (x ∷ xs) p b = ground (arith, length-append xs (t ∷ []))

remember-same :
    (t : String) (f : TurnFence)
    → f.closed ≡ f.closed_order
    → (remember t f).closed ≡ (remember t f).closed_order
unfolding remember
remember-same t f s = rw s (ground (arith, forget_oldest_self f.closed_order))

IsDistinct-push :
    (n : ℕ) (t : String) (xs : List String)
    → IsDistinct xs
    → has t xs ≡ false
    → IsDistinct (push_bounded n t xs)
unfolding push_bounded
IsDistinct-push n t xs d h = elim (Bool-cases (length xs == n)) [
  | inl full ↦ rw full (IsDistinct-snoc t (drop 1 xs) (IsDistinct-drop xs d) (has-drop t xs h))
  | inr free ↦ rw free (IsDistinct-snoc t xs d h)
]

remember-IsValid :
    (t : String) (f : TurnFence) → IsValid f → has t f.closed ≡ false → IsValid (remember t f)
unfolding remember
remember-IsValid t f v h = record {
  same = remember-same t f v.same;
  distinct = IsDistinct-push f.max_closed t f.closed_order v.distinct (rw (← v.same) h);
  bounded = length-push f.max_closed t f.closed_order v.room v.bounded;
  room = v.room;
}

pub close-IsValid : (t : String) (f : TurnFence) → IsValid f → IsValid (close t f)
unfolding close
close-IsValid t f v = elim (Bool-cases (has t f.closed)) [
  | inl known ↦
      rw known (record { same = v.same; distinct = v.distinct; bounded = v.bounded; room = v.room })
  | inr fresh ↦ rw fresh (
      remember-IsValid t (end_current t f)
        (record { same = v.same; distinct = v.distinct; bounded = v.bounded; room = v.room }) fresh)
]

supersede-IsValid :
    (o : Option String) (t : String) (f : TurnFence) → IsValid f → IsValid (supersede o t f)
unfolding supersede
supersede-IsValid none t f v = v
supersede-IsValid (some c) t f v = elim (Bool-cases (str_eq c t)) [
  | inl e ↦ rw e v
  | inr e ↦ rw e (close-IsValid c f v)
]

pub open_turn-IsValid : (t : String) (f : TurnFence) → IsValid f → IsValid (open_turn t f)
unfolding open_turn
open_turn-IsValid t f v =
    let w = supersede-IsValid f.current t f v in
    record { same = w.same; distinct = w.distinct; bounded = w.bounded; room = w.room }

-- Whatever turns are opened and closed, the two histories agree, no id stands twice in them, and
-- they never outgrow `max_closed`.
pub moves-IsValid : (ms : List Move) (f : TurnFence) → IsValid f → IsValid (moves ms f)
unfolding moves
moves-IsValid [] f v = v
moves-IsValid (opens t ∷ ms) f v = moves-IsValid ms _ (open_turn-IsValid t f v)
moves-IsValid (closes t ∷ ms) f v = moves-IsValid ms _ (close-IsValid t f v)

pub IsValid-new_fence : (n : ℕ) → 0 < n → IsValid (new_fence n)
unfolding new_fence
IsValid-new_fence n p = record { same = refl; distinct = tt; bounded = omega arith; room = p }
