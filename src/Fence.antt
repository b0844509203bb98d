-- ===== src/Fence.antt =====
-- shelldon/core/turn.py: core admits a Result only for the turn that is open. `_closed` (a set) and
-- `_closed_order` (a deque of at most `max_closed` ids) are two fields; the set is a list without
-- repeats, to which `add` appends.
pub mod Valid
pub mod Admission
pub mod Samples
use shelldon.Base.{
  ℕ, ◌++◌, Option, none, some, Bool, true, false, not, ◌&&◌, List, [], ◌∷◌, String, str_eq, length,
  drop, has, discard, ◌==◌, if◌then◌else◌,
}

pub record TurnFence : Type 0 where
  pub max_closed : ℕ
  pub current : Option String
  pub closed : List String
  pub closed_order : List String

unfoldable pub new_fence : ℕ → TurnFence
new_fence n = record { max_closed = n; current = none; closed = []; closed_order = [] }

-- `self.current == turn_id`
unfoldable pub is_current : Option String → String → Bool
is_current none t = false
is_current (some c) t = str_eq c t

-- `deque.append` with a `maxlen`: a full deque loses its oldest item.
unfoldable pub push_bounded : ℕ → String → List String → List String
push_bounded n t order = if length order == n then drop 1 order ++ t ∷ [] else order ++ t ∷ []

-- `_closed.discard(_closed_order[0])`
unfoldable pub forget_oldest : List String → List String → List String
forget_oldest [] closed = closed
forget_oldest (o ∷ os) closed = discard o closed

-- The deque holds at least one id: with a `maxlen` of 0 the source raises here.
unfoldable pub remember : String → TurnFence → TurnFence
unfolding push_bounded forget_oldest
remember t f = record f {
  closed =
      (if length f.closed_order == f.max_closed
        then forget_oldest f.closed_order f.closed
        else f.closed)
      ++ t ∷ [];
  closed_order = push_bounded f.max_closed t f.closed_order;
}

-- The current turn, if it is `t`, ends.
unfoldable pub end_current : String → TurnFence → TurnFence
unfolding is_current
end_current t f = record f { current = if is_current f.current t then none else f.current }

unfoldable pub close : String → TurnFence → TurnFence
unfolding end_current remember
close t f = if has t f.closed then end_current t f else remember t (end_current t f)

unfoldable pub supersede : Option String → String → TurnFence → TurnFence
unfolding close
supersede none t f = f
supersede (some c) t f = if str_eq c t then f else close c f

-- `open`: a different turn already open is superseded.
unfoldable pub open_turn : String → TurnFence → TurnFence
unfolding supersede
open_turn t f = record (supersede f.current t f) { current = some t }

unfoldable pub fence_is_idle : TurnFence → Bool
fence_is_idle f = elim f.current [ none ↦ true | some c ↦ false ]

-- `accept`, of the turn id that a Result's envelope carries.
unfoldable pub accept : Option String → TurnFence → Bool
unfolding is_current
accept none f = false
accept (some t) f = is_current f.current t && not (has t f.closed)

-- What the runtime does to the fence between two Results.
pub data Move : Type 0 where
  opens : String → Move
  closes : String → Move

unfoldable pub move : Move → TurnFence → TurnFence
unfolding open_turn close
move (opens t) f = open_turn t f
move (closes t) f = close t f

unfoldable pub moves : List Move → TurnFence → TurnFence
unfolding move
moves [] f = f
moves (m ∷ ms) f = moves ms (move m f)
