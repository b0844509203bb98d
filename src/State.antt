-- ===== src/State.antt =====
-- shelldon/core/state.py: the personality state, its sparse patches and its checkpoint. A float is a
-- natural number of thousandths above -10.0, as for the faces. The JSON codec is msgspec's: a
-- checkpoint that can be decoded is the state that was encoded, any other is `unusable`.
pub mod Saved
pub mod Samples
use shelldon.Base.{
  ℕ, Option, none, some, Bool, true, false, not, ◌&&◌, ◌||◌, String, List, [], ◌∷◌, if◌then◌else◌,
}
use shelldon.Base.Result.{Result, ok, err, key_error, os_error}
use shelldon.Base.Time.{Instant, Stamp, aware}
use shelldon.Budget.{TurnBudget, new_ledger}
use shelldon.Faces.{nought}

pub record PersonalityState : Type 0 where
  pub valence : ℕ
  pub arousal : ℕ
  pub energy : ℕ
  pub last_interaction : Option Stamp
  pub budget : TurnBudget

unfoldable pub new_personality : PersonalityState
unfolding new_ledger
new_personality = record {
  valence = nought;
  arousal = nought;
  energy = 10_500;
  last_interaction = none;
  budget = new_ledger;
}

-- One item of a patch: a writable path with a value of its type, or a path outside the closed set.
pub data Item : Type 0 where
  mood_valence mood_arousal set_energy : ℕ → Item
  set_last_interaction : Option Stamp → Item
  budget_date : Option ℕ → Item
  budget_turns_used : ℕ → Item
  budget_last_turn_at : Option Stamp → Item
  unknown_path : String → Item

unfoldable pub is_writable : Item → Bool
is_writable (mood_valence x) = true
is_writable (mood_arousal x) = true
is_writable (set_energy x) = true
is_writable (set_last_interaction t) = true
is_writable (budget_date d) = true
is_writable (budget_turns_used n) = true
is_writable (budget_last_turn_at t) = true
is_writable (unknown_path p) = false

-- `setattr`
unfoldable pub assign : Item → PersonalityState → PersonalityState
assign (mood_valence x) s = record s { valence = x }
assign (mood_arousal x) s = record s { arousal = x }
assign (set_energy x) s = record s { energy = x }
assign (set_last_interaction t) s = record s { last_interaction = t }
assign (budget_date d) s = record s { budget = record s.budget { date = d } }
assign (budget_turns_used n) s = record s { budget = record s.budget { turns_used = n } }
assign (budget_last_turn_at t) s = record s { budget = record s.budget { last_turn_at = t } }
assign (unknown_path p) s = s

unfoldable pub assign_all : List Item → PersonalityState → PersonalityState
unfolding assign
assign_all [] s = s
assign_all (i ∷ is) s = assign_all is (assign i s)

unfoldable pub all_writable : List Item → Bool
unfolding is_writable
all_writable [] = true
all_writable (i ∷ is) = is_writable i && all_writable is

pub record PersistentState : Type 0 where
  pub state : PersonalityState
  pub dirty : Bool

is_patch : List Item → Bool
is_patch [] = false
is_patch (i ∷ is) = true

-- The end of a patch, and the state that it leaves.
unfoldable pub apply_patch : List Item → PersistentState → Result (Unit {0}) × PersistentState
unfolding all_writable assign_all is_patch
apply_patch patch p =
    if all_writable patch
    then (ok tt, record { state = assign_all patch p.state; dirty = is_patch patch || p.dirty })
    else (err key_error, p)

-- The checkpoint's file.
pub data Checkpoint : Type 0 where
  absent unusable_file : Checkpoint
  saved : PersonalityState → Checkpoint

unfoldable pub restore : Checkpoint → PersonalityState
unfolding new_personality
restore absent = new_personality
restore unusable_file = new_personality
restore (saved s) = s

unfoldable pub load_state : Checkpoint → PersistentState
unfolding restore
load_state file = record { state = restore file; dirty = false }

-- The atomic write, which may raise, but then before the file is replaced.
unfoldable pub checkpoint :
    Bool → PersistentState → Checkpoint → Result (Unit {0}) × (PersistentState × Checkpoint)
checkpoint true p file = (ok tt, (record p { dirty = false }, saved p.state))
checkpoint false p file = (err os_error, (p, file))
