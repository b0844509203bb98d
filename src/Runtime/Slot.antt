-- ===== src/Runtime/Slot.antt =====
-- What core promises of its turns, as an abstract machine: one slot, that is free or holds one turn
-- with the messages that wait for it to end. A move of the slot forks the workers in its list.
-- The slot of shelldon/core/runtime.py is read off the fence and the arbiter.
use shelldon.Arbiter.{newline}
use shelldon.Base.{Option, none, some, Bool, true, false, String, List, [], ◌∷◌, ◌++◌}
use shelldon.Base.Text.{Text, join}
use shelldon.Runtime.{Control, Spawn, fresh_turn, resumed}
use shelldon.Runtime.Loop.{
  Lifecycle, running, stopped, Input, inbound, decision, result_of, event_of, unexpected,
  timeout_of, turn_job, prune_job, checkpoint_job, reflex_job,
}

pub data Slot : Type 0 where
  resting : Slot
  answering : String → List Text → Slot
  halted : Slot

-- The turn that a worker is forked for.
unfoldable pub turn_of : {J : Type 0} → Spawn J → String
turn_of (fresh_turn t prompt) = t
turn_of (resumed t messages tool_call approved) = t

-- What a step is given, as the slot sees it: a message, or anything else.
pub data Given : Type 0 where
  told : Text → Given
  untold : Given

unfoldable pub given : {J B : Type 0} → Input J B → Given
given (inbound text) = told text
given (decision turn_id approved) = untold
given (result_of turn_id r) = untold
given (event_of e) = untold
given unexpected = untold
given (timeout_of turn_id) = untold
given (turn_job j) = untold
given prune_job = untold
given checkpoint_job = untold
given (reflex_job patch) = untold

-- The moves, each with what was given and the workers that were to be forked, with whether they were.
-- A message is never passed over: it starts a turn, or its fork fails, or it waits behind the others;
-- else core halts or has halted. Messages that wait are given up only with the fork of their turn.
pub data Moves (J : Type 0) : Given → Slot → List (Bool × Spawn J) → Slot → Type 0 where
  stays : (s : Slot) → Moves J untold s [] s
  begins : (s : Spawn J) → Moves J untold resting ((true, s) ∷ []) (answering (turn_of s) [])
  misses : (s : Spawn J) → Moves J untold resting ((false, s) ∷ []) resting
  answers :
      (t : String) (m : Text)
      → Moves J (told m) resting ((true, fresh_turn t m) ∷ []) (answering t [])
  fails : (t : String) (m : Text) → Moves J (told m) resting ((false, fresh_turn t m) ∷ []) resting
  waits :
      (t : String) (ms : List Text) (m : Text)
      → Moves J (told m) (answering t ms) [] (answering t (ms ++ m ∷ []))
  ends : (t : String) → Moves J untold (answering t []) [] resting
  folds :
      (t u : String) (m : Text) (ms : List Text)
      → Moves J untold
          (answering t (m ∷ ms))
          ((true, fresh_turn u (join newline (m ∷ ms))) ∷ [])
          (answering u [])
  loses :
      (t u : String) (m : Text) (ms : List Text)
      → Moves J untold
          (answering t (m ∷ ms))
          ((false, fresh_turn u (join newline (m ∷ ms))) ∷ [])
          resting
  halts : (g : Given) (s : Slot) → Moves J g s [] halted

unfoldable pub slot_in : Option String → List Text → Slot
slot_in none ms = resting
slot_in (some t) ms = answering t ms

unfoldable pub slot_of : Control → Slot
unfolding slot_in
slot_of c = slot_in c.fence.current c.arbiter.pending

unfoldable pub slot : {J B : Type 0} → Lifecycle J B → Slot
unfolding slot_of
slot (running k) = slot_of k.control
slot (stopped k) = halted
