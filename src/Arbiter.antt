-- ===== src/Arbiter.antt =====
-- shelldon/core/arbiter.py: the single in-flight slot and the single catch-up slot.
-- `worker_in_flight` and `_pending` are the fields; a method returns the new object and its result.
pub mod Valid
pub mod Coalescing
pub mod Samples
use shelldon.Base.{Option, none, some, Bool, true, false, not, List, [], ◌∷◌, ◌++◌}
use shelldon.Base.Text.{Text, join}

pub record Arbiter : Type 0 where
  pub worker_in_flight : Bool
  pub pending : List Text

unfoldable pub new_arbiter : Arbiter
new_arbiter = record { worker_in_flight = false; pending = [] }

unfoldable pub is_idle : Arbiter → Bool
is_idle a = not a.worker_in_flight

unfoldable pub submit_in : Bool → Text → Arbiter → Arbiter × Option Text
submit_in true text a = (record a { pending = a.pending ++ text ∷ [] }, none)
submit_in false text a = (record a { worker_in_flight = true }, some text)

unfoldable pub submit : Text → Arbiter → Arbiter × Option Text
unfolding submit_in
submit text a = submit_in a.worker_in_flight text a

abbrev pub newline : Text
newline = 10 ∷ []

unfoldable pub complete_in : List Text → Arbiter → Arbiter × Option Text
complete_in [] a = (record a { worker_in_flight = false }, none)
complete_in (t ∷ ts) a =
    (record { worker_in_flight = true; pending = [] }, some (join newline (t ∷ ts)))

unfoldable pub complete : Arbiter → Arbiter × Option Text
unfolding complete_in
complete a = complete_in a.pending a

unfoldable pub reset : Arbiter → Arbiter
reset a = record { worker_in_flight = false; pending = [] }

-- What the runtime does to the arbiter, as a schedule of calls.
pub data Call : Type 0 where
  submits : Text → Call
  completes : Call
  resets : Call

unfoldable pub call : Call → Arbiter → Arbiter × Option Text
unfolding submit complete reset
call (submits t) a = submit t a
call completes a = complete a
call resets a = (reset a, none)

-- The arbiter after a schedule, and the prompts that it told the runtime to start, in order.
consider : Option Text → List Text → List Text
consider none ps = ps
consider (some p) ps = p ∷ ps

unfoldable pub run : List Call → Arbiter → Arbiter × List Text
unfolding call consider
run [] a = (a, [])
run (c ∷ cs) a = let step = call c a in let rest = run cs step.0 in (rest.0, consider step.1 rest.1)
