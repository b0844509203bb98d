-- ===== src/Runtime/Sound.antt =====
-- shelldon/core/runtime.py: whatever core is given and whatever fails, its guards agree after every
-- step.
use shelldon.Base.{ℕ, none, Bool, true, false, String, List, [], ◌∷◌, ◌≡◌, refl}
use shelldon.Base.Result.{Result, ok, err}
use shelldon.Runtime.{World, Core}
use shelldon.Runtime.Exec.{Exec}
use shelldon.Runtime.Coherent.{IsGood, IsInjective}
use shelldon.Runtime.Loop.{
  Input, inbound, decision, result_of, event_of, unexpected, timeout_of, turn_job, prune_job,
  checkpoint_job, reflex_job, Moment, Lifecycle, running, stopped, consume, on_body, after_mark,
  admit_text, at_moment, cleanup, after_consume, is_consumer, step, run, mark_interaction,
  is_approved, handle_nudge,
}
use shelldon.Runtime.Handlers.{
  IsSound, goes, raises, handle_result-IsSound, timeout_watch-IsGood, admit_text-IsGood,
  dispatch_turn_job-IsGood, decision-IsSound,
}

module _ {J B : Type 0} (w : World J B) (inj : IsInjective w.hex) where
  on_body-IsSound :
      (m : Exec J B (Unit {0})) (k : Core J B)
      → IsGood w.hex k.control
      → IsSound w.hex (on_body m k)
  unfolding on_body
  on_body-IsSound m k good = result_sound (m k.body).0 (record k { body = (m k.body).1 }) good
    where
      result_sound :
          (r : Result (Unit {0})) (k : Core J B) → IsGood w.hex k.control → IsSound w.hex (r, k)
      result_sound (ok u) k good = goes k good
      result_sound (err e) k good = raises e k

  after_mark-IsSound :
      (end : Result (Unit {0}) × Core J B) (next : Core J B → Result (Unit {0}) × Core J B)
      → IsSound w.hex end
      → ((k : Core J B) → IsGood w.hex k.control → IsSound w.hex (next k))
      → IsSound w.hex (after_mark end next)
  unfolding after_mark
  after_mark-IsSound (ok u, k) next (goes _ good) sound = sound k good
  after_mark-IsSound (err e, k) next (raises _ _) sound = raises e k

  -- An envelope of the inbox.
  consume-IsSound :
      (i : Input J B) (k : Core J B)
      → is_consumer i ≡ true
      → IsGood w.hex k.control
      → IsSound w.hex (consume w i k)
  unfolding consume is_consumer
  consume-IsSound (inbound text) k c good =
      after_mark-IsSound _ (λ k. (ok tt, admit_text w text k))
        (on_body-IsSound mark_interaction k good)
        (λ k good. goes (admit_text w text k) (admit_text-IsGood w inj text k good))
  consume-IsSound (decision turn_id approved) k c good =
      after_mark-IsSound _ _ (on_body-IsSound mark_interaction k good)
        (decision-IsSound w inj turn_id (is_approved approved))
  consume-IsSound (result_of turn_id r) k c good = handle_result-IsSound w inj turn_id r k good
  consume-IsSound (event_of e) k c good = on_body-IsSound (handle_nudge w k.control e) k good
  consume-IsSound unexpected k c good = goes k good
  consume-IsSound (timeout_of turn_id) k c good = cc
  consume-IsSound (turn_job j) k c good = cc
  consume-IsSound prune_job k c good = cc
  consume-IsSound checkpoint_job k c good = cc
  consume-IsSound (reflex_job patch) k c good = cc

  -- A timer.
  consume-IsGood :
      (i : Input J B) (k : Core J B)
      → is_consumer i ≡ false
      → IsGood w.hex k.control
      → IsGood w.hex (consume w i k).1.control
  unfolding consume is_consumer on_body
  consume-IsGood (inbound text) k c good = cc
  consume-IsGood (decision turn_id approved) k c good = cc
  consume-IsGood (result_of turn_id r) k c good = cc
  consume-IsGood (event_of e) k c good = cc
  consume-IsGood unexpected k c good = cc
  consume-IsGood (timeout_of turn_id) k c good = timeout_watch-IsGood w inj turn_id k good
  consume-IsGood (turn_job j) k c good = dispatch_turn_job-IsGood w inj j k good
  consume-IsGood prune_job k c good = good
  consume-IsGood checkpoint_job k c good = good
  consume-IsGood (reflex_job patch) k c good = good

-- A core that runs has guards that agree; one that has stopped has no timeout armed.
pub data IsSafe (hex : ℕ → String) {J B : Type 0} : Lifecycle J B → Type 0 where
  runs : (k : Core J B) → IsGood hex k.control → IsSafe hex (running k)
  ended : (k : Core J B) → k.control.timeout ≡ none → IsSafe hex (stopped k)

module _ {J B : Type 0} (w : World J B) (inj : IsInjective w.hex) where
  consumer-IsSafe :
      (end : Result (Unit {0}) × Core J B)
      → IsSound w.hex end
      → IsSafe w.hex (after_consume true end)
  unfolding after_consume cleanup
  consumer-IsSafe (ok u, k) (goes _ good) = runs k good
  consumer-IsSafe (err e, k) (raises _ _) = ended _ refl

  timer-IsSafe :
      (end : Result (Unit {0}) × Core J B)
      → IsGood w.hex end.1.control
      → IsSafe w.hex (after_consume false end)
  unfolding after_consume
  timer-IsSafe (ok u, k) good = runs k good
  timer-IsSafe (err e, k) good = runs k good

  input-IsSafe :
      (in_consumer : Bool) (i : Input J B) (k : Core J B)
      → is_consumer i ≡ in_consumer
      → IsGood w.hex k.control
      → IsSafe w.hex (after_consume in_consumer (consume w i k))
  input-IsSafe true i k c good = consumer-IsSafe _ (consume-IsSound w inj i k c good)
  input-IsSafe false i k c good = timer-IsSafe _ (consume-IsGood w inj i k c good)

  pub step-IsSafe :
      (s : Moment × Input J B) (p : Lifecycle J B) → IsSafe w.hex p → IsSafe w.hex (step w s p)
  unfolding step at_moment
  step-IsSafe (m, i) (stopped k) safe = safe
  step-IsSafe (m, i) (running k) (runs _ good) =
      input-IsSafe (is_consumer i) i (at_moment m k) refl good

  -- Whatever core is given, in any order, and whichever of its calls fail: as long as it runs, either
  -- no turn is open and no message waits, or the one open turn has its slot reserved and its timeout
  -- armed and its Result would be let in; and after a stop no timeout is armed. This rests on
  -- `uuid4` never repeating an id.
  pub run-IsSafe :
      (ss : List (Moment × Input J B)) (p : Lifecycle J B)
      → IsSafe w.hex p
      → IsSafe w.hex (run w ss p)
  unfolding run
  run-IsSafe [] p safe = safe
  run-IsSafe (s ∷ ss) p safe = run-IsSafe ss (step w s p) (step-IsSafe s p safe)
