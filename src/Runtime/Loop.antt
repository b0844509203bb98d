-- ===== src/Runtime/Loop.antt =====
-- shelldon/core/runtime.py: the consumer of core's inbox, the reflex jobs and the teardown, as steps.
-- A step takes one envelope, or lets one timer fire, with the clocks' readings and the fates of the
-- calls that the step makes.
use shelldon.Arbiter.{submit}
use shelldon.Base.{
  ℕ, ◌-◌, Option, none, some, Bool, true, false, ◌==◌, ltb, String, List, [], ◌∷◌, ◌++◌,
  if◌then◌else◌,
}
use shelldon.Base.Result.{Result, ok, err}
use shelldon.Base.Text.{Text}
use shelldon.Base.Time.{Instant, aware}
use shelldon.Parked.{prune_expired_approvals, prune_expired_promotions}
use shelldon.History.{Promotion}
use shelldon.Plugins.{EventKind, place}
use shelldon.Reactions.{MoodPatch, compute_nudge_patch}
use shelldon.Runtime.{World, Control, Core, WorkerResult}
use shelldon.Runtime.Approvals.{handle_approval_decision}
use shelldon.Runtime.Dispatch.{dispatch_turn_job}
use shelldon.Runtime.Exec.{Exec, done, modify, attempt, perhaps, ◌>>=◌, ◌>>◌}
use shelldon.Runtime.Ops.{sql}
use shelldon.Runtime.Screen.{maybe_push_mood_face}
use shelldon.Runtime.Tools.{discard_staged}
use shelldon.Runtime.Turns.{start_turn, handle_result, timeout_watch}
use shelldon.Scheduler.{Job}
use shelldon.State.{Item, mood_valence, mood_arousal, set_last_interaction, apply_patch}

-- What the timers do to the body alone: the prune job and the flush of the state, which is clean
-- when the write succeeds.
module _ {J B : Type 0} where
  unfoldable pub patch_state : List Item → Exec J B (Unit {0})
  patch_state items b = let end = apply_patch items b.state in (end.0, record b { state = end.1 })

  unfoldable pub mark_interaction : Exec J B (Unit {0})
  unfolding patch_state
  mark_interaction b = patch_state (set_last_interaction (some (aware b.now)) ∷ []) b

  -- `_run_reflex_job`; an empty patch changes nothing.
  unfoldable pub run_reflex_job : Control → List Item → Exec J B (Unit {0})
  unfolding patch_state maybe_push_mood_face
  run_reflex_job c patch = patch_state patch >> maybe_push_mood_face c

  unfoldable pub discard_all : List Promotion → Exec J B (Unit {0})
  unfolding discard_staged
  discard_all [] = done tt
  discard_all (p ∷ ps) = discard_staged p.tool_name >> discard_all ps

  unfoldable pub prune_promotions : Exec J B (List Promotion)
  unfolding perhaps
  prune_promotions = do
    perhaps
    λ b.
        let pruned = prune_expired_promotions b.now b.history in
        (ok pruned.1, record b { history = pruned.0 })

  unfoldable pub run_prune_job : Exec J B (Unit {0})
  unfolding sql prune_promotions discard_all
  run_prune_job = do
    λ b. sql (prune_expired_approvals b.now) b
    pruned ← prune_promotions
    discard_all pruned

  unfoldable pub checkpoint_if_dirty : Exec J B (Unit {0})
  unfolding perhaps
  checkpoint_if_dirty b =
      if b.state.dirty
      then (perhaps >> modify (λ d. record d { state = record d.state { dirty = false } })) b
      else (ok tt, b)

unfoldable pub items_of : MoodPatch → List Item
items_of p = valence_item p.valence ++ arousal_item p.arousal
  where
    valence_item : Option ℕ → List Item
    valence_item none = []
    valence_item (some v) = mood_valence v ∷ []

    arousal_item : Option ℕ → List Item
    arousal_item none = []
    arousal_item (some a) = mood_arousal a ∷ []

-- `_last_nudge.get(kind)`, and `_last_nudge[kind] = now`
unfoldable pub last_of : EventKind → List (EventKind × ℕ) → Option ℕ
last_of e [] = none
last_of e ((f, t) ∷ m) = if place f == place e then some t else last_of e m

unfoldable pub mark_of : EventKind → ℕ → List (EventKind × ℕ) → List (EventKind × ℕ)
mark_of e now [] = (e, now) ∷ []
mark_of e now ((f, t) ∷ m) = if place f == place e then (e, now) ∷ m else (f, t) ∷ mark_of e now m

-- `last is not None and now - last < cooldown`; the monotonic clock never goes back.
unfoldable pub is_recent : Option ℕ → ℕ → ℕ → Bool
is_recent none now cooldown = false
is_recent (some last) now cooldown = ltb (now - last) cooldown

module _ {J B : Type 0} where
  unfoldable pub nudge_with :
      World J B → Control → EventKind → Option MoodPatch → Exec J B (Unit {0})
  unfolding last_of mark_of is_recent patch_state items_of maybe_push_mood_face
  nudge_with w c e none b = (ok tt, b)
  nudge_with w c e (some p) b =
      if is_recent (last_of e b.last_nudge) b.monotonic w.nudge_cooldown
      then (ok tt, b)
      else (patch_state (items_of p) >> maybe_push_mood_face c)
          (record b { last_nudge = mark_of e b.monotonic b.last_nudge })

  unfoldable pub handle_nudge : World J B → Control → EventKind → Exec J B (Unit {0})
  unfolding nudge_with
  handle_nudge w c e b =
      nudge_with w c e (compute_nudge_patch e b.state.state.valence b.state.state.arousal) b

-- What core is given: an owner's message, an owner's decision, a Result, an event, a timer. The
-- reflex job comes with the patch that the drift of the mood computed.
pub data Input (Json Bytes : Type 0) : Type 0 where
  inbound : Text → Input Json Bytes
  decision : String → Option Bool → Input Json Bytes
  result_of : Option String → WorkerResult Json → Input Json Bytes
  event_of : EventKind → Input Json Bytes
  unexpected : Input Json Bytes
  timeout_of : String → Input Json Bytes
  turn_job : Job (Core Json Bytes) → Input Json Bytes
  prune_job checkpoint_job : Input Json Bytes
  reflex_job : List Item → Input Json Bytes

-- A decision that does not say which counts as a denial.
pub is_approved : Option Bool → Bool
is_approved none = false
is_approved (some d) = d

module _ {J B : Type 0} where
  unfoldable pub on_body : Exec J B (Unit {0}) → Core J B → Result (Unit {0}) × Core J B
  on_body m k = ((m k.body).0, record k { body = (m k.body).1 })

  unfoldable pub start_admitted : World J B → Option Text → Core J B → Core J B
  unfolding start_turn
  start_admitted w none k = k
  start_admitted w (some prompt) k = start_turn w prompt none k

  unfoldable pub admit_text : World J B → Text → Core J B → Core J B
  unfolding start_admitted submit
  admit_text w text k =
      start_admitted w (submit text k.control.arbiter).1
        (record k { control = record k.control { arbiter = (submit text k.control.arbiter).0 } })

  unfoldable pub after_mark :
      Result (Unit {0}) × Core J B
      → (Core J B → Result (Unit {0}) × Core J B)
      → Result (Unit {0}) × Core J B
  after_mark (err e, k) next = (err e, k)
  after_mark (ok u, k) next = next k

  -- One envelope of the inbox, or one timer: `_timeout_watch` and the jobs of the scheduler.
  unfoldable pub consume : World J B → Input J B → Core J B → Result (Unit {0}) × Core J B
  unfolding on_body admit_text after_mark is_approved mark_interaction handle_nudge handle_result
      timeout_watch dispatch_turn_job run_prune_job checkpoint_if_dirty run_reflex_job
      handle_approval_decision
  consume w (inbound text) k =
      after_mark (on_body mark_interaction k) (λ k. (ok tt, admit_text w text k))
  consume w (decision turn_id approved) k =
      after_mark (on_body mark_interaction k)
        (handle_approval_decision w turn_id (is_approved approved))
  consume w (result_of turn_id r) k = handle_result w turn_id r k
  consume w (event_of e) k = on_body (handle_nudge w k.control e) k
  consume w unexpected k = (ok tt, k)
  consume w (timeout_of turn_id) k = (ok tt, timeout_watch w turn_id k)
  consume w (turn_job j) k = dispatch_turn_job w j k
  consume w prune_job k = on_body run_prune_job k
  consume w checkpoint_job k = on_body checkpoint_if_dirty k
  consume w (reflex_job patch) k = on_body (run_reflex_job k.control patch) k

-- A raise in the consumer ends `run`; one in a job is logged by the scheduler, and a timeout that
-- fires raises nothing.
unfoldable pub is_consumer : {J B : Type 0} → Input J B → Bool
is_consumer (inbound text) = true
is_consumer (decision turn_id approved) = true
is_consumer (result_of turn_id r) = true
is_consumer (event_of e) = true
is_consumer unexpected = true
is_consumer (timeout_of turn_id) = false
is_consumer (turn_job j) = false
is_consumer prune_job = false
is_consumer checkpoint_job = false
is_consumer (reflex_job patch) = false

-- The clocks' readings and the calls' fates while a step runs.
pub record Moment : Type 0 where
  pub luck : List Bool
  pub now : Instant
  pub monotonic : ℕ

pub data Lifecycle (Json Bytes : Type 0) : Type 0 where
  running stopped : Core Json Bytes → Lifecycle Json Bytes

module _ {J B : Type 0} where
  unfoldable pub at_moment : Moment → Core J B → Core J B
  at_moment m k = record k {
    body = record k.body { luck = m.luck; now = m.now; monotonic = m.monotonic };
  }

  -- `_cleanup`: the tasks are cancelled, and a dirty state is flushed if that is possible.
  unfoldable pub cleanup : Core J B → Core J B
  unfolding checkpoint_if_dirty attempt
  cleanup k = record {
    control = record k.control { timeout = none; reaping = false };
    body = (attempt checkpoint_if_dirty k.body).1;
  }

  unfoldable pub after_consume : Bool → Result (Unit {0}) × Core J B → Lifecycle J B
  unfolding cleanup
  after_consume in_consumer (ok u, k) = running k
  after_consume true (err e, k) = stopped (cleanup k)
  after_consume false (err e, k) = running k

  unfoldable pub step : World J B → Moment × Input J B → Lifecycle J B → Lifecycle J B
  unfolding consume at_moment after_consume is_consumer
  step w (m, i) (stopped k) = stopped k
  step w (m, i) (running k) = after_consume (is_consumer i) (consume w i (at_moment m k))

  unfoldable pub run : World J B → List (Moment × Input J B) → Lifecycle J B → Lifecycle J B
  unfolding step
  run w [] p = p
  run w (s ∷ ss) p = run w ss (step w s p)
