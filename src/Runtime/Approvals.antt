-- ===== src/Runtime/Approvals.antt =====
-- shelldon/core/runtime.py: the owner's decision on what is parked: a tool's promotion, a change of
-- the directive, or a risky call that a new worker resumes.
use shelldon.Arbiter.{submit, is_idle}
use shelldon.Base.{Option, none, some, Bool, true, false, not, String, List, ◌++◌, if◌then◌else◌}
use shelldon.Base.Result.{Result, ok, err}
use shelldon.Base.Text.{Text, codes, text_eq}
use shelldon.Broker.{ToolCall, Message}
use shelldon.Memory.{Tree, apply_rewrite_directive}
use shelldon.Parked.{take_promotion, take_approval}
use shelldon.Runtime.{World, Body, Control, Core}
use shelldon.Runtime.Exec.{Exec, done, raise, modify, draw, perhaps, ◌>>=◌, ◌>>◌}
use shelldon.Runtime.Screen.{send_reply}
use shelldon.Runtime.Tools.{discard_staged, promote_staged}
use shelldon.Runtime.Turns.{start_resume_turn}

-- What is left to do once the decision is settled in the body.
pub data Verdict (Json : Type 0) : Type 0 where
  settled : Verdict Json
  resumes : List (Message Json) → ToolCall Json → Verdict Json

unfoldable pub is_directive_call : {J : Type 0} → ToolCall J → Bool
is_directive_call tool_call = text_eq tool_call.name (codes "rewrite_directive")

module _ {J B : Type 0} where
  unfoldable pub pop_promotion : String → Exec J B (Option String)
  unfolding perhaps
  pop_promotion turn_id = do
    perhaps
    λ b.
        let taken = take_promotion turn_id b.now b.history in
        (ok taken.1, record b { history = taken.0 })

  unfoldable pub pop_approval : String → Exec J B (Option B)
  unfolding perhaps
  pop_approval turn_id = do
    perhaps
    λ b.
        let taken = take_approval turn_id b.now b.history in
        (ok taken.1, record b { history = taken.0 })

  unfoldable pub say : Text → Exec J B (Verdict J)
  unfolding send_reply
  say text = do send_reply text none; done settled

  unfoldable pub after_promote : String → Bool → Exec J B (Verdict J)
  unfolding say discard_staged
  after_promote name true = say (codes "`" ++ (codes name ++ codes "` is live."))
  after_promote name false = do
    discard_staged name
    say (codes "I couldn't add `" ++ (codes name ++ codes "`, sorry — it didn't promote."))

  unfoldable pub settle_promotion : Bool → String → Exec J B (Verdict J)
  unfolding after_promote promote_staged discard_staged say
  settle_promotion true name = promote_staged name >>= after_promote name
  settle_promotion false name = do
    discard_staged name
    say (codes "Okay, discarded `" ++ (codes name ++ codes "`."))

  unfoldable pub put_memory : Result Tree → Exec J B (Unit {0})
  put_memory (ok m) = modify (λ b. record b { memory = m })
  put_memory (err e) = raise e

  unfoldable pub write_directive : Result Text → Exec J B (Unit {0})
  unfolding put_memory draw
  write_directive (err e) = raise e
  write_directive (ok content) = do
    fails ← draw
    λ b. put_memory (apply_rewrite_directive (not fails) content b.memory) b

  unfoldable pub or_apologise : Result (Unit {0}) × Body J B → Result (Verdict J) × Body J B
  unfolding say
  or_apologise (ok u, b) = (ok settled, b)
  or_apologise (err e, b) = say (codes "I couldn't apply that directive change, sorry.") b

  unfoldable pub settle_directive : World J B → Bool → J → Exec J B (Verdict J)
  unfolding write_directive or_apologise say send_reply
  settle_directive w true args b = or_apologise (
      (write_directive (w.content_of args)
          >> send_reply (codes "Done — I updated your directive.") none)
        b)
  settle_directive w false args b = say (codes "Okay, I left your directive as-is.") b

  unfoldable pub settle_call :
      World J B → Bool → Option (List (Message J) × ToolCall J) → Exec J B (Verdict J)
  unfolding settle_directive say is_directive_call
  settle_call w approved none = say (codes "Sorry — I couldn't restore that pending action.")
  settle_call w approved (some (messages, tool_call)) =
      if is_directive_call tool_call
      then settle_directive w approved tool_call.args
      else done (resumes messages tool_call)

  unfoldable pub settle_approval : World J B → Bool → Option B → Exec J B (Verdict J)
  unfolding settle_call say
  settle_approval w approved none = say (codes "That approval expired or is no longer pending.")
  settle_approval w approved (some blob) = settle_call w approved (w.decode blob)

  unfoldable pub settle : World J B → Bool → String → Bool → Option String → Exec J B (Verdict J)
  unfolding settle_promotion settle_approval pop_approval say
  settle w idle turn_id approved (some name) = settle_promotion approved name
  settle w true turn_id approved none = pop_approval turn_id >>= settle_approval w approved
  settle w false turn_id approved none = say (codes "I'm mid-thought — tap that again in a moment.")

  -- The handler up to the resume: what it does in the body, `idle` being the arbiter's.
  unfoldable pub decide : World J B → Bool → String → Bool → Exec J B (Verdict J)
  unfolding settle pop_promotion
  decide w idle turn_id approved = pop_promotion turn_id >>= settle w idle turn_id approved

  -- The slot is reserved, and the resumed turn starts.
  unfoldable pub resume : World J B → Bool → List (Message J) → ToolCall J → Core J B → Core J B
  unfolding start_resume_turn
  resume w approved messages tool_call k =
      start_resume_turn w messages tool_call approved (record k {
        control = record k.control {
          arbiter = (submit (codes "[tool approval]") k.control.arbiter).0;
        };
      })

  unfoldable pub after_decide :
      World J B → Bool → Control → Result (Verdict J) × Body J B → Result (Unit {0}) × Core J B
  unfolding resume
  after_decide w approved c (err e, b) = (err e, record { control = c; body = b })
  after_decide w approved c (ok settled, b) = (ok tt, record { control = c; body = b })
  after_decide w approved c (ok (resumes messages tool_call), b) =
      (ok tt, resume w approved messages tool_call (record { control = c; body = b }))

  -- `_handle_approval_decision`
  unfoldable pub handle_approval_decision :
      World J B → String → Bool → Core J B → Result (Unit {0}) × Core J B
  unfolding decide after_decide
  handle_approval_decision w turn_id approved k =
      after_decide w approved k.control
        (decide w (is_idle k.control.arbiter) turn_id approved k.body)
