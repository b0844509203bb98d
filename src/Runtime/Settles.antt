-- ===== src/Runtime/Settles.antt =====
-- shelldon/core/runtime.py: a decision resumes a turn only when none is in flight.
use shelldon.Base.{Option, none, some, Bool, true, false, String, List, ◌≡◌, refl, sym, ap, ◌∙◌}
use shelldon.Base.Result.{Result, ok, err}
use shelldon.Base.Text.{Text}
use shelldon.Broker.{ToolCall, Message}
use shelldon.Runtime.{World, Body}
use shelldon.Runtime.Approvals.{
  Verdict, settled, resumes, decide, say, settle, settle_promotion, after_promote, pop_promotion,
}
use shelldon.Runtime.Exec.{Exec, done, ◌>>=◌}
use shelldon.Runtime.Frame.{bind_result}
use shelldon.Runtime.Screen.{send_reply}
use shelldon.Runtime.Tools.{discard_staged, promote_staged}

-- Whether a decision ends in a resumed turn.
is_resume : {J : Type 0} → Result (Verdict J) → Bool
is_resume (ok (resumes ms tool_call)) = true
is_resume (ok settled) = false
is_resume (err e) = false

module _ {J B : Type 0} where
  abbrev Settles : Exec J B (Verdict J) → Type 0
  Settles m = (b : Body J B) → is_resume (m b).0 ≡ false

  then-Settles :
      {A : Type 0} (m : Exec J B A) (k : A → Exec J B (Verdict J))
      → ((a : A) → Settles (k a))
      → Settles (m >>= k)
  unfolding is_resume
  then-Settles m k settles = bind_result (λ r. is_resume r ≡ false) m k (λ e. refl) settles

  say-Settles : (text : Text) → Settles (say text)
  unfolding say is_resume
  say-Settles text = then-Settles (send_reply text none) (λ u. done settled) (λ u b. refl)

  promote-Settles : (name : String) (promoted : Bool) → Settles (after_promote name promoted)
  unfolding after_promote
  promote-Settles name true = say-Settles _
  promote-Settles name false = then-Settles (discard_staged name) _ (λ u. say-Settles _)

  promotion-Settles : (approved : Bool) (name : String) → Settles (settle_promotion approved name)
  unfolding settle_promotion
  promotion-Settles true name =
      then-Settles (promote_staged name) (after_promote name) (promote-Settles name)
  promotion-Settles false name = then-Settles (discard_staged name) _ (λ u. say-Settles _)

  busy-Settles :
      (w : World J B) (turn_id : String) (approved : Bool) (o : Option String)
      → Settles (settle w false turn_id approved o)
  unfolding settle
  busy-Settles w turn_id approved none = say-Settles _
  busy-Settles w turn_id approved (some name) = promotion-Settles approved name

  -- A turn is resumed only when none is in flight.
  pub decide_settles :
      (w : World J B) (idle : Bool) (turn_id : String) (approved : Bool) (b : Body J B)
      (ms : List (Message J)) (tool_call : ToolCall J)
      → (decide w idle turn_id approved b).0 ≡ ok (resumes ms tool_call)
      → idle ≡ true
  unfolding decide is_resume
  decide_settles w true turn_id approved b ms tool_call e = refl
  decide_settles w false turn_id approved b ms tool_call e =
      sym (
        then-Settles (pop_promotion turn_id) (settle w false turn_id approved)
          (busy-Settles w turn_id approved) b)
      ∙ ap is_resume e
