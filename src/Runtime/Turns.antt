-- ===== src/Runtime/Turns.antt =====
-- shelldon/core/runtime.py: how a turn starts, and how a Result or a timeout ends it. The reap that a
-- turn's end awaits guards itself, so that it never raises.
use shelldon.Arbiter.{complete, reset}
use shelldon.Base.{
  suc, Option, none, some, Bool, true, false, not, ◌&&◌, ◌||◌, String, List, [], ◌∷◌, ◌++◌, take,
  any_pass, is_some, if◌then◌else◌,
}
use shelldon.Base.Result.{Result, ok, err}
use shelldon.Base.Text.{Text, codes, strip, is_blank}
use shelldon.Broker.{ToolCall, Message}
use shelldon.Fence.{open_turn, close, accept, is_current}
use shelldon.Plugins.{message_answered}
use shelldon.Runtime.{
  World, Body, Control, Core, ProposedOp, memory_op, add_face_op, capture_learning_op,
  resolve_learning_op, request_tool_approval, propose_tool, rewrite_directive, WorkerResult, Spawn,
  fresh_turn, resumed, face_thinking, reaction_dwell, max_proposed_ops,
}
use shelldon.Runtime.Exec.{Exec, done, attempt, perhaps, ◌>>◌}
use shelldon.Runtime.Ops.{apply_proposed_ops}
use shelldon.Runtime.Screen.{
  send_reply, emit_event, push_face, push_caption, reaction_face, caption_for, degrade,
  record_current,
}
use shelldon.Runtime.Tools.{handle_propose_tool, handle_tool_failures}

-- The stashes of a new turn, and the fence opened for it.
unfoldable pub begin : String → Text → Bool → Control → Control
begin turn_id owner_side is_owner c = record c {
  fence = open_turn turn_id c.fence;
  current_prompt = some owner_side;
  current_turn_id = some turn_id;
  is_owner = is_owner;
  minted = suc c.minted;
}

-- The worker runs: its reap is scheduled and the timeout armed. Or the fork failed: both guards are
-- released.
unfoldable pub after_spawn : String → Result (Unit {0}) → Control → Control
after_spawn turn_id (ok u) c = record c { reaping = true; timeout = some turn_id }
after_spawn turn_id (err e) c = record c {
  fence = close turn_id c.fence;
  arbiter = reset c.arbiter;
}

unfoldable pub owner_side_of : Text → Option Text → Text
owner_side_of prompt none = prompt
owner_side_of prompt (some marker) = marker

abbrev pub is_ok {ℓ} : {A : Type ℓ} → Result A → Bool
is_ok (ok a) = true
is_ok (err e) = false

module _ {J B : Type 0} where
  -- The thinking face, guarded, the caption, and then the fork.
  unfoldable pub fork : Exec J B (Unit {0})
  unfolding attempt push_face push_caption perhaps
  fork = do attempt (push_face face_thinking); push_caption (codes "…") 0; perhaps

  -- What was to be forked is noted, with whether it was.
  unfoldable pub launch : Spawn J → Exec J B (Unit {0})
  unfolding fork
  launch s b =
      let end = fork b in (end.0, record end.1 { spawned = end.1.spawned ++ (is_ok end.0, s) ∷ [] })

  unfoldable pub begin_with : String → Spawn J → Text → Bool → Core J B → Core J B
  unfolding begin launch after_spawn
  begin_with turn_id s owner_side is_owner k =
      let end = launch s k.body in
      record {
        control = after_spawn turn_id end.0 (begin turn_id owner_side is_owner k.control);
        body = end.1;
      }

  unfoldable pub start_turn : World J B → Text → Option Text → Core J B → Core J B
  unfolding begin_with owner_side_of
  start_turn w prompt record_owner_text k =
      let t = w.hex k.control.minted in
      begin_with t (fresh_turn t prompt) (owner_side_of prompt record_owner_text)
        (not (is_some record_owner_text)) k

  unfoldable pub start_resume_turn :
      World J B → List (Message J) → ToolCall J → Bool → Core J B → Core J B
  unfolding begin_with
  start_resume_turn w messages tool_call approved k =
      let t = w.hex k.control.minted in
      begin_with t (resumed t messages tool_call approved) (codes "[resumed after tool approval]")
        true k

  unfoldable pub start_folded : World J B → Option Text → Core J B → Core J B
  unfolding start_turn
  start_folded w none k = k
  start_folded w (some prompt) k = start_turn w prompt none k

is_approval : {J : Type 0} → ProposedOp J → Bool
is_approval (request_tool_approval tool_call summary messages) = true
is_approval (memory_op op) = false
is_approval (add_face_op f replace) = false
is_approval (capture_learning_op observation key) = false
is_approval (resolve_learning_op n s) = false
is_approval (propose_tool name source test) = false
is_approval (rewrite_directive content) = false

is_directive : {J : Type 0} → ProposedOp J → Bool
is_directive (rewrite_directive content) = true
is_directive (request_tool_approval tool_call summary messages) = false
is_directive (memory_op op) = false
is_directive (add_face_op f replace) = false
is_directive (capture_learning_op observation key) = false
is_directive (resolve_learning_op n s) = false
is_directive (propose_tool name source test) = false

unfoldable pub needs_approval : {J : Type 0} → Bool → List (ProposedOp J) → Bool
unfolding is_approval is_directive
needs_approval is_owner ops = any_pass is_approval ops || (any_pass is_directive ops && is_owner)

module _ {J B : Type 0} where
  unfoldable pub deliver_answer :
      World J B → Control → String → WorkerResult J → Exec J B (Unit {0})
  unfolding send_reply push_face push_caption reaction_face caption_for needs_approval
  deliver_answer w c turn_id r = do
    send_reply r.payload (if needs_approval c.is_owner r.proposed_ops then some turn_id else none)
    push_face (reaction_face w.lower r.face)
    push_caption (if is_blank r.blurb then caption_for r.payload else caption_for (strip r.blurb))
        reaction_dwell

  -- The guarded delivery: the reply with its face and caption, or the apology.
  unfoldable pub deliver_result :
      World J B → Control → String → WorkerResult J → Exec J B (Unit {0})
  unfolding deliver_answer degrade attempt
  deliver_result w c turn_id r =
      attempt (if r.is_ok then deliver_answer w c turn_id r else degrade c)

  -- The first proposed tool among the operations within the cap.
  unfoldable pub propose_first : World J B → String → List (ProposedOp J) → Exec J B (Unit {0})
  unfolding handle_propose_tool
  propose_first w t [] = done tt
  propose_first w t (propose_tool name source test ∷ ops) = handle_propose_tool w t name source test
  propose_first w t (memory_op op ∷ ops) = propose_first w t ops
  propose_first w t (add_face_op f replace ∷ ops) = propose_first w t ops
  propose_first w t (capture_learning_op observation key ∷ ops) = propose_first w t ops
  propose_first w t (resolve_learning_op n s ∷ ops) = propose_first w t ops
  propose_first w t (request_tool_approval tool_call summary messages ∷ ops) = propose_first w t ops
  propose_first w t (rewrite_directive content ∷ ops) = propose_first w t ops

  unfoldable pub learn : World J B → Control → String → WorkerResult J → Exec J B (Unit {0})
  unfolding apply_proposed_ops record_current propose_first
  learn w c turn_id r = do
    apply_proposed_ops w c r.proposed_ops
    record_current c r.payload
    propose_first w turn_id (take max_proposed_ops r.proposed_ops)

  -- All that happens in the body before the slot is released.
  unfoldable pub digest : World J B → Control → String → WorkerResult J → Exec J B (Unit {0})
  unfolding deliver_result learn handle_tool_failures
  digest w c turn_id r = do
    deliver_result w c turn_id r
    if r.is_ok then learn w c turn_id r else done tt
    handle_tool_failures r.tool_failures

-- The turn ends for the fence, and its timeout is disarmed.
unfoldable pub end_turn : String → Control → Control
end_turn turn_id c = record c { timeout = none; fence = close turn_id c.fence }

-- The reap is over, and the slot is released.
unfoldable pub release : Control → Control
release c = record c { reaping = false; arbiter = (complete c.arbiter).0 }

module _ {J B : Type 0} where
  unfoldable pub announce : WorkerResult J → Exec J B (Unit {0})
  unfolding emit_event
  announce r = if r.is_ok then emit_event message_answered else done tt

  -- A raise in the digest escapes before the slot is released.
  unfoldable pub after_digest :
      World J B
      → Control
      → WorkerResult J
      → Result (Unit {0}) × Body J B
      → Result (Unit {0}) × Core J B
  unfolding release announce start_folded
  after_digest w c r (err e, b) = (err e, record { control = c; body = b })
  after_digest w c r (ok u, b) = (
    ok tt,
    start_folded w (complete c.arbiter).1 (record { control = release c; body = (announce r b).1 }),
  )

  unfoldable pub handle_accepted :
      World J B → String → WorkerResult J → Core J B → Result (Unit {0}) × Core J B
  unfolding digest after_digest end_turn
  handle_accepted w turn_id r k =
      after_digest w (end_turn turn_id k.control) r (digest w k.control turn_id r k.body)

  unfoldable pub handle_from :
      Bool → World J B → Option String → WorkerResult J → Core J B → Result (Unit {0}) × Core J B
  unfolding handle_accepted
  handle_from admitted w none r k = (ok tt, k)
  handle_from false w (some t) r k = (ok tt, k)
  handle_from true w (some t) r k = handle_accepted w t r k

  -- `_handle_result`, of the turn id that the envelope carries
  unfoldable pub handle_result :
      World J B → Option String → WorkerResult J → Core J B → Result (Unit {0}) × Core J B
  unfolding handle_from
  handle_result w turn_id r k = handle_from (accept turn_id k.control.fence) w turn_id r k

  unfoldable pub time_out : World J B → String → Core J B → Core J B
  unfolding degrade attempt release start_folded end_turn
  time_out w turn_id k =
      let c = end_turn turn_id k.control in
      start_folded w (complete c.arbiter).1
        (record { control = release c; body = (attempt (degrade k.control) k.body).1 })

  -- `_timeout_watch`, when its time is up
  unfoldable pub timeout_watch : World J B → String → Core J B → Core J B
  unfolding time_out
  timeout_watch w turn_id k =
      if is_current k.control.fence.current turn_id then time_out w turn_id k else k
