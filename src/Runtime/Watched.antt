-- ===== src/Runtime/Watched.antt =====
-- shelldon/core/runtime.py: the statements of a turn fork no worker and leave the directive alone.
use shelldon.Base.{
  Option, none, some, Bool, true, false, not, String, List, [], ◌∷◌, ◌≡◌, refl, ap, ◌∙◌, ◌&&◌, ltb,
  suc, ℕ, if◌then◌else◌,
}
use shelldon.Base.Result.{Result, ok, err}
use shelldon.Base.Text.{Text, codes, is_blank}
use shelldon.Faces.{Face, add_face, select_face}
use shelldon.Display.{face, caption}
use shelldon.Fence.{fence_is_idle}
use shelldon.Arbiter.{is_idle}
use shelldon.History.{HistoryStore, capture_learning, resolve_learning, record_turn}
use shelldon.Memory.{MemoryOp, Tree, read_file, directive_name, apply_memory_op}
use shelldon.Memory.Reach.{kept, apply_all, All-protected}
use shelldon.Parked.{park_approval, default_ttl}
use shelldon.Plugins.{EventKind}
use shelldon.Runtime.{
  World, Body, Control, ProposedOp, memory_op, add_face_op, capture_learning_op,
  resolve_learning_op, request_tool_approval, propose_tool, rewrite_directive, Sent, outbound,
  snapshot, broadcast, face_degraded, degrade_text, reaction_dwell,
}
use shelldon.Runtime.Exec.{◌>>◌, done, modify, perhaps}
use shelldon.Runtime.Frame.{
  watched, Stays, bind-Stays, attempt-Stays, draw-Stays, if_Stays, perhaps_then-Stays,
}
use shelldon.Runtime.Ops.{
  set_memory, set_faces, sql, run_memory_op, run_add_face, park_under, park_first, apply_op,
  parked_after, apply_ops,
}
use shelldon.Runtime.Screen.{
  deliver, send_reply, emit_event, push_face, hold, show_caption, push_caption, is_shown, record_as,
  record_current, degrade, caption_for, show_mood, mood_of, maybe_push_mood_face,
}

module _ {J B : Type 0} where
  deliver-Stays : (s : Sent) → Stays {J = J} {B = B} (deliver s)
  unfolding deliver
  deliver-Stays s = perhaps_then-Stays _ (λ b. refl)

  pub send_reply-Stays :
      (text : Text) (o : Option String) → Stays {J = J} {B = B} (send_reply text o)
  unfolding send_reply
  send_reply-Stays text o = deliver-Stays (outbound text o)

  pub emit_event-Stays : (e : EventKind) → Stays {J = J} {B = B} (emit_event e)
  unfolding emit_event
  emit_event-Stays e = attempt-Stays (deliver (broadcast e)) (deliver-Stays (broadcast e))

  pub push_face-Stays : (token : Text) → Stays {J = J} {B = B} (push_face token)
  unfolding push_face
  push_face-Stays token b = deliver-Stays (snapshot face (suc b.seq) token) _

  show_caption-Stays : (same : Bool) (text : Text) → Stays {J = J} {B = B} (show_caption same text)
  unfolding show_caption
  show_caption-Stays true text b = refl
  show_caption-Stays false text b =
      attempt-Stays (deliver (snapshot caption (suc b.seq) text))
        (deliver-Stays (snapshot caption (suc b.seq) text)) _

  if_watched :
      (c : Bool) (x y z : Body J B)
      → watched x ≡ watched z
      → watched y ≡ watched z
      → watched (if c then x else y) ≡ watched z
  if_watched true x y z p q = p
  if_watched false x y z p q = q

  pub if_run :
      (c : Bool) (x y : Result (Unit {0}) × Body J B) (z : Body J B)
      → watched x.1 ≡ watched z
      → watched y.1 ≡ watched z
      → watched (if c then x else y).1 ≡ watched z
  if_run true x y z p q = p
  if_run false x y z p q = q

  hold_stays : (dwell : ℕ) (b : Body J B) → watched (hold dwell b) ≡ watched b
  unfolding hold
  hold_stays dwell b = if_watched (ltb 0 dwell) _ b b refl refl

  pub push_caption-Stays :
      (text : Text) (dwell : ℕ) → Stays {J = J} {B = B} (push_caption text dwell)
  unfolding push_caption
  push_caption-Stays text dwell b =
      show_caption-Stays (is_shown b.last_caption text) text (hold dwell b) ∙ hold_stays dwell b

  record_as-Stays :
      (t : Option String) (prompt : Option Text) (text : Text)
      → Stays {J = J} {B = B} (record_as t prompt text)
  unfolding record_as
  record_as-Stays t none text b = refl
  record_as-Stays t (some prompt) text b =
      attempt-Stays
        (perhaps >> modify (λ b. record b { history = record_turn t prompt text b.now b.history }))
        (perhaps_then-Stays _ (λ b. refl)) b

  pub record_current-Stays :
      (c : Control) (text : Text) → Stays {J = J} {B = B} (record_current c text)
  unfolding record_current
  record_current-Stays c text = record_as-Stays c.current_turn_id c.current_prompt text

  pub degrade-Stays : (c : Control) → Stays {J = J} {B = B} (degrade c)
  unfolding degrade
  degrade-Stays c = bind-Stays _ _ (send_reply-Stays degrade_text none) (λ u.
      bind-Stays _ _ (push_face-Stays face_degraded) (λ u.
        bind-Stays _ _ (push_caption-Stays (caption_for degrade_text) reaction_dwell)
          (λ u. record_current-Stays c degrade_text)))

  show_mood-Stays : (token : Text) → Stays {J = J} {B = B} (show_mood token)
  unfolding show_mood
  show_mood-Stays token b =
      bind-Stays (if is_shown b.last_face token then done tt else push_face token)
        (λ u. push_caption token 0)
        (if_Stays (is_shown b.last_face token) (done tt) (push_face token) (λ b. refl)
          (push_face-Stays token))
        (λ u. push_caption-Stays token 0) b

  pub mood_face-Stays : (c : Control) → Stays {J = J} {B = B} (maybe_push_mood_face c)
  unfolding maybe_push_mood_face
  mood_face-Stays c b =
      if_run (fence_is_idle c.fence && is_idle c.arbiter) _ _ b
        (if_run (ltb b.monotonic b.reaction_hold_until) _ _ b refl
          (show_mood-Stays (codes (select_face b.faces (mood_of b))) b))
        refl

  -- The operations.
  pub sql-Stays : (f : HistoryStore B → HistoryStore B) → Stays {J = J} {B = B} (sql f)
  unfolding sql
  sql-Stays f = perhaps_then-Stays _ (λ b. refl)

  watched-set_memory :
      (r : Result Tree) (b : Body J B)
      → read_file directive_name (kept r b.memory) ≡ read_file directive_name b.memory
      → watched (set_memory r b).1 ≡ watched b
  unfolding set_memory
  watched-set_memory (ok m) b h = ap (λ d. (b.spawned, d)) h
  watched-set_memory (err e) b h = refl

  run_memory_op-Stays : (w : World J B) (op : MemoryOp) → Stays (run_memory_op w op)
  unfolding run_memory_op apply_all
  run_memory_op-Stays w op = bind-Stays _ _ draw-Stays (λ unreadable.
      bind-Stays _ _ draw-Stays (λ fails b.
        watched-set_memory
          (apply_memory_op w.normalize w.is_word (not unreadable) (not fails) op b.memory) b
          (All-protected w.normalize w.is_word (((not unreadable, not fails), op) ∷ [])
            b.memory).0))

  set_faces-Stays : (r : Result (List Face)) → Stays {J = J} {B = B} (set_faces r)
  unfolding set_faces
  set_faces-Stays (ok fs) b = refl
  set_faces-Stays (err e) b = refl

  run_add_face-Stays : (f : Face) (replace : Bool) → Stays {J = J} {B = B} (run_add_face f replace)
  unfolding run_add_face
  run_add_face-Stays f replace =
      bind-Stays _ _ draw-Stays
        (λ fails b. set_faces-Stays (add_face f replace (not fails) b.faces) b)

  park_under-Stays : (t : Option String) (blob : B) → Stays {J = J} {B = B} (park_under t blob)
  unfolding park_under
  park_under-Stays none blob = λ b. refl
  park_under-Stays (some t) blob =
      bind-Stays _ _ (λ b. sql-Stays (park_approval t blob b.now default_ttl) b) (λ u b. refl)

  park_first-Stays :
      (parked : Bool) (t : Option String) (blob : B)
      → Stays {J = J} {B = B} (park_first parked t blob)
  unfolding park_first
  park_first-Stays true t blob = λ b. refl
  park_first-Stays false t blob = park_under-Stays t blob

  apply_op-Stays :
      (w : World J B) (c : Control) (parked : Bool) (op : ProposedOp J)
      → Stays (apply_op w c parked op)
  unfolding apply_op
  apply_op-Stays w c parked (memory_op op) = bind-Stays _ _ (run_memory_op-Stays w op) (λ u b. refl)
  apply_op-Stays w c parked (add_face_op f replace) =
      bind-Stays _ _ (run_add_face-Stays f replace) (λ u b. refl)
  apply_op-Stays w c parked (capture_learning_op observation key) =
      bind-Stays _ _ (λ b. sql-Stays (capture_learning observation key b.now) b) (λ u b. refl)
  apply_op-Stays w c parked (resolve_learning_op n s) =
      bind-Stays _ _ (sql-Stays (resolve_learning n s)) (λ u b. refl)
  apply_op-Stays w c parked (request_tool_approval tool_call summary messages) =
      park_first-Stays parked c.current_turn_id (w.encode messages tool_call)
  apply_op-Stays w c parked (propose_tool name source test) = λ b. refl
  apply_op-Stays w c parked (rewrite_directive content) =
      if_Stays (not c.is_owner) _ _ (λ b. refl)
        (if_Stays (is_blank content) _ _ (λ b. refl) (park_first-Stays parked c.current_turn_id _))

  pub apply_ops-Stays :
      (w : World J B) (c : Control) (parked : Bool) (ops : List (ProposedOp J))
      → Stays (apply_ops w c parked ops)
  unfolding apply_ops
  apply_ops-Stays w c parked [] b = refl
  apply_ops-Stays w c parked (op ∷ ops) b =
      apply_ops-Stays w c (parked_after parked (apply_op w c parked op b).0) ops
        (apply_op w c parked op b).1
      ∙ apply_op-Stays w c parked op b
