-- ===== src/Runtime/Ops.antt =====
-- shelldon/core/runtime.py: the operations that a worker proposed, applied one by one. Each is guarded;
-- only the first that needs the owner's approval is parked, and a change of the directive is parked
-- or dropped, never applied here.
use shelldon.Base.{
  Option, none, some, Bool, true, false, not, String, List, [], ◌∷◌, take, if◌then◌else◌,
}
use shelldon.Base.Result.{Result, ok, err, os_error}
use shelldon.Base.Text.{Text, codes, is_blank}
use shelldon.Faces.{Face, add_face}
use shelldon.History.{HistoryStore, capture_learning, resolve_learning}
use shelldon.Memory.{MemoryOp, Tree, apply_memory_op}
use shelldon.Parked.{park_approval, default_ttl}
use shelldon.Runtime.{
  World, Control, ProposedOp, memory_op, add_face_op, capture_learning_op, resolve_learning_op,
  request_tool_approval, propose_tool, rewrite_directive, max_proposed_ops,
}
use shelldon.Runtime.Exec.{Exec, done, raise, modify, draw, perhaps, ◌>>=◌, ◌>>◌}

-- `str | None` as the text of a call's id; a result is handled only after a turn has begun.
unfoldable pub id_text : Option String → Text
id_text none = codes "None"
id_text (some t) = codes t

-- The `except` of the loop: the operation is logged and skipped.
unfoldable pub parked_after : Bool → Result Bool → Bool
parked_after parked (ok p) = p
parked_after parked (err e) = parked

module _ {J B : Type 0} where
  unfoldable pub set_memory : Result Tree → Exec J B (Unit {0})
  set_memory (ok m) = modify (λ b. record b { memory = m })
  set_memory (err e) = raise e

  unfoldable pub set_faces : Result (List Face) → Exec J B (Unit {0})
  set_faces (ok fs) = modify (λ b. record b { faces = fs })
  set_faces (err e) = raise e

  -- `self.history.…`, one transaction that sqlite may refuse
  unfoldable pub sql : (HistoryStore B → HistoryStore B) → Exec J B (Unit {0})
  unfolding perhaps
  sql f = perhaps >> modify (λ b. record b { history = f b.history })

  unfoldable pub run_memory_op : World J B → MemoryOp → Exec J B (Unit {0})
  unfolding set_memory draw
  run_memory_op w op = do
    unreadable ← draw
    fails ← draw
    λ b.
        set_memory (apply_memory_op w.normalize w.is_word (not unreadable) (not fails) op b.memory)
          b

  unfoldable pub run_add_face : Face → Bool → Exec J B (Unit {0})
  unfolding set_faces draw
  run_add_face f replace = do
    fails ← draw
    λ b. set_faces (add_face f replace (not fails) b.faces) b

  unfoldable pub park_under : Option String → B → Exec J B Bool
  unfolding sql
  park_under none blob = raise os_error
  park_under (some t) blob = do λ b. sql (park_approval t blob b.now default_ttl) b; done true

  -- `park`, unless something is parked already
  unfoldable pub park_first : Bool → Option String → B → Exec J B Bool
  unfolding park_under
  park_first true t blob = done true
  park_first false t blob = park_under t blob

  -- `_apply_proposed_ops`: a proposed tool is `_handle_result`'s to handle. The answer tells whether
  -- an approval is parked.
  unfoldable pub apply_op : World J B → Control → Bool → ProposedOp J → Exec J B Bool
  unfolding run_memory_op run_add_face sql park_first id_text
  apply_op w c parked (memory_op op) = run_memory_op w op >> done parked
  apply_op w c parked (add_face_op f replace) = run_add_face f replace >> done parked
  apply_op w c parked (capture_learning_op observation key) =
      (λ b. sql (capture_learning observation key b.now) b) >> done parked
  apply_op w c parked (resolve_learning_op n s) = sql (resolve_learning n s) >> done parked
  apply_op w c parked (request_tool_approval tool_call summary messages) =
      park_first parked c.current_turn_id (w.encode messages tool_call)
  apply_op w c parked (propose_tool name source test) = done parked
  apply_op w c parked (rewrite_directive content) =
      if not c.is_owner
      then done parked
      else if is_blank content
      then done parked
      else park_first parked c.current_turn_id (
          w.encode [] (record {
            id = id_text c.current_turn_id;
            name = codes "rewrite_directive";
            args = w.content_args content;
          }))

  unfoldable pub apply_ops : World J B → Control → Bool → List (ProposedOp J) → Exec J B (Unit {0})
  unfolding apply_op parked_after
  apply_ops w c parked [] b = (ok tt, b)
  apply_ops w c parked (op ∷ ops) b =
      let step = apply_op w c parked op b in apply_ops w c (parked_after parked step.0) ops step.1

  unfoldable pub apply_proposed_ops :
      World J B → Control → List (ProposedOp J) → Exec J B (Unit {0})
  unfolding apply_ops
  apply_proposed_ops w c ops = apply_ops w c false (take max_proposed_ops ops)
