-- ===== src/Runtime/Parking.antt =====
-- shelldon/core/runtime.py: what the operations of one Result leave for the owner to approve.
use shelldon.Base.{
  ◌+◌, ◌*◌, some, Bool, true, false, not, String, List, [], ◌∷◌, ◌≡◌, refl, ap, ◌∙◌, take,
  if◌then◌else◌,
}
use shelldon.Base.Result.{Result, ok}
use shelldon.Base.Table.{store}
use shelldon.Base.Text.{is_blank}
use shelldon.History.{capture_learning, resolve_learning}
use shelldon.Parked.{default_ttl, seconds}
use shelldon.Runtime.{
  World, Body, Control, ProposedOp, memory_op, add_face_op, capture_learning_op,
  resolve_learning_op, request_tool_approval, propose_tool, rewrite_directive, max_proposed_ops,
}
use shelldon.Runtime.Exec.{Exec, done, draw, ◌>>◌}
use shelldon.Runtime.Frame.{bind_result}
use shelldon.Runtime.Ops.{
  sql, run_memory_op, run_add_face, park_first, apply_op, parked_after, apply_ops,
  apply_proposed_ops,
}
use shelldon.Runtime.Asking.{
  AnyAsks, this, later, waiting_for, Same, OpEnd, parks_none, parks_one, if_Same, bind-Same,
  sql-Same, draw-Same, set_memory-Same, set_faces-Same, capture_keeps, with_parked, op_end,
}

module _ {J B : Type 0} where
  -- Once something is parked, nothing else is.
  second-Same :
      (w : World J B) (c : Control) (op : ProposedOp J) (b : Body J B)
      → Same b (apply_op w c true op b)
  unfolding apply_op run_memory_op run_add_face park_first resolve_learning
  second-Same w c (memory_op op) b =
      bind-Same (run_memory_op w op) _ b
        (bind-Same draw _ b (draw-Same b)
          (λ unreadable d. bind-Same draw _ d (draw-Same d) (λ fails d. set_memory-Same _ d)))
        (λ u d. refl)
  second-Same w c (add_face_op f replace) b =
      bind-Same (run_add_face f replace) _ b
        (bind-Same draw _ b (draw-Same b) (λ fails d. set_faces-Same _ d)) (λ u d. refl)
  second-Same w c (capture_learning_op observation key) b =
      bind-Same (λ b. sql (capture_learning observation key b.now) b) _ b
        (sql-Same (capture_learning observation key b.now) b (capture_keeps observation key b.now))
        (λ u d. refl)
  second-Same w c (resolve_learning_op n s) b =
      bind-Same (sql (resolve_learning n s)) _ b (sql-Same (resolve_learning n s) b (λ h. refl))
        (λ u d. refl)
  second-Same w c (request_tool_approval tool_call summary messages) b = refl
  second-Same w c (propose_tool name source test) b = refl
  second-Same w c (rewrite_directive content) b =
      if_Same (not c.is_owner) (done true) _ b b refl
        (if_Same (is_blank content) (done true) (done true) b b refl refl)

  then_parked :
      (m : Exec J B (Unit {0})) (b : Body J B) → parked_after true ((m >> done true) b).0 ≡ true
  unfolding parked_after
  then_parked m b =
      bind_result (λ r. parked_after true r ≡ true) m (λ u. done true) (λ e. refl) (λ u d. refl) b

  if_parked :
      (x : Bool) (m n : Exec J B Bool) (b : Body J B)
      → parked_after true (m b).0 ≡ true
      → parked_after true (n b).0 ≡ true
      → parked_after true ((if x then m else n) b).0 ≡ true
  if_parked true m n b p q = p
  if_parked false m n b p q = q

  second_parked :
      (w : World J B) (c : Control) (op : ProposedOp J) (b : Body J B)
      → parked_after true (apply_op w c true op b).0 ≡ true
  unfolding apply_op park_first parked_after
  second_parked w c (memory_op op) b = then_parked (run_memory_op w op) b
  second_parked w c (add_face_op f replace) b = then_parked (run_add_face f replace) b
  second_parked w c (capture_learning_op observation key) b =
      then_parked (λ b. sql (capture_learning observation key b.now) b) b
  second_parked w c (resolve_learning_op n s) b = then_parked (sql (resolve_learning n s)) b
  second_parked w c (request_tool_approval tool_call summary messages) b = refl
  second_parked w c (propose_tool name source test) b = refl
  second_parked w c (rewrite_directive content) b =
      if_parked (not c.is_owner) (done true) _ b refl
        (if_parked (is_blank content) (done true) (done true) b refl refl)

  rest-Same :
      (w : World J B) (c : Control) (parked : Bool) (ops : List (ProposedOp J)) (b : Body J B)
      → parked ≡ true
      → Same b (apply_ops w c parked ops b)
  unfolding apply_ops
  rest-Same w c parked [] b e = refl
  rest-Same w c false (op ∷ ops) b e = cc
  rest-Same w c true (op ∷ ops) b e =
      let end = apply_op w c true op b in
      rest-Same w c (parked_after true end.0) ops end.1 (second_parked w c op b)
      ∙ second-Same w c op b

  -- The table of pending approvals after the operations of one Result: as it was, or with one more.
  pub data ParksOnce (w : World J B) (c : Control) (ops : List (ProposedOp J)) (b d : Body J B)
      : Type 0 where
    nothing : waiting_for d ≡ waiting_for b → ParksOnce w c ops b d
    once :
        (t : String) (blob : B)
        → c.current_turn_id ≡ some t
        → AnyAsks w c blob ops
        → waiting_for d ≡ with_parked t blob b
        → ParksOnce w c ops b d

  parks_later :
      (w : World J B) (c : Control) (op : ProposedOp J) (ops : List (ProposedOp J))
      (b m d : Body J B)
      → waiting_for m ≡ waiting_for b
      → ParksOnce w c ops m d
      → ParksOnce w c (op ∷ ops) b d
  parks_later w c op ops b m d e (nothing same) = nothing (same ∙ e)
  parks_later w c op ops b m d e (once t blob known asks stored) =
      once t blob known (later op ops asks) (
        stored
        ∙ ap
            (λ p. (
              store t
                  (record {
                    created_at = p.1;
                    expires_at = p.1 + default_ttl * seconds;
                    state_blob = blob;
                  })
                  p.0,
              p.1,
            ))
            e)

  after_op :
      (w : World J B) (c : Control) (op : ProposedOp J) (ops : List (ProposedOp J)) (b : Body J B)
      (end : Result Bool × Body J B)
      → ((p : Bool) (m : Body J B) → p ≡ false → ParksOnce w c ops m (apply_ops w c p ops m).1)
      → OpEnd w c op b end
      → ParksOnce w c (op ∷ ops) b (apply_ops w c (parked_after false end.0) ops end.1).1
  unfolding parked_after
  after_op w c op ops b (r, m) rest (parks_none _ _ free same) =
      parks_later w c op ops b m _ same (rest (parked_after false r) m free)
  after_op w c op ops b (ok true, m) rest (parks_one t blob _ known asks stored) =
      once t blob known (this op ops asks) (rest-Same w c true ops m refl ∙ stored)

  ops_once :
      (w : World J B) (c : Control) (parked : Bool) (ops : List (ProposedOp J)) (b : Body J B)
      → parked ≡ false
      → ParksOnce w c ops b (apply_ops w c parked ops b).1
  unfolding apply_ops
  ops_once w c parked [] b e = nothing refl
  ops_once w c true (op ∷ ops) b e = cc
  ops_once w c false (op ∷ ops) b e =
      after_op w c op ops b (apply_op w c false op b) (λ p m free. ops_once w c p ops m free)
        (op_end w c op b)

  -- The operations of one Result leave at most one approval pending, of a call that one of the first
  -- sixteen asks for, or of a new directive that is not blank and was proposed while the owner was
  -- there. It is stored under the id of the turn in flight and lives for the default time; every other
  -- pending approval stays.
  pub apply_proposed_ops-ParksOnce :
      (w : World J B) (c : Control) (ops : List (ProposedOp J)) (b : Body J B)
      → ParksOnce w c (take max_proposed_ops ops) b (apply_proposed_ops w c ops b).1
  unfolding apply_proposed_ops
  apply_proposed_ops-ParksOnce w c ops b = ops_once w c false (take max_proposed_ops ops) b refl
