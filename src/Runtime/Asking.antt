-- ===== src/Runtime/Asking.antt =====
-- shelldon/core/runtime.py: what one proposed operation leaves for the owner to approve.
use shelldon.Base.{
  ◌+◌, ◌*◌, Option, none, some, Bool, true, false, not, String, List, [], ◌∷◌, ◌≡◌, refl, ap, ◌∙◌,
  inl, inr, Bool-cases, if◌then◌else◌,
}
use shelldon.Base.Result.{Result, ok, err, Error, os_error}
use shelldon.Base.Table.{Table, store}
use shelldon.Base.Text.{Text, codes, is_blank}
use shelldon.Base.Time.{Instant}
use shelldon.Broker.{ToolCall, Message}
use shelldon.Faces.{Face}
use shelldon.History.{HistoryStore, Approval, capture_learning, resolve_learning}
use shelldon.Memory.{Tree}
use shelldon.Parked.{park_approval, default_ttl, seconds}
use shelldon.Runtime.{
  World, Body, Control, ProposedOp, memory_op, add_face_op, capture_learning_op,
  resolve_learning_op, request_tool_approval, propose_tool, rewrite_directive,
}
use shelldon.Runtime.Exec.{Exec, done, raise, draw, draw_from, perhaps, ◌>>=◌, ◌>>◌, then_run}
use shelldon.Runtime.Frame.{bind_end}
use shelldon.Runtime.Ops.{
  set_memory, set_faces, sql, run_memory_op, run_add_face, park_under, park_first, apply_op,
  id_text, parked_after,
}

not-false : (b : Bool) → not b ≡ false → b ≡ true
not-false true h = refl
not-false false h = cc

pub capture_keeps :
    {B : Type 0} (text : Text) (key : Option Text) (now : Instant) (h : HistoryStore B)
    → (capture_learning text key now h).pending_approvals ≡ h.pending_approvals
unfolding capture_learning
capture_keeps text key now h = elim (Bool-cases (is_blank text)) [
  | inl e ↦ rw e refl
  | inr e ↦ rw e refl
]

-- An operation that asks for the owner's approval, with what is stored for it.
pub data Asks {J B : Type 0} (w : World J B) (c : Control) : ProposedOp J → B → Type 0 where
  asks_call :
      (tool_call : ToolCall J) (summary : Text) (messages : List (Message J))
      → Asks w c (request_tool_approval tool_call summary messages) (w.encode messages tool_call)
  asks_directive :
      (content : Text)
      → c.is_owner ≡ true
      → is_blank content ≡ false
      → Asks w c (rewrite_directive content) (
          w.encode [] (record {
            id = id_text c.current_turn_id;
            name = codes "rewrite_directive";
            args = w.content_args content;
          }))

-- Some operation of the list asks.
pub data AnyAsks {J B : Type 0} (w : World J B) (c : Control) (blob : B)
    : List (ProposedOp J) → Type 0 where
  this :
      (op : ProposedOp J) (ops : List (ProposedOp J))
      → Asks w c op blob
      → AnyAsks w c blob (op ∷ ops)
  later :
      (op : ProposedOp J) (ops : List (ProposedOp J))
      → AnyAsks w c blob ops
      → AnyAsks w c blob (op ∷ ops)

module _ {J B : Type 0} where
  abbrev pub waiting_for : Body J B → Table (Approval B) × Instant
  waiting_for b = (b.history.pending_approvals, b.now)

  abbrev pub Same : {A : Type 0} → Body J B → Result A × Body J B → Type 0
  Same b end = waiting_for end.1 ≡ waiting_for b

  -- What one operation does: it parks nothing, or it parks one approval under the turn's id.
  pub data OpEnd (w : World J B) (c : Control) (op : ProposedOp J) (b : Body J B)
      : Result Bool × Body J B → Type 0 where
    parks_none :
        (r : Result Bool) (d : Body J B)
        → parked_after false r ≡ false
        → waiting_for d ≡ waiting_for b
        → OpEnd w c op b (r, d)
    parks_one :
        (t : String) (blob : B) (d : Body J B)
        → c.current_turn_id ≡ some t
        → Asks w c op blob
        → waiting_for d ≡ (
          store t
              (record {
                created_at = b.now;
                expires_at = b.now + default_ttl * seconds;
                state_blob = blob;
              })
              b.history.pending_approvals,
          b.now,
        )
        → OpEnd w c op b (ok true, d)

  draw_from_same : (xs : List Bool) (b : Body J B) → waiting_for (draw_from xs b).1 ≡ waiting_for b
  unfolding draw_from
  draw_from_same [] b = refl
  draw_from_same (x ∷ xs) b = refl

  pub if_Same :
      {A : Type 0} (c : Bool) (m n : Exec J B A) (b d : Body J B)
      → Same b (m d)
      → Same b (n d)
      → Same b ((if c then m else n) d)
  if_Same true m n b d p q = p
  if_Same false m n b d p q = q

  perhaps-Same : (b : Body J B) → Same b (perhaps b)
  unfolding perhaps draw
  perhaps-Same b =
      let drawn = draw_from_same b.luck b in
      bind_end (Same b) draw (λ fails. if fails then raise os_error else done tt) b (λ e. drawn)
        (λ fails. if_Same fails (raise os_error) (done tt) b (draw_from b.luck b).1 drawn drawn)

  pub bind-Same :
      {A C : Type 0} (m : Exec J B A) (k : A → Exec J B C) (b : Body J B)
      → Same b (m b)
      → ((a : A) (d : Body J B) → Same d (k a d))
      → Same b ((m >>= k) b)
  bind-Same m k b first rest = bind_end (Same b) m k b (λ e. first) (λ a. rest a (m b).1 ∙ first)

  pub sql-Same :
      (f : HistoryStore B → HistoryStore B) (b : Body J B)
      → ((h : HistoryStore B) → (f h).pending_approvals ≡ h.pending_approvals)
      → Same b (sql f b)
  unfolding sql
  sql-Same f b keeps =
      bind-Same perhaps _ b (perhaps-Same b) (λ u d. ap (λ p. (p, d.now)) (keeps d.history))

  pub draw-Same : (b : Body J B) → Same b (draw b)
  unfolding draw
  draw-Same b = draw_from_same b.luck b

  pub set_memory-Same : (r : Result Tree) (b : Body J B) → Same b (set_memory r b)
  unfolding set_memory
  set_memory-Same (ok m) b = refl
  set_memory-Same (err e) b = refl

  pub set_faces-Same : (r : Result (List Face)) (b : Body J B) → Same b (set_faces r b)
  unfolding set_faces
  set_faces-Same (ok m) b = refl
  set_faces-Same (err e) b = refl

  -- A statement whose answer leaves `parked` false, and that parks nothing.
  unparked :
      (w : World J B) (c : Control) (op : ProposedOp J) (m : Exec J B (Unit {0})) (b : Body J B)
      → Same b (m b)
      → OpEnd w c op b ((m >> done false) b)
  unfolding parked_after
  unparked w c op m b same =
      bind_end (OpEnd w c op b) m (λ u. done false) b (λ e. parks_none (err e) (m b).1 refl same)
        (λ u. parks_none (ok false) (m b).1 refl same)

  -- The table with one more approval, under the turn's id.
  abbrev pub with_parked : String → B → Body J B → Table (Approval B) × Instant
  with_parked t blob b = (
    store t
        (record {
          created_at = b.now;
          expires_at = b.now + default_ttl * seconds;
          state_blob = blob;
        })
        b.history.pending_approvals,
    b.now,
  )

  -- The transaction that parks: it did, or it raised and did nothing.
  data ParkEnd (t : String) (blob : B) (b : Body J B) : Result (Unit {0}) × Body J B → Type 0 where
    refuses :
        (e : Error) (d : Body J B) → waiting_for d ≡ waiting_for b → ParkEnd t blob b (err e, d)
    stores : (d : Body J B) → waiting_for d ≡ with_parked t blob b → ParkEnd t blob b (ok tt, d)

  park_sql :
      (t : String) (blob : B) (b : Body J B)
      → ParkEnd t blob b (sql (park_approval t blob b.now default_ttl) b)
  unfolding sql park_approval
  park_sql t blob b =
      let same = perhaps-Same b in
      bind_end (ParkEnd t blob b) perhaps _ b (λ e. refuses e (perhaps b).1 same)
        (λ u. stores _ (
          ap
            (λ p. (
              store t
                  (record {
                    created_at = b.now;
                    expires_at = b.now + default_ttl * seconds;
                    state_blob = blob;
                  })
                  p.0,
              p.1,
            ))
            same))

  after_park :
      (w : World J B) (c : Control) (op : ProposedOp J) (t : String) (blob : B) (b : Body J B)
      (end : Result (Unit {0}) × Body J B)
      → c.current_turn_id ≡ some t
      → Asks w c op blob
      → ParkEnd t blob b end
      → OpEnd w c op b (then_run end.0 end.1 (λ u. done true))
  unfolding then_run parked_after
  after_park w c op t blob b (err e, d) known asks (refuses _ _ same) =
      parks_none (err e) d refl same
  after_park w c op t blob b (ok tt, d) known asks (stores _ stored) =
      parks_one t blob d known asks stored

  park_end :
      (w : World J B) (c : Control) (op : ProposedOp J) (blob : B) (o : Option String)
      (b : Body J B)
      → c.current_turn_id ≡ o
      → Asks w c op blob
      → OpEnd w c op b (park_first false o blob b)
  unfolding park_first park_under ◌>>=◌ parked_after
  park_end w c op blob none b e asks = parks_none (err os_error) b refl refl
  park_end w c op blob (some t) b e asks = after_park w c op t blob b _ e asks (park_sql t blob b)

  end_if :
      (w : World J B) (c : Control) (op : ProposedOp J) (x : Bool) (m n : Exec J B Bool)
      (b : Body J B)
      → (x ≡ true → OpEnd w c op b (m b))
      → (x ≡ false → OpEnd w c op b (n b))
      → OpEnd w c op b ((if x then m else n) b)
  end_if w c op true m n b p q = p refl
  end_if w c op false m n b p q = q refl

  pub op_end :
      (w : World J B) (c : Control) (op : ProposedOp J) (b : Body J B)
      → OpEnd w c op b (apply_op w c false op b)
  unfolding apply_op run_memory_op run_add_face resolve_learning parked_after
  op_end w c (memory_op op) b = unparked w c _ (run_memory_op w op) b (
      bind-Same draw _ b (draw-Same b)
        (λ unreadable d. bind-Same draw _ d (draw-Same d) (λ fails d. set_memory-Same _ d)))
  op_end w c (add_face_op f replace) b =
      unparked w c _ (run_add_face f replace) b
        (bind-Same draw _ b (draw-Same b) (λ fails d. set_faces-Same _ d))
  op_end w c (capture_learning_op observation key) b =
      unparked w c _ (λ b. sql (capture_learning observation key b.now) b) b
        (sql-Same (capture_learning observation key b.now) b (capture_keeps observation key b.now))
  op_end w c (resolve_learning_op n s) b =
      unparked w c _ (sql (resolve_learning n s)) b (sql-Same (resolve_learning n s) b (λ h. refl))
  op_end w c (request_tool_approval tool_call summary messages) b =
      park_end w c _ (w.encode messages tool_call) c.current_turn_id b refl
        (asks_call tool_call summary messages)
  op_end w c (propose_tool name source test) b = parks_none (ok false) b refl refl
  op_end w c (rewrite_directive content) b =
      end_if w c (rewrite_directive content) (not c.is_owner) _ _ b
        (λ e. parks_none (ok false) b refl refl)
        (λ e.
          end_if w c (rewrite_directive content) (is_blank content) _ _ b
            (λ h. parks_none (ok false) b refl refl)
            (λ h.
              park_end w c (rewrite_directive content) _ c.current_turn_id b refl
                (asks_directive content (not-false c.is_owner e) h)))
