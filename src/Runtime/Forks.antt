-- ===== src/Runtime/Forks.antt =====
-- shelldon/core/runtime.py: the owner's decision forks nothing before a turn is resumed.
use shelldon.Base.{
  Option, none, some, Bool, true, false, not, String, List, ◌≡◌, refl, ap, ◌∙◌, if◌then◌else◌,
}
use shelldon.Base.Result.{Result, ok, err}
use shelldon.Base.Text.{Text}
use shelldon.Broker.{ToolCall, Message}
use shelldon.Runtime.{World, Body}
use shelldon.Runtime.Approvals.{
  settled, decide, say, settle, settle_promotion, after_promote, pop_promotion,
}
use shelldon.Runtime.Exec.{Exec, done, ◌>>=◌}
use shelldon.Runtime.Screen.{send_reply}
use shelldon.Runtime.Tools.{discard_staged, promote_staged}
use shelldon.Runtime.Frame.{Stays}
use shelldon.Runtime.Approvals.{
  settle_approval, settle_call, settle_directive, pop_approval, is_directive_call, or_apologise,
  write_directive, put_memory,
}
use shelldon.Memory.{Tree, apply_rewrite_directive}
use shelldon.Runtime.Digest.{discard-Stays, promote-Stays}
use shelldon.Runtime.Frame.{bind_end, perhaps_then-Stays, draw-Stays}
use shelldon.Runtime.Watched.{send_reply-Stays}
use shelldon.Runtime.Exec.{draw}

module _ {J B : Type 0} where
  abbrev pub Forkless : {A : Type 0} → Exec J B A → Type 0
  Forkless m = (b : Body J B) → (m b).1.spawned ≡ b.spawned

  forkless : {A : Type 0} (m : Exec J B A) → Stays m → Forkless m
  forkless m stays b = ap (λ p. p.0) (stays b)

  bind-Forkless :
      {A C : Type 0} (m : Exec J B A) (k : A → Exec J B C)
      → Forkless m
      → ((a : A) → Forkless (k a))
      → Forkless (m >>= k)
  bind-Forkless m k first rest b =
      bind_end (λ end. end.1.spawned ≡ b.spawned) m k b (λ e. first b)
        (λ a. rest a (m b).1 ∙ first b)

  if_Forkless :
      {A : Type 0} (c : Bool) (m n : Exec J B A)
      → Forkless m
      → Forkless n
      → Forkless (if c then m else n)
  if_Forkless true m n p q = p
  if_Forkless false m n p q = q

  say-Forkless : (text : Text) → Forkless (say text)
  unfolding say
  say-Forkless text =
      bind-Forkless (send_reply text none) (λ u. done settled)
        (forkless (send_reply text none) (send_reply-Stays text none)) (λ u b. refl)

  put_memory-Forkless : (r : Result Tree) → Forkless (put_memory r)
  unfolding put_memory
  put_memory-Forkless (ok m) b = refl
  put_memory-Forkless (err e) b = refl

  write-Forkless : (r : Result Text) → Forkless (write_directive r)
  unfolding write_directive
  write-Forkless (err e) = λ b. refl
  write-Forkless (ok content) =
      bind-Forkless draw _ (forkless draw draw-Stays)
        (λ fails b. put_memory-Forkless (apply_rewrite_directive (not fails) content b.memory) b)

  apologise_forkless :
      (end : Result (Unit {0}) × Body J B) → (or_apologise end).1.spawned ≡ end.1.spawned
  unfolding or_apologise
  apologise_forkless (ok u, b) = refl
  apologise_forkless (err e, b) = say-Forkless _ b

  after_promote-Forkless : (name : String) (p : Bool) → Forkless (after_promote name p)
  unfolding after_promote
  after_promote-Forkless name true = say-Forkless _
  after_promote-Forkless name false =
      bind-Forkless (discard_staged name) _ (forkless (discard_staged name) (discard-Stays name))
        (λ u. say-Forkless _)

  promotion-Forkless : (approved : Bool) (name : String) → Forkless (settle_promotion approved name)
  unfolding settle_promotion
  promotion-Forkless true name =
      bind-Forkless (promote_staged name) _ (forkless (promote_staged name) (promote-Stays name))
        (after_promote-Forkless name)
  promotion-Forkless false name =
      bind-Forkless (discard_staged name) _ (forkless (discard_staged name) (discard-Stays name))
        (λ u. say-Forkless _)

module _ {J B : Type 0} (w : World J B) where
  directive-Forkless : (approved : Bool) (args : J) → Forkless (settle_directive w approved args)
  unfolding settle_directive
  directive-Forkless false args b = say-Forkless _ b
  directive-Forkless true args b =
      apologise_forkless _
      ∙ bind-Forkless (write_directive (w.content_of args)) _ (write-Forkless (w.content_of args))
          (λ u. forkless (send_reply _ none) (send_reply-Stays _ none)) b

  call-Forkless :
      (approved : Bool) (o : Option (List (Message J) × ToolCall J))
      → Forkless (settle_call w approved o)
  unfolding settle_call
  call-Forkless approved none = say-Forkless _
  call-Forkless approved (some (messages, tool_call)) =
      if_Forkless (is_directive_call tool_call) _ _ (directive-Forkless approved tool_call.args)
        (λ b. refl)

  approval-Forkless : (approved : Bool) (o : Option B) → Forkless (settle_approval w approved o)
  unfolding settle_approval
  approval-Forkless approved none = say-Forkless _
  approval-Forkless approved (some blob) = call-Forkless approved (w.decode blob)

  settle-Forkless :
      (idle : Bool) (t : String) (approved : Bool) (o : Option String)
      → Forkless (settle w idle t approved o)
  unfolding settle pop_approval
  settle-Forkless idle t approved (some name) = promotion-Forkless approved name
  settle-Forkless true t approved none =
      bind-Forkless (pop_approval t) _
        (forkless (pop_approval t) (perhaps_then-Stays _ (λ b. refl))) (approval-Forkless approved)
  settle-Forkless false t approved none = say-Forkless _

  -- Settling a decision forks no worker.
  pub decide-Forkless :
      (idle : Bool) (t : String) (approved : Bool) → Forkless (decide w idle t approved)
  unfolding decide pop_promotion
  decide-Forkless idle t approved =
      bind-Forkless (pop_promotion t) _
        (forkless (pop_promotion t) (perhaps_then-Stays _ (λ b. refl)))
        (settle-Forkless idle t approved)
