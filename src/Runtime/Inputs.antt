-- ===== src/Runtime/Inputs.antt =====
-- shelldon/core/runtime.py: the owner's directive changes only by the owner's approval, and one step
-- forks at most one worker.
use shelldon.Base.{
  Option, none, some, Bool, true, false, String, List, [], ◌∷◌, ◌++◌, ◌≡◌, refl, ap,
}
use shelldon.Base.Result.{Result}
use shelldon.Base.Text.{Text, codes}
use shelldon.Memory.{read_file, directive_name}
use shelldon.Plugins.{EventKind}
use shelldon.Runtime.{World, Body, Control}
use shelldon.Runtime.Exec.{modify, attempt}
use shelldon.Runtime.Frame.{
  watched, Stays, bind-Stays, attempt-Stays, if_Stays, perhaps-Stays, perhaps_then-Stays,
}
use shelldon.Runtime.Screen.{push_face, push_caption, maybe_push_mood_face}
use shelldon.Runtime.Watched.{
  sql-Stays, send_reply-Stays, push_face-Stays, push_caption-Stays, mood_face-Stays, if_run,
}
use shelldon.Runtime.Approvals.{
  decide, settle, settle_promotion, settle_approval, settle_call, settle_directive, say,
  pop_promotion, pop_approval, is_directive_call,
}
use shelldon.Broker.{ToolCall, Message}
use shelldon.Reactions.{MoodPatch, compute_nudge_patch}
use shelldon.Runtime.Loop.{
  patch_state, mark_interaction, run_reflex_job, discard_all, prune_promotions, run_prune_job,
  checkpoint_if_dirty, nudge_with, handle_nudge, items_of, last_of, is_recent, mark_of,
}
use shelldon.State.{Item, set_last_interaction}
use shelldon.Base.Time.{aware}
use shelldon.Base.{some, ◌∷◌, []}
use shelldon.History.{Promotion}
use shelldon.Parked.{prune_expired_approvals}
use shelldon.Runtime.Digest.{discard-Stays}
use shelldon.Runtime.Turns.{launch, fork, is_ok}
use shelldon.Runtime.{Spawn, face_thinking}

-- The workers after a fork that may have failed.
abbrev pub grown :
    {J : Type 0} → List (Bool × Spawn J) → Spawn J → Result (Unit {0}) → List (Bool × Spawn J)
grown before s r = before ++ (is_ok r, s) ∷ []

module _ {J B : Type 0} where
  patch-Stays : (items : List Item) → Stays {J = J} {B = B} (patch_state items)
  unfolding patch_state
  patch-Stays items b = refl

  pub mark-Stays : Stays {J = J} {B = B} mark_interaction
  unfolding mark_interaction
  mark-Stays b = patch-Stays (set_last_interaction (some (aware b.now)) ∷ []) b

  pub reflex-Stays :
      (c : Control) (patch : List Item) → Stays {J = J} {B = B} (run_reflex_job c patch)
  unfolding run_reflex_job
  reflex-Stays c patch = bind-Stays _ _ (patch-Stays patch) (λ u. mood_face-Stays c)

  discard_all-Stays : (ps : List Promotion) → Stays {J = J} {B = B} (discard_all ps)
  unfolding discard_all
  discard_all-Stays [] = λ b. refl
  discard_all-Stays (p ∷ ps) =
      bind-Stays _ _ (discard-Stays p.tool_name) (λ u. discard_all-Stays ps)

  pub prune-Stays : Stays {J = J} {B = B} run_prune_job
  unfolding run_prune_job prune_promotions
  prune-Stays =
      bind-Stays _ _ (λ b. sql-Stays (prune_expired_approvals b.now) b)
        (λ u. bind-Stays _ _ (perhaps_then-Stays _ (λ b. refl)) (λ ps. discard_all-Stays ps))

  pub checkpoint-Stays : Stays {J = J} {B = B} checkpoint_if_dirty
  unfolding checkpoint_if_dirty
  checkpoint-Stays b =
      if_run b.state.dirty _ _ b
        (perhaps_then-Stays (modify (λ d. record d { state = record d.state { dirty = false } }))
          (λ b. refl) b)
        refl

  nudge_with-Stays :
      (w : World J B) (c : Control) (e : EventKind) (o : Option MoodPatch)
      → Stays (nudge_with w c e o)
  unfolding nudge_with
  nudge_with-Stays w c e none = λ b. refl
  nudge_with-Stays w c e (some p) = λ b.
      if_run (is_recent (last_of e b.last_nudge) b.monotonic w.nudge_cooldown) _ _ b refl (
        bind-Stays (patch_state (items_of p)) (λ u. maybe_push_mood_face c)
          (patch-Stays (items_of p)) (λ u. mood_face-Stays c)
          (record b { last_nudge = mark_of e b.monotonic b.last_nudge }))

  pub nudge-Stays : (w : World J B) (c : Control) (e : EventKind) → Stays (handle_nudge w c e)
  unfolding handle_nudge
  nudge-Stays w c e b =
      nudge_with-Stays w c e (compute_nudge_patch e b.state.state.valence b.state.state.arousal) b

  -- A denial.
  say-Stays : (text : Text) → Stays {J = J} {B = B} (say text)
  unfolding say
  say-Stays text = bind-Stays _ _ (send_reply-Stays text none) (λ u b. refl)

  denied_call-Stays :
      (w : World J B) (o : Option (List (Message J) × ToolCall J)) → Stays (settle_call w false o)
  unfolding settle_call settle_directive
  denied_call-Stays w none = say-Stays _
  denied_call-Stays w (some (messages, tool_call)) =
      if_Stays (is_directive_call tool_call) _ _ (say-Stays _) (λ b. refl)

  denied_approval-Stays : (w : World J B) (o : Option B) → Stays (settle_approval w false o)
  unfolding settle_approval
  denied_approval-Stays w none = say-Stays _
  denied_approval-Stays w (some blob) = denied_call-Stays w (w.decode blob)

  denied-Stays :
      (w : World J B) (idle : Bool) (t : String) (o : Option String)
      → Stays (settle w idle t false o)
  unfolding settle settle_promotion pop_approval
  denied-Stays w idle t (some name) = bind-Stays _ _ (discard-Stays name) (λ u. say-Stays _)
  denied-Stays w true t none =
      bind-Stays _ _ (perhaps_then-Stays _ (λ b. refl)) (denied_approval-Stays w)
  denied-Stays w false t none = say-Stays _

  pub denial-Stays : (w : World J B) (idle : Bool) (t : String) → Stays (decide w idle t false)
  unfolding decide pop_promotion
  denial-Stays w idle t = bind-Stays _ _ (perhaps_then-Stays _ (λ b. refl)) (denied-Stays w idle t)

  -- A launch is noted with its end, and leaves the directive alone.
  pub watched-launch :
      (s : Spawn J) (b : Body J B)
      → watched (launch s b).1
        ≡ (grown b.spawned s (launch s b).0, read_file directive_name b.memory)
  unfolding launch fork
  watched-launch s b =
      let same =
        bind-Stays (attempt (push_face face_thinking)) _
          (attempt-Stays (push_face face_thinking) (push_face-Stays face_thinking))
          (λ u.
            bind-Stays (push_caption (codes "…") 0) _ (push_caption-Stays (codes "…") 0)
              (λ u. perhaps-Stays))
          b in
      ap (λ p. (p.0 ++ (is_ok (fork {J = J} {B = B} b).0, s) ∷ [], p.1)) same
