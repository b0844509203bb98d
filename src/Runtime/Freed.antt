-- ===== src/Runtime/Freed.antt =====
-- shelldon/core/runtime.py: a turn is answered once, and a timeout always frees its slot.
use shelldon.Arbiter.{complete, complete_in, reset, is_idle}
use shelldon.Base.{
  Option, none, some, Bool, true, false, String, List, [], ◌∷◌, ◌≡◌, refl, sym, ap, ◌∙◌, inl, inr,
  Bool-cases, eq_refl, eq_iff, str_eq, arith,
}
use shelldon.Base.Result.{Result, ok, err}
use shelldon.Base.Text.{Text}
use shelldon.Fence.{open_turn, accept, is_current}
use shelldon.Runtime.{World, Body, Control, Core, WorkerResult}
use shelldon.Runtime.Admission.{accept→current}
use shelldon.Runtime.Coherent.{IsFresh, IsGood, open_current, close_current}
use shelldon.Runtime.Exec.{attempt}
use shelldon.Runtime.Screen.{degrade}
use shelldon.Runtime.Turns.{
  handle_result, handle_from, timeout_watch, time_out, start_folded, start_turn, end_turn,
  after_digest, handle_accepted, digest, release, begin_with, begin, after_spawn,
}

module _ {J B : Type 0} (w : World J B) where
  -- A Result whose turn is not the one that is open changes nothing.
  pub handle_result_stale :
      (t : String) (r : WorkerResult J) (k : Core J B)
      → is_current k.control.fence.current t ≡ false
      → handle_result w (some t) r k ≡ (ok tt, k)
  unfolding handle_result handle_from accept
  handle_result_stale t r k h = rw h refl

  handle_result_rejected :
      (t : String) (r : WorkerResult J) (k : Core J B)
      → accept (some t) k.control.fence ≡ false
      → handle_result w (some t) r k ≡ (ok tt, k)
  unfolding handle_result handle_from
  handle_result_rejected t r k h = rw h refl

  spawned_current :
      (t u : String) (r : Result (Unit {0})) (owner_side : Text) (is_owner : Bool) (c : Control)
      → str_eq u t ≡ false
      → is_current (after_spawn u r (begin u owner_side is_owner c)).fence.current t ≡ false
  unfolding after_spawn begin is_current
  spawned_current t u (ok x) owner_side is_owner c h = rw (open_current u c.fence) h
  spawned_current t u (err e) owner_side is_owner c h =
      rw (close_current u (open_turn u c.fence) (open_current u c.fence)) refl

  -- The turn that follows has an id of its own.
  folded_current :
      (t : String) (next : Option Text) (k : Core J B)
      → k.control.fence.current ≡ none
      → str_eq (w.hex k.control.minted) t ≡ false
      → is_current (start_folded w next k).control.fence.current t ≡ false
  unfolding start_folded start_turn begin_with is_current
  folded_current t none k shut h = rw shut refl
  folded_current t (some p) k shut h = spawned_current t (w.hex k.control.minted) _ _ _ k.control h

  digested_current :
      (t : String) (c : Control) (r : WorkerResult J) (end : Result (Unit {0}) × Body J B)
      → c.fence.current ≡ some t
      → str_eq (w.hex c.minted) t ≡ false
      → is_current (after_digest w (end_turn t c) r end).1.control.fence.current t ≡ false
  unfolding after_digest end_turn is_current release
  digested_current t c r (err e, b) is_open h = rw (close_current t c.fence is_open) refl
  digested_current t c r (ok tt, b) is_open h =
      folded_current t (complete c.arbiter).1 _ (close_current t c.fence is_open) h

  not_next :
      (t : String) (c : Control)
      → c.fence.current ≡ some t
      → IsFresh w.hex c
      → str_eq (w.hex c.minted) t ≡ false
  unfolding is_current
  not_next t c is_open fresh = elim (Bool-cases (str_eq (w.hex c.minted) t)) [
    | inl e ↦ absurd (
        true_false (
          sym (eq_refl t)
          ∙ (ap (str_eq t) (sym ((eq_iff (w.hex c.minted) t).0 e))
              ∙ (ap (λ o. is_current o (w.hex c.minted)) (sym is_open)
                  ∙ fresh.not_current c.minted (omega arith)))))
    | inr e ↦ e
  ]
    where
      true_false : true ≡ false → ⊥
      true_false e = cc

  handled_current :
      (admitted : Bool) (t : String) (r : WorkerResult J) (k : Core J B)
      → accept (some t) k.control.fence ≡ admitted
      → IsFresh w.hex k.control
      → accept (some t) (handle_from admitted w (some t) r k).1.control.fence ≡ false
  unfolding handle_from handle_accepted accept
  handled_current false t r k e fresh = e
  handled_current true t r k e fresh =
      let is_open = accept→current t k.control.fence e in
      rw
        (digested_current t k.control r (digest w k.control t r k.body) is_open
          (not_next t k.control is_open fresh))
        refl

  -- A turn is answered at most once: whatever the first Result for a turn did, and whether or not it
  -- was let in, a second one for the same turn, be it the same or another, changes nothing.
  pub handle_result_once :
      (t : String) (r q : WorkerResult J) (k : Core J B)
      → IsGood w.hex k.control
      → (let l = (handle_result w (some t) r k).1 in handle_result w (some t) q l ≡ (ok tt, l))
  unfolding handle_result
  handle_result_once t r q k good =
      rw (handled_current (accept (some t) k.control.fence) t r k refl good.fresh) refl

-- A core at rest, or one that has just begun another turn, for which nothing waits.
pub data IsFreed (t : String) (c : Control) : Type 0 where
  at_ease : c.fence.current ≡ none → is_idle c.arbiter ≡ true → c.arbiter.pending ≡ [] → IsFreed t c
  next_turn :
      (u : String)
      → c.fence.current ≡ some u
      → str_eq u t ≡ false
      → c.timeout ≡ some u
      → c.arbiter.pending ≡ []
      → IsFreed t c

spawned-IsFreed :
    (t u : String) (r : Result (Unit {0})) (owner_side : Text) (is_owner : Bool) (c : Control)
    → str_eq u t ≡ false
    → c.arbiter.pending ≡ []
    → IsFreed t (after_spawn u r (begin u owner_side is_owner c))
unfolding after_spawn begin reset is_idle
spawned-IsFreed t u (ok x) owner_side is_owner c h empty =
    next_turn u (open_current u c.fence) h refl empty
spawned-IsFreed t u (err e) owner_side is_owner c h empty =
    at_ease (close_current u (open_turn u c.fence) (open_current u c.fence)) refl refl

module _ {J B : Type 0} (w : World J B) where
  ended-IsFreed :
      (t : String) (c : Control) (b : Body J B) (ms : List Text)
      → c.arbiter.pending ≡ ms
      → c.fence.current ≡ some t
      → str_eq (w.hex c.minted) t ≡ false
      → IsFreed t
          (start_folded w (complete_in ms c.arbiter).1 (record {
            control = record (end_turn t c) {
              reaping = false;
              arbiter = (complete_in ms c.arbiter).0;
            };
            body = b;
          })).control
  unfolding start_folded start_turn begin_with complete_in end_turn is_idle
  ended-IsFreed t c b [] e is_open h = at_ease (close_current t c.fence is_open) refl e
  ended-IsFreed t c b (m ∷ ms) e is_open h =
      spawned-IsFreed t (w.hex c.minted) _ _ _
        (record (end_turn t c) { reaping = false; arbiter = (complete_in (m ∷ ms) c.arbiter).0 }) h
        refl

  -- A turn that is never answered does not wedge core: when its timeout fires, and whatever fails
  -- then, core is at rest and idle, or it has begun another turn, with its own timeout armed; either
  -- way no message waits any longer.
  pub timeout_watch-IsFreed :
      (t : String) (k : Core J B)
      → IsGood w.hex k.control
      → k.control.fence.current ≡ some t
      → IsFreed t (timeout_watch w t k).control
  unfolding timeout_watch time_out release end_turn complete is_current
  timeout_watch-IsFreed t k good is_open =
      let fires = ap (λ o. is_current o t) is_open ∙ eq_refl t in
      rw fires (
        ended-IsFreed t k.control (attempt (degrade k.control) k.body).1 k.control.arbiter.pending
          refl is_open (not_next w t k.control is_open good.fresh))
