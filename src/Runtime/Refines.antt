-- ===== src/Runtime/Refines.antt =====
-- shelldon/core/runtime.py: a turn's start and its end as moves of the slot.
use shelldon.Arbiter.{Arbiter, submit, submit_in, complete, reset}
use shelldon.Base.{
  Option, none, some, Bool, true, false, String, List, [], ◌∷◌, ◌≡◌, refl, sym, ap, ◌∙◌, subst,
}
use shelldon.Base.Result.{Result, ok, err}
use shelldon.Base.Text.{Text}
use shelldon.Fence.{open_turn, close}
use shelldon.Runtime.{World, Body, Control, Core, Spawn, fresh_turn}
use shelldon.Runtime.Coherent.{IsCoherent, at_rest, in_flight}
use shelldon.Runtime.Loop.{start_admitted, admit_text}
use shelldon.Runtime.Turns.{
  begin, after_spawn, end_turn, release, launch, begin_with, start_turn, start_folded,
}
use shelldon.Runtime.Inputs.{watched-launch}
use shelldon.Arbiter.{complete_in, newline}
use shelldon.Base.{◌++◌, append-nil}
use shelldon.Base.Text.{join}
use shelldon.Runtime.Coherent.{close_current, open_current}
use shelldon.Runtime.Inputs.{grown}
use shelldon.Runtime.Slot.{
  Slot, resting, answering, turn_of, Given, told, untold, Moves, answers, fails, waits, ends, folds,
  loses, slot_in, slot_of,
}

-- What a step did: the workers that it tried to fork, and the slot's move for what was given.
pub record Reaches {J B : Type 0} (g : Given) (from : Slot) (before : List (Bool × Spawn J))
    (k : Core J B) : Type 0 where
  pub forked : List (Bool × Spawn J)
  pub moved : Moves J g from forked (slot_of k.control)
  pub spawned : k.body.spawned ≡ before ++ forked

module _ {J B : Type 0} where
  -- A step in which nothing is forked.
  pub Reaches-none :
      (g : Given) (from : Slot) (k : Core J B) (before : List (Bool × Spawn J))
      → Moves J g from [] (slot_of k.control)
      → k.body.spawned ≡ before
      → Reaches g from before k
  Reaches-none g from k before moved e = record {
    forked = [];
    moved = moved;
    spawned = e ∙ sym (append-nil before);
  }

  started_slot :
      (g : Given) (s : Spawn J) (r : Result (Unit {0})) (owner_side : Text) (is_owner : Bool)
      (c : Control) (from : Slot) (b : Body J B) (before : List (Bool × Spawn J))
      → c.arbiter.pending ≡ []
      → Moves J g from ((true, s) ∷ []) (answering (turn_of s) [])
      → Moves J g from ((false, s) ∷ []) resting
      → b.spawned ≡ grown before s r
      → Reaches g from before (record {
        control = after_spawn (turn_of s) r (begin (turn_of s) owner_side is_owner c);
        body = b;
      })
  unfolding begin after_spawn slot_of slot_in close reset
  started_slot g s (ok u) owner_side is_owner c from b before empty starts lost e = record {
    forked = (true, s) ∷ [];
    moved =
        subst (λ o. Moves J g from ((true, s) ∷ []) (slot_in o c.arbiter.pending))
          (sym (open_current (turn_of s) c.fence))
          (subst (λ ms. Moves J g from ((true, s) ∷ []) (answering (turn_of s) ms)) (sym empty)
            starts);
    spawned = e;
  }
  started_slot g s (err x) owner_side is_owner c from b before empty starts lost e = record {
    forked = (false, s) ∷ [];
    moved =
        subst (λ o. Moves J g from ((false, s) ∷ []) (slot_in o []))
          (sym (
            close_current (turn_of s) (open_turn (turn_of s) c.fence)
              (open_current (turn_of s) c.fence)))
          lost;
    spawned = e;
  }

  pub begin_with-Reaches :
      (g : Given) (s : Spawn J) (owner_side : Text) (is_owner : Bool) (k : Core J B) (from : Slot)
      → k.control.arbiter.pending ≡ []
      → Moves J g from ((true, s) ∷ []) (answering (turn_of s) [])
      → Moves J g from ((false, s) ∷ []) resting
      → Reaches g from k.body.spawned (begin_with (turn_of s) s owner_side is_owner k)
  unfolding begin_with
  begin_with-Reaches g s owner_side is_owner k from empty starts lost =
      started_slot g s (launch s k.body).0 owner_side is_owner k.control from (launch s k.body).1
        k.body.spawned empty starts lost (ap (λ p. p.0) (watched-launch s k.body))

module _ {J B : Type 0} (w : World J B) where
  pub start_turn-Reaches :
      (g : Given) (prompt : Text) (marker : Option Text) (k : Core J B) (from : Slot)
      → k.control.arbiter.pending ≡ []
      → Moves J g from
          ((true, fresh_turn (w.hex k.control.minted) prompt) ∷ [])
          (answering (w.hex k.control.minted) [])
      → Moves J g from ((false, fresh_turn (w.hex k.control.minted) prompt) ∷ []) resting
      → Reaches g from k.body.spawned (start_turn w prompt marker k)
  unfolding start_turn turn_of
  start_turn-Reaches g prompt marker k from empty starts lost =
      begin_with-Reaches g (fresh_turn (w.hex k.control.minted) prompt) _ _ k from empty starts lost

  -- The end of the turn that is open, with what waits.
  end_in-Reaches :
      (t : String) (c : Control) (b : Body J B) (before : List (Bool × Spawn J)) (ms : List Text)
      → c.fence.current ≡ some t
      → b.spawned ≡ before
      → Reaches untold (answering t ms) before (
          start_folded w (complete_in ms c.arbiter).1 (record {
            control = record (end_turn t c) {
              reaping = false;
              arbiter = (complete_in ms c.arbiter).0;
            };
            body = b;
          }))
  unfolding start_folded complete_in end_turn slot_of slot_in
  end_in-Reaches t c b before [] is_open e =
      Reaches-none untold (answering t []) _ before
        (subst (λ o. Moves J untold (answering t []) [] (slot_in o c.arbiter.pending))
          (sym (close_current t c.fence is_open)) (ends t))
        e
  end_in-Reaches t c b before (m ∷ ms) is_open e =
      let k : Core J B = record {
        control = record (end_turn t c) {
          reaping = false;
          arbiter = (complete_in (m ∷ ms) c.arbiter).0;
        };
        body = b;
      } in
      subst
        (λ xs.
          Reaches {J = J} {B = B} untold (answering t (m ∷ ms)) xs
            (start_turn w (join newline (m ∷ ms)) none k))
        e
        (start_turn-Reaches untold (join newline (m ∷ ms)) none k (answering t (m ∷ ms)) refl
          (folds t (w.hex c.minted) m ms) (loses t (w.hex c.minted) m ms))

  pub end-Reaches :
      (t : String) (c : Control) (b : Body J B) (before : List (Bool × Spawn J))
      → c.fence.current ≡ some t
      → b.spawned ≡ before
      → Reaches untold (slot_of c) before (
          start_folded w
            (complete c.arbiter).1
            (record { control = release (end_turn t c); body = b }))
  unfolding complete release end_turn slot_of slot_in
  end-Reaches t c b before is_open e =
      subst
        (λ o. Reaches {J = J} {B = B} untold (slot_in o c.arbiter.pending) before (
          start_folded w (complete_in c.arbiter.pending c.arbiter).1
            (record { control = release (end_turn t c); body = b })))
        (sym is_open) (end_in-Reaches t c b before c.arbiter.pending is_open e)

-- A slot that is read off a core at rest.
pub rest_slot : (c : Control) → c.fence.current ≡ none → slot_of c ≡ resting
unfolding slot_of slot_in
rest_slot c e = ap (λ o. slot_in o c.arbiter.pending) e

pub from_rest :
    {J B : Type 0} (g : Given) (c : Control) (before : List (Bool × Spawn J)) (k : Core J B)
    → c.fence.current ≡ none
    → Reaches g resting before k
    → Reaches g (slot_of c) before k
from_rest {J} {B} g c before k e r =
    subst (λ s. Reaches {J = J} {B = B} g s before k) (sym (rest_slot c e)) r

module _ {J B : Type 0} (w : World J B) where
  pub rest_starts :
      (g : Given) (prompt : Text) (marker : Option Text) (c : Control) (k : Core J B)
      → c.fence.current ≡ none
      → k.control.arbiter.pending ≡ []
      → (let s = fresh_turn (w.hex k.control.minted) prompt in
          Moves J g resting ((true, s) ∷ []) (answering (w.hex k.control.minted) []))
      → (let s = fresh_turn (w.hex k.control.minted) prompt in
          Moves J g resting ((false, s) ∷ []) resting)
      → Reaches g (slot_of c) k.body.spawned (start_turn w prompt marker k)
  rest_starts g prompt marker c k shut empty starts lost =
      from_rest g c k.body.spawned (start_turn w prompt marker k) shut
        (start_turn-Reaches w g prompt marker k resting empty starts lost)

  holds : Arbiter → Core J B → Core J B
  holds a k = record k { control = record k.control { arbiter = a } }

  waiting :
      (text : Text) (t : String) (k : Core J B)
      → k.control.fence.current ≡ some t
      → Moves J
          (told text)
          (slot_of k.control)
          []
          (slot_of (holds (submit_in true text k.control.arbiter).0 k).control)
  unfolding slot_of slot_in submit_in holds
  waiting text t k is_open =
      subst
        (λ o.
          Moves J (told text) (slot_in o k.control.arbiter.pending) []
            (slot_in o (k.control.arbiter.pending ++ text ∷ [])))
        (sym is_open) (waits t k.control.arbiter.pending text)

  -- A message that is submitted.
  submit_in-Reaches :
      (busy : Bool) (text : Text) (k : Core J B)
      → k.control.arbiter.worker_in_flight ≡ busy
      → IsCoherent k.control
      → Reaches (told text) (slot_of k.control) k.body.spawned (
          start_admitted w (submit_in busy text k.control.arbiter).1 (record k {
            control = record k.control { arbiter = (submit_in busy text k.control.arbiter).0 };
          }))
  unfolding submit_in start_admitted holds
  submit_in-Reaches false text k e (at_rest shut free empty unarmed) =
      rest_starts (told text) text none k.control
        (holds (submit_in false text k.control.arbiter).0 k) shut empty
        (answers (w.hex k.control.minted) text) (fails (w.hex k.control.minted) text)
  submit_in-Reaches true text k e (at_rest shut free empty unarmed) = cc
  submit_in-Reaches false text k e (in_flight t is_open admitted busy armed) = cc
  submit_in-Reaches true text k e (in_flight t is_open admitted busy armed) =
      Reaches-none (told text) (slot_of k.control)
        (holds (submit_in true text k.control.arbiter).0 k) k.body.spawned
        (waiting text t k is_open) refl

  pub admit_text-Reaches :
      (text : Text) (k : Core J B)
      → IsCoherent k.control
      → Reaches (told text) (slot_of k.control) k.body.spawned (admit_text w text k)
  unfolding admit_text submit
  admit_text-Reaches text k coherent =
      submit_in-Reaches k.control.arbiter.worker_in_flight text k refl coherent
