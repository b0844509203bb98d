-- ===== src/Runtime/Admission.antt =====
-- shelldon/core/runtime.py: a submission or a turn's end, from a state in which the guards agree.
use shelldon.Arbiter.{Arbiter, submit, submit_in}
use shelldon.Base.{
  ℕ, Option, none, some, Bool, true, false, not, String, ◌≡◌, refl, ap, ◌&&◌, has, eq_iff,
}
use shelldon.Base.Text.{Text}
use shelldon.Fence.{TurnFence, accept, is_current}
use shelldon.Runtime.{Control}
use shelldon.Runtime.Coherent.{IsCoherent, at_rest, in_flight, IsFresh, IsReady, IsGood}

-- The one turn that the fence lets a Result or a timeout end is the one that is open.
pub current→eq : (o : Option String) (t : String) → is_current o t ≡ true → o ≡ some t
unfolding is_current
current→eq none t h = cc
current→eq (some u) t h = ap some ((eq_iff u t).0 h)

and_left : (a b : Bool) → (a && b) ≡ true → a ≡ true
and_left true b h = refl
and_left false b h = cc

pub accept→current : (t : String) (f : TurnFence) → accept (some t) f ≡ true → f.current ≡ some t
unfolding accept
accept→current t f h =
    current→eq f.current t (and_left (is_current f.current t) (not (has t f.closed)) h)

-- A submission reserves a free slot for the turn that can start now, or waits.
pub data Admission (hex : ℕ → String) (c : Control) (text : Text)
    : Arbiter × Option Text → Type 0 where
  reserves :
      (a : Arbiter) → IsReady (record c { arbiter = a }) → Admission hex c text (a, some text)
  waits : (a : Arbiter) → IsGood hex (record c { arbiter = a }) → Admission hex c text (a, none)

pub same-IsFresh :
    (hex : ℕ → String) (a : Arbiter) (c : Control)
    → IsFresh hex c
    → IsFresh hex (record c { arbiter = a })
same-IsFresh hex a c fresh = record {
  not_closed = fresh.not_closed;
  not_current = fresh.not_current;
}

submit_in-Admission :
    (hex : ℕ → String) (busy : Bool) (text : Text) (c : Control)
    → c.arbiter.worker_in_flight ≡ busy
    → IsFresh hex c
    → IsCoherent c
    → Admission hex c text (submit_in busy text c.arbiter)
unfolding submit_in
submit_in-Admission hex false text c e fresh (at_rest shut free empty unarmed) =
    reserves _ (record { none_open = shut; reserved = refl; unarmed = unarmed })
submit_in-Admission hex true text c e fresh (at_rest shut free empty unarmed) = cc
submit_in-Admission hex false text c e fresh (in_flight t is_open admitted busy armed) = cc
submit_in-Admission hex true text c e fresh (in_flight t is_open admitted busy armed) =
    waits _ (record {
      coherent = in_flight t is_open admitted busy armed;
      fresh = same-IsFresh hex _ c fresh;
    })

pub submit-Admission :
    (hex : ℕ → String) (text : Text) (c : Control)
    → IsGood hex c
    → Admission hex c text (submit text c.arbiter)
unfolding submit
submit-Admission hex text c good =
    submit_in-Admission hex c.arbiter.worker_in_flight text c refl good.fresh good.coherent

-- At rest it never waits.
pub not_waiting :
    (hex : ℕ → String) (busy : Bool) (text : Text) (c : Control)
    → not busy ≡ true
    → c.arbiter.worker_in_flight ≡ busy
    → IsCoherent c
    → IsReady (record c { arbiter = (submit_in busy text c.arbiter).0 })
unfolding submit_in
not_waiting hex true text c h e coherent = cc
not_waiting hex false text c h e (at_rest shut free empty unarmed) = record {
  none_open = shut;
  reserved = refl;
  unarmed = unarmed;
}
not_waiting hex false text c h e (in_flight t is_open admitted busy armed) = cc
