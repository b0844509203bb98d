-- ===== src/Arbiter/Valid.antt =====
-- The arbiter's invariant: messages wait only while a turn is in flight.
use shelldon.Arbiter.{
  Arbiter, new_arbiter, submit, complete, reset, Call, submits, completes, resets, call,
}
use shelldon.Base.{◌≡◌, refl, false, [], arith}

pub record IsValid (a : Arbiter) : Type 0 where
  pub waits : a.worker_in_flight ≡ false → a.pending ≡ []

pub IsValid-new_arbiter : IsValid new_arbiter
unfolding new_arbiter
IsValid-new_arbiter = record { waits = λ h. refl }

pub call-IsValid : (c : Call) (a : Arbiter) → IsValid a → IsValid (call c a).0
unfolding call submit complete reset
call-IsValid (submits t) a v = ground (arith)
call-IsValid completes a v = ground (arith)
call-IsValid resets a v = record { waits = λ h. refl }
