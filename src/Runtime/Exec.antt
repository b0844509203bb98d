-- ===== src/Runtime/Exec.antt =====
-- Statements of shelldon/core/runtime.py that change the body and may raise. What was changed before a
-- raise stays changed.
use shelldon.Base.{Bool, false, List, [], ◌∷◌, if◌then◌else◌}
use shelldon.Base.Result.{Result, ok, err, Error, os_error}
use shelldon.Runtime.{Body}

abbrev pub Exec : Type 0 → Type 0 → Type 0 → Type 0
Exec J B A = Body J B → Result A × Body J B

module _ {J B : Type 0} where
  unfoldable pub then_run :
      {A C : Type 0} → Result A → Body J B → (A → Exec J B C) → Result C × Body J B
  then_run (ok a) b k = k a b
  then_run (err e) b k = (err e, b)

  infixl 5 ◌>>=◌ ◌>>◌
  unfoldable pub ◌>>=◌ : {A C : Type 0} → Exec J B A → (A → Exec J B C) → Exec J B C
  unfolding then_run
  m >>= k = λ b. then_run (m b).0 (m b).1 k

  abbrev pub ◌>>◌ : {A C : Type 0} → Exec J B A → Exec J B C → Exec J B C
  m >> k = m >>= λ _. k

  abbrev pub done : {A : Type 0} → A → Exec J B A
  done a b = (ok a, b)

  abbrev pub raise : {A : Type 0} → Error → Exec J B A
  raise e b = (err e, b)

  abbrev pub modify : (Body J B → Body J B) → Exec J B (Unit {0})
  modify f b = (ok tt, f b)

  -- `try: m` with `except Exception: log.warning(…)`
  unfoldable pub attempt : Exec J B (Unit {0}) → Exec J B (Unit {0})
  attempt m b = (ok tt, (m b).1)

  -- Whether the next call raises.
  unfoldable pub draw_from : List Bool → Body J B → Bool × Body J B
  draw_from [] b = (false, b)
  draw_from (x ∷ xs) b = (x, record b { luck = xs })

  unfoldable pub draw : Exec J B Bool
  unfolding draw_from
  draw b = (ok (draw_from b.luck b).0, (draw_from b.luck b).1)

  -- A call of the outside, which raises before it does anything or does it all.
  unfoldable pub perhaps : Exec J B (Unit {0})
  unfolding draw
  perhaps = draw >>= λ fails. if fails then raise os_error else done tt
