-- ===== src/Runtime/Frame.antt =====
-- Statements of shelldon/core/runtime.py that leave a part of the body alone: the forked workers and
-- the owner's directive.
use shelldon.Base.{Option, Bool, true, false, List, [], ◌∷◌, ◌≡◌, refl, ◌∙◌, if◌then◌else◌}
use shelldon.Base.Result.{Result, ok, err, Error, os_error}
use shelldon.Base.Text.{Text}
use shelldon.Memory.{read_file, directive_name}
use shelldon.Runtime.{Body, Spawn}
use shelldon.Runtime.Exec.{
  Exec, then_run, ◌>>=◌, ◌>>◌, done, raise, attempt, draw_from, draw, perhaps,
}

module _ {J B : Type 0} where
  -- A property of the result, of every way in which the rest may end.
  then_run_result :
      {A C : Type 0} (P : Result C → Type 0) (k : A → Exec J B C) (r : Result A) (b : Body J B)
      → ((e : Error) → P (err e))
      → ((a : A) (b : Body J B) → P (k a b).0)
      → P (then_run r b k).0
  unfolding then_run
  then_run_result P k (ok a) b raises goes = goes a b
  then_run_result P k (err e) b raises goes = raises e

  pub bind_result :
      {A C : Type 0} (P : Result C → Type 0) (m : Exec J B A) (k : A → Exec J B C)
      → ((e : Error) → P (err e))
      → ((a : A) (b : Body J B) → P (k a b).0)
      → (b : Body J B) → P ((m >>= k) b).0
  unfolding ◌>>=◌
  bind_result P m k raises goes b = then_run_result P k (m b).0 (m b).1 raises goes

  then_run_end :
      {A C : Type 0} (P : Result C × Body J B → Type 0) (k : A → Exec J B C) (r : Result A)
      (b : Body J B)
      → ((e : Error) → P (err e, b))
      → ((a : A) → P (k a b))
      → P (then_run r b k)
  unfolding then_run
  then_run_end P k (ok a) b raises goes = goes a
  then_run_end P k (err e) b raises goes = raises e

  -- A property of how the second statement ends, from the body that the first one leaves.
  pub bind_end :
      {A C : Type 0} (P : Result C × Body J B → Type 0) (m : Exec J B A) (k : A → Exec J B C)
      (b : Body J B)
      → ((e : Error) → P (err e, (m b).1))
      → ((a : A) → P (k a (m b).1))
      → P ((m >>= k) b)
  unfolding ◌>>=◌
  bind_end P m k b raises goes = then_run_end P k (m b).0 (m b).1 raises goes

  -- What the model watches: the forked workers, and the directive's file.
  abbrev pub watched : Body J B → List (Bool × Spawn J) × Option Text
  watched b = (b.spawned, read_file directive_name b.memory)

  abbrev pub Stays : {A : Type 0} → Exec J B A → Type 0
  Stays m = (b : Body J B) → watched (m b).1 ≡ watched b

  then_run-Stays :
      {A C : Type 0} (k : A → Exec J B C) (r : Result A) (b c : Body J B)
      → watched b ≡ watched c
      → ((a : A) → Stays (k a))
      → watched (then_run r b k).1 ≡ watched c
  unfolding then_run
  then_run-Stays k (ok a) b c e goes = goes a b ∙ e
  then_run-Stays k (err x) b c e goes = e

  pub bind-Stays :
      {A C : Type 0} (m : Exec J B A) (k : A → Exec J B C)
      → Stays m
      → ((a : A) → Stays (k a))
      → Stays (m >>= k)
  unfolding ◌>>=◌
  bind-Stays m k first rest b = then_run-Stays k (m b).0 (m b).1 b (first b) rest

  pub attempt-Stays : (m : Exec J B (Unit {0})) → Stays m → Stays (attempt m)
  unfolding attempt
  attempt-Stays m stays b = stays b

  draw_from_stays : (xs : List Bool) (b : Body J B) → watched (draw_from xs b).1 ≡ watched b
  unfolding draw_from
  draw_from_stays [] b = refl
  draw_from_stays (x ∷ xs) b = refl

  pub draw-Stays : Stays draw
  unfolding draw
  draw-Stays b = draw_from_stays b.luck b

  pub if_Stays :
      {A : Type 0} (c : Bool) (m n : Exec J B A) → Stays m → Stays n → Stays (if c then m else n)
  if_Stays true m n p q = p
  if_Stays false m n p q = q

  pub perhaps-Stays : Stays perhaps
  unfolding perhaps
  perhaps-Stays =
      bind-Stays draw (λ fails. if fails then raise os_error else done tt) draw-Stays
        (λ fails. if_Stays fails (raise os_error) (done tt) (λ b. refl) (λ b. refl))

  -- A call that may raise, followed by an assignment elsewhere.
  pub perhaps_then-Stays : {A : Type 0} (m : Exec J B A) → Stays m → Stays (perhaps >> m)
  perhaps_then-Stays m stays = bind-Stays perhaps (λ u. m) perhaps-Stays (λ u. stays)
