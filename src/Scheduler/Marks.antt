-- ===== src/Scheduler/Marks.antt =====
-- What a tick writes into `last_run`, and that names stay distinct.
use shelldon.Base.{
  ℕ, ◌≤◌, ◌≡◌, refl, Option, some, Bool, true, false, String, List, [], ◌∷◌, ◌++◌, str_eq, eq_iff,
  ◌||◌, ◌↔◌, any_pass, arith, if◌then◌else◌,
}
use shelldon.Base.Result.{Result, ok, err, value_error}
use shelldon.Base.Table.{Table, find, store, find-store}
use shelldon.Base.Time.{Instant}
use shelldon.Cadence.{is_due}
use shelldon.Cadence.Repeat.{Held, is_due-Held}
use shelldon.Power.{PowerState, BackoffLevel, BackoffPolicy, cadence_scale, one}
use shelldon.Scheduler.{Job, Scheduler, register, due, perform, tick_jobs, read_level, tick}

-- A job of that name is in the list.
abbrev pub names : {S : Type 0} → String → List (Job S) → Bool
names n js = any_pass (λ j. str_eq j.name n) js

find-tick_jobs :
    {S : Type 0} (n : String) (hook : Option (Job S → S → S)) (l : BackoffLevel) (now : Instant)
    (js : List (Job S)) (m : Table Instant) (s : S)
    → find n (tick_jobs hook l now js m s).0 ≡ (if names n js then some now else find n m)
unfolding tick_jobs
find-tick_jobs n hook l now [] m s = refl
find-tick_jobs n hook l now (j ∷ js) m s = ground (
  arith,
  find-tick_jobs n hook l now js (store j.name now m) (perform hook l j s),
  find-store j.name n now m,
)

module _ (zone : Instant → ℕ) {S : Type 0} (p : BackoffPolicy) (hook : Option (Job S → S → S))
    (reading : Result PowerState) (sch : Scheduler S) (s : S) where
  abbrev pub due_then : Instant → Option Instant → List (Job S)
  due_then t touched = due zone t touched (cadence_scale p (read_level p reading)) sch

  -- A tick stamps exactly the jobs that were due with its own time, whatever the jobs did and
  -- whether or not they were skipped; every other stamp stays.
  pub find-tick :
      (n : String) (t : Instant) (touched : Option Instant)
      → find n (tick zone p hook reading t touched sch s).0.last_run
        ≡ (if names n (due_then t touched) then some t else find n sch.last_run)
  unfolding tick
  find-tick n t touched =
      find-tick_jobs n hook (read_level p reading) t (due_then t touched) sch.last_run s

  -- A job that was due at the tick `t` is not due again while its cadence holds it back, at any
  -- battery level: a failing or skipped job waits its period too.
  pub is_due-tick :
      (j : Job S) (t now : Instant) (touched later : Option Instant) (scale : ℕ)
      → names j.name (due_then t touched) ≡ true
      → one ≤ scale
      → Held j.cadence t now later
      → is_due zone j.cadence now
          (find j.name (tick zone p hook reading t touched sch s).0.last_run)
          later
          scale
        ≡ false
  is_due-tick j t now touched later scale d ge h =
      rw (find-tick j.name t touched, d) (is_due-Held zone j.cadence t now later scale ge h)

-- No two jobs share a name.
abbrev pub IsNamed : {S : Type 0} → List (Job S) → Type 0
IsNamed [] = Unit
IsNamed (j ∷ js) = (names j.name js ≡ false) × IsNamed js

names-snoc :
    {S : Type 0} (n : String) (k : Job S) (js : List (Job S))
    → names n (js ++ k ∷ []) ≡ (names n js || str_eq k.name n)
names-snoc n k [] = ground arith
names-snoc n k (j ∷ js) = ground (arith, names-snoc n k js)

IsNamed-snoc :
    {S : Type 0} (k : Job S) (js : List (Job S))
    → IsNamed js
    → names k.name js ≡ false
    → IsNamed (js ++ k ∷ [])
IsNamed-snoc k [] d h = (refl, tt)
IsNamed-snoc k (j ∷ js) d h = (
  ground (arith, names-snoc j.name k js, eq_iff j.name k.name, eq_iff k.name j.name, d.0),
  IsNamed-snoc k js d.1 (ground arith),
)

register_ok :
    {S : Type 0} (j : Job S) (sch t : Scheduler S)
    → register j sch ≡ ok t
    → (t.jobs ≡ sch.jobs ++ j ∷ []) × (names j.name sch.jobs ≡ false)
unfolding register
register_ok j sch t e = ground arith

-- Registration keeps names distinct: a job whose name is taken is refused, and any other is added.
pub register-IsNamed :
    {S : Type 0} (j : Job S) (sch : Scheduler S)
    → IsNamed sch.jobs
    → ((t : Scheduler S) → register j sch ≡ ok t → IsNamed t.jobs)
      × ((register j sch ≡ err value_error) ↔ (names j.name sch.jobs ≡ true))
unfolding register
register-IsNamed j sch d = (
  λ t e. let (added, free) = register_ok j sch t e in rw added (IsNamed-snoc j sch.jobs d free),
  (λ e. ground arith, λ e. ground arith),
)
