-- ===== src/Budget.antt =====
-- shelldon/core/budget.py: the spend gate of the turns that the scheduler proposes, and the ledger
-- `TurnBudget` of shelldon/core/state.py that it reads. The ledger's `date` is the local day that
-- the count belongs to, `none` while nothing was ever spent. `zone` is the system's time zone: it
-- maps an instant to what the owner's wall clock shows.
pub mod Cap
pub mod Cooldown
pub mod Samples
use shelldon.Base.{
  ℕ, zero, ◌+◌, ◌-◌, Option, none, some, Bool, true, false, ltb, ◌==◌, if◌then◌else◌,
}
use shelldon.Base.Result.{Result, ok, require, value_error, ◌>>=◌, ◌>>◌}
use shelldon.Base.Time.{Instant, Stamp, aware, unusable, date_of}

pub record TurnBudget : Type 0 where
  pub date : Option ℕ
  pub turns_used : ℕ
  pub last_turn_at : Option Stamp

unfoldable pub new_ledger : TurnBudget
new_ledger = record { date = none; turns_used = 0; last_turn_at = none }

pub data Decision : Type 0 where
  admit defer skip : Decision

-- A stamp in the future is no signal.
unfoldable pub since : Option Stamp → Instant → Option ℕ
since none now = none
since (some unusable) now = none
since (some (aware t)) now = if ltb now t then none else some (now - t)

pub record BudgetGate : Type 0 where
  pub daily_turn_budget : ℕ
  pub turn_cooldown : ℕ

unfoldable pub new_gate : ℕ → ℕ → Result BudgetGate
new_gate cap cooldown = do
  require (ltb 0 cap) value_error
  require (ltb 0 cooldown) value_error
  ok (record { daily_turn_budget = cap; turn_cooldown = cooldown })

-- `budget.date == _local_date(now)`
unfoldable pub is_on : Option ℕ → ℕ → Bool
is_on none d = false
is_on (some e) d = e == d

-- `since is not None and since < self.turn_cooldown`
unfoldable pub is_cooling : Option ℕ → ℕ → Bool
is_cooling none cooldown = false
is_cooling (some s) cooldown = ltb s cooldown

module _ (zone : Instant → ℕ) where
  abbrev pub local_date : Instant → ℕ
  local_date now = date_of (zone now)

  unfoldable pub used_today : TurnBudget → Instant → ℕ
  unfolding is_on
  used_today b now = if is_on b.date (local_date now) then b.turns_used else 0

  unfoldable pub evaluate : BudgetGate → TurnBudget → Instant → ℕ → Decision
  unfolding used_today since is_cooling
  evaluate g b now cost =
      if ltb g.daily_turn_budget (used_today b now + cost)
      then skip
      else if is_cooling (since b.last_turn_at now) g.turn_cooldown
      then defer
      else admit

  -- The ledger after the patch that records one admission.
  unfoldable pub admission_patch : TurnBudget → Instant → ℕ → TurnBudget
  unfolding used_today
  admission_patch b now cost = record {
    date = some (local_date now);
    turns_used = used_today b now + cost;
    last_turn_at = some (aware now);
  }
