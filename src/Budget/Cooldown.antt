-- ===== src/Budget/Cooldown.antt =====
-- The minimum interval between the turns that the scheduler starts.
use shelldon.Base.{ℕ, ◌+◌, ◌≤◌, ◌<◌, ◌≡◌, ◌⊎◌, ◌↔◌, arith}
use shelldon.Base.Time.{Instant}
use shelldon.Budget.{TurnBudget, BudgetGate, admit, used_today, evaluate, admission_patch}

module _ (zone : Instant → ℕ) (g : BudgetGate) (b : TurnBudget) where
  -- After an admission at `t`, a turn that fits under the cap is admitted at `now` exactly when the
  -- cooldown has passed, or the clock was set back before `t`.
  pub admit-cooldown :
      (t now paid cost : ℕ)
      → used_today zone (admission_patch zone b t paid) now + cost ≤ g.daily_turn_budget
      → (evaluate zone g (admission_patch zone b t paid) now cost ≡ admit)
        ↔ ((now < t) ⊎ (t + g.turn_cooldown ≤ now))
  unfolding evaluate admission_patch
  admit-cooldown t now paid cost fits = (λ e. ground arith, λ e. ground arith)
