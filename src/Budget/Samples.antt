-- ===== src/Budget/Samples.antt =====
-- Five proposals on one day, of which three fit under a cap of 5.
use shelldon.Base.{ℕ, ◌+◌, ◌*◌, ◌≤◌, ◌≡◌, refl, List, [], ◌∷◌, arith}
use shelldon.Base.Time.{Instant}
use shelldon.Budget.{BudgetGate, new_ledger, evaluate, admission_patch, is_on}
use shelldon.Budget.Cap.{Proposal, spent, recorded, spent-le-cap}

-- A wall clock two hours ahead of UTC.
abbrev zone : Instant → ℕ
zone t = t + 7_200_000_000

abbrev gate : BudgetGate
gate = record { daily_turn_budget = 5; turn_cooldown = 1_800_000_000 }

abbrev proposal : ℕ → ℕ → Proposal
proposal minute cost = record { at = minute * 60_000_000; cost = cost }

abbrev day : List Proposal
day = proposal 10 1 ∷ proposal 20 1 ∷ proposal 45 3 ∷ proposal 80 3 ∷ proposal 120 1 ∷ []

day_spends_all : spent zone gate 0 day new_ledger ≡ 5
unfolding spent new_ledger evaluate admission_patch
day_spends_all = refl

spent-le-cap_example : spent zone gate 0 day new_ledger + recorded zone gate 0 new_ledger ≤ 5
unfolding new_ledger is_on
spent-le-cap_example = spent-le-cap zone gate 0 0 day new_ledger tt (omega arith) (omega arith)
