-- ===== src/Budget/Cap.antt =====
-- The daily cap, over any sequence of proposed turns.
use shelldon.Base.{
  ℕ, ◌+◌, ◌≤◌, ◌<◌, ◌≡◌, refl, Option, none, some, List, [], ◌∷◌, ◌==◌, if◌then◌else◌, arith,
}
use shelldon.Base.Time.{Instant}
use shelldon.Budget.{
  TurnBudget, BudgetGate, Decision, admit, defer, skip, local_date, used_today, evaluate,
  admission_patch, is_on,
}

-- A turn that the scheduler proposes.
pub record Proposal : Type 0 where
  pub at : Instant
  pub cost : ℕ

module _ (zone : Instant → ℕ) (g : BudgetGate) where
  -- An admitted proposal is recorded; the others leave the ledger alone.
  unfoldable pub settle : Decision → Proposal → TurnBudget → TurnBudget
  settle admit p b = admission_patch zone b p.at p.cost
  settle defer p b = b
  settle skip p b = b

  abbrev pub decide : Proposal → TurnBudget → Decision
  decide p b = evaluate zone g b p.at p.cost

  -- What a decision lets a proposal spend on the local day `d`.
  unfoldable pub spends : ℕ → Decision → Proposal → ℕ
  spends d admit p = if local_date zone p.at == d then p.cost else 0
  spends d defer p = 0
  spends d skip p = 0

  -- What a sequence of proposals spends on the local day `d`.
  unfoldable pub spent : ℕ → List Proposal → TurnBudget → ℕ
  unfolding spends settle
  spent d [] b = 0
  spent d (p ∷ ps) b = spends d (decide p b) p + spent d ps (settle (decide p b) p b)

  -- The local days of the proposals do not go back.
  abbrev pub InOrder : ℕ → List Proposal → Type 0
  InOrder d [] = Unit
  InOrder d (p ∷ ps) = (d ≤ local_date zone p.at) × InOrder (local_date zone p.at) ps

  -- The ledger's day, if it has one, is not after `d`.
  abbrev pub DatedBy : ℕ → Option ℕ → Type 0
  DatedBy d none = Unit
  DatedBy d (some e) = e ≤ d

  -- What the ledger has recorded for the day `d`.
  abbrev pub recorded : ℕ → TurnBudget → ℕ
  recorded d b = if is_on b.date d then b.turns_used else 0

  -- An admission fits under the cap.
  evaluate-admit :
      (b : TurnBudget) (p : Proposal)
      → decide p b ≡ admit
      → used_today zone b p.at + p.cost ≤ g.daily_turn_budget
  unfolding evaluate
  evaluate-admit b p e = ground arith

  -- After the day is over nothing more is spent on it.
  spent-past :
      (d e : ℕ) (ps : List Proposal) (b : TurnBudget) → d < e → InOrder e ps → spent d ps b ≡ 0
  unfolding spent
  spent-past d e [] b lt o = refl
  spent-past d e (p ∷ ps) b lt o =
      let rest =
        spent-past d (local_date zone p.at) ps (settle (decide p b) p b) (omega (arith, o.0)) o.1 in
      ground (arith, rest, o.0)

  abbrev Capped : ℕ → List Proposal → TurnBudget → Type 0
  Capped d ps b = spent d ps b + recorded d b ≤ g.daily_turn_budget

  -- An admission on the day itself moves its cost into the ledger; one on a later day ends the day.
  admit-Capped :
      (d e : ℕ) (p : Proposal) (ps : List Proposal) (b : TurnBudget)
      → DatedBy e b.date
      → e ≤ local_date zone p.at
      → InOrder (local_date zone p.at) ps
      → recorded d b ≤ g.daily_turn_budget
      → decide p b ≡ admit
      → Capped d ps (admission_patch zone b p.at p.cost)
      → spends d admit p + spent d ps (admission_patch zone b p.at p.cost) + recorded d b
        ≤ g.daily_turn_budget
  unfolding spends admission_patch is_on
  admit-Capped d e p ps b dated le o r a ih =
      ground
        (arith, ih, spent-past d (local_date zone p.at) ps (admission_patch zone b p.at p.cost))

  admitted-recorded :
      (d e : ℕ) (p : Proposal) (b : TurnBudget)
      → recorded d b ≤ g.daily_turn_budget
      → decide p b ≡ admit
      → recorded d (admission_patch zone b p.at p.cost) ≤ g.daily_turn_budget
  unfolding admission_patch is_on evaluate
  admitted-recorded d e p b r a = ground arith

  DatedBy-later : (e k : ℕ) (o : Option ℕ) → e ≤ k → DatedBy e o → DatedBy k o
  DatedBy-later e k none le h = tt
  DatedBy-later e k (some x) le h = omega arith

  cap_step :
      (d e : ℕ) (p : Proposal) (ps : List Proposal) (b : TurnBudget)
      → DatedBy e b.date
      → e ≤ local_date zone p.at
      → InOrder (local_date zone p.at) ps
      → recorded d b ≤ g.daily_turn_budget
      → ((b' : TurnBudget)
          → DatedBy (local_date zone p.at) b'.date
          → recorded d b' ≤ g.daily_turn_budget
          → Capped d ps b')
      → (c : Decision) → decide p b ≡ c
      → spends d c p + spent d ps (settle c p b) + recorded d b ≤ g.daily_turn_budget
  unfolding spends settle
  cap_step d e p ps b dated le o r ih admit a = admit-Capped d e p ps b dated le o r a (
      ih (admission_patch zone b p.at p.cost) (unfold admission_patch in omega arith)
        (admitted-recorded d e p b r a))
  cap_step d e p ps b dated le o r ih defer a =
      omega (arith, ih b (DatedBy-later e (local_date zone p.at) b.date le dated) r)
  cap_step d e p ps b dated le o r ih skip a =
      omega (arith, ih b (DatedBy-later e (local_date zone p.at) b.date le dated) r)

  -- Whatever the scheduler proposes, as long as the owner's calendar does not go back, the turns
  -- admitted on a local day cost together at most the daily budget, with what the ledger already
  -- held for that day.
  pub spent-le-cap :
      (d e : ℕ) (ps : List Proposal) (b : TurnBudget)
      → DatedBy e b.date
      → InOrder e ps
      → recorded d b ≤ g.daily_turn_budget
      → spent d ps b + recorded d b ≤ g.daily_turn_budget
  unfolding spent
  spent-le-cap d e [] b dated o r = omega arith
  spent-le-cap d e (p ∷ ps) b dated o r =
      cap_step d e p ps b dated o.0 o.1 r
        (λ b' h. spent-le-cap d (local_date zone p.at) ps b' h o.1) (decide p b) refl
