-- ===== src/Parked.antt =====
-- shelldon/core/history.py: parked approvals, parked promotions and the tool-health ledger.
-- A method returns the new store and its result; `park` overwrites a row of the same turn id.
pub mod Once
pub mod Prune
pub mod Strikes
pub mod Samples
use shelldon.Base.{ℕ, ◌+◌, ◌*◌, Option, none, some, Bool, String, List, [], ◌∷◌, leb, if◌then◌else◌}
use shelldon.Base.Table.{Table, find, store, without}
use shelldon.Base.Time.{Instant}
use shelldon.History.{HistoryStore, Approval, Promotion, ToolHealth}

abbrev pub seconds : ℕ
seconds = 1_000_000

abbrev pub default_ttl : ℕ
default_ttl = 3600

-- `DELETE … WHERE expires_at <= now`, of rows with an expiry.
unfoldable pub prune_rows {ℓ} : {V : Type ℓ} → (V → Instant) → Instant → Table V → Table V
prune_rows expiry now [] = []
prune_rows expiry now ((k, v) ∷ m) =
    if leb (expiry v) now then prune_rows expiry now m else (k, v) ∷ prune_rows expiry now m

-- The rows that such a DELETE drops.
unfoldable pub expired_rows {ℓ} : {V : Type ℓ} → (V → Instant) → Instant → Table V → List V
expired_rows expiry now [] = []
expired_rows expiry now ((k, v) ∷ m) =
    if leb (expiry v) now then v ∷ expired_rows expiry now m else expired_rows expiry now m

promotion_result : Option Promotion → Instant → Option String
promotion_result none now = none
promotion_result (some p) now = if leb p.expires_at now then none else some p.tool_name

strikes_of : Option ToolHealth → ℕ
strikes_of none = 0
strikes_of (some t) = t.strikes

module _ {B : Type 0} where
  unfoldable pub park_approval : String → B → Instant → ℕ → HistoryStore B → HistoryStore B
  park_approval turn_id blob now ttl h = record h {
    pending_approvals =
        store turn_id
          (record { created_at = now; expires_at = now + ttl * seconds; state_blob = blob })
          h.pending_approvals;
  }

  approval_result : Option (Approval B) → Instant → Option B
  approval_result none now = none
  approval_result (some a) now = if leb a.expires_at now then none else some a.state_blob

  unfoldable pub take_approval : String → Instant → HistoryStore B → HistoryStore B × Option B
  unfolding approval_result
  take_approval turn_id now h = (
    record h { pending_approvals = without turn_id h.pending_approvals },
    approval_result (find turn_id h.pending_approvals) now,
  )

  unfoldable pub prune_expired_approvals : Instant → HistoryStore B → HistoryStore B
  prune_expired_approvals now h = record h {
    pending_approvals = prune_rows (λ a. a.expires_at) now h.pending_approvals;
  }

  unfoldable pub park_promotion : String → String → Instant → ℕ → HistoryStore B → HistoryStore B
  park_promotion turn_id tool_name now ttl h = record h {
    pending_promotions =
        store turn_id
          (record { created_at = now; expires_at = now + ttl * seconds; tool_name = tool_name })
          h.pending_promotions;
  }

  unfoldable pub take_promotion : String → Instant → HistoryStore B → HistoryStore B × Option String
  unfolding promotion_result
  take_promotion turn_id now h = (
    record h { pending_promotions = without turn_id h.pending_promotions },
    promotion_result (find turn_id h.pending_promotions) now,
  )

  unfoldable pub prune_expired_promotions :
      Instant → HistoryStore B → HistoryStore B × List Promotion
  prune_expired_promotions now h = (
    record h { pending_promotions = prune_rows (λ p. p.expires_at) now h.pending_promotions },
    expired_rows (λ p. p.expires_at) now h.pending_promotions,
  )

  unfoldable pub tool_strikes : String → HistoryStore B → ℕ
  unfolding strikes_of
  tool_strikes name h = strikes_of (find name h.tool_health)

  unfoldable pub record_tool_failure : String → Instant → HistoryStore B → HistoryStore B × ℕ
  unfolding strikes_of
  record_tool_failure name now h =
      let n = strikes_of (find name h.tool_health) + 1 in
      (
        record h {
          tool_health = store name (record { strikes = n; last_seen = now }) h.tool_health;
        },
        n,
      )
