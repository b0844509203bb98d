-- ===== src/Parked/Strikes.antt =====
-- The strike ledger counts the failures of each tool.
use shelldon.Base.{ℕ, ◌+◌, ◌≡◌, String, List, [], ◌∷◌, str_eq, eq_iff, arith, if◌then◌else◌}
use shelldon.Base.Table.{find, find-store}
use shelldon.Base.Time.{Instant}
use shelldon.History.{HistoryStore}
use shelldon.Parked.{strikes_of, tool_strikes, record_tool_failure}

-- The failures of one tool in a list of failures.
abbrev pub failures_of : String → List (String × Instant) → ℕ
failures_of n [] = 0
failures_of n ((k, t) ∷ fs) = (if str_eq k n then 1 else 0) + failures_of n fs

module _ {B : Type 0} where
  unfoldable pub record_all : List (String × Instant) → HistoryStore B → HistoryStore B
  record_all [] h = h
  record_all ((k, t) ∷ fs) h = record_all fs (record_tool_failure k t h).0

  strikes-record :
      (k n : String) (t : Instant) (h : HistoryStore B)
      → tool_strikes n (record_tool_failure k t h).0
        ≡ (if str_eq k n then 1 else 0) + tool_strikes n h
  unfolding tool_strikes record_tool_failure
  strikes-record k n t h = ground (
    arith,
    eq_iff k n,
    find-store k n (record { strikes = strikes_of (find k h.tool_health) + 1; last_seen = t })
        h.tool_health,
  )

  -- After any failures, each tool's strikes have grown by exactly its own failures.
  pub strikes-record_all :
      (n : String) (fs : List (String × Instant)) (h : HistoryStore B)
      → tool_strikes n (record_all fs h) ≡ failures_of n fs + tool_strikes n h
  unfolding record_all
  strikes-record_all n [] h = omega arith
  strikes-record_all n ((k, t) ∷ fs) h =
      omega (arith, strikes-record_all n fs (record_tool_failure k t h).0, strikes-record k n t h)

  -- The count that `record_tool_failure` returns is the tool's count after it.
  pub record_tool_failure_count :
      (n : String) (t : Instant) (h : HistoryStore B)
      → (record_tool_failure n t h).1 ≡ tool_strikes n (record_tool_failure n t h).0
  unfolding record_tool_failure tool_strikes
  record_tool_failure_count n t h = ground (
    arith,
    eq_iff n n,
    find-store n n (record { strikes = strikes_of (find n h.tool_health) + 1; last_seen = t })
        h.tool_health,
  )
