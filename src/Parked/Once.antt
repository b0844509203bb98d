-- ===== src/Parked/Once.antt =====
-- A parked action is consumed at most once, and never after its time to live.
use shelldon.Base.{ℕ, ◌+◌, ◌*◌, ◌≡◌, none, some, String, ltb, str_eq, arith, if◌then◌else◌}
use shelldon.Base.Table.{find-store, find-without}
use shelldon.History.{HistoryStore}
use shelldon.Parked.{seconds, park_approval, take_approval, park_promotion, take_promotion}

module _ {B : Type 0} (h : HistoryStore B) where
  -- A tap on the approval of turn `j`, after one of turn `k` was parked at `t`: for `k` itself it
  -- returns the parked state exactly while the time to live has not run out; for any other turn
  -- the new row makes no difference.
  pub take-park_approval :
      (k j : String) (blob : B) (t ttl now : ℕ)
      → (take_approval j now (park_approval k blob t ttl h)).1 ≡ (
          if str_eq k j
          then (if ltb now (t + ttl * seconds) then some blob else none)
          else (take_approval j now h).1)
  unfolding take_approval park_approval
  take-park_approval k j blob t ttl now = ground (
    arith,
    find-store k j (record { created_at = t; expires_at = t + ttl * seconds; state_blob = blob })
        h.pending_approvals,
  )

  -- A second tap on the same approval finds nothing, whenever the first one came and whether or not
  -- it was too late; a tap on another approval finds what it would have found.
  pub take-take_approval :
      (k j : String) (t now : ℕ)
      → (take_approval j now (take_approval k t h).0).1
        ≡ (if str_eq k j then none else (take_approval j now h).1)
  unfolding take_approval
  take-take_approval k j t now = ground (arith, find-without k j h.pending_approvals)

  -- The same for promotions: consumed once, and only within the time to live.
  pub take-park_promotion :
      (k j tool : String) (t ttl now : ℕ)
      → (take_promotion j now (park_promotion k tool t ttl h)).1 ≡ (
          if str_eq k j
          then (if ltb now (t + ttl * seconds) then some tool else none)
          else (take_promotion j now h).1)
  unfolding take_promotion park_promotion
  take-park_promotion k j tool t ttl now = ground (
    arith,
    find-store k j (record { created_at = t; expires_at = t + ttl * seconds; tool_name = tool })
        h.pending_promotions,
  )

  -- A second tap on the same promotion finds nothing.
  pub take-take_promotion :
      (k j : String) (t now : ℕ)
      → (take_promotion j now (take_promotion k t h).0).1
        ≡ (if str_eq k j then none else (take_promotion j now h).1)
  unfolding take_promotion
  take-take_promotion k j t now = ground (arith, find-without k j h.pending_promotions)
