-- ===== src/Parked/Prune.antt =====
-- The housekeeping job deletes only what no tap could use any more.
use shelldon.Base.{
  ℕ, ◌≤◌, ◌≡◌, refl, Option, none, some, String, [], ◌∷◌, leb, str_eq, eq_iff, arith, if◌then◌else◌,
  Bool-cases, inl, inr,
}
use shelldon.Base.Table.{Table, find, store, find-store}
use shelldon.Base.Time.{Instant}
use shelldon.History.{HistoryStore, Approval, Promotion}
use shelldon.Parked.{
  take_approval, prune_expired_approvals, take_promotion, prune_expired_promotions, prune_rows,
  park_approval,
}

module _ {ℓ} {V : Type ℓ} where
  -- The primary key: no key stands twice.
  abbrev pub IsKeyed : Table V → Type ℓ
  IsKeyed [] = Unit
  IsKeyed ((k, v) ∷ m) = (find k m ≡ none) × IsKeyed m

  IsKeyed-store : (k : String) (v : V) (m : Table V) → IsKeyed m → IsKeyed (store k v m)
  unfolding store find
  IsKeyed-store k v [] u = (refl, tt)
  IsKeyed-store k v ((j, w) ∷ m) u = elim (Bool-cases (str_eq j k)) [
    | inl e ↦ rw e (ground (arith, eq_iff j k), u.1)
    | inr e ↦
        rw e (ground (arith, find-store k j v m, eq_iff j k, eq_iff k j), IsKeyed-store k v m u.1)
  ]

  find-prune_none :
      (expiry : V → Instant) (k : String) (now : Instant) (m : Table V)
      → find k m ≡ none
      → find k (prune_rows expiry now m) ≡ none
  unfolding prune_rows find
  find-prune_none expiry k now [] h = refl
  find-prune_none expiry k now ((j, v) ∷ m) h = ground (arith, find-prune_none expiry k now m)

  -- What a row still yields, or `none` once it has expired.
  abbrev alive : (V → Instant) → Instant → Option V → Option V
  alive expiry now none = none
  alive expiry now (some v) = if leb (expiry v) now then none else some v

  find-prune :
      (expiry : V → Instant) (k : String) (now : Instant) (m : Table V)
      → IsKeyed m
      → find k (prune_rows expiry now m) ≡ alive expiry now (find k m)
  unfolding prune_rows find
  find-prune expiry k now [] u = refl
  find-prune expiry k now ((j, v) ∷ m) u =
      ground (arith, find-prune expiry k now m, find-prune_none expiry j now m u.0, eq_iff j k)

module _ {B : Type 0} (h : HistoryStore B) (k : String) (t now : Instant) where
  -- Pruning at `t` changes the answer to no tap at `t` or later: what it deleted had expired.
  pub take-prune_approval :
      IsKeyed h.pending_approvals
      → t ≤ now
      → (take_approval k now (prune_expired_approvals t h)).1 ≡ (take_approval k now h).1
  unfolding take_approval prune_expired_approvals
  take-prune_approval u le =
      ground (arith, find-prune (λ (a : Approval B). a.expires_at) k t h.pending_approvals)

  -- The same for promotions.
  pub take-prune_promotion :
      IsKeyed h.pending_promotions
      → t ≤ now
      → (take_promotion k now (prune_expired_promotions t h).0).1 ≡ (take_promotion k now h).1
  unfolding take_promotion prune_expired_promotions
  take-prune_promotion u le =
      ground (arith, find-prune (λ (p : Promotion). p.expires_at) k t h.pending_promotions)

-- Parking keeps the key unique.
pub IsKeyed-park_approval :
    {B : Type 0} (k : String) (blob : B) (t : Instant) (ttl : ℕ) (h : HistoryStore B)
    → IsKeyed h.pending_approvals
    → IsKeyed (park_approval k blob t ttl h).pending_approvals
unfolding park_approval
IsKeyed-park_approval k blob t ttl h u = IsKeyed-store k _ h.pending_approvals u
