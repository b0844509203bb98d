-- ===== src/Display/Regions.antt =====
-- The snapshots of one region, and strictly increasing numbers.
use shelldon.Base.{
  ℕ, Option, some, true, false, List, [], ◌∷◌, ◌++◌, if◌then◌else◌, ◌≡◌, refl, sym, subst, ◌↔◌,
  arith,
}
use shelldon.Display.{Region, face, status_bar, caption, battery, region_eq, Snapshot, is_stale}

pub region_eq_refl : (a : Region) → region_eq a a ≡ true
unfolding region_eq
region_eq_refl face = refl
region_eq_refl status_bar = refl
region_eq_refl caption = refl
region_eq_refl battery = refl

pub region_eq→eq : (a b : Region) → region_eq a b ≡ true → a ≡ b
unfolding region_eq
region_eq→eq face face h = refl
region_eq→eq status_bar status_bar h = refl
region_eq→eq caption caption h = refl
region_eq→eq battery battery h = refl
region_eq→eq face status_bar h = cc
region_eq→eq face caption h = cc
region_eq→eq face battery h = cc
region_eq→eq status_bar face h = cc
region_eq→eq status_bar caption h = cc
region_eq→eq status_bar battery h = cc
region_eq→eq caption face h = cc
region_eq→eq caption status_bar h = cc
region_eq→eq caption battery h = cc
region_eq→eq battery face h = cc
region_eq→eq battery status_bar h = cc
region_eq→eq battery caption h = cc

pub region_eq_iff : (a b : Region) → (region_eq a b ≡ true) ↔ (a ≡ b)
region_eq_iff a b = (region_eq→eq a b, λ e. subst (λ c. region_eq a c ≡ true) e (region_eq_refl a))

-- The sequence numbers of one region's snapshots.
abbrev pub seqs : Region → List Snapshot → List ℕ
seqs r [] = []
seqs r (s ∷ ss) = if region_eq s.region r then s.seq ∷ seqs r ss else seqs r ss

-- Strictly increasing from above `lo`, with `hi` the last number.
abbrev pub Ascends : Option ℕ → List ℕ → Option ℕ → Type 0
Ascends lo [] hi = lo ≡ hi
Ascends lo (n ∷ ns) hi = (is_stale lo n ≡ false) × Ascends (some n) ns hi

pub seqs-append : (r : Region) (a b : List Snapshot) → seqs r (a ++ b) ≡ seqs r a ++ seqs r b
seqs-append r [] b = refl
seqs-append r (s ∷ a) b = ground (arith, seqs-append r a b)

pub Ascends-append :
    (lo : Option ℕ) (a b : List ℕ) (mid hi : Option ℕ)
    → Ascends lo a mid
    → Ascends mid b hi
    → Ascends lo (a ++ b) hi
Ascends-append lo [] b mid hi p q = subst (λ m. Ascends m b hi) (sym p) q
Ascends-append lo (n ∷ a) b mid hi p q = (p.0, Ascends-append (some n) a b mid hi p.1 q)
