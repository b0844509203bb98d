-- ===== src/Plugins/Counting.antt =====
-- What the loops over one manifest's claims add to the tables.
use shelldon.Base.{
  ℕ, ◌+◌, Option, none, some, Bool, true, false, String, List, [], ◌∷◌, ◌≡◌, refl, sym, ap, inl,
  inr, count_of, if◌then◌else◌, arith, Bool-cases, str_eq, eq_iff,
}
use shelldon.Base.Result.{ok, err, load_error}
use shelldon.Base.Table.{Table, find, store, find-store}
use shelldon.Display.{Region, face, region_eq}
use shelldon.Display.Regions.{region_eq_iff}
use shelldon.Plugins.{claim_regions, claim_resources}

-- How often a region, or a resource, stands in a list of claims.
abbrev pub region_count : Region → List Region → ℕ
region_count r [] = 0
region_count r (q ∷ qs) = count_of (region_eq q r) + region_count r qs

abbrev pub resource_count : String → List String → ℕ
resource_count k [] = 0
resource_count k (j ∷ js) = count_of (str_eq j k) + resource_count k js

-- 1 when somebody holds the claim.
abbrev pub held_count : Option String → ℕ
held_count none = 0
held_count (some n) = 1

pub ok_injective : {A : Type 0} (a b : A) → ok a ≡ ok b → a ≡ b
ok_injective a b e = cc

abbrev claim : String → Region → (Region → Option String) → Region → Option String
claim name q held r = if region_eq q r then some name else held r

claim_count :
    (name : String) (q r : Region) (held : Region → Option String)
    → held q ≡ none
    → held_count (claim name q held r) ≡ count_of (region_eq q r) + held_count (held r)
claim_count name q r held h = elim (Bool-cases (region_eq q r)) [
  | inl e ↦ rw (e, sym ((region_eq_iff q r).0 e), h) (omega arith)
  | inr n ↦ rw n (omega arith)
]

claim_regions_step :
    (name : String) (q : Region) (rs : List Region) (held after : Region → Option String)
    → claim_regions name (q ∷ rs) held ≡ ok after
    → (region_eq q face ≡ false)
      × ((held q ≡ none) × (claim_regions name rs (claim name q held) ≡ ok after))
unfolding claim_regions
claim_regions_step name q rs held after e = split (region_eq q face) (held q) refl refl e
  where
    split :
        (b : Bool) (o : Option String)
        → region_eq q face ≡ b
        → held q ≡ o
        → (if b then err load_error else elim o [
          | some owner ↦ err load_error
          | none ↦ claim_regions name rs (claim name q held)
        ])
          ≡ ok after
        → (region_eq q face ≡ false)
          × ((held q ≡ none) × (claim_regions name rs (claim name q held) ≡ ok after))
    split true o h k e = cc
    split false (some n) h k e = cc
    split false none h k e = (h, (k, e))

pub claim_regions_ok :
    (name : String) (rs : List Region) (held after : Region → Option String)
    → claim_regions name rs held ≡ ok after
    → (region_count face rs ≡ 0)
      × ((r : Region) → held_count (after r) ≡ region_count r rs + held_count (held r))
unfolding claim_regions
claim_regions_ok name [] held after e =
    (refl, λ r. omega (arith, ap (λ f. held_count (f r)) (ok_injective held after e)))
claim_regions_ok name (q ∷ rs) held after e =
    let (other, (open_, next)) = claim_regions_step name q rs held after e in
    let (none_face, counts) = claim_regions_ok name rs (claim name q held) after next in
    (
      rw other (omega (arith, none_face)),
      λ r. omega (arith, counts r, claim_count name q r held open_),
    )

claim_resources_step :
    (name q : String) (rs : List String) (held after : Table String)
    → claim_resources name (q ∷ rs) held ≡ ok after
    → (find q held ≡ none) × (claim_resources name rs (store q name held) ≡ ok after)
unfolding claim_resources
claim_resources_step name q rs held after e = split (find q held) refl e
  where
    split :
        (o : Option String)
        → find q held ≡ o
        → (elim o [
          | some owner ↦ err load_error
          | none ↦ claim_resources name rs (store q name held)
        ])
          ≡ ok after
        → (find q held ≡ none) × (claim_resources name rs (store q name held) ≡ ok after)
    split (some n) k e = cc
    split none k e = (k, e)

store_count :
    (name q k : String) (held : Table String)
    → find q held ≡ none
    → held_count (find k (store q name held)) ≡ count_of (str_eq q k) + held_count (find k held)
store_count name q k held h = elim (Bool-cases (str_eq q k)) [
  | inl e ↦ rw (find-store q k name held, e, sym ((eq_iff q k).0 e), h) (omega arith)
  | inr n ↦ rw (find-store q k name held, n) (omega arith)
]

pub claim_resources_ok :
    (name : String) (rs : List String) (held after : Table String)
    → claim_resources name rs held ≡ ok after
    → (k : String) → held_count (find k after) ≡ resource_count k rs + held_count (find k held)
unfolding claim_resources
claim_resources_ok name [] held after e k =
    omega (arith, ap (λ m. held_count (find k m)) (ok_injective held after e))
claim_resources_ok name (q ∷ rs) held after e k =
    let (free, next) = claim_resources_step name q rs held after e in
    omega (
      arith,
      claim_resources_ok name rs (store q name held) after next k,
      store_count name q k held free,
    )
