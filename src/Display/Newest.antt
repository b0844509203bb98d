-- ===== src/Display/Newest.antt =====
-- Latest wins, for each region.
use shelldon.Base.{
  ℕ, Option, none, some, Bool, true, false, List, [], ◌∷◌, ◌++◌, if◌then◌else◌, max, ◌≡◌, refl, sym,
  ap, ◌∙◌, subst, ◌⊎◌, inl, inr, arith, Bool-cases,
}
use shelldon.Display.{
  Region, region_eq, Snapshot, Screen, new_screen, stage, is_stale, take_in, render_pass, Step,
  arrives, renders, step, steps,
}
use shelldon.Display.Regions.{
  region_eq_refl, region_eq→eq, region_eq_iff, seqs, Ascends, seqs-append, Ascends-append,
}

abbrev pub best_of : Option ℕ → Option ℕ → Option ℕ
best_of none b = b
best_of (some n) none = some n
best_of (some n) (some m) = some (max n m)

-- The largest sequence number that arrived for a region.
abbrev pub newest : Region → List Step → Option ℕ
newest r [] = none
newest r (arrives s ∷ xs) =
    let rest = newest r xs in if region_eq s.region r then best_of (some s.seq) rest else rest
newest r (renders ∷ xs) = newest r xs

stage_other :
    (r : Region) (s : Snapshot) (ps : List Snapshot)
    → region_eq s.region r ≡ false
    → seqs r (stage s ps) ≡ seqs r ps
unfolding stage
stage_other r s [] h = ground arith
stage_other r s (p ∷ ps) h = ground (
  arith,
  region_eq_iff p.region s.region,
  region_eq_iff p.region r,
  region_eq_iff s.region r,
  stage_other r s ps h,
)

stage_first :
    (s : Snapshot) (ps : List Snapshot)
    → seqs s.region ps ≡ []
    → seqs s.region (stage s ps) ≡ s.seq ∷ []
unfolding stage
stage_first s [] h = ground (arith, region_eq_refl s.region)
stage_first s (p ∷ ps) h = ground (arith, region_eq_refl s.region, stage_first s ps)

stage_again :
    (s : Snapshot) (n : ℕ) (ps : List Snapshot)
    → seqs s.region ps ≡ n ∷ []
    → seqs s.region (stage s ps) ≡ s.seq ∷ []
unfolding stage
stage_again s n [] h = cc
stage_again s n (p ∷ ps) h = ground (arith, region_eq_refl s.region, stage_again s n ps)

-- At most one snapshot waits, and it is newer than what was drawn.
abbrev Waits : Option ℕ → List ℕ → Option ℕ → Type 0
Waits mid ns latest =
    ((ns ≡ []) × (mid ≡ latest))
    ⊎ ((n : ℕ) × ((ns ≡ n ∷ []) × ((is_stale mid n ≡ false) × (latest ≡ some n))))

record Tidy (r : Region) (d : Screen) : Type 0 where
  mid : Option ℕ
  drawn : Ascends none (seqs r d.rendered) mid
  waits : Waits mid (seqs r d.pending) (d.latest_seq r)

stale_trans :
    (o : Option ℕ) (n m : ℕ)
    → is_stale o n ≡ false
    → is_stale (some n) m ≡ false
    → is_stale o m ≡ false
unfolding is_stale
stale_trans none n m h k = refl
stale_trans (some l) n m h k = ground arith

restage :
    (s : Snapshot) (mid latest : Option ℕ) (ps : List Snapshot)
    → Waits mid (seqs s.region ps) latest
    → is_stale latest s.seq ≡ false
    → Waits mid (seqs s.region (stage s ps)) (some s.seq)
restage s mid latest ps (inl (e, same)) h =
    inr (s.seq, (stage_first s ps e, (subst (λ o. is_stale o s.seq ≡ false) (sym same) h, refl)))
restage s mid latest ps (inr (n, (e, (newer, same)))) h = inr (
  s.seq,
  (
    stage_again s n ps e,
    (stale_trans mid n s.seq newer (subst (λ o. is_stale o s.seq ≡ false) same h), refl),
  ),
)

-- The screen after a snapshot that is not stale.
abbrev accepted : Snapshot → Screen → Screen
accepted s d = record d {
  latest_seq = λ r. if region_eq s.region r then some s.seq else d.latest_seq r;
  pending = stage s d.pending;
}

take_in_fresh :
    (s : Snapshot) (d : Screen)
    → is_stale (d.latest_seq s.region) s.seq ≡ false
    → take_in s d ≡ accepted s d
unfolding take_in
take_in_fresh s d h = rw h

take_in_stale :
    (s : Snapshot) (d : Screen) → is_stale (d.latest_seq s.region) s.seq ≡ true → take_in s d ≡ d
unfolding take_in
take_in_stale s d h = rw h

accepted_here :
    (s : Snapshot) (d : Screen)
    → Tidy s.region d
    → is_stale (d.latest_seq s.region) s.seq ≡ false
    → Tidy s.region (accepted s d)
accepted_here s d t h = record {
  mid = t.mid;
  drawn = t.drawn;
  waits =
      rw (region_eq_refl s.region) (restage s t.mid (d.latest_seq s.region) d.pending t.waits h);
}

accepted_there :
    (r : Region) (s : Snapshot) (d : Screen)
    → Tidy r d
    → region_eq s.region r ≡ false
    → Tidy r (accepted s d)
accepted_there r s d t h = record {
  mid = t.mid;
  drawn = t.drawn;
  waits = rw (h, stage_other r s d.pending h) t.waits;
}

take_in-Tidy :
    (r : Region) (s : Snapshot) (d : Screen) → ((q : Region) → Tidy q d) → Tidy r (take_in s d)
take_in-Tidy r s d t = elim (Bool-cases (is_stale (d.latest_seq s.region) s.seq)) [
  | inl stale ↦ rw (take_in_stale s d stale) (t r)
  | inr fresh ↦ rw (take_in_fresh s d fresh) (elim (Bool-cases (region_eq s.region r)) [
    | inl e ↦
        subst (λ q. Tidy q (accepted s d)) (region_eq→eq s.region r e)
          (accepted_here s d (t s.region) fresh)
    | inr n ↦ accepted_there r s d (t r) n
  ])
]

settled :
    (r : Region) (d : Screen)
    → Tidy r d
    → Ascends none (seqs r (d.rendered ++ d.pending)) (d.latest_seq r)
settled r d t = rw (seqs-append r d.rendered d.pending) (
    Ascends-append none (seqs r d.rendered) (seqs r d.pending) t.mid (d.latest_seq r) t.drawn
      (waiting t.mid (seqs r d.pending) (d.latest_seq r) t.waits))
  where
    waiting : (m : Option ℕ) (ns : List ℕ) (l : Option ℕ) → Waits m ns l → Ascends m ns l
    waiting m ns l (inl (e, same)) = rw e same
    waiting m ns l (inr (n, (e, (newer, same)))) = rw e (newer, sym same)

step-Tidy : (x : Step) (d : Screen) → ((q : Region) → Tidy q d) → (q : Region) → Tidy q (step x d)
unfolding step render_pass
step-Tidy (arrives s) d t q = take_in-Tidy q s d t
step-Tidy renders d t q = record {
  mid = d.latest_seq q;
  drawn = settled q d (t q);
  waits = inl (refl, refl);
}

-- What a snapshot does to the latest number of a region.
abbrev arrived : Region → Snapshot → Option ℕ
arrived r s = if region_eq s.region r then some s.seq else none

best_of_empty : (o : Option ℕ) → best_of o none ≡ o
best_of_empty none = refl
best_of_empty (some n) = refl

best_of_assoc : (a b c : Option ℕ) → best_of (best_of a b) c ≡ best_of a (best_of b c)
best_of_assoc none b c = refl
best_of_assoc (some n) none c = refl
best_of_assoc (some n) (some m) none = refl
best_of_assoc (some n) (some m) (some k) = ap some (omega arith)

best_stale : (o : Option ℕ) (n : ℕ) → is_stale o n ≡ true → best_of o (some n) ≡ o
unfolding is_stale
best_stale none n h = cc
best_stale (some l) n h = ap some (ground arith)

best_fresh : (o : Option ℕ) (n : ℕ) → is_stale o n ≡ false → best_of o (some n) ≡ some n
unfolding is_stale
best_fresh none n h = refl
best_fresh (some l) n h = ap some (ground arith)

take_in_latest :
    (r : Region) (s : Snapshot) (d : Screen)
    → (take_in s d).latest_seq r ≡ best_of (d.latest_seq r) (arrived r s)
take_in_latest r s d = elim (Bool-cases (is_stale (d.latest_seq s.region) s.seq)) [
  | inl stale ↦ rw (take_in_stale s d stale) (sym (kept stale))
  | inr fresh ↦ rw (take_in_fresh s d fresh) (sym (moved fresh))
]
  where
    kept :
        is_stale (d.latest_seq s.region) s.seq ≡ true
        → best_of (d.latest_seq r) (arrived r s) ≡ d.latest_seq r
    kept h = elim (Bool-cases (region_eq s.region r)) [
      | inl e ↦ rw e (
          subst (λ q. best_of (d.latest_seq q) (some s.seq) ≡ d.latest_seq q)
            (region_eq→eq s.region r e) (best_stale (d.latest_seq s.region) s.seq h))
      | inr n ↦ rw n (best_of_empty (d.latest_seq r))
    ]

    moved :
        is_stale (d.latest_seq s.region) s.seq ≡ false
        → best_of (d.latest_seq r) (arrived r s) ≡ (accepted s d).latest_seq r
    moved h = elim (Bool-cases (region_eq s.region r)) [
      | inl e ↦ rw e (
          subst (λ q. best_of (d.latest_seq q) (some s.seq) ≡ some s.seq)
            (region_eq→eq s.region r e) (best_fresh (d.latest_seq s.region) s.seq h))
      | inr n ↦ rw n (best_of_empty (d.latest_seq r))
    ]

steps-Tidy :
    (xs : List Step) (d : Screen)
    → ((q : Region) → Tidy q d)
    → (r : Region)
    → Tidy r (steps xs d) × ((steps xs d).latest_seq r ≡ best_of (d.latest_seq r) (newest r xs))
unfolding steps
steps-Tidy [] d t r = (t r, sym (best_of_empty (d.latest_seq r)))
steps-Tidy (arrives s ∷ xs) d t r =
    let rest = steps-Tidy xs (step (arrives s) d) (step-Tidy (arrives s) d t) r in
    (
      rest.0,
      rest.1
          ∙ rw (take_in_latest r s d, best_of_assoc (d.latest_seq r) (arrived r s) (newest r xs))
              (ap (best_of (d.latest_seq r))
                (arrived_best (region_eq s.region r) s.seq (newest r xs))),
    )
  where
    arrived_best :
        (b : Bool) (n : ℕ) (o : Option ℕ)
        → best_of (if b then some n else none) o ≡ (if b then best_of (some n) o else o)
    arrived_best true n o = refl
    arrived_best false n o = refl
steps-Tidy (renders ∷ xs) d t r = steps-Tidy xs (step renders d) (step-Tidy renders d t) r

-- Whatever arrives and however often the render loop runs in between, each region's snapshots are
-- drawn in strictly increasing order of their numbers, and the last one drawn or about to be drawn
-- is the newest that arrived: nothing stale is ever painted, and the newest is never lost.
pub steps-Ascends :
    (xs : List Step) (r : Region)
    → let d = steps xs new_screen in Ascends none (seqs r (d.rendered ++ d.pending)) (newest r xs)
unfolding new_screen
steps-Ascends xs r =
    let run =
      steps-Tidy xs new_screen (λ q. record { mid = none; drawn = refl; waits = inl (refl, refl) })
        r in
    subst (Ascends none (seqs r ((steps xs new_screen).rendered ++ (steps xs new_screen).pending)))
      run.1 (settled r (steps xs new_screen) run.0)
