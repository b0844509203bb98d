-- ===== src/Reactions/Bounded.antt =====
-- A nudge keeps the mood in its bounds, and moves it only a little.
use shelldon.Base.{
  ℕ, ◌+◌, ◌-◌, ◌≤◌, Option, none, some, ltb, ◌==◌, if◌then◌else◌, ◌≡◌, refl, inl, inr, arith,
  Bool-cases,
}
use shelldon.Faces.{minus_one, plus_one}
use shelldon.Plugins.{
  EventKind, message_answered, tool_used, day_alive, button_pressed, presence_arrived,
  presence_left, nudge_positive, nudge_negative, nudge_excited, nudge_calm,
}
use shelldon.Reactions.{
  Delta, up, down, nudge_deltas, shift, clamp, MoodPatch, moved, unless_empty, patch_for,
  compute_nudge_patch,
}

-- The value of an axis after a patch.
abbrev pub patched : Option ℕ → ℕ → ℕ
patched none x = x
patched (some y) x = y

abbrev pub valence_after : Option MoodPatch → ℕ → ℕ
valence_after none v = v
valence_after (some p) v = patched p.valence v

abbrev pub arousal_after : Option MoodPatch → ℕ → ℕ
arousal_after none a = a
arousal_after (some p) a = patched p.arousal a

-- In the bounds, and at most 0.3 from `x`.
abbrev pub Near : ℕ → ℕ → Type 0
Near x y = ((minus_one ≤ y) × (y ≤ plus_one)) × ((y ≤ x + 300) × (x ≤ y + 300))

IsSmall : Delta → Type 0
IsSmall (up n) = n ≤ 300
IsSmall (down n) = n ≤ 300

kept : (x c : ℕ) → patched (if c == x then none else some c) x ≡ c
kept x c = elim (Bool-cases (c == x)) [ inl e ↦ rw e (ground arith) | inr e ↦ rw e refl ]

moved_value : (x : ℕ) (d : Delta) → patched (moved x d) x ≡ clamp (shift x d) minus_one plus_one
unfolding moved
moved_value x d = kept x (clamp (shift x d) minus_one plus_one)

clamp-Near :
    (x y : ℕ)
    → (minus_one ≤ x) × (x ≤ plus_one)
    → y ≤ x + 300
    → x ≤ y + 300
    → Near x (clamp y minus_one plus_one)
unfolding clamp
clamp-Near x y b h k = elim (Bool-cases (ltb y minus_one)) [
  | inl low ↦ rw low ((omega arith, omega arith), (omega (arith, b.0), under (ground arith)))
  | inr not_low ↦ rw not_low (elim (Bool-cases (ltb plus_one y)) [
    | inl high ↦ rw high ((omega arith, omega arith), (over (ground arith), omega (arith, b.1)))
    | inr not_high ↦ rw not_high ((ground arith, ground arith), (h, k))
  ])
]
  where
    under : y ≤ minus_one → x ≤ minus_one + 300
    under l = omega (arith, k)

    over : plus_one ≤ y → plus_one ≤ x + 300
    over l = omega (arith, h)

moved-Near :
    (x : ℕ) (d : Delta)
    → (minus_one ≤ x) × (x ≤ plus_one)
    → IsSmall d
    → Near x (patched (moved x d) x)
unfolding shift IsSmall
moved-Near x (up n) b s =
    rw (moved_value x (up n)) (clamp-Near x (x + n) b (omega arith) (omega arith))
moved-Near x (down n) b s =
    rw (moved_value x (down n)) (clamp-Near x (x - n) b (omega arith) (omega arith))

empty_valence : (o p : Option ℕ) (v : ℕ) → valence_after (unless_empty o p) v ≡ patched o v
unfolding unless_empty
empty_valence none none v = refl
empty_valence none (some a) v = refl
empty_valence (some w) p v = refl

empty_arousal : (o p : Option ℕ) (a : ℕ) → arousal_after (unless_empty o p) a ≡ patched p a
unfolding unless_empty
empty_arousal none none a = refl
empty_arousal none (some b) a = refl
empty_arousal (some w) p a = refl

AreSmall : Option (Delta × Delta) → Type 0
unfolding IsSmall
AreSmall none = Unit
AreSmall (some (dv, da)) = IsSmall dv × IsSmall da

nudge_deltas-AreSmall : (e : EventKind) → AreSmall (nudge_deltas e)
unfolding nudge_deltas AreSmall
nudge_deltas-AreSmall nudge_positive = (omega arith, omega arith)
nudge_deltas-AreSmall nudge_negative = (omega arith, omega arith)
nudge_deltas-AreSmall nudge_excited = (omega arith, omega arith)
nudge_deltas-AreSmall nudge_calm = (omega arith, omega arith)
nudge_deltas-AreSmall message_answered = tt
nudge_deltas-AreSmall tool_used = tt
nudge_deltas-AreSmall day_alive = tt
nudge_deltas-AreSmall button_pressed = tt
nudge_deltas-AreSmall presence_arrived = tt
nudge_deltas-AreSmall presence_left = tt

-- From a mood in its bounds, any event whatever leaves the mood in its bounds, and moves neither axis
-- by more than 0.3.
pub nudge-Near :
    (e : EventKind) (v a : ℕ)
    → (minus_one ≤ v) × (v ≤ plus_one)
    → (minus_one ≤ a) × (a ≤ plus_one)
    → Near v (valence_after (compute_nudge_patch e v a) v)
      × Near a (arousal_after (compute_nudge_patch e v a) a)
unfolding compute_nudge_patch patch_for AreSmall
nudge-Near e v a hv ha = split (nudge_deltas e) (nudge_deltas-AreSmall e)
  where
    split :
        (o : Option (Delta × Delta))
        → AreSmall o
        → Near v (valence_after (patch_for o v a) v) × Near a (arousal_after (patch_for o v a) a)
    split none s = ((hv, (omega arith, omega arith)), (ha, (omega arith, omega arith)))
    split (some (dv, da)) s = (
      rw (empty_valence (moved v dv) (moved a da) v) (moved-Near v dv hv s.0),
      rw (empty_arousal (moved v dv) (moved a da) a) (moved-Near a da ha s.1),
    )
