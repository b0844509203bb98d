-- ===== src/History/Learnings.antt =====
-- The learnings: one row for each pattern key, and its recurrences are counted.
use shelldon.Base.{
  ℕ, ◌+◌, ◌≡◌, refl, ap, Option, none, some, Bool, true, false, List, [], ◌∷◌, ◌++◌, if◌then◌else◌,
  arith, any_pass,
}
use shelldon.Base.Text.{Text, strip, is_blank, text_eq, text_eq→eq}
use shelldon.Base.Time.{Instant}
use shelldon.History.{
  HistoryStore, Learning, has_key, upsert, new_learning, next_learning, capture_as,
  capture_learning, clean_key,
}

-- Some row has the key `k`.
abbrev pub keyed : Text → List Learning → Bool
keyed k rs = any_pass (λ r. has_key r.pattern_key k) rs

-- The unique partial index: no key stands in two rows; rows without a key are exempt.
abbrev pub KeyIsFree : Option Text → List Learning → Type 0
KeyIsFree none rs = Unit
KeyIsFree (some k) rs = keyed k rs ≡ false

abbrev pub HasUniqueKeys : List Learning → Type 0
HasUniqueKeys [] = Unit
HasUniqueKeys (r ∷ rs) = KeyIsFree r.pattern_key rs × HasUniqueKeys rs

-- The recurrences that the row with the key `k` counts, the first one if there were several.
unfoldable pub recurrences : Text → List Learning → ℕ
recurrences k [] = 0
recurrences k (r ∷ rs) =
    let rest = recurrences k rs in if has_key r.pattern_key k then r.recurrence_count else rest

key_of : Option Text → Text → ℕ
key_of none k = 0
key_of (some j) k = if text_eq j k then 1 else 0

-- The clean key of a capture is `k`, and the capture is not blank.
unfoldable pub counts_for : Text → Text → Option Text → ℕ
unfolding key_of
counts_for k observation pattern_key =
    if is_blank observation then 0 else key_of (clean_key pattern_key) k

same_key : (o : Option Text) (j k : Text) → has_key o j ≡ true → has_key o k ≡ text_eq j k
unfolding has_key
same_key none j k h = cc
same_key (some i) j k h = ap (λ (t : Text). text_eq t k) (text_eq→eq i j h)

equal_keys : (o : Option Text) (j k : Text) → text_eq j k ≡ true → has_key o j ≡ has_key o k
equal_keys o j k h = ap (has_key o) (text_eq→eq j k h)

recurrences-upsert :
    (k j : Text) (n : ℕ) (obs : Text) (now : Instant) (rs : List Learning)
    → recurrences k (upsert j (new_learning n (some j) obs now) now rs)
      ≡ (if text_eq j k then 1 else 0) + recurrences k rs
unfolding recurrences upsert new_learning
recurrences-upsert k j n obs now [] = ground arith
recurrences-upsert k j n obs now (r ∷ rs) = ground (
  arith,
  recurrences-upsert k j n obs now rs,
  same_key r.pattern_key j k,
  equal_keys r.pattern_key j k,
)

recurrences-append :
    (k : Text) (rs : List Learning) (r : Learning)
    → has_key r.pattern_key k ≡ false
    → recurrences k (rs ++ r ∷ []) ≡ recurrences k rs
unfolding recurrences
recurrences-append k [] r h = ground arith
recurrences-append k (s ∷ rs) r h = ground (arith, recurrences-append k rs r h)

capture_counts :
    (k : Text) (o : Option Text) (obs : Text) (now : Instant) (rs : List Learning)
    → recurrences k (capture_as o obs now rs) ≡ key_of o k + recurrences k rs
unfolding capture_as recurrences key_of
capture_counts k none obs now rs =
    omega (arith, recurrences-append k rs (new_learning (next_learning rs) none obs now) refl)
capture_counts k (some j) obs now rs = recurrences-upsert k j (next_learning rs) obs now rs

-- An observation that the hot path captures.
pub record Capture : Type 0 where
  pub observation : Text
  pub pattern_key : Option Text
  pub at : Instant

abbrev pub captures_of : Text → List Capture → ℕ
captures_of k [] = 0
captures_of k (c ∷ cs) = counts_for k c.observation c.pattern_key + captures_of k cs

module _ {B : Type 0} where
  unfoldable pub capture_all : List Capture → HistoryStore B → HistoryStore B
  capture_all [] h = h
  capture_all (c ∷ cs) h = capture_all cs (capture_learning c.observation c.pattern_key c.at h)

  pub capture_once :
      (k : Text) (c : Capture) (h : HistoryStore B)
      → recurrences k (capture_learning c.observation c.pattern_key c.at h).learnings
        ≡ counts_for k c.observation c.pattern_key + recurrences k h.learnings
  unfolding capture_learning counts_for
  capture_once k c h =
      ground
        (arith, capture_counts k (clean_key c.pattern_key) (strip c.observation) c.at h.learnings)
