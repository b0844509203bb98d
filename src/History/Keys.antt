-- ===== src/History/Keys.antt =====
-- The unique index on pattern keys, and the status of a learning.
use shelldon.Base.{
  ℕ, ◌+◌, ◌≡◌, refl, Option, none, some, Bool, true, false, List, [], ◌∷◌, ◌++◌, ◌==◌, ◌&&◌, arith,
  Bool-cases, inl, inr, any_pass,
}
use shelldon.Base.Text.{Text, strip, is_blank, text_eq, text_eq_refl, text_eq→eq}
use shelldon.Base.Time.{Instant}
use shelldon.History.{
  HistoryStore, Learning, Status, has_key, upsert, new_learning, capture_as, capture_learning,
  clean_key, is_pending, resolve_rows, resolve_learning,
}
use shelldon.History.Learnings.{
  keyed, KeyIsFree, HasUniqueKeys, Capture, recurrences, captures_of, capture_all, capture_once,
}

has_key_swap : (o : Option Text) (j k : Text) → o ≡ some k → has_key o j ≡ true → text_eq j k ≡ true
unfolding has_key
has_key_swap none j k e h = cc
has_key_swap (some i) j k e h = ground (arith, text_eq→eq i j, text_eq_refl k)

keyed-upsert :
    (k j : Text) (new : Learning) (now : Instant) (rs : List Learning)
    → new.pattern_key ≡ some j
    → text_eq j k ≡ false
    → keyed k (upsert j new now rs) ≡ keyed k rs
unfolding upsert has_key
keyed-upsert k j new now [] e h = rw e (ground arith)
keyed-upsert k j new now (r ∷ rs) e h = ground (arith, keyed-upsert k j new now rs)

KeyIsFree-upsert :
    (o : Option Text) (j : Text) (new : Learning) (now : Instant) (rs : List Learning)
    → new.pattern_key ≡ some j
    → has_key o j ≡ false
    → KeyIsFree o rs
    → KeyIsFree o (upsert j new now rs)
unfolding has_key
KeyIsFree-upsert none j new now rs e h f = tt
KeyIsFree-upsert (some k) j new now rs e h f =
    ground (arith, keyed-upsert k j new now rs, text_eq→eq j k, text_eq_refl j)

upsert_unique :
    (j : Text) (new : Learning) (now : Instant) (rs : List Learning)
    → new.pattern_key ≡ some j
    → HasUniqueKeys rs
    → HasUniqueKeys (upsert j new now rs)
unfolding upsert
upsert_unique j new now [] e u = rw e (refl, tt)
upsert_unique j new now (r ∷ rs) e u = elim (Bool-cases (has_key r.pattern_key j)) [
  | inl hit ↦ rw hit u
  | inr miss ↦
      rw miss
        (KeyIsFree-upsert r.pattern_key j new now rs e miss u.0, upsert_unique j new now rs e u.1)
]

KeyIsFree-append :
    (o : Option Text) (rs : List Learning) (r : Learning)
    → r.pattern_key ≡ none
    → KeyIsFree o rs
    → KeyIsFree o (rs ++ r ∷ [])
KeyIsFree-append none rs r e f = tt
KeyIsFree-append (some k) [] r e f = rw e (unfold has_key in refl)
KeyIsFree-append (some k) (s ∷ rs) r e f = ground (arith, KeyIsFree-append (some k) rs r e)

append_unique :
    (rs : List Learning) (r : Learning)
    → r.pattern_key ≡ none
    → HasUniqueKeys rs
    → HasUniqueKeys (rs ++ r ∷ [])
append_unique [] r e u = rw e (tt, tt)
append_unique (s ∷ rs) r e u = (KeyIsFree-append s.pattern_key rs r e u.0, append_unique rs r e u.1)

capture_as_unique :
    (o : Option Text) (obs : Text) (now : Instant) (rs : List Learning)
    → HasUniqueKeys rs
    → HasUniqueKeys (capture_as o obs now rs)
unfolding capture_as
capture_as_unique none obs now rs u = append_unique rs _ refl u
capture_as_unique (some k) obs now rs u = upsert_unique k _ now rs refl u

KeyIsFree-resolve :
    (o : Option Text) (n : ℕ) (s : Status) (rs : List Learning)
    → KeyIsFree o rs
    → KeyIsFree o (resolve_rows n s rs)
unfolding resolve_rows
KeyIsFree-resolve none n s rs f = tt
KeyIsFree-resolve (some k) n s [] f = f
KeyIsFree-resolve (some k) n s (r ∷ rs) f = ground (arith, KeyIsFree-resolve (some k) n s rs)

resolve_unique :
    (n : ℕ) (s : Status) (rs : List Learning)
    → HasUniqueKeys rs
    → HasUniqueKeys (resolve_rows n s rs)
unfolding resolve_rows
resolve_unique n s [] u = tt
resolve_unique n s (r ∷ rs) u = (
  elim (Bool-cases ((r.id == n) && is_pending r.status)) [
    | inl e ↦ rw e (KeyIsFree-resolve r.pattern_key n s rs u.0)
    | inr e ↦ rw e (KeyIsFree-resolve r.pattern_key n s rs u.0)
  ],
  resolve_unique n s rs u.1,
)

module _ {B : Type 0} where
  capture_unique :
      (obs : Text) (key : Option Text) (now : Instant) (h : HistoryStore B)
      → HasUniqueKeys h.learnings
      → HasUniqueKeys (capture_learning obs key now h).learnings
  unfolding capture_learning
  capture_unique obs key now h u = elim (Bool-cases (is_blank obs)) [
    | inl e ↦ rw e u
    | inr e ↦ rw e (capture_as_unique (clean_key key) (strip obs) now h.learnings u)
  ]

  -- From a table with at most one row for each key: after any captures there still is at most one, and
  -- the recurrences that the row of a key counts have grown by exactly the number of captures that
  -- are not blank and whose key, stripped, is that one.
  pub recurrences-capture_all :
      (k : Text) (cs : List Capture) (h : HistoryStore B)
      → HasUniqueKeys h.learnings
      → HasUniqueKeys (capture_all cs h).learnings
        × (recurrences k (capture_all cs h).learnings
            ≡ captures_of k cs + recurrences k h.learnings)
  unfolding capture_all
  recurrences-capture_all k [] h u = (u, omega arith)
  recurrences-capture_all k (c ∷ cs) h u =
      let next = capture_learning c.observation c.pattern_key c.at h in
      let (unique, counts) =
        recurrences-capture_all k cs next (capture_unique c.observation c.pattern_key c.at h u) in
      (unique, omega (arith, counts, capture_once k c h))

module _ {B : Type 0} (h : HistoryStore B) (u : HasUniqueKeys h.learnings) where
  -- Capturing and resolving keep the pattern keys unique.
  pub learnings-HasUniqueKeys :
      ((obs : Text) (key : Option Text) (now : Instant)
        → HasUniqueKeys (capture_learning obs key now h).learnings)
      × ((n : ℕ) (s : Status) → HasUniqueKeys (resolve_learning n s h).learnings)
  unfolding capture_learning resolve_learning
  learnings-HasUniqueKeys =
      (λ obs key now. capture_unique obs key now h u, λ n s. resolve_unique n s h.learnings u)

resolve_rows_twice :
    (n : ℕ) (s t : Status) (rs : List Learning)
    → is_pending s ≡ false
    → resolve_rows n t (resolve_rows n s rs) ≡ resolve_rows n s rs
unfolding resolve_rows
resolve_rows_twice n s t [] p = refl
resolve_rows_twice n s t (r ∷ rs) p =
    rw (resolve_rows_twice n s t rs p) (elim (Bool-cases ((r.id == n) && is_pending r.status)) [
      | inl e ↦ rw e (ground arith)
      | inr e ↦ rw (e, e)
    ])

-- Some row with the key `k` waits for the dream.
abbrev pub queued : Text → List Learning → Bool
queued k rs = any_pass (λ r. has_key r.pattern_key k && is_pending r.status) rs

upsert-queued :
    (k : Text) (n : ℕ) (obs : Text) (now : Instant) (rs : List Learning)
    → queued k (upsert k (new_learning n (some k) obs now) now rs) ≡ true
unfolding upsert new_learning is_pending
upsert-queued k n obs now [] = ground (arith, text_eq_refl k)
upsert-queued k n obs now (r ∷ rs) = ground (arith, upsert-queued k n obs now rs)

module _ {B : Type 0} (h : HistoryStore B) where
  -- A learning that was promoted or pruned is left alone by a second resolution, whatever that asks
  -- for.
  resolve_learning_twice :
      (n : ℕ) (s t : Status)
      → is_pending s ≡ false
      → resolve_learning n t (resolve_learning n s h) ≡ resolve_learning n s h
  unfolding resolve_learning
  resolve_learning_twice n s t p = rw (resolve_rows_twice n s t h.learnings p)

  -- A capture that is not blank puts its key back into the dream's queue, also when the learning was
  -- promoted or pruned before.
  pub capture-queued :
      (obs : Text) (key k : Text) (now : Instant)
      → is_blank obs ≡ false
      → clean_key (some key) ≡ some k
      → queued k (capture_learning obs (some key) now h).learnings ≡ true
  unfolding capture_learning
  capture-queued obs key k now b e = rw (b, e) (upsert-queued k _ _ now h.learnings)
