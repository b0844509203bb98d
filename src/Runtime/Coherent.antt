-- ===== src/Runtime/Coherent.antt =====
-- shelldon/core/runtime.py: the three guards of a turn (fence, arbiter, timeout) agree, in every
-- state that core can get into.
use shelldon.Arbiter.{Arbiter, complete, complete_in, reset}
use shelldon.Base.{
  ℕ, ◌≤◌, ◌<◌, Option, none, some, Bool, true, false, String, List, [], ◌∷◌, ◌≡◌, refl, sym, ap,
  ◌∙◌, subst, inl, inr, Bool-cases, arith, eq_iff, eq_refl, str_eq, has, discard, length, ◌==◌,
  if◌then◌else◌,
}
use shelldon.Fence.{
  TurnFence, open_turn, close, supersede, end_current, remember, forget_oldest, is_current,
}
use shelldon.Fence.Valid.{has-append}
use shelldon.Runtime.{Control}
use shelldon.Runtime.Turns.{begin, after_spawn, end_turn, release}
use shelldon.Base.Text.{Text}
use shelldon.Base.Result.{Result, ok, err}

-- Either no turn is open and nothing waits, or the turn that is open has its slot reserved and its
-- timeout armed, and its Result would be let in.
pub data IsCoherent (c : Control) : Type 0 where
  at_rest :
      c.fence.current ≡ none
      → c.arbiter.worker_in_flight ≡ false
      → c.arbiter.pending ≡ []
      → c.timeout ≡ none
      → IsCoherent c
  in_flight :
      (t : String)
      → c.fence.current ≡ some t
      → has t c.fence.closed ≡ false
      → c.arbiter.worker_in_flight ≡ true
      → c.timeout ≡ some t
      → IsCoherent c

-- The ids that are still to be drawn name no turn so far.
pub record IsFresh (hex : ℕ → String) (c : Control) : Type 0 where
  pub not_closed : (n : ℕ) → c.minted ≤ n → has (hex n) c.fence.closed ≡ false
  pub not_current : (n : ℕ) → c.minted ≤ n → is_current c.fence.current (hex n) ≡ false

has-discard : (t o : String) (ts : List String) → has t ts ≡ false → has t (discard o ts) ≡ false
has-discard t o [] h = refl
has-discard t o (x ∷ xs) h = ground (arith, has-discard t o xs)

has_forget :
    (t : String) (os ts : List String) → has t ts ≡ false → has t (forget_oldest os ts) ≡ false
unfolding forget_oldest
has_forget t [] ts h = h
has_forget t (o ∷ os) ts h = has-discard t o ts h

has_if :
    (t : String) (b : Bool) (xs ys : List String)
    → has t xs ≡ false
    → has t ys ≡ false
    → has t (if b then xs else ys) ≡ false
has_if t true xs ys p q = p
has_if t false xs ys p q = q

-- Closing one turn closes no other.
pub has-close :
    (t u : String) (f : TurnFence)
    → has t f.closed ≡ false
    → str_eq u t ≡ false
    → has t (close u f).closed ≡ false
unfolding close remember end_current
has-close t u f h n = elim (Bool-cases (has u f.closed)) [
  | inl e ↦ rw e h
  | inr e ↦ rw e (
      has-append t
        (if length f.closed_order == f.max_closed
          then forget_oldest f.closed_order f.closed
          else f.closed)
        (u ∷ [])
      ∙ rw
          (has_if t (length f.closed_order == f.max_closed) (forget_oldest f.closed_order f.closed)
            f.closed (has_forget t f.closed_order f.closed h) h)
          (rw n refl))
]

pub close_current : (t : String) (f : TurnFence) → f.current ≡ some t → (close t f).current ≡ none
unfolding close remember end_current is_current
close_current t f h = elim (Bool-cases (has t f.closed)) [
  | inl e ↦ rw e (rw h (rw (eq_refl t) refl))
  | inr e ↦ rw e (rw h (rw (eq_refl t) refl))
]

open_rest : (t : String) (f : TurnFence) → f.current ≡ none → (open_turn t f).closed ≡ f.closed
unfolding open_turn supersede
open_rest t f h = rw h refl

-- The slot is reserved and no turn is open: a turn can start.
pub record IsReady (c : Control) : Type 0 where
  pub none_open : c.fence.current ≡ none
  pub reserved : c.arbiter.worker_in_flight ≡ true
  pub unarmed : c.timeout ≡ none

pub record IsGood (hex : ℕ → String) (c : Control) : Type 0 where
  pub coherent : IsCoherent c
  pub fresh : IsFresh hex c

-- `uuid4` never gives an id twice.
abbrev pub IsInjective : (ℕ → String) → Type 0
IsInjective hex = (m n : ℕ) → hex m ≡ hex n → m ≡ n

pub other_id :
    (hex : ℕ → String) (m n : ℕ) → IsInjective hex → m < n → str_eq (hex m) (hex n) ≡ false
other_id hex m n inj h = elim (Bool-cases (str_eq (hex m) (hex n))) [
  | inl e ↦ let same = inj m n ((eq_iff (hex m) (hex n)).0 e) in absurd (omega arith)
  | inr e ↦ e
]

pub open_current : (t : String) (f : TurnFence) → (open_turn t f).current ≡ some t
unfolding open_turn
open_current t f = refl

has_open :
    (t u : String) (f : TurnFence)
    → f.current ≡ none
    → has t f.closed ≡ false
    → has t (open_turn u f).closed ≡ false
has_open t u f e h = ap (has t) (open_rest u f e) ∙ h

pub begin-IsGood :
    (hex : ℕ → String) (r : Result (Unit {0})) (owner_side : Text) (is_owner : Bool) (c : Control)
    → IsInjective hex
    → IsReady c
    → IsFresh hex c
    → IsGood hex (after_spawn (hex c.minted) r (begin (hex c.minted) owner_side is_owner c))
unfolding begin after_spawn reset is_current
begin-IsGood hex (ok u) owner_side is_owner c inj ready fresh =
    let t = hex c.minted in
    record {
      coherent =
          in_flight t (open_current t c.fence)
            (has_open t t c.fence ready.none_open (fresh.not_closed c.minted (omega arith)))
            ready.reserved refl;
      fresh = record {
        not_closed =
            λ n h. has_open (hex n) t c.fence ready.none_open (fresh.not_closed n (omega arith));
        not_current =
            λ n h. rw (open_current t c.fence) (other_id hex c.minted n inj (omega arith));
      };
    }
begin-IsGood hex (err e) owner_side is_owner c inj ready fresh =
    let t = hex c.minted in
    let shut = close_current t (open_turn t c.fence) (open_current t c.fence) in
    record {
      coherent = at_rest shut refl refl ready.unarmed;
      fresh = record {
        not_closed = λ n h.
            has-close (hex n) t (open_turn t c.fence)
              (has_open (hex n) t c.fence ready.none_open (fresh.not_closed n (omega arith)))
              (other_id hex c.minted n inj (omega arith));
        not_current = λ n h. rw shut refl;
      };
    }

-- A turn's end, from any state in which the turn is open: nothing waits and core is at rest, or the
-- next turn can start.
pub data Ended (hex : ℕ → String) (c : Control) : Option Text → Type 0 where
  rests : IsGood hex c → Ended hex c none
  goes_on : (p : Text) → IsReady c → IsFresh hex c → Ended hex c (some p)

-- How `complete` leaves the arbiter.
data Finish : Arbiter × Option Text → Type 0 where
  frees : (a : Arbiter) → a.worker_in_flight ≡ false → a.pending ≡ [] → Finish (a, none)
  folds : (a : Arbiter) (p : Text) → a.worker_in_flight ≡ true → Finish (a, some p)

complete_in-Finish : (ms : List Text) (a : Arbiter) → a.pending ≡ ms → Finish (complete_in ms a)
unfolding complete_in
complete_in-Finish [] a e = frees (record a { worker_in_flight = false }) refl e
complete_in-Finish (m ∷ ms) a e = folds _ _ refl

complete-Finish : (a : Arbiter) → Finish (complete a)
unfolding complete
complete-Finish a = complete_in-Finish a.pending a refl

closed-IsFresh :
    (hex : ℕ → String) (t : String) (c d : Control)
    → c.fence.current ≡ some t
    → d.fence ≡ close t c.fence
    → d.minted ≡ c.minted
    → IsFresh hex c
    → IsFresh hex d
unfolding is_current
closed-IsFresh hex t c d is_open shut same fresh = record {
  not_closed = λ n h.
      ap (λ f. has (hex n) f.closed) shut
      ∙ has-close (hex n) t c.fence (fresh.not_closed n (subst (λ m. m ≤ n) same h)) (
          ap (λ o. is_current o (hex n)) (sym is_open)
          ∙ fresh.not_current n (subst (λ m. m ≤ n) same h));
  not_current = λ n h.
      ap (λ f. is_current f.current (hex n)) shut ∙ rw (close_current t c.fence is_open) refl;
}

released : Arbiter → Control → Control
released a c = record c { reaping = false; arbiter = a }

Finish-Ended :
    (hex : ℕ → String) (t : String) (c : Control) (end : Arbiter × Option Text)
    → Finish end
    → c.fence.current ≡ some t
    → IsFresh hex c
    → Ended hex (released end.0 (end_turn t c)) end.1
unfolding end_turn released
Finish-Ended hex t c (a, none) (frees _ free empty) is_open fresh = rests (record {
  coherent = at_rest (close_current t c.fence is_open) free empty refl;
  fresh = closed-IsFresh hex t c _ is_open refl refl fresh;
})
Finish-Ended hex t c (a, some p) (folds _ _ busy) is_open fresh =
    goes_on p
      (record { none_open = close_current t c.fence is_open; reserved = busy; unarmed = refl })
      (closed-IsFresh hex t c _ is_open refl refl fresh)

pub end-Ended :
    (hex : ℕ → String) (t : String) (c : Control)
    → c.fence.current ≡ some t
    → IsFresh hex c
    → Ended hex (release (end_turn t c)) (complete c.arbiter).1
unfolding release released end_turn
end-Ended hex t c is_open fresh =
    Finish-Ended hex t c (complete c.arbiter) (complete-Finish c.arbiter) is_open fresh
