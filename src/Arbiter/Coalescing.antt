-- ===== src/Arbiter/Coalescing.antt =====
-- What becomes of the owner's messages: each is in exactly one started prompt, or still waiting,
-- and a schedule never starts more turns than there are free slots.
use mathlib.Core.List.{flatten}
use shelldon.Arbiter.{Arbiter, newline, Call, submits, completes, resets, run}
use shelldon.Arbiter.Valid.{IsValid}
use shelldon.Base.{
  ℕ, suc, ◌+◌, ◌≤◌, ◌≡◌, ◌≢◌, refl, ap, ◌∙◌, Bool, true, false, List, [], ◌∷◌, ◌++◌, map,
  append_assoc, append-nil, length, All, count_of, arith,
}
use shelldon.Base.Text.{Text, join}

-- The texts that a schedule submits, in order.
abbrev pub texts : List Call → List Text
texts [] = []
texts (submits t ∷ cs) = t ∷ texts cs
texts (completes ∷ cs) = texts cs
texts (resets ∷ cs) = texts cs

-- A schedule with no failed start.
abbrev pub HasNoReset : List Call → Type 0
HasNoReset [] = Unit
HasNoReset (submits t ∷ cs) = HasNoReset cs
HasNoReset (completes ∷ cs) = HasNoReset cs
HasNoReset (resets ∷ cs) = ⊥

-- One way to cut the messages into prompts: whole, in order, no empty cut.
pub record Batches (prompts : List Text) (waiting received : List Text) : Type 0 where
  pub batches : List (List Text)
  pub joined : prompts ≡ map (join newline) batches
  pub whole : flatten batches ++ waiting ≡ received
  pub nonempty : All (λ b. b ≢ []) batches

module _ {ps waiting : List Text} where
  Batches-cons :
      (b received : List Text)
      → b ≢ []
      → Batches ps waiting received
      → Batches (join newline b ∷ ps) waiting (b ++ received)
  unfolding flatten
  Batches-cons b received ne rest = record {
    batches = b ∷ rest.batches;
    joined = ap (λ (qs : List Text). join newline b ∷ qs) rest.joined;
    whole =
        append_assoc b (flatten rest.batches) waiting ∙ ap (λ (l : List Text). b ++ l) rest.whole;
    nonempty = (ne, rest.nonempty);
  }

no-Batches : {ws : List Text} → Batches [] ws ws
unfolding flatten
no-Batches = record { batches = []; joined = refl; whole = refl; nonempty = tt }

abbrev arbiter : Bool → List Text → Arbiter
arbiter busy waiting = record { worker_in_flight = busy; pending = waiting }

from-Batches :
    (cs : List Call) (busy : Bool) (ws : List Text)
    → (busy ≡ false → ws ≡ [])
    → HasNoReset cs
    → Batches (run cs (arbiter busy ws)).1 (run cs (arbiter busy ws)).0.pending (ws ++ texts cs)
unfolding run
from-Batches [] busy ws v h = rw append-nil no-Batches
from-Batches (submits t ∷ cs) true ws v h =
    rw (← append_assoc ws (t ∷ []) (texts cs)) (from-Batches cs true (ws ++ t ∷ []) (λ e. cc) h)
from-Batches (submits t ∷ cs) false [] v h =
    Batches-cons (t ∷ []) (texts cs) (λ e. cc) (from-Batches cs true [] (λ e. refl) h)
from-Batches (submits t ∷ cs) false (w ∷ ws) v h = absurd (cc (v refl))
from-Batches (completes ∷ cs) busy [] v h = from-Batches cs false [] (λ e. refl) h
from-Batches (completes ∷ cs) busy (w ∷ ws) v h =
    Batches-cons (w ∷ ws) (texts cs) (λ e. cc) (from-Batches cs true [] (λ e. refl) h)
from-Batches (resets ∷ cs) busy ws v h = elim h [ ]

-- Over any schedule without a failed start, the started prompts are the messages received, joined
-- in batches: none is lost, doubled or moved, no batch is empty, and what is in no prompt yet is
-- still waiting.
pub run-Batches :
    (cs : List Call) (a : Arbiter)
    → IsValid a
    → HasNoReset cs
    → Batches (run cs a).1 (run cs a).0.pending (a.pending ++ texts cs)
run-Batches cs a v h = from-Batches cs a.worker_in_flight a.pending v.waits h

-- How often a schedule frees the slot.
abbrev pub releases : List Call → ℕ
releases [] = 0
releases (submits t ∷ cs) = releases cs
releases (completes ∷ cs) = suc (releases cs)
releases (resets ∷ cs) = suc (releases cs)

starts :
    (cs : List Call) (busy : Bool) (ws : List Text)
    → (busy ≡ false → ws ≡ [])
    → length (run cs (arbiter busy ws)).1 + count_of busy
      ≤ releases cs + count_of (run cs (arbiter busy ws)).0.worker_in_flight
unfolding run
starts [] busy ws v = omega arith
starts (submits t ∷ cs) true ws v = starts cs true (ws ++ t ∷ []) (λ e. cc)
starts (submits t ∷ cs) false ws v = omega (arith, starts cs true ws (λ e. cc))
starts (completes ∷ cs) busy [] v = ground (arith, starts cs false [] (λ e. refl))
starts (completes ∷ cs) true (w ∷ ws) v = omega (arith, starts cs true [] (λ e. refl))
starts (completes ∷ cs) false (w ∷ ws) v = absurd (cc (v refl))
starts (resets ∷ cs) busy ws v = ground (arith, starts cs false [] (λ e. refl))

-- At most one turn at a time: whatever the schedule, the turns that it starts and the one in flight
-- before it are at most the releases in it and the one in flight after it.
pub starts-le-releases :
    (cs : List Call) (a : Arbiter)
    → IsValid a
    → length (run cs a).1 + count_of a.worker_in_flight
      ≤ releases cs + count_of (run cs a).0.worker_in_flight
starts-le-releases cs a v = starts cs a.worker_in_flight a.pending v.waits
