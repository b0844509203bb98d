-- ===== src/History/Rows.antt =====
-- The conversation: what `recent` reads back.
use mathlib.Core.List.{reverse, reverse-append, reverse-reverse, map-append}
use mathlib.Core.Path.{ap₂}
use shelldon.Base.{
  ℕ, zero, suc, ◌≡◌, refl, sym, ap, ◌∙◌, Option, String, List, [], ◌∷◌, ◌++◌, take, length,
  length-append, append-nil, map, append_assoc, arith,
}
use shelldon.Base.Text.{Text}
use shelldon.Base.Time.{Instant}
use shelldon.History.{HistoryStore, Row, Role, owner, pet, record_turn, recent}

-- A completed turn: its id, what the owner said, the reply, and when.
pub record Turn : Type 0 where
  pub turn_id : Option String
  pub said : Text
  pub replied : Text
  pub at : Instant

abbrev pub says : Row → Role × Text
says r = (r.role, r.content)

module _ {B : Type 0} where
  unfoldable pub record_turns : List Turn → HistoryStore B → HistoryStore B
  record_turns [] h = h
  record_turns (t ∷ ts) h = record_turns ts (record_turn t.turn_id t.said t.replied t.at h)

-- What the turns said, the owner before the pet.
abbrev pub conversation : List Turn → List (Role × Text)
conversation [] = []
conversation (t ∷ ts) = (owner, t.said) ∷ (pet, t.replied) ∷ conversation ts

take_all : {A : Type 0} (n : ℕ) (xs ys : List A) → length xs ≡ n → take n (xs ++ ys) ≡ xs
take_all zero [] ys e = refl
take_all (suc n) [] ys e = cc
take_all zero (x ∷ xs) ys e = cc
take_all (suc n) (x ∷ xs) ys e = ap (λ (l : List _). x ∷ l) (take_all n xs ys (omega (arith, e)))

length-reverse : {A : Type 0} (xs : List A) → length (reverse xs) ≡ length xs
length-reverse [] = refl
length-reverse (x ∷ xs) =
    let e : length (reverse (x ∷ xs)) ≡ length (reverse xs ++ x ∷ []) =
      ap length (reverse-append (x ∷ []) xs) in
    omega (arith, e, length-append (reverse xs) (x ∷ []), length-reverse xs)

last_rows : {A : Type 0} (xs ys : List A) → reverse (take (length ys) (reverse (xs ++ ys))) ≡ ys
last_rows xs ys =
    rw (reverse-append xs ys, take_all (length ys) (reverse ys) (reverse xs) (length-reverse ys))
      (reverse-reverse ys)

-- Rows added behind others, that say given things.
pub record Added (ms : List Row) (old : List Row) (said : List (Role × Text)) : Type 0 where
  pub new : List Row
  pub behind : ms ≡ old ++ new
  pub saying : map says new ≡ said

Added-trans :
    {a b c : List Row} {s t : List (Role × Text)} → Added b a s → Added c b t → Added c a (s ++ t)
Added-trans {a} p q = record {
  new = p.new ++ q.new;
  behind = q.behind ∙ (ap (λ (l : List Row). l ++ q.new) p.behind ∙ append_assoc a p.new q.new);
  saying =
      map-append says p.new q.new ∙ ap₂ (λ (l m : List (Role × Text)). l ++ m) p.saying q.saying;
}

module _ {B : Type 0} where
  Added-record_turn :
      (t : Turn) (h : HistoryStore B)
      → Added
          (record_turn t.turn_id t.said t.replied t.at h).messages
          h.messages
          ((owner, t.said) ∷ (pet, t.replied) ∷ [])
  unfolding record_turn
  Added-record_turn t h = record {
    new = _ ∷ _ ∷ [];
    behind = append_assoc h.messages _ _;
    saying = refl;
  }

  Added-record_turns :
      (ts : List Turn) (h : HistoryStore B)
      → Added (record_turns ts h).messages h.messages (conversation ts)
  unfolding record_turns
  Added-record_turns [] h = record { new = []; behind = sym (append-nil h.messages); saying = refl }
  Added-record_turns (t ∷ ts) h =
      Added-trans (Added-record_turn t h)
        (Added-record_turns ts (record_turn t.turn_id t.said t.replied t.at h))

  -- After any turns the store holds what it held, and behind it the owner's and the pet's side of
  -- each turn in order, the owner's first; `recent`, asked for that many rows, returns exactly them.
  pub recent-record_turns :
      (ts : List Turn) (h : HistoryStore B)
      → (new : List Row) × ((record_turns ts h).messages ≡ h.messages ++ new)
        × (map says new ≡ conversation ts)
        × (recent (length new) (record_turns ts h) ≡ new)
  unfolding recent
  recent-record_turns ts h =
      let a = Added-record_turns ts h in
      (a.new, a.behind, a.saying, rw a.behind (last_rows h.messages a.new))
