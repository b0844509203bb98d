-- ===== src/History.antt =====
-- shelldon/core/history.py: the sqlite store, as its five tables. Each method is one transaction.
-- Tables with a text primary key are association lists by that key (`INSERT OR REPLACE` is `store`);
-- the other two are lists of rows in the order of their ids. Time stamps are instants: isoformat
-- strings in UTC compare as the instants do. The FTS5 recall and the connection are not modelled;
-- the three tables of the approval flow have their methods in Parked.antt.
pub mod Rows
pub mod Learnings
pub mod Keys
pub mod Samples
use mathlib.Core.List.{reverse}
use shelldon.Base.{
  ℕ, zero, suc, ◌+◌, ◌*◌, Option, none, some, Bool, true, false, not, String, List, [], ◌∷◌, ◌++◌,
  ltb, leb, ◌==◌, ◌&&◌, ◌||◌, max, take, select, map, if◌then◌else◌,
}
use shelldon.Base.Table.{Table, find, store, without}
use shelldon.Base.Text.{Text, strip, is_blank, text_eq}
use shelldon.Base.Time.{Instant}

pub data Role : Type 0 where
  owner pet : Role

pub record Row : Type 0 where
  pub id : ℕ
  pub turn_id : Option String
  pub role : Role
  pub content : Text
  pub ts : Instant

pub data Status : Type 0 where
  pending promoted pruned : Status

pub record Learning : Type 0 where
  pub id : ℕ
  pub pattern_key : Option Text
  pub observation : Text
  pub recurrence_count : ℕ
  pub status : Status
  pub first_seen : Instant
  pub last_seen : Instant

-- A parked approval: `Bytes` is the type of the encoded state.
pub record Approval (Bytes : Type 0) : Type 0 where
  pub created_at : Instant
  pub expires_at : Instant
  pub state_blob : Bytes

pub record Promotion : Type 0 where
  pub created_at : Instant
  pub expires_at : Instant
  pub tool_name : String

pub record ToolHealth : Type 0 where
  pub strikes : ℕ
  pub last_seen : Instant

pub record HistoryStore (Bytes : Type 0) : Type 0 where
  pub messages : List Row
  pub learnings : List Learning
  pub pending_approvals : Table (Approval Bytes)
  pub pending_promotions : Table Promotion
  pub tool_health : Table ToolHealth

unfoldable pub new_store : {B : Type 0} → HistoryStore B
new_store = record {
  messages = [];
  learnings = [];
  pending_approvals = [];
  pending_promotions = [];
  tool_health = [];
}

-- The id that sqlite gives a new row: one more than the largest.
unfoldable pub next_row : List Row → ℕ
next_row [] = 1
next_row (r ∷ rs) = max (suc r.id) (next_row rs)

unfoldable pub next_learning : List Learning → ℕ
next_learning [] = 1
next_learning (r ∷ rs) = max (suc r.id) (next_learning rs)

insert_row : Option String → Role → Text → Instant → List Row → List Row
insert_row t role text now ms =
    ms ++ record { id = next_row ms; turn_id = t; role = role; content = text; ts = now } ∷ []

module _ {B : Type 0} where
  unfoldable pub record_turn :
      Option String → Text → Text → Instant → HistoryStore B → HistoryStore B
  unfolding insert_row
  record_turn t owner_text pet_text now h = record h {
    messages = insert_row t pet pet_text now (insert_row t owner owner_text now h.messages);
  }

  -- `ORDER BY id DESC LIMIT n`, then ascending
  unfoldable pub recent : ℕ → HistoryStore B → List Row
  recent n h = reverse (take n (reverse h.messages))

-- `(pattern_key or "").strip() or None`
unfoldable pub clean_key : Option Text → Option Text
clean_key none = none
clean_key (some k) = if is_blank k then none else some (strip k)

unfoldable pub has_key : Option Text → Text → Bool
has_key none k = false
has_key (some j) k = text_eq j k

-- The row that a conflict updates.
recur : Instant → Learning → Learning
recur now r = record r {
  recurrence_count = r.recurrence_count + 1;
  last_seen = now;
  status = pending;
}

-- `ON CONFLICT(pattern_key) … DO UPDATE`, or the new row at the end.
unfoldable pub upsert : Text → Learning → Instant → List Learning → List Learning
unfolding recur has_key
upsert k new now [] = new ∷ []
upsert k new now (r ∷ rs) =
    if has_key r.pattern_key k then recur now r ∷ rs else r ∷ upsert k new now rs

unfoldable pub new_learning : ℕ → Option Text → Text → Instant → Learning
new_learning n key obs now = record {
  id = n;
  pattern_key = key;
  observation = obs;
  recurrence_count = 1;
  status = pending;
  first_seen = now;
  last_seen = now;
}

capture_as : Option Text → Text → Instant → List Learning → List Learning
unfolding new_learning upsert
capture_as none obs now ls = ls ++ new_learning (next_learning ls) none obs now ∷ []
capture_as (some k) obs now ls = upsert k (new_learning (next_learning ls) (some k) obs now) now ls

unfoldable pub is_pending : Status → Bool
is_pending pending = true
is_pending promoted = false
is_pending pruned = false

-- `UPDATE … SET status WHERE id = ? AND status = 'pending'`
unfoldable pub resolve_rows : ℕ → Status → List Learning → List Learning
unfolding is_pending
resolve_rows n s [] = []
resolve_rows n s (r ∷ rs) =
    (if (r.id == n) && is_pending r.status then record r { status = s } else r)
    ∷ resolve_rows n s rs

-- `ORDER BY recurrence_count DESC, id ASC`: `a` comes no later than `b`.
unfoldable pub comes_first : Learning → Learning → Bool
comes_first a b =
    ltb b.recurrence_count a.recurrence_count
    || ((a.recurrence_count == b.recurrence_count) && leb a.id b.id)

unfoldable pub insert_by_impact : Learning → List Learning → List Learning
insert_by_impact r [] = r ∷ []
insert_by_impact r (s ∷ ss) = if comes_first r s then r ∷ s ∷ ss else s ∷ insert_by_impact r ss

unfoldable pub by_impact : List Learning → List Learning
unfolding insert_by_impact
by_impact [] = []
by_impact (r ∷ rs) = insert_by_impact r (by_impact rs)

module _ {B : Type 0} where
  unfoldable pub capture_learning : Text → Option Text → Instant → HistoryStore B → HistoryStore B
  unfolding capture_as clean_key
  capture_learning observation pattern_key now h = if is_blank observation then h else record h {
    learnings = capture_as (clean_key pattern_key) (strip observation) now h.learnings;
  }

  unfoldable pub pending_learnings : ℕ → HistoryStore B → List Learning
  unfolding by_impact is_pending
  pending_learnings limit h = take limit (by_impact (select (λ r. is_pending r.status) h.learnings))

  unfoldable pub resolve_learning : ℕ → Status → HistoryStore B → HistoryStore B
  unfolding resolve_rows
  resolve_learning n s h = record h { learnings = resolve_rows n s h.learnings }
