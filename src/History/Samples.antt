-- ===== src/History/Samples.antt =====
-- A store with two turns and three captures of one key.
use shelldon.Base.{
  ℕ, ◌+◌, ◌≡◌, refl, Option, none, some, Bool, true, false, List, [], ◌∷◌, ◌++◌, length, map,
}
use shelldon.Base.Text.{Text, codes}
use shelldon.History.{HistoryStore, Row, new_store, recent, capture_learning}
use shelldon.History.Learnings.{Capture, recurrences, captures_of, capture_all, HasUniqueKeys}
use shelldon.History.Keys.{recurrences-capture_all}
use shelldon.History.Rows.{Turn, says, conversation, record_turns, recent-record_turns}

abbrev turns : List Turn
turns =
    record { turn_id = some "t1"; said = codes "hi"; replied = codes "hello"; at = 1 }
    ∷ record { turn_id = some "t2"; said = codes "bye"; replied = codes "see you"; at = 2 }
    ∷ []

abbrev Store : Type 0
Store = HistoryStore Text

recent-record_turns_example :
    (new : List Row) × ((record_turns turns (new_store {B = Text})).messages
      ≡ (new_store {B = Text}).messages ++ new)
    × (map says new ≡ conversation turns)
    × (recent (length new) (record_turns turns (new_store {B = Text})) ≡ new)
recent-record_turns_example = recent-record_turns turns (new_store {B = Text})

abbrev capture : ℕ → Capture
capture t = record { observation = codes " likes tea "; pattern_key = some (codes " tea"); at = t }

abbrev captured : Store
captured = capture_all (capture 1 ∷ capture 2 ∷ capture 3 ∷ []) new_store

three_recurrences : recurrences (codes "tea") captured.learnings ≡ 3
unfolding recurrences capture_all capture_learning new_store shelldon.Base.Text.is_space
    shelldon.Base.Text.text_eq
three_recurrences = refl

no_learnings : HasUniqueKeys (new_store {B = Text}).learnings
unfolding new_store
no_learnings = tt

recurrences-capture_all_example :
    HasUniqueKeys captured.learnings
    × (recurrences (codes "tea") captured.learnings
        ≡ captures_of (codes "tea") (capture 1 ∷ capture 2 ∷ capture 3 ∷ [])
          + recurrences (codes "tea") (new_store {B = Text}).learnings)
recurrences-capture_all_example =
    recurrences-capture_all (codes "tea") (capture 1 ∷ capture 2 ∷ capture 3 ∷ [])
      (new_store {B = Text}) no_learnings
