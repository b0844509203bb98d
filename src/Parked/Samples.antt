-- ===== src/Parked/Samples.antt =====
-- An approval parked at time 0 for one second, and a tool that fails three times.
use shelldon.Base.{
  ℕ, ◌+◌, ◌≡◌, refl, Option, none, some, Bool, true, false, String, List, [], ◌∷◌, ltb, str_eq,
  if◌then◌else◌, arith,
}
use shelldon.Base.Text.{Text, codes}
use shelldon.History.{HistoryStore, new_store}
use shelldon.Parked.{park_approval, take_approval, prune_expired_approvals}
use shelldon.Parked.Once.{take-park_approval, take-take_approval}
use shelldon.Parked.Prune.{take-prune_approval}

abbrev Store : Type 0
Store = HistoryStore Text

abbrev parked : Store
parked = park_approval "t1" (codes "rm") 0 1 new_store

take-park_approval_example : (take_approval "t1" 999_999 parked).1 ≡ (
    if str_eq "t1" "t1"
    then (if ltb 999_999 1_000_000 then some (codes "rm") else none)
    else (take_approval "t1" 999_999 (new_store {B = Text})).1)
take-park_approval_example =
    take-park_approval (new_store {B = Text}) "t1" "t1" (codes "rm") 0 1 999_999

expired : (take_approval "t1" 1_000_000 parked).1 ≡ none
unfolding take_approval park_approval new_store shelldon.Base.Table.find shelldon.Base.Table.store
expired = refl

take-take_approval_example :
    (take_approval "t1" 2 (take_approval "t1" 1 parked).0).1
    ≡ (if str_eq "t1" "t1" then none else (take_approval "t1" 2 parked).1)
take-take_approval_example = take-take_approval parked "t1" "t1" 1 2

take-prune_approval_example :
    (take_approval "t1" 2_000_000 (prune_expired_approvals 1_500_000 parked)).1
    ≡ (take_approval "t1" 2_000_000 parked).1
unfolding park_approval new_store shelldon.Base.Table.store shelldon.Base.Table.find
take-prune_approval_example =
    take-prune_approval parked "t1" 1_500_000 2_000_000 (refl, tt) (omega arith)
