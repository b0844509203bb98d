-- ===== src/Fence/Samples.antt =====
-- Turns that are superseded, closed and late.
use shelldon.Base.{◌≡◌, refl, some, true, false, List, [], ◌∷◌, String}
use shelldon.Fence.{new_fence, close, open_turn, accept, Move, opens, closes, moves}
use shelldon.Fence.Admission.{accept-close, accept-open_turn}

abbrev day : List Move
day = opens "b" ∷ closes "b" ∷ opens "c" ∷ []

accept-close_example :
    accept (some "a") (moves day (close "a" (open_turn "a" (new_fence 2)))) ≡ false
accept-close_example = accept-close "a" day (open_turn "a" (new_fence 2)) (refl, (refl, tt))

accept-open_turn_example :
    (accept (some "b") (open_turn "b" (open_turn "a" (new_fence 2))) ≡ true)
    × ((u : String)
        → accept (some u) (open_turn "b" (open_turn "a" (new_fence 2))) ≡ true
        → "b" ≡ u)
unfolding open_turn new_fence
accept-open_turn_example = accept-open_turn "b" (open_turn "a" (new_fence 2)) refl

oldest_is_forgotten :
    (moves (closes "a" ∷ closes "b" ∷ closes "c" ∷ []) (new_fence 2)).closed ≡ "b" ∷ "c" ∷ []
unfolding moves new_fence
oldest_is_forgotten = refl
