-- ===== src/Arbiter/Samples.antt =====
-- A conversation of four messages, three of them while a turn is in flight.
use shelldon.Arbiter.{new_arbiter, newline, Call, submits, completes, run}
use shelldon.Arbiter.Coalescing.{Batches, texts, run-Batches, releases, starts-le-releases}
use shelldon.Arbiter.Valid.{IsValid-new_arbiter}
use shelldon.Base.{◌+◌, ◌≤◌, ◌≡◌, refl, List, [], ◌∷◌, ◌++◌, length, count_of}
use shelldon.Base.Text.{codes}

abbrev chat : List Call
chat =
    submits (codes "hi")
    ∷ submits (codes "are you")
    ∷ submits (codes "there?")
    ∷ completes
    ∷ submits (codes "ok")
    ∷ []

chat_prompts :
    (run chat new_arbiter).1 ≡ codes "hi" ∷ (codes "are you" ++ newline ++ codes "there?") ∷ []
unfolding run new_arbiter
chat_prompts = refl

run-Batches_example :
    Batches
      (run chat new_arbiter).1
      (run chat new_arbiter).0.pending
      (new_arbiter.pending ++ texts chat)
run-Batches_example = run-Batches chat new_arbiter IsValid-new_arbiter tt

starts-le-releases_example :
    length (run chat new_arbiter).1 + count_of new_arbiter.worker_in_flight
    ≤ releases chat + count_of (run chat new_arbiter).0.worker_in_flight
starts-le-releases_example = starts-le-releases chat new_arbiter IsValid-new_arbiter
