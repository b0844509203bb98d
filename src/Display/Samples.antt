-- ===== src/Display/Samples.antt =====
-- A burst of snapshots for two regions, out of order, with a render pass in between.
use shelldon.Base.{List, [], ◌∷◌, ◌++◌, ◌≡◌, refl, none}
use shelldon.Display.{face, caption, Step, arrives, renders, steps, new_screen}
use shelldon.Display.Regions.{Ascends, seqs}
use shelldon.Display.Newest.{newest, steps-Ascends}

abbrev burst : List Step
burst =
    arrives (record { region = face; seq = 1; shown = "content" })
    ∷ arrives (record { region = caption; seq = 1; shown = "hello" })
    ∷ renders
    ∷ arrives (record { region = face; seq = 3; shown = "excited" })
    ∷ arrives (record { region = face; seq = 2; shown = "curious" })
    ∷ renders
    ∷ arrives (record { region = face; seq = 4; shown = "sleepy" })
    ∷ []

steps-Ascends_example :
    Ascends none
      (seqs face ((steps burst new_screen).rendered ++ (steps burst new_screen).pending))
      (newest face burst)
steps-Ascends_example = steps-Ascends burst face

drawn_faces : seqs face (steps burst new_screen).rendered ≡ 1 ∷ 3 ∷ []
unfolding steps new_screen
drawn_faces = refl
