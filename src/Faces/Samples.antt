-- ===== src/Faces/Samples.antt =====
-- The starter faces, and a face that the owner adds.
use shelldon.Base.{true, false, List, [], ◌∷◌, ◌++◌, ◌≡◌, refl, All}
use shelldon.Base.Result.{ok}
use shelldon.Faces.{
  Face, Mood, fits, token_of, default_face_token, add_face, low_battery, sleepy, grumpy, excited,
  curious, content,
}
use shelldon.Faces.Adding.{IsNamed}

abbrev calm : Mood
calm = record { valence = 10_500; arousal = 9_800; energy = 10_800 }

abbrev proud : Face
proud = record {
  name = "proud";
  valence = record { lo = 10_300; hi = 11_000 };
  arousal = record { lo = 9_500; hi = 10_100 };
  energy = record { lo = 10_500; hi = 11_000 };
  token = "";
}

abbrev firsts : List Face
firsts = low_battery ∷ sleepy ∷ grumpy ∷ excited ∷ curious ∷ []

first_misses : All (λ g. fits calm g ≡ false) firsts
unfolding fits
first_misses = (refl, (refl, (refl, (refl, (refl, tt)))))

proud_added :
    add_face proud false true (firsts ++ content ∷ []) ≡ ok (firsts ++ proud ∷ content ∷ [])
unfolding add_face
proud_added = refl

starters : IsNamed (firsts ++ content ∷ [])
starters = (refl, (refl, (refl, (refl, (refl, (refl, tt))))))

content_token : token_of content ≡ default_face_token
unfolding token_of
content_token = refl
