-- ===== src/Faces.antt =====
-- shelldon/core/faces.py: the face that a mood selects, and the registry's additions. A float is a
-- natural number of thousandths above -10.0, so that -1.0 is 9000 and 1.0 is 11000; a NaN and a number
-- below -10.0 have no counterpart. The faces file is written by code outside: whether that raises is
-- an argument, and its text is not modelled.
pub mod Choice
pub mod Adding
pub mod Samples
use shelldon.Base.{
  ℕ, Option, none, some, Bool, true, false, not, ◌&&◌, ◌||◌, String, List, [], ◌∷◌, ◌++◌, ltb, leb,
  str_eq, any_pass, if◌then◌else◌,
}
use shelldon.Base.Result.{Result, ok, err, Error, value_error, os_error, require, ◌>>=◌, ◌>>◌}

abbrev pub minus_one : ℕ
minus_one = 9000

abbrev pub nought : ℕ
nought = 10_000

abbrev pub plus_one : ℕ
plus_one = 11_000

pub record Range : Type 0 where
  pub lo : ℕ
  pub hi : ℕ

pub record Face : Type 0 where
  pub name : String
  pub valence : Range
  pub arousal : Range
  pub energy : Range
  pub token : String

pub record Mood : Type 0 where
  pub valence : ℕ
  pub arousal : ℕ
  pub energy : ℕ

abbrev pub default_face_token : String
default_face_token = "content"

abbrev whole : Range
whole = record { lo = minus_one; hi = plus_one }

abbrev pub low_battery : Face
low_battery = record {
  name = "low-battery";
  valence = whole;
  arousal = whole;
  energy = record { lo = 10_000; hi = 10_150 };
  token = "";
}

abbrev pub sleepy : Face
sleepy = record {
  name = "sleepy";
  valence = whole;
  arousal = record { lo = 9000; hi = 9700 };
  energy = record { lo = 10_150; hi = 10_450 };
  token = "";
}

abbrev pub grumpy : Face
grumpy = record {
  name = "grumpy";
  valence = record { lo = 9000; hi = 9800 };
  arousal = whole;
  energy = record { lo = 10_150; hi = 11_000 };
  token = "";
}

abbrev pub excited : Face
excited = record {
  name = "excited";
  valence = record { lo = 10_400; hi = 11_000 };
  arousal = record { lo = 10_400; hi = 11_000 };
  energy = record { lo = 10_500; hi = 11_000 };
  token = "";
}

abbrev pub curious : Face
curious = record {
  name = "curious";
  valence = record { lo = 10_000; hi = 11_000 };
  arousal = record { lo = 10_100; hi = 11_000 };
  energy = record { lo = 10_150; hi = 11_000 };
  token = "";
}

abbrev pub content : Face
content = record {
  name = "content";
  valence = whole;
  arousal = whole;
  energy = record { lo = 10_150; hi = 11_000 };
  token = "";
}

-- Tried from the first to the last.
unfoldable pub default_faces : List Face
default_faces = low_battery ∷ sleepy ∷ grumpy ∷ excited ∷ curious ∷ content ∷ []

unfoldable pub validate_range : Range → ℕ → ℕ → Result (Unit {0})
validate_range r lowest highest = do
  require (leb r.lo r.hi) value_error
  require (leb lowest r.lo && leb r.hi highest) value_error

unfoldable pub validate_face : Face → Result (Unit {0})
unfolding validate_range
validate_face f = do
  require (not (str_eq f.name "")) value_error
  validate_range f.valence minus_one plus_one
  validate_range f.arousal minus_one plus_one
  validate_range f.energy nought plus_one

unfoldable pub within : ℕ → Range → Bool
within x r = leb r.lo x && leb x r.hi

-- Whether a face's ranges all contain a mood.
unfoldable pub fits : Mood → Face → Bool
unfolding within
fits m f = within m.valence f.valence && (within m.arousal f.arousal && within m.energy f.energy)

-- `f.token or f.name`
unfoldable pub token_of : Face → String
token_of f = if str_eq f.token "" then f.name else f.token

unfoldable pub select_face : List Face → Mood → String
unfolding fits token_of
select_face [] m = default_face_token
select_face (f ∷ fs) m = if fits m f then token_of f else select_face fs m

abbrev pub is_named : String → List Face → Bool
is_named name fs = any_pass (λ f. str_eq f.name name) fs

-- `new_faces[existing] = face`, at the first face of that name.
unfoldable pub put_over : Face → List Face → List Face
put_over f [] = []
put_over f (g ∷ gs) = if str_eq g.name f.name then f ∷ gs else g ∷ put_over f gs

-- A face whose name is new: before a trailing catch-all, or else at the end.
unfoldable pub put_new : Face → List Face → List Face
unfolding token_of
put_new f [] = f ∷ []
put_new f (g ∷ []) = if str_eq (token_of g) default_face_token then f ∷ g ∷ [] else g ∷ f ∷ []
put_new f (g ∷ h ∷ gs) = g ∷ put_new f (h ∷ gs)

-- The faces after `add_face`, which raises before it changes anything.
unfoldable pub add_face : Face → Bool → Bool → List Face → Result (List Face)
unfolding validate_face put_over put_new
add_face f replace written faces = do
  validate_face f
  require (not (is_named f.name faces && not replace)) value_error
  require written os_error
  ok (if is_named f.name faces then put_over f faces else put_new f faces)

all_valid : List Face → Result (Unit {0})
unfolding validate_face
all_valid [] = ok tt
all_valid (f ∷ fs) = do validate_face f; all_valid fs

-- The faces in a file that was read, or the defaults with a warning.
checked : Result (List Face) → List Face
unfolding all_valid
checked (err e) = default_faces
checked (ok []) = default_faces
checked (ok (f ∷ fs)) = elim (all_valid (f ∷ fs)) [ ok u ↦ f ∷ fs | err e ↦ default_faces ]

-- `load`: `file` is the parsed file, `none` when there is none; then the defaults are written.
unfoldable pub load : Bool → Option (Result (List Face)) → Result (List Face)
unfolding checked default_faces
load written none = do require written os_error; ok default_faces
load written (some file) = ok (checked file)
