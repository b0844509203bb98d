-- ===== src/Base/Table.antt =====
-- Tables keyed by names: a Python dict or a sqlite table with a text primary key, as an association
-- list. `store` is an insert-or-replace, `without` a delete.
use mathlib.Core.List.{List, [], ◌∷◌}
use mathlib.Core.Option.{Option, none, some}
use mathlib.Core.Path.{◌≡◌, refl}
use native.Mathlib.Omega.{arith}
use Prim.Native.String.{String}
use shelldon.Base.Tests.{if◌then◌else◌}
use text.Mathlib.Text.{◌==◌ as str_eq}
use text.Mathlib.TextEquality.{eq_iff}

abbrev pub Table {ℓ} : Type ℓ → Type ℓ
Table V = List (String × V)

module _ {ℓ} {V : Type ℓ} where
  unfoldable pub find : String → Table V → Option V
  find k [] = none
  find k ((j, v) ∷ m) = if str_eq j k then some v else find k m

  unfoldable pub store : String → V → Table V → Table V
  store k v [] = (k, v) ∷ []
  store k v ((j, w) ∷ m) = if str_eq j k then (k, v) ∷ m else (j, w) ∷ store k v m

  unfoldable pub without : String → Table V → Table V
  without k [] = []
  without k ((j, v) ∷ m) = if str_eq j k then without k m else (j, v) ∷ without k m

  pub find-store :
      (k j : String) (v : V) (m : Table V)
      → find j (store k v m) ≡ (if str_eq k j then some v else find j m)
  unfolding find store
  find-store k j v [] = refl
  find-store k j v ((i, w) ∷ m) =
      ground (arith, eq_iff k j, eq_iff i k, eq_iff i j, find-store k j v m)

  pub find-without :
      (k j : String) (m : Table V) → find j (without k m) ≡ (if str_eq k j then none else find j m)
  unfolding find without
  find-without k j [] = ground arith
  find-without k j ((i, w) ∷ m) =
      ground (arith, eq_iff k j, eq_iff i k, eq_iff i j, find-without k j m)
