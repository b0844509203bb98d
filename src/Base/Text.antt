-- ===== src/Base/Text.antt =====
-- Texts that the program walks, as lists of code points: `str.strip`, emptiness, and `str.join`.
use Prim.Native.Char.{code}
use Prim.Native.Nat.{ℕ}
use Prim.Native.String.{String}
use mathlib.Core.Bool.{Bool, true, false, ◌||◌, ◌&&◌}
use mathlib.Core.Path.{◌≡◌, refl}
use native.Mathlib.Omega.{arith}
use mathlib.Core.List.{List, [], ◌∷◌, ◌++◌}
use shelldon.Base.Tests.{leb, ◌==◌, if◌then◌else◌}

abbrev pub Text : Type 0
Text = List ℕ

abbrev pub codes : String → Text
codes String.[] = []
codes (String.◌∷◌ c s) = code c ∷ codes s

-- The white space outside ASCII: NEL, NBSP, and Unicode's spaces and separators.
is_wide_space : ℕ → Bool
is_wide_space c =
    (c == 133)
    || ((c == 160)
        || ((c == 5760)
            || ((leb 8192 c && leb c 8202)
                || ((c == 8232)
                    || ((c == 8233) || ((c == 8239) || ((c == 8287) || (c == 12288))))))))

-- Python's `str.isspace` of one character.
unfoldable pub is_space : ℕ → Bool
unfolding is_wide_space
is_space c = (leb 9 c && leb c 13) || ((leb 28 c && leb c 32) || is_wide_space c)

-- `not text.strip()`
abbrev pub is_blank : Text → Bool
is_blank [] = true
is_blank (c ∷ cs) = is_space c && is_blank cs

-- `text.lstrip()`
abbrev pub lstrip : Text → Text
lstrip [] = []
lstrip (c ∷ cs) = if is_space c then lstrip cs else c ∷ cs

-- `text.rstrip()`
abbrev pub rstrip : Text → Text
rstrip [] = []
rstrip (c ∷ cs) = if is_blank (c ∷ cs) then [] else c ∷ rstrip cs

-- `text.strip()`
abbrev pub strip : Text → Text
strip t = rstrip (lstrip t)

-- `sep.join(texts)`
abbrev pub join : Text → List Text → Text
join sep [] = []
join sep (t ∷ []) = t
join sep (t ∷ u ∷ us) = t ++ (sep ++ join sep (u ∷ us))

-- `a == b` on texts
unfoldable pub text_eq : Text → Text → Bool
text_eq [] [] = true
text_eq [] (d ∷ ds) = false
text_eq (c ∷ cs) [] = false
text_eq (c ∷ cs) (d ∷ ds) = (c == d) && text_eq cs ds

pub text_eq_refl : (t : Text) → text_eq t t ≡ true
unfolding text_eq
text_eq_refl [] = refl
text_eq_refl (c ∷ cs) = ground (arith, text_eq_refl cs)

pub text_eq→eq : (a b : Text) → text_eq a b ≡ true → a ≡ b
unfolding text_eq
text_eq→eq [] [] h = refl
text_eq→eq [] (d ∷ ds) h = cc
text_eq→eq (c ∷ cs) [] h = cc
text_eq→eq (c ∷ cs) (d ∷ ds) h = ground (arith, text_eq→eq cs ds)

-- `s + t` on strings
unfoldable pub append_str : String → String → String
append_str String.[] t = t
append_str (String.◌∷◌ c s) t = String.◌∷◌ c (append_str s t)
