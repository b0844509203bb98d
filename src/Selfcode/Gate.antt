-- ===== src/Selfcode/Gate.antt =====
-- shelldon/core/selfcode.py: what the gate lets through, and the names that tools get.
use Prim.Native.Char.{code}
use shelldon.Base.{
  Option, some, Bool, true, false, not, ◌&&◌, ◌==◌, String, List, str_eq, ◌≡◌, refl, inl, inr,
  Bool-cases, subst, leb, if◌then◌else◌,
}
use shelldon.Base.Result.{ok, Error, value_error, require, ◌>>◌}
use shelldon.Base.Text.{Text, append_str}
use shelldon.Selfcode.Imports.{Node}
use shelldon.Selfcode.Banned.{IsClean}
use shelldon.Selfcode.{
  Process, exited, safe_tool_name, is_stem_char, collapse, drop_underscores, drop_last_underscores,
  prefix_digit, all_underscores,
}

-- What a pass of the gate says: the staged module could be read, its imports are clean, and pytest
-- ran to its end and reported success.
pub record IsGated (parse : Text → Option (List Node)) (found : Option Text) (process : Process)
    : Type 0 where
  pub source : Text
  pub is_staged : found ≡ some source
  pub is_clean : IsClean (parse source)
  pub out : Text
  pub succeeds : process ≡ exited 0 out

-- Every character of a name is of the class [a-z0-9_].
unfoldable pub all_stem : String → Bool
all_stem String.[] = true
all_stem (String.◌∷◌ c s) = is_stem_char (code c) && all_stem s

and_both : (a b : Bool) → (a && b) ≡ true → (a ≡ true) × (b ≡ true)
and_both true b h = (refl, h)
and_both false b h = cc

if_stem :
    (b : Bool) (s t : String)
    → all_stem s ≡ true
    → all_stem t ≡ true
    → all_stem (if b then s else t) ≡ true
if_stem true s t p q = p
if_stem false s t p q = q

append_stem :
    (s t : String) → all_stem s ≡ true → all_stem t ≡ true → all_stem (append_str s t) ≡ true
unfolding all_stem append_str
append_stem String.[] t p q = q
append_stem (String.◌∷◌ c s) t p q =
    let both = and_both (is_stem_char (code c)) (all_stem s) p in
    rw both.0 (append_stem s t both.1 q)

collapse_stem : (in_run : Bool) (s : String) → all_stem (collapse in_run s) ≡ true
unfolding all_stem collapse append_str
collapse_stem in_run String.[] = refl
collapse_stem in_run (String.◌∷◌ c s) = elim (Bool-cases (is_stem_char (code c))) [
  | inl e ↦ rw e (rw e (collapse_stem false s))
  | inr e ↦ rw e (
      if_stem in_run (collapse true s) (append_str "_" (collapse true s)) (collapse_stem true s)
        (append_stem "_" (collapse true s) refl (collapse_stem true s)))
]

drop_underscores_stem : (s : String) → all_stem s ≡ true → all_stem (drop_underscores s) ≡ true
unfolding all_stem drop_underscores
drop_underscores_stem String.[] h = refl
drop_underscores_stem (String.◌∷◌ c s) h =
    let both = and_both (is_stem_char (code c)) (all_stem s) h in
    if_stem (code c == 95) (drop_underscores s) (String.◌∷◌ c s) (drop_underscores_stem s both.1) h

drop_last_underscores_stem :
    (s : String) → all_stem s ≡ true → all_stem (drop_last_underscores s) ≡ true
unfolding all_stem drop_last_underscores
drop_last_underscores_stem String.[] h = refl
drop_last_underscores_stem (String.◌∷◌ c s) h =
    let both = and_both (is_stem_char (code c)) (all_stem s) h in
    if_stem (all_underscores (String.◌∷◌ c s)) "" (String.◌∷◌ c (drop_last_underscores s)) refl
      (rw both.0 (drop_last_underscores_stem s both.1))

prefix_digit_stem : (s : String) → all_stem s ≡ true → all_stem (prefix_digit s) ≡ true
unfolding all_stem prefix_digit append_str
prefix_digit_stem String.[] h = refl
prefix_digit_stem (String.◌∷◌ c s) h =
    if_stem (leb 48 (code c) && leb (code c) 57) (append_str "t_" (String.◌∷◌ c s)) (String.◌∷◌ c s)
      (append_stem "t_" (String.◌∷◌ c s) refl h) h

suffix_stem : all_stem "_tool" ≡ true
unfolding all_stem
suffix_stem = refl

ok_of : {A : Type 0} (b : Bool) (e : Error) (x y : A) → (require b e >> ok x) ≡ ok y → x ≡ y
ok_of true e x y h = cc
ok_of false e x y h = cc

-- A tool's name holds letters a to z, digits and underscores only, whatever the model called it: it
-- has no separator and no dot, so its files are in the directory that core puts them in.
pub all_stem-safe_tool_name :
    (normalize : String → String) (is_keyword : String → Bool) (name stem : String)
    → safe_tool_name normalize is_keyword name ≡ ok stem
    → all_stem stem ≡ true
unfolding safe_tool_name
all_stem-safe_tool_name normalize is_keyword name stem h =
    let base = drop_last_underscores (drop_underscores (collapse false (normalize name))) in
    let named = prefix_digit_stem base (
      drop_last_underscores_stem (drop_underscores (collapse false (normalize name))) (
        drop_underscores_stem (collapse false (normalize name))
          (collapse_stem false (normalize name)))) in
    subst (λ t. all_stem t ≡ true)
      (ok_of (not (str_eq base "")) value_error
        (if is_keyword (prefix_digit base)
          then append_str (prefix_digit base) "_tool"
          else prefix_digit base)
        stem h)
      (if_stem (is_keyword (prefix_digit base)) (append_str (prefix_digit base) "_tool")
        (prefix_digit base) (append_stem (prefix_digit base) "_tool" named suffix_stem) named)
