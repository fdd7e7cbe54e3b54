-- ===== src/Base/Words.antt =====
-- Texts inside texts: `startswith`, `in`, `replace`, `len` and slices from the start. `String` has
-- its own `[]` and `∷`.
use Prim.Native.Char.{code}
use Prim.Native.String.{String, ◌++◌}
use Prim.Native.String.append
use Prim.Native.Nat.{ℕ, zero, suc, ◌-◌}
use mathlib.Core.Path.{◌≡◌, ◌∙◌, ap}
use mathlib.Core.Bool.{Bool, ◌||◌}
use mathlib.Core.Option.{Option, none, some}
use text.Mathlib.Text.{◌==◌ as str_eq}
use omni_forge.Base.Tests.{◌==◌, ==_refl, if◌then◌else◌, is_some}

-- What is left behind a prefix.
abbrev pub drop_prefix : String → String → Option String
drop_prefix String.[] s = some s
drop_prefix (String.◌∷◌ c p) String.[] = none
drop_prefix (String.◌∷◌ c p) (String.◌∷◌ d s) =
    let rest = drop_prefix p s in if code c == code d then rest else none

-- `s.startswith(p)`
abbrev pub starts_with : String → String → Bool
starts_with s p = is_some (drop_prefix p s)

-- `needle in s`
abbrev pub contains_text : String → String → Bool
contains_text needle String.[] = starts_with String.[] needle
contains_text needle (String.◌∷◌ c s) =
    starts_with (String.◌∷◌ c s) needle || contains_text needle s

-- `len(s)`
abbrev pub text_length : String → ℕ
text_length String.[] = 0
text_length (String.◌∷◌ c s) = suc (text_length s)

-- `s[:n]`
abbrev pub text_take : ℕ → String → String
text_take zero s = String.[]
text_take (suc n) String.[] = String.[]
text_take (suc n) (String.◌∷◌ c s) = String.◌∷◌ c (text_take n s)

-- The characters of a match are passed over; `old` is not empty.
abbrev replace_from : ℕ → String → String → String → String
replace_from skip old new String.[] = String.[]
replace_from (suc skip) old new (String.◌∷◌ c s) = replace_from skip old new s
replace_from zero old new (String.◌∷◌ c s) =
    let kept = String.◌∷◌ c (replace_from 0 old new s) in
    let replaced = new ++ replace_from (text_length old - 1) old new s in
    if starts_with (String.◌∷◌ c s) old then replaced else kept

-- `s.replace(old, new)`
unfoldable pub replace_text : String → String → String → String
replace_text old new s = replace_from 0 old new s

pub drop_prefix-append : (p s : String) → drop_prefix p (p ++ s) ≡ some s
drop_prefix-append String.[] s = ap some (append.nil s)
drop_prefix-append (String.◌∷◌ c p) s =
    ap (drop_prefix (String.◌∷◌ c p)) (append.cons c p s)
    ∙ rw (==_refl (code c)) (drop_prefix-append p s)

abbrev with_front : String → Option (String × String) → Option (String × String)
with_front text none = none
with_front text (some (front, rest)) = some (text ++ front, rest)

-- A text split at the first place where a separator stands, which is left out.
abbrev pub split_first : String → String → Option (String × String)
split_first separator String.[] = none
split_first separator (String.◌∷◌ c s) =
    let later = with_front (String.◌∷◌ c String.[]) (split_first separator s) in
    elim (drop_prefix separator (String.◌∷◌ c s)) [
      | none ↦ later
      | some rest ↦ some (String.[], rest)
    ]

-- The same at the last place.
abbrev pub split_last : String → String → Option (String × String)
split_last separator String.[] = none
split_last separator (String.◌∷◌ c s) = elim (split_last separator s) [
  | some (front, rest) ↦ some (String.◌∷◌ c front, rest)
  | none ↦ elim (drop_prefix separator (String.◌∷◌ c s)) [
    | none ↦ none
    | some rest ↦ some (String.[], rest)
  ]
]

-- `s.endswith(p)`
abbrev pub ends_with : String → String → Bool
ends_with String.[] p = is_some (drop_prefix p String.[])
ends_with (String.◌∷◌ c s) p = str_eq (String.◌∷◌ c s) p || ends_with s p
