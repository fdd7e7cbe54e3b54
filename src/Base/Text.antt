-- ===== src/Base/Text.antt =====
-- Methods of `str`: `strip`, and `lower` on the ASCII letters; other characters stay as they are. `String` has its own `[]`
-- and `∷`.
use Prim.Native.Char.{Char, code}
use Prim.Native.String.{String}
use Prim.Native.Nat.{ℕ}
use mathlib.Core.Bool.{Bool, ◌&&◌, ◌||◌}
use omni_forge.Base.Tests.{◌==◌, leb, if◌then◌else◌}

-- The character of the second text at the place where the first one has `c`.
abbrev translate : String → String → Char → Char
translate String.[] _ c = c
translate (String.◌∷◌ a from) String.[] c = c
translate (String.◌∷◌ a from) (String.◌∷◌ b to) c =
    if code a == code c then b else translate from to c

unfoldable pub lower : String → String
lower String.[] = String.[]
lower (String.◌∷◌ c s) =
    String.◌∷◌ (translate "ABCDEFGHIJKLMNOPQRSTUVWXYZ" "abcdefghijklmnopqrstuvwxyz" c) (lower s)

-- `str.isspace` of one character.
abbrev pub is_space : ℕ → Bool
is_space c =
    leb 9 c && leb c 13
    || leb 28 c && leb c 32
    || c == 133
    || c == 160
    || c == 5760
    || leb 8192 c && leb c 8202
    || c == 8232
    || c == 8233
    || c == 8239
    || c == 8287
    || c == 12288

abbrev pub lstrip : String → String
lstrip String.[] = String.[]
lstrip (String.◌∷◌ c s) = let rest = lstrip s in if is_space (code c) then rest else String.◌∷◌ c s

abbrev cons_stripped : Char → String → String
cons_stripped c String.[] = if is_space (code c) then String.[] else String.◌∷◌ c String.[]
cons_stripped c (String.◌∷◌ d s) = String.◌∷◌ c (String.◌∷◌ d s)

abbrev rstrip : String → String
rstrip String.[] = String.[]
rstrip (String.◌∷◌ c s) = cons_stripped c (rstrip s)

-- `str.strip()`
unfoldable pub strip : String → String
strip s = rstrip (lstrip s)
