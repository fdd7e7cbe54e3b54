-- ===== src/Base/Patterns.antt =====
-- Regular expressions as far as the program tests texts with them: a pattern gives what each of
-- its matches leaves of the text, so that a test for a match is a test for one.
use Prim.Native.Char.{code}
use Prim.Native.String.{String}
use Prim.Native.Nat.{ℕ, zero, suc}
use mathlib.Core.Bool.{Bool, false, not, ◌||◌}
use mathlib.Core.List.{List, [], ◌∷◌, ◌++◌}
use mathlib.Core.Option.{Option, none, some}
use omni_forge.Base.Tests.{◌==◌, if◌then◌else◌}
use omni_forge.Base.Lists.{is_empty, any}
use omni_forge.Base.Words.{drop_prefix}

abbrev pub Pattern : Type 0
Pattern = String → List String

abbrev left : Option String → List String
left none = []
left (some rest) = rest ∷ []

abbrev pub text : String → Pattern
text t s = left (drop_prefix t s)

-- `[…]`
abbrev pub one : (ℕ → Bool) → Pattern
one p String.[] = []
one p (String.◌∷◌ c s) = if p (code c) then s ∷ [] else []

-- `[…]*`
abbrev pub many : (ℕ → Bool) → Pattern
many p String.[] = String.[] ∷ []
many p (String.◌∷◌ c s) =
    let later = many p s in String.◌∷◌ c s ∷ (if p (code c) then later else [])

abbrev each : Pattern → List String → List String
each p [] = []
each p (s ∷ ss) = p s ++ each p ss

-- One pattern behind the other.
abbrev pub in_order : List Pattern → Pattern
in_order [] s = s ∷ []
in_order (p ∷ ps) s = each (in_order ps) (p s)

-- `(a|b|…)`
abbrev pub texts : List String → Pattern
texts [] s = []
texts (t ∷ ts) s = text t s ++ texts ts s

-- `(…)?`, `{n,}`
abbrev pub maybe : Pattern → Pattern
maybe p s = s ∷ p s

abbrev pub times : ℕ → Pattern → Pattern
times zero p s = s ∷ []
times (suc n) p s = each (times n p) (p s)

-- The end of the text, and `$`, which also stands in front of a newline at the end.
abbrev pub no_more : Pattern
no_more String.[] = String.[] ∷ []
no_more (String.◌∷◌ c s) = []

abbrev pub at_end : Pattern
at_end String.[] = String.[] ∷ []
at_end (String.◌∷◌ c String.[]) = if code c == 10 then String.◌∷◌ c String.[] ∷ [] else []
at_end (String.◌∷◌ c (String.◌∷◌ d s)) = []

-- `\b` behind a word: no word's character follows.
abbrev pub word_end : (ℕ → Bool) → Pattern
word_end is_word String.[] = String.[] ∷ []
word_end is_word (String.◌∷◌ c s) = if is_word (code c) then [] else String.◌∷◌ c s ∷ []

-- `.`
abbrev pub any_char : ℕ → Bool
any_char c = not (c == 10)

-- A character of the text, as a class.
abbrev pub among : String → ℕ → Bool
among String.[] n = false
among (String.◌∷◌ c s) n = code c == n || among s n

abbrev pub matches : Pattern → String → Bool
matches p s = not (is_empty (p s))

abbrev pub searches : Pattern → String → Bool
searches p String.[] = matches p String.[]
searches p (String.◌∷◌ c s) = matches p (String.◌∷◌ c s) || searches p s

abbrev pub full_match : Pattern → String → Bool
full_match p = matches (λ s. each no_more (p s))

-- `any(p.match(s) for p in patterns)`, and the same with `search`
abbrev pub any_match : List Pattern → String → Bool
any_match ps s = any (λ p. matches p s) ps

abbrev pub any_search : List Pattern → String → Bool
any_search ps s = any (λ p. searches p s) ps
