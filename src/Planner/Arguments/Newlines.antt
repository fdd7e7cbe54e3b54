-- ===== src/Planner/Arguments/Newlines.antt =====
-- `_fix_json_newlines` of agentflow/agents/planner/agent.py.
use omni_forge.Base.{
  ◌≡◌, refl, sym, ap, ◌∙◌, subst, Bool, true, false, String, if◌then◌else◌, ℕ, suc, ◌+◌, ◌<◌, ◌==◌,
  ◌&&◌, ◌||◌, not, Bool-cases, ◌⊎◌, inl, inr, arith,
}
use omni_forge.Base.Words.{text_length}
use Prim.Native.Char.{Char, code}
use Prim.Native.String.{◌++◌ as text_append}
use Prim.Native.String.append

-- The loop, inside or outside a string, behind a backslash or not.
unfoldable pub fix_newlines_from : Bool → Bool → String → String
fix_newlines_from in_string escape String.[] = String.[]
fix_newlines_from in_string true (String.◌∷◌ c s) =
    String.◌∷◌ c (fix_newlines_from in_string false s)
fix_newlines_from in_string false (String.◌∷◌ c s) =
    let escaped = String.◌∷◌ c (fix_newlines_from in_string true s) in
    let quoted = String.◌∷◌ c (fix_newlines_from (not in_string) false s) in
    let same = String.◌∷◌ c (fix_newlines_from in_string false s) in
    let newline = text_append "\\n" (fix_newlines_from in_string false s) in
    if code c == b'\\'
    then escaped
    else if code c == b'"'
    then quoted
    else if in_string && (code c == 10 || code c == 13)
    then newline
    else same

unfoldable pub fix_json_newlines : String → String
unfolding fix_newlines_from
fix_json_newlines raw = fix_newlines_from false false raw

-- How many newlines stand in the strings of a text, those right behind a backslash apart.
abbrev pub newlines_from : Bool → Bool → String → ℕ
newlines_from in_string escape String.[] = 0
newlines_from in_string true (String.◌∷◌ c s) = newlines_from in_string false s
newlines_from in_string false (String.◌∷◌ c s) =
    let escaped = newlines_from in_string true s in
    let toggled = newlines_from (not in_string) false s in
    let same = newlines_from in_string false s in
    if code c == b'\\'
    then escaped
    else if code c == b'"'
    then toggled
    else if in_string && (code c == 10 || code c == 13)
    then suc same
    else same

abbrev pub newlines_in_strings : String → ℕ
newlines_in_strings s = newlines_from false false s

-- With `n` newlines in the strings of `s` and `m` in those of `t`: `t` has none, is longer by one
-- character for each of `s`, and is `s` where that has none.
abbrev IsRepair : ℕ → ℕ → String → String → Type 0
IsRepair n m s t = (m ≡ 0) × (text_length t ≡ text_length s + n) × ((t ≡ s) ⊎ (0 < n))

same_char :
    (c : Char) (n m : ℕ) (s t : String)
    → IsRepair n m s t
    → IsRepair n m (String.◌∷◌ c s) (String.◌∷◌ c t)
same_char c n m s t (none_left, longer, same) = (
  none_left,
  omega (arith, longer),
  elim same [ inl e ↦ inl (ap (String.◌∷◌ c) e) | inr h ↦ inr h ],
)

-- What is written for a newline.
front : (t : String) → text_append "\\n" t ≡ String.◌∷◌ "\\" (String.◌∷◌ "n" t)
front t =
    append.cons "\\" "n" t
    ∙ ap (String.◌∷◌ "\\") (append.cons "n" "" t ∙ ap (String.◌∷◌ "n") (append.nil t))

new_char :
    (c : Char) (n : ℕ) (s t : String)
    → IsRepair n (newlines_from true false t) s t
    → IsRepair
        (suc n)
        (newlines_from true false (text_append "\\n" t))
        (String.◌∷◌ c s)
        (text_append "\\n" t)
new_char c n s t (none_left, longer, same) =
    subst (λ x. IsRepair (suc n) (newlines_from true false x) (String.◌∷◌ c s) x) (sym (front t))
      (none_left, omega (arith, longer), inr (omega arith))

-- Of the text from here on.
abbrev Repairs : Bool → Bool → String → Type 0
Repairs i e s =
    IsRepair (newlines_from i e s) (newlines_from i e (fix_newlines_from i e s)) s
      (fix_newlines_from i e s)

module _ (c : Char) (s : String) (other : code c == b'\\' ≡ false) where
  -- A step over any character but a backslash.
  step-Repairs :
      (in_string : Bool)
      → ((b : Bool) → Repairs b false s)
      → Repairs in_string false (String.◌∷◌ c s)
  unfolding fix_newlines_from
  step-Repairs false rest = elim (Bool-cases (code c == b'"')) [
    | inl quote ↦ rw (other, quote) (rw (other, quote) (same_char c _ _ s _ (rest true)))
    | inr plain ↦ rw (other, plain) (rw (other, plain) (same_char c _ _ s _ (rest false)))
  ]
  step-Repairs true rest = elim (Bool-cases (code c == b'"')) [
    | inl quote ↦ rw (other, quote) (rw (other, quote) (same_char c _ _ s _ (rest false)))
    | inr plain ↦ elim (Bool-cases (code c == 10 || code c == 13)) [
      | inl raw ↦ rw (other, plain, raw) (new_char c _ s _ (rest true))
      | inr kept ↦
          rw (other, plain, kept) (rw (other, plain, kept) (same_char c _ _ s _ (rest true)))
    ]
  ]

fix_newlines_from-Repairs : (in_string escape : Bool) (s : String) → Repairs in_string escape s
unfolding fix_newlines_from
fix_newlines_from-Repairs b e String.[] = (refl, omega arith, inl refl)
fix_newlines_from-Repairs b true (String.◌∷◌ c s) =
    same_char c _ _ s _ (fix_newlines_from-Repairs b false s)
fix_newlines_from-Repairs b false (String.◌∷◌ c s) =
    let later : (i : Bool) → Repairs i false s = λ i. fix_newlines_from-Repairs i false s in
    elim (Bool-cases (code c == b'\\')) [
      | inl back ↦ rw back (rw back (same_char c _ _ s _ (fix_newlines_from-Repairs b true s)))
      | inr other ↦ step-Repairs c s other b later
    ]

-- In repaired arguments no newline stands in a string, but right behind a backslash. The repair makes
-- the text longer by one character for each newline that stood in a string, and leaves arguments
-- without such a newline as they were.
pub fix_json_newlines-repairs :
    (raw : String)
    → (newlines_in_strings (fix_json_newlines raw) ≡ 0)
      × (text_length (fix_json_newlines raw) ≡ text_length raw + newlines_in_strings raw)
      × ((fix_json_newlines raw ≡ raw) ⊎ (0 < newlines_in_strings raw))
unfolding fix_json_newlines
fix_json_newlines-repairs raw = fix_newlines_from-Repairs false false raw
