-- ===== src/Planner/Arguments.antt =====
-- agentflow/agents/planner/agent.py: what is read out of the LLM's texts, a JSON object or the
-- arguments of a tool call, and what is still found in arguments that are not JSON. `json.loads` is
-- a parameter; `none` is its JSONDecodeError.
pub mod Newlines
use omni_forge.Base.{
  Bool, true, Option, none, some, String, str_eq, if◌then◌else◌, ◌&&◌, ◌||◌, ◌==◌, leb, is_some,
  get_or, is_empty, List, [], ◌∷◌,
}
use omni_forge.Base.Text.{strip, lstrip}
use omni_forge.Base.Words.{drop_prefix, starts_with, replace_text, split_first, split_last}
use omni_forge.Values.{Value, dict, end}
use omni_forge.Tools.Markdown.{extract_code_from_markdown}
use omni_forge.Planner.Arguments.Newlines.{fix_json_newlines}
use Prim.Native.Char.{Char, code}
use Prim.Native.String.{◌++◌ as text_append}

-- The text in front of a split, and the one behind it.
abbrev front_or : String → Option (String × String) → String
front_or text none = text
front_or text (some (front, rest)) = front

module _ (loads : String → Option Value) where
  -- One marker of the loop: what stands between it and the last fence behind it.
  abbrev fenced : Option (String × String) → Option Value
  fenced none = none
  fenced (some (front, content)) = loads (strip (front_or content (split_last "```" content)))

  abbrev or_else : Option Value → Option Value → Option Value
  or_else none later = later
  or_else (some v) later = some v

  abbrev first_fenced : List String → String → Option Value
  first_fenced [] text = none
  first_fenced (marker ∷ more) text =
      or_else (fenced (split_first marker text)) (first_fenced more text)

  unfoldable pub parse_json : String → Option Value
  unfolding strip
  parse_json raw =
      let text = strip raw in
      or_else (loads text) (first_fenced ("```json" ∷ "```JSON" ∷ "```" ∷ []) text)

  -- From the first `{` to the last `}` behind it.
  abbrev outermost : Option (String × String) → Option Value
  outermost none = none
  outermost (some (front, rest)) = elim (split_last "}" rest) [
    | none ↦ none
    | some (inside, _) ↦ loads (text_append "{" (text_append inside "}"))
  ]

  unfoldable pub parse_tool_arguments : String → Value
  unfolding strip fix_json_newlines
  parse_tool_arguments arguments_str =
      let raw = strip arguments_str in
      if str_eq raw ""
      then dict end
      else get_or
          (or_else (loads raw)
            (or_else (loads (fix_json_newlines raw)) (outermost (split_first "{" raw))))
          (dict end)

-- `re.search`: the first place at which a match starts.
abbrev search : (String → Option String) → String → Option String
search match String.[] = match String.[]
search match (String.◌∷◌ c s) =
    let later = search match s in
    elim (match (String.◌∷◌ c s)) [ none ↦ later | some found ↦ some found ]

abbrev then_text : Option String → (String → Option String) → Option String
then_text none next = none
then_text (some rest) next = next rest

-- A match of `\s*` and then the text.
abbrev spaced : String → String → Option String
spaced text s = drop_prefix text (lstrip s)

-- A match of `"key"\s*:\s*"`, for a key with its quotes.
abbrev field_start : String → String → Option String
field_start key s = then_text (drop_prefix key s) (λ r. then_text (spaced ":" r) (spaced "\""))

-- The text up to a quote behind which the test holds: the first such quote (`.*?"`), and the last.
abbrev cons_some : Char → Option String → Option String
cons_some c none = none
cons_some c (some text) = some (String.◌∷◌ c text)

abbrev to_first_quote : (String → Bool) → String → Option String
to_first_quote ends String.[] = none
to_first_quote ends (String.◌∷◌ c s) =
    let later = cons_some c (to_first_quote ends s) in
    if code c == b'"' && ends s then some "" else later

abbrev to_last_quote : (String → Bool) → String → Option String
to_last_quote ends String.[] = none
to_last_quote ends (String.◌∷◌ c s) = elim (to_last_quote ends s) [
  | none ↦ if code c == b'"' && ends s then some "" else none
  | some text ↦ some (String.◌∷◌ c text)
]

-- `[^"]+"`
abbrev plain_value : String → Option String
plain_value rest =
    then_text (to_first_quote (λ _. true) rest) (λ v. if str_eq v "" then none else some v)

unfoldable pub extract_path_from_args : String → Option String
extract_path_from_args raw = search (λ s. then_text (field_start "\"path\"" s) plain_value) raw

unfoldable pub unescape_json_content : String → String
unfolding replace_text
unescape_json_content raw =
    let newlines = replace_text "\\n" "\n" raw in
    let tabs = replace_text "\\t" "\t" newlines in
    let returns = replace_text "\\r" "\r" tabs in
    let quotes = replace_text "\\\"" "\"" returns in replace_text "\\\\" "\\" quotes

-- `\s*\}?\s*$`
abbrev ends_object : String → Bool
ends_object s = let rest = lstrip s in str_eq (lstrip (get_or (drop_prefix "}" rest) rest)) ""

-- What is left behind `[a-z_]*`, and behind `[a-z_]+`.
abbrev skip_name : String → String
skip_name String.[] = String.[]
skip_name (String.◌∷◌ c s) =
    let rest = skip_name s in
    if leb b'a' (code c) && leb (code c) b'z' || code c == b'_' then rest else String.◌∷◌ c s

abbrev after_name : String → Option String
after_name s = if str_eq (skip_name s) s then none else some (skip_name s)

-- `\s*,\s*"[a-z_]+"\s*:`
abbrev next_field : String → Bool
next_field s = is_some (
    then_text (spaced "," s) (λ r.
      then_text (spaced "\"" r)
        (λ n. then_text (after_name n) (λ q. then_text (drop_prefix "\"" q) (spaced ":")))))

-- `(.+?)"`: the first character is part of the text, also a quote.
abbrev to_next_field : String → Option String
to_next_field String.[] = none
to_next_field (String.◌∷◌ c s) = cons_some c (to_first_quote next_field s)

abbrev recovered : Option String → Option String
recovered none = none
recovered (some text) = some (extract_code_from_markdown (unescape_json_content text))

unfoldable pub extract_content_from_args : String → Option String
unfolding unescape_json_content extract_code_from_markdown
extract_content_from_args raw =
    let field = field_start "\"content\"" in
    elim (search (λ s. then_text (field s) (to_last_quote ends_object)) raw) [
      | none ↦ recovered (search (λ s. then_text (field s) to_next_field) raw)
      | some text ↦ recovered (some text)
    ]

-- `\s*[,}]`
abbrev ends_field : String → Bool
ends_field s = starts_with (lstrip s) "," || starts_with (lstrip s) "}"

unfoldable pub extract_code_prompt_from_args : String → Option String
unfolding unescape_json_content
extract_code_prompt_from_args raw =
    then_text
      (search (λ s. then_text (field_start "\"code_prompt\"" s) (to_first_quote ends_field)) raw)
      (λ text. some (unescape_json_content text))
