-- ===== src/Tools/Markdown.antt =====
-- `_extract_code_from_markdown` of agentflow/tools/filesystem_tool.py.
use omni_forge.Base.{
  Bool, false, String, str_eq, if◌then◌else◌, List, [], ◌∷◌, ◌==◌, not, ◌&&◌, ◌||◌, is_empty,
}
use omni_forge.Base.Text.{strip}
use omni_forge.Base.Words.{starts_with, contains_text}
use Prim.Native.Char.{Char, code}
use Prim.Native.String.{◌++◌ as text_append}

abbrev cons_line : Char → List String → List String
cons_line c [] = String.◌∷◌ c String.[] ∷ []
cons_line c (line ∷ lines) = String.◌∷◌ c line ∷ lines

-- `text.split("\n")`
unfoldable pub split_lines : String → List String
split_lines String.[] = "" ∷ []
split_lines (String.◌∷◌ c s) =
    let lines = split_lines s in if code c == 10 then "" ∷ lines else cons_line c lines

-- `"\n".join(lines)`
unfoldable pub join_lines : List String → String
join_lines [] = ""
join_lines (line ∷ []) = line
join_lines (line ∷ next ∷ more) = text_append line (text_append "\n" (join_lines (next ∷ more)))

-- The lines between two fences; a fence is passed over.
unfoldable pub block_lines : Bool → List String → List String
unfolding strip
block_lines in_block [] = []
block_lines in_block (line ∷ lines) =
    let is_fence = starts_with (strip line) "```" in
    let later = block_lines (if is_fence then not in_block else in_block) lines in
    if in_block && not is_fence then line ∷ later else later

unfoldable pub extract_code_from_markdown : String → String
unfolding split_lines join_lines block_lines strip
extract_code_from_markdown text =
    let blocks = block_lines false (split_lines text) in
    if str_eq text "" || not (contains_text "```" text) || is_empty blocks
    then text
    else strip (join_lines blocks)
