-- ===== src/Workflow/Parallel.antt =====
-- `_select_parallel_tasks`: which TODO tasks may run together. A task comes with its position.
pub mod Bounds
pub mod Paths
use omni_forge.Base.{
  Bool, true, false, Option, none, some, String, str_eq, if◌then◌else◌, List, [], ◌∷◌, ◌++◌, ℕ,
  get_or, filter, enumerate, map, max_by, length, ltb, take, not, ◌||◌,
}
use omni_forge.Base.Int.{ℤ, pos, negsuc, eqb_ℤ}
use omni_forge.Base.Text.{strip}
use omni_forge.Values.{Value, str, dict, Fields, end, get, truthy}
use omni_forge.Tasks.Serial.{TaskDict}
use omni_forge.Executor.Actions.{contains}
use omni_forge.Workflow.Select.{is_todo, priority_of}

abbrev pub readonly_actions : List String
readonly_actions =
    "read_file" ∷ "list_directory" ∷ "tree" ∷ "exists" ∷ "search_file" ∷ "search_content" ∷ []

abbrev pub write_actions : List String
write_actions = "write_file" ∷ "create_file" ∷ "append_file" ∷ []

-- A candidate: the task at its position, and whether it writes.
abbrev pub Candidate : Type 0
Candidate = ℕ × TaskDict × Bool

-- `task.get("input", {}) or {}`, if that is a dict
abbrev pub input_dict : Option Value → Option Fields
input_dict none = some end
input_dict (some (dict d)) = some d
input_dict (some v) = if truthy v then none else some end

-- `str(inp.get(key, default))`; `text_of` is the text that Python makes of a value.
abbrev pub text_entry : (Value → String) → Option Value → String → String
text_entry text_of none default = default
text_entry text_of (some (str s)) default = s
text_entry text_of (some v) default = text_of v

module _ (text_of : Value → String) where
  abbrev pub action_of : TaskDict → Fields → String
  action_of d inp = text_entry text_of (get "action" inp) (get_or d.action "")

  abbrev pub path_of : Fields → String
  path_of inp = strip (text_entry text_of (get "path" inp) "")

  -- What a filesystem task with this input adds: its path and whether it writes, if it may join.
  abbrev file_access : List String → TaskDict → Option Fields → Option (String × Bool)
  file_access seen d none = none
  file_access seen d (some inp) =
      let action = action_of d inp in
      let path = path_of inp in
      if not (contains write_actions action || contains readonly_actions action)
      then none
      else if str_eq path "" || contains seen path
      then none
      else some (path, contains write_actions action)

  -- One round: `rest` goes on with the paths that are seen.
  abbrev file_round :
      ℕ × TaskDict
      → List String
      → Option (String × Bool)
      → (List String → List Candidate)
      → List Candidate
  file_round e seen none rest = rest seen
  file_round e seen (some (path, is_write)) rest = (e.0, e.1, is_write) ∷ rest (path ∷ seen)

  abbrev round : ℕ × TaskDict → List String → (List String → List Candidate) → List Candidate
  round e seen rest =
      let tool = get_or e.1.tool "" in
      if not (is_todo e.1)
      then rest seen
      else if str_eq tool "search"
      then (e.0, e.1, false) ∷ rest seen
      else if not (str_eq tool "filesystem")
      then rest seen
      else file_round e seen (file_access seen e.1 (input_dict e.1.input)) rest

  -- The loop over the queue, with `seen_paths`.
  unfoldable pub candidates : List String → List (ℕ × TaskDict) → List Candidate
  candidates seen [] = []
  candidates seen (e ∷ es) = round e seen (λ seen'. candidates seen' es)

  abbrev pub writes : Candidate → Bool
  writes c = c.2

  abbrev pub reads : Candidate → Bool
  reads c = not c.2

  abbrev pub candidate_priority : Candidate → ℤ
  candidate_priority c = priority_of c.1

  -- `max(…, default=-1)`
  abbrev max_write_priority : List Candidate → ℤ
  max_write_priority group = elim (max_by candidate_priority group) [
    | none ↦ negsuc 0
    | some c ↦ candidate_priority c
  ]

  -- The writes of the top priority, then all reads.
  abbrev pub selected : List Candidate → List Candidate
  selected cs =
      let group = filter writes cs in
      filter (λ c. eqb_ℤ (candidate_priority c) (max_write_priority group)) group ++ filter reads cs

  abbrev at_most_eight : List Candidate → List Candidate
  at_most_eight cs = if ltb (length cs) 2 then [] else take 8 cs

  abbrev pub choose : List Candidate → List Candidate
  choose cs = if ltb (length cs) 2 then [] else at_most_eight (selected cs)

  unfoldable pub select_parallel_tasks : List TaskDict → List Candidate
  unfolding candidates strip
  select_parallel_tasks queue = choose (candidates [] (enumerate 0 queue))
