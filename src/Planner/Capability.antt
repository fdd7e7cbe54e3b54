-- ===== src/Planner/Capability.antt =====
-- agentflow/agents/planner/schemas.py and capability.py: the tool and the action that a function's
-- name stands for, and the tool that offers a capability.
use omni_forge.Base.{Bool, false, Option, none, some, String, if◌then◌else◌, List, [], ◌∷◌}
use omni_forge.Base.Words.{split_first, split_last}
use omni_forge.Registry.{ToolRegistry, has_tool}
use omni_forge.Executor.Actions.{entry}

-- `_DEFAULT_CAPABILITIES`
abbrev pub default_capabilities : List (String × String)
default_capabilities =
    ("web.search", "search")
    ∷ ("filesystem.create", "filesystem")
    ∷ ("filesystem.read", "filesystem")
    ∷ ("filesystem.write", "filesystem")
    ∷ ("filesystem.mkdir", "filesystem")
    ∷ ("filesystem.create_file", "filesystem")
    ∷ ("filesystem.write_file", "filesystem")
    ∷ ("git.status", "git")
    ∷ ("browser.open", "browser")
    ∷ ("browser.open_url", "browser")
    ∷ ("python.execute", "python")
    ∷ []

abbrev dotted_name : String → Option (String × String) → String × String
dotted_name name none = (name, "")
dotted_name name (some parts) = parts

unfoldable pub parse_function_name : String → String × String
parse_function_name name = elim (split_first "__" name) [
  | none ↦ dotted_name name (split_last "." name)
  | some parts ↦ parts
]

-- `resolve`, with the tool that the capability names in front of its first dot.
abbrev known_tool : {V : Type 0} → Option (ToolRegistry V) → String → Bool
known_tool none name = false
known_tool (some registry) name = has_tool name registry

unfoldable pub resolve_capability : {V : Type 0} → Option (ToolRegistry V) → String → Option String
resolve_capability registry capability = elim (split_first "." capability) [
  | none ↦ none
  | some (tool_name, _) ↦
      if known_tool registry tool_name
      then some tool_name
      else entry default_capabilities capability
]
