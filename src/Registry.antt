-- ===== src/Registry.antt =====
-- agentflow/tools/registry.py and tools/base.py: the registry of tools and the dispatch to them.
-- A tool is what `BaseTool` lets a subclass decide. `W` is the outside world, time included, which
-- a tool reads and changes.
pub mod Dispatch
use omni_forge.Base.{
  ◌≡◌, refl, Bool, true, false, Option, none, some, String, str_eq, if◌then◌else◌, List, [], ◌∷◌,
  ◌++◌, ℕ, map, filter, is_some, not, ◌&&◌, ◌||◌,
}
use omni_forge.Base.Keyed.{lookup, insert, delete, mapped}
use omni_forge.Base.Names.{sort_names, sorted_set}
use omni_forge.Values.{Value, str, Fields, put, has_key}
use omni_forge.Results.{Call, returned, raised, ToolResult, fail_result, or_text}
use Prim.Native.String.{◌++◌ as text_append}

-- `validate` answers with no error, or with the reason; `status` is the entry of `metadata()`.
pub record Tool (W : Type 0) : Type 0 where
  pub name : String
  pub routing_node : String
  pub action_names : List String
  pub status : Call (Option String)
  pub validate : Fields → Call (Option String)
  pub execute : Fields → W → Call ToolResult × W

-- `_tools`, a dict
abbrev pub ToolRegistry : Type 0 → Type 0
ToolRegistry W = List (String × Tool W)

abbrev usable_status : Call (Option String) → Bool
usable_status (raised _) = true
usable_status (returned none) = true
usable_status (returned (some status)) = not (str_eq status "interface_only")

-- The keyword arguments with which `execute` is called.
abbrev pub execute_kwargs : String → Fields → Fields
execute_kwargs action kwargs =
    if not (str_eq action "") && not (has_key "action" kwargs)
    then put "action" (str action) kwargs
    else kwargs

-- The parameters of the method.
abbrev pub takes_parameter : Fields → Bool
takes_parameter kwargs =
    has_key "self" kwargs || has_key "tool_name" kwargs || has_key "action" kwargs

module _ {W : Type 0} where
  abbrev pub entry_name : String × Tool W → String
  entry_name e = e.0

  abbrev never : String × Tool W → Bool
  never e = false

  -- The ValueError is for a tool with no name; a registered name is overwritten in place.
  unfoldable pub register : Tool W → ToolRegistry W → Call (ToolRegistry W)
  register tool registry =
      if str_eq tool.name ""
      then raised "Tool must have a non-empty '.name'"
      else returned (insert entry_name never (tool.name, tool) registry)

  unfoldable pub unregister : String → ToolRegistry W → ToolRegistry W
  unregister name registry = delete entry_name name registry

  abbrev pub tool_of : Option (String × Tool W) → Option (Tool W)
  tool_of none = none
  tool_of (some e) = some e.1

  unfoldable pub get_tool : String → ToolRegistry W → Option (Tool W)
  get_tool name registry = tool_of (lookup entry_name name registry)

  unfoldable pub has_tool : String → ToolRegistry W → Bool
  has_tool name registry = is_some (lookup entry_name name registry)

  unfoldable pub list_tools : ToolRegistry W → List String
  list_tools registry = sort_names (map entry_name registry)

  -- `_tool_is_usable`
  unfoldable pub tool_is_usable : Tool W → Bool
  tool_is_usable tool = usable_status tool.status

  -- `BaseTool.capabilities`
  unfoldable pub capabilities : Tool W → List String
  capabilities tool =
      map (λ action. text_append tool.name (text_append "." action)) tool.action_names

  usable_capabilities : ToolRegistry W → List String
  unfolding tool_is_usable capabilities
  usable_capabilities [] = []
  usable_capabilities (e ∷ rest) =
      (if tool_is_usable e.1 then capabilities e.1 else []) ++ usable_capabilities rest

  unfoldable pub get_all_capabilities : ToolRegistry W → List String
  unfolding usable_capabilities
  get_all_capabilities registry = sorted_set (usable_capabilities registry)

  abbrev pub node_of : Option (Tool W) → Option String
  node_of none = none
  node_of (some tool) = some tool.routing_node

  unfoldable pub get_node_for_tool : String → ToolRegistry W → Option String
  unfolding get_tool
  get_node_for_tool name registry = node_of (get_tool name registry)

  unfoldable pub get_executor_tools : ToolRegistry W → List String
  get_executor_tools registry =
      map entry_name (filter (λ e. str_eq e.1.routing_node "tool_executor") registry)

  -- `elapsed` is the rounded time between two states of the world, and `shown` the text that
  -- Python makes of a list of names.
  module _ (elapsed : W → W → ℕ) (shown : List String → String) where
    -- What is written over in the result of the tool; an exception becomes a failure.
    abbrev finish : String → String → W → Call ToolResult × W → ToolResult
    finish tool_name action start (returned r, later) = record r {
      tool = tool_name;
      action = or_text action r.action;
      duration = elapsed start later;
    }
    finish tool_name action start (raised text, later) = fail_result tool_name action text

    abbrev pub dispatch :
        String → String → Fields → Tool W → Call (Option String) → W → Call ToolResult × W
    dispatch tool_name action kwargs tool (raised text) w = (raised text, w)
    dispatch tool_name action kwargs tool (returned (some error)) w =
        (returned (fail_result tool_name action error), w)
    dispatch tool_name action kwargs tool (returned none) w =
        let answer = tool.execute (execute_kwargs action kwargs) w in
        (returned (finish tool_name action w answer), answer.1)

    abbrev unknown_tool : String → ToolRegistry W → String
    unknown_tool tool_name registry =
        text_append "Unknown tool '"
          (text_append tool_name (text_append "'. Available: " (shown (list_tools registry))))

    abbrev pub execute_on :
        String → String → Fields → ToolRegistry W → Option (Tool W) → W → Call ToolResult × W
    execute_on tool_name action kwargs registry none w =
        (returned (fail_result tool_name action (unknown_tool tool_name registry)), w)
    execute_on tool_name action kwargs registry (some tool) w =
        dispatch tool_name action kwargs tool (tool.validate kwargs) w

    -- A keyword that is also a parameter of the method is a TypeError of the call itself: every
    -- caller gives the name of the tool and the action.
    unfoldable pub execute_task :
        ToolRegistry W → String → String → Fields → W → Call ToolResult × W
    unfolding get_tool
    execute_task registry tool_name action kwargs w =
        if takes_parameter kwargs
        then (raised "TypeError: got multiple values for argument", w)
        else execute_on tool_name action kwargs registry (get_tool tool_name registry) w
