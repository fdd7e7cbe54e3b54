-- ===== src/Planner/Build/Json.antt =====
-- `_build_plan_from_json` of agentflow/agents/planner/agent.py.
use omni_forge.Base.{
  Bool, false, Option, none, some, String, str_eq, if◌then◌else◌, List, [], ℕ, suc, not, ◌||◌,
  get_or,
}
use omni_forge.Base.Int.{ℤ, pos}
use omni_forge.Base.Text.{strip}
use omni_forge.Values.{
  Value, bool, str, list, dict, Items, nil, cons, Fields, end, get, put, truthy,
}
use omni_forge.Tasks.{Task}
use omni_forge.Workflow.State.{Plan}
use omni_forge.Registry.{ToolRegistry}
use omni_forge.Results.{or_text}
use omni_forge.Tools.Markdown.{extract_code_from_markdown}
use omni_forge.Planner.Capability.{resolve_capability}
use omni_forge.Planner.Build.{
  Runtime, Built, built, invalid, crashed, then_built, trim_tasks, cons_task, make_task, planned,
  as_text, text_field, embed_action, tool_action, trim_note, new_plan,
}
use Prim.Native.String.{◌++◌ as text_append}

-- `item.get("input", {})`, if that is a dict
abbrev input_of : Option Value → Fields
input_of (some (dict d)) = d
input_of _ = end

-- A content in a fence of markdown is unwrapped.
abbrev unwrap : Option Value → Fields → Fields
unwrap (some (str text)) input = put "content" (str (extract_code_from_markdown text)) input
unwrap _ input = input

-- The tool and the capability of a task, unless neither is given.
abbrev tool_or_capability :
    {V : Type 0} → Option (ToolRegistry V) → String → String → String → Option (String × String)
tool_or_capability registry tool action capability_raw =
    if not (str_eq tool "")
    then some (tool, tool_action tool action)
    else if not (str_eq capability_raw "")
    then some (get_or (resolve_capability registry capability_raw) "", capability_raw)
    else none

module _ {V : Type 0} (runtime : Runtime) (registry : Option (ToolRegistry V)) where
  open runtime use {number, int_of}

  -- `str(item.get(key, default) or default)`
  abbrev text_or : String → String → Fields → String
  text_or key default item =
      let v = get_or (get key item) (str default) in if truthy v then as_text runtime v else default

  -- `int(item.get("priority") or 50)`
  abbrev priority_of : Option Value → Option ℤ
  priority_of none = some (pos 50)
  priority_of (some v) = if truthy v then int_of v else some (pos 50)

  -- `tgoal or f"…" if action else f"…"`, which is read with the condition outermost
  abbrev goal_of : String → String → String → String
  goal_of tgoal tool action =
      if str_eq action ""
      then text_append "执行 " tool
      else or_text tgoal (text_append "执行 " (text_append tool (text_append "." action)))

  abbrev default_id : ℕ → String
  default_id i = text_append "task_" (number i)

  -- `str(item.get(key, "")).strip()`
  abbrev word : String → Fields → String
  word key item = strip (text_field runtime key "" item)

  abbrev task_input : Fields → Fields
  task_input item =
      let input = embed_action (word "action" item) (input_of (get "input" item)) in
      unwrap (get "content" input) input

  unfoldable pub used_task : ℕ → Fields → ℤ → String → String → Task
  unfolding get put make_task embed_action extract_code_from_markdown strip
  used_task i item priority tool capability =
      let task_id = text_or "task_id" (default_id i) item in
      let title = text_field runtime "title" (text_field runtime "goal" task_id item) item in
      let tgoal = goal_of (word "goal" item) tool (word "action" item) in
      record (planned (make_task runtime i task_id title priority tool tgoal (task_input item))) {
        capability = capability;
      }

  abbrev pub item_task : ℕ → Fields → Option ℤ → Option (String × String) → Built (Option Task)
  item_task i item none _ = invalid
  item_task i item (some priority) none = built none
  item_task i item (some priority) (some (tool, capability)) =
      built (some (used_task i item priority tool capability))

  unfoldable pub json_task : ℕ → Fields → Built (Option Task)
  unfolding get used_task resolve_capability strip
  json_task i item =
      item_task i item (priority_of (get "priority" item)) (
        tool_or_capability registry (word "tool" item) (word "action" item)
          (word "capability" item))

  -- An element that is no dict is passed over.
  unfoldable pub json_tasks : ℕ → Items → Built (List Task)
  unfolding json_task
  json_tasks i nil = built []
  json_tasks i (cons (dict item) items) =
      then_built (json_task i item)
        (λ t. then_built (json_tasks (suc i) items) (λ ts. built (cons_task t ts)))
  json_tasks i (cons _ items) = json_tasks (suc i) items

  abbrev pub no_tasks : String → String → String → Bool → Bool → Plan
  no_tasks goal goal_type reasoning direct goal_completed =
      new_plan goal goal_type [] direct (goal_completed || direct) (or_text reasoning "目标已完成")

  abbrev pub json_plan : String → String → Bool → String → List Task → Plan
  json_plan goal goal_type goal_completed reasoning tasks =
      new_plan goal goal_type (trim_tasks tasks) false goal_completed
        (text_append reasoning (trim_note runtime tasks))

  -- A list of tasks; another value that is not empty is a ValueError.
  abbrev pub listed_plan : String → String → Bool → String → Value → Built Plan
  listed_plan goal goal_type goal_completed reasoning (list items) =
      then_built (json_tasks 0 items)
        (λ tasks. built (json_plan goal goal_type goal_completed reasoning tasks))
  listed_plan goal goal_type goal_completed reasoning _ = invalid

  unfoldable pub build_plan_from_object : Fields → String → String → Built Plan
  unfolding get json_tasks trim_tasks
  build_plan_from_object answer goal goal_type =
      let goal_completed = truthy (get_or (get "goal_completed" answer) (bool false)) in
      let tasks_raw = get_or (get "tasks" answer) (list nil) in
      let reasoning = text_field runtime "reasoning" "" answer in
      let direct = truthy (get_or (get "direct_answer" answer) (bool (not (truthy tasks_raw)))) in
      if goal_completed || not (truthy tasks_raw)
      then built (no_tasks goal goal_type reasoning direct goal_completed)
      else listed_plan goal goal_type goal_completed reasoning tasks_raw

  -- JSON that is no object has no `get`.
  abbrev pub build_plan_from_json : Value → String → String → Built Plan
  build_plan_from_json (dict answer) goal goal_type = build_plan_from_object answer goal goal_type
  build_plan_from_json _ goal goal_type = crashed
