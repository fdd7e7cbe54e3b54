-- ===== src/Planner/Build/Calls.antt =====
-- `_build_plan_from_tool_calls` of agentflow/agents/planner/agent.py.
use omni_forge.Base.{
  Bool, false, Option, none, some, String, str_eq, if◌then◌else◌, List, [], ◌∷◌, ℕ, suc, length,
  ltb, not, ◌&&◌, ◌||◌, get_or,
}
use omni_forge.Base.Int.{pos}
use omni_forge.Base.Words.{replace_text, text_length, text_take}
use omni_forge.Values.{Value, null, str, dict, Fields, end, field, get, truthy}
use omni_forge.Tasks.{Task}
use omni_forge.Workflow.State.{Plan}
use omni_forge.Executor.Actions.{contains}
use omni_forge.Services.Llm.{ToolCall}
use omni_forge.Planner.Capability.{parse_function_name}
use omni_forge.Planner.Arguments.{
  parse_tool_arguments, extract_path_from_args, extract_content_from_args,
  extract_code_prompt_from_args,
}
use Prim.Native.String.{◌++◌ as text_append}
use omni_forge.Planner.Build.{
  Runtime, Built, built, crashed, then_built, trim_tasks, cons_task, make_task, planned,
  embed_action, tool_action, mkdir_task, trim_note, new_plan,
}

-- `_NON_CREATIVE_ACTIONS`
abbrev pub non_creative_actions : List String
non_creative_actions =
    "read_file" ∷ "list_directory" ∷ "tree" ∷ "exists" ∷ "search_file" ∷ "search_content" ∷ "read"
    ∷ "list" ∷ "search" ∷ "get" ∷ "find" ∷ "stat" ∷ "glob" ∷ "ls" ∷ "cat" ∷ "head" ∷ "tail" ∷ []

module _ (runtime : Runtime) where
  open runtime use {number, loads, parent, reader}

  -- `f"{tc.name.replace('__', '_')}_{i}"`
  abbrev call_id : ℕ → ToolCall → String
  call_id i tc = text_append (replace_text "__" "_" tc.name) (text_append "_" (number i))

  -- The directory that stands for a file of which only the path is known.
  abbrev mkdir_path_of : String → String
  mkdir_path_of path =
      if not (str_eq (parent path) "") && not (str_eq (parent path) ".")
      then parent path
      else reader.stem path

  abbrev recovered_write : ℕ → ToolCall → String → String → String → Task
  recovered_write i tc path key text =
      make_task runtime i (call_id i tc) (text_append "创建 " path) (pos 80) "filesystem"
        (text_append "write_file: " path)
        (field "action" (str "write_file") (field "path" (str path) (field key (str text) end)))

  -- A call that writes a file, from arguments without a path: what the text still shows.
  unfoldable pub recovered_at : ℕ → ToolCall → Option String → Option Task
  unfolding make_task mkdir_task extract_content_from_args extract_code_prompt_from_args
      replace_text
  recovered_at i tc none = none
  recovered_at i tc (some path) =
      let content = get_or (extract_content_from_args tc.arguments) "" in
      let code_prompt = get_or (extract_code_prompt_from_args tc.arguments) "" in
      if ltb 10 (text_length content)
      then some (planned (recovered_write i tc path "content" content))
      else if not (str_eq code_prompt "")
      then some (planned (recovered_write i tc path "code_prompt" code_prompt))
      else some (planned (mkdir_task runtime i (mkdir_path_of path)))

  unfoldable pub direct_task : ℕ → ToolCall → String → String → Fields → Task
  unfolding make_task embed_action replace_text
  direct_task i tc tool action input =
      let doing = text_append "执行 " tc.name in
      record (planned (
        make_task runtime i (call_id i tc) doing (pos 80) tool
          (if str_eq action "" then doing else action) (embed_action action input))) {
            capability = tool_action tool action;
          }

  abbrev writes_file : String → Bool
  writes_file action = str_eq action "write_file" || str_eq action "create_file"

  abbrev lacks_path : Fields → Bool
  lacks_path input = not (truthy (get_or (get "path" input) null))

  -- Arguments that are JSON but no object end the run with an exception, at the latest where the
  -- plan's inputs are read.
  abbrev pub arguments_task : ℕ → ToolCall → String → String → Value → Built (Option Task)
  arguments_task i tc tool action (dict input) =
      if writes_file action && lacks_path input
      then built (recovered_at i tc (extract_path_from_args tc.arguments))
      else built (some (direct_task i tc tool action input))
  arguments_task i tc tool action _ = crashed

  -- One round of the loop.
  unfoldable pub call_task : ℕ → ToolCall → Built (Option Task)
  unfolding parse_function_name parse_tool_arguments extract_path_from_args get recovered_at
      direct_task
  call_task i tc =
      let (tool, action) = parse_function_name tc.name in
      if contains non_creative_actions action
      then built none
      else arguments_task i tc tool action (parse_tool_arguments loads tc.arguments)

  unfoldable pub call_tasks : ℕ → List ToolCall → Built (List Task)
  unfolding call_task
  call_tasks i [] = built []
  call_tasks i (tc ∷ tcs) =
      then_built (call_task i tc)
        (λ t. then_built (call_tasks (suc i) tcs) (λ ts. built (cons_task t ts)))

  abbrev call_reasoning : String → List Task → String
  call_reasoning reasoning tasks =
      let text = text_append reasoning (trim_note runtime tasks) in
      if str_eq text ""
      then text_append "执行 " (text_append (number (length tasks)) " 个任务")
      else text_take 1000 text

  abbrev pub call_plan : String → String → String → List Task → Plan
  call_plan reasoning goal category tasks =
      new_plan goal category (trim_tasks tasks) false false (call_reasoning reasoning tasks)

  unfoldable pub build_plan_from_tool_calls : List ToolCall → String → String → String → Built Plan
  unfolding call_tasks trim_tasks
  build_plan_from_tool_calls tool_calls reasoning goal category =
      then_built (call_tasks 0 tool_calls)
        (λ tasks. built (call_plan reasoning goal category tasks))
