-- ===== src/Planner/Build.antt =====
-- agentflow/agents/planner/agent.py: what the ways to build a plan share.
pub mod Calls
pub mod Json
pub mod Bounds
pub mod Shape
use omni_forge.Base.{
  Bool, true, false, Option, none, some, String, str_eq, if◌then◌else◌, List, [], ◌∷◌, ℕ, suc,
  length, take, ltb, not, ◌&&◌, ◌||◌, get_or, is_empty,
}
use omni_forge.Base.Int.{ℤ, pos}
use omni_forge.Base.Sort.{sort_into}
use omni_forge.Base.Text.{strip}
use omni_forge.Base.Words.{
  contains_text, replace_text, split_first, split_last, text_length, text_take,
}
use omni_forge.Values.{
  Value, null, str, list, dict, Items, nil, cons, Fields, end, field, get, put, has_key, truthy,
}
use omni_forge.Tasks.{Task, todo}
use omni_forge.Workflow.State.{Plan}
use omni_forge.Registry.{ToolRegistry, has_tool}
use omni_forge.Executor.Actions.{contains, entry}
use omni_forge.Services.Llm.{ToolCall}
use omni_forge.Tools.Markdown.{extract_code_from_markdown}
use omni_forge.Planner.Files.{Reader}
use omni_forge.Planner.Capability.{parse_function_name}
use omni_forge.Planner.Arguments.{
  parse_tool_arguments, extract_path_from_args, extract_content_from_args,
  extract_code_prompt_from_args,
}
use Prim.Native.String.{◌++◌ as text_append}

-- What the agent calls of Python: the clock, fresh ids, `str` and `int` (`none` is its ValueError
-- or TypeError), `json.loads`, `Path(path).parent` and what reads files' names and texts.
pub record Runtime : Type 0 where
  pub now : String
  pub fresh : ℕ → String
  pub number : ℕ → String
  pub text_of : Value → String
  pub int_of : Value → Option ℤ
  pub loads : String → Option Value
  pub parent : String → String
  pub reader : Reader

-- What building a plan ends in: the plan, a ValueError, KeyError or TypeError, or another
-- exception.
pub data Built {ℓ} (A : Type ℓ) : Type ℓ where
  built : A → Built A
  invalid : Built A
  crashed : Built A

abbrev pub then_built {ℓ κ} : {A : Type ℓ} {B : Type κ} → Built A → (A → Built B) → Built B
then_built (built a) next = next a
then_built invalid next = invalid
then_built crashed next = crashed

-- A plan of at most eight tasks: those with the greatest priorities, or all.
abbrev pub max_tasks : ℕ
max_tasks = 8

unfoldable pub trim_tasks : List Task → List Task
trim_tasks tasks =
    if ltb max_tasks (length tasks)
    then take max_tasks (sort_into (λ t. t.priority) [] tasks)
    else tasks

-- `t for t in tasks`, without the calls that gave no task
abbrev pub cons_task : Option Task → List Task → List Task
cons_task none ts = ts
cons_task (some t) ts = t ∷ ts

-- `action` stands in the input unless the LLM has put it there.
unfoldable pub embed_action : String → Fields → Fields
unfolding has_key put
embed_action action input =
    if not (str_eq action "") && not (has_key "action" input)
    then put "action" (str action) input
    else input

abbrev pub tool_action : String → String → String
tool_action tool action =
    if str_eq action "" then tool else text_append tool (text_append "." action)

abbrev pub planned : Task → Task
planned t = record t { agent = "planner" }

abbrev pub new_plan : String → String → List Task → Bool → Bool → String → Plan
new_plan goal category tasks direct_answer goal_completed reasoning = record {
  goal = goal;
  category = category;
  tasks = tasks;
  direct_answer = direct_answer;
  priority = "normal";
  reasoning = reasoning;
  intent = "";
  metadata = end;
  goal_completed = goal_completed;
}

unfoldable pub mkdir_id : String → String
unfolding replace_text
mkdir_id path = text_append "mkdir_" (replace_text "." "" (replace_text "/" "_" path))

module _ (runtime : Runtime) where
  open runtime use {now, fresh, number, text_of, int_of, loads, parent, reader}

  -- `Task(…)` with the fields that every use names; the others have their defaults.
  unfoldable pub make_task : ℕ → String → String → ℤ → String → String → Fields → Task
  make_task n task_id title priority tool goal input = record {
    task_id = task_id;
    title = title;
    priority = priority;
    dependencies = [];
    goal = goal;
    capability = "";
    agent = "";
    tool = tool;
    status = todo;
    parent_id = none;
    input = input;
    steps = [];
    result = null;
    error = none;
    metadata = end;
    id = fresh n;
    created_at = now;
    updated_at = now;
  }

  unfoldable pub mkdir_task : ℕ → String → Task
  unfolding make_task mkdir_id
  mkdir_task n path =
      make_task n (mkdir_id path) (text_append "创建目录 " path) (pos 100) "filesystem"
        (text_append "创建 " (text_append path "/"))
        (field "action" (str "mkdir") (field "path" (str path) end))

  -- ` (trimmed from N to 8 tasks)`, if there were more
  abbrev pub trim_note : List Task → String
  trim_note tasks =
      if ltb max_tasks (length tasks)
      then text_append " (trimmed from " (text_append (number (length tasks)) " to 8 tasks)")
      else ""

  -- `str(value)`
  abbrev pub as_text : Value → String
  as_text (str s) = s
  as_text v = text_of v

  -- `str(d.get(key, default))`
  abbrev pub text_field : String → String → Fields → String
  text_field key default d = as_text (get_or (get key d) (str default))
