-- ===== src/Scenarios.antt =====
-- The theorems at concrete inputs: a registry with two tools, tasks, queues and states.
mod Engine
mod Graphs
mod Reflections
mod Batches
mod Planning
mod Completions
mod Files
mod Histories
mod Plans
mod Talks
use omni_forge.Base.{
  ◌≡◌, Bool, true, false, Option, none, some, String, if◌then◌else◌, List, [], ◌∷◌, ◌-◌, ℕ, suc,
  zero, ◌+◌,
}
use omni_forge.Base.Int.{pos}
use omni_forge.Values.{null, Fields, end, has_key, dict, str, field}
use omni_forge.Tasks.{Task, TaskStatus}
use omni_forge.Tasks.Serial.{TaskDict}
use omni_forge.Results.{Call, returned, raised, ToolResult}
use omni_forge.Events.{Context}
use omni_forge.Registry.{Tool, ToolRegistry}
use omni_forge.Executor.{Runtime}
use omni_forge.Workflow.State.{WorkflowState, empty_state}
use omni_forge.Workflow.Repair.{Repairer}
use omni_forge.Workflow.Graph.{Agents}

-- The world is a clock that each call of a tool moves on.
abbrev pub runtime : Runtime ℕ
runtime = record {
  now = λ w. "2026-01-01";
  elapsed = λ start later. later - start;
  text_of = λ v. "value";
  shown = λ names. "names";
  fresh_id = λ w. "fresh";
}

abbrev pub git_result : ToolResult
git_result = record {
  success = true;
  tool = "git";
  action = "status";
  result = null;
  message = "clean";
  duration = 0;
  error = none;
}

abbrev pub git : Tool ℕ
git = record {
  name = "git";
  routing_node = "tool_executor";
  action_names = "status" ∷ [];
  status = returned none;
  validate = λ kwargs. returned (if has_key "bad" kwargs then some "bad argument" else none);
  execute =
      λ kwargs w. (if has_key "boom" kwargs then raised "boom" else returned git_result, suc w);
}

abbrev pub search_tool : Tool ℕ
search_tool = record {
  name = "search";
  routing_node = "query_rewriter";
  action_names = [];
  status = returned none;
  validate = λ kwargs. returned none;
  execute = λ kwargs w. (raised "not run here", w);
}

abbrev pub registry : ToolRegistry ℕ
registry = ("git", git) ∷ ("search", search_tool) ∷ []

abbrev pub repairer : Repairer ℕ
repairer = record {
  enabled = true;
  ask = λ d error w. (returned (some (field "path" (str "a") end)), w);
}

abbrev pub empty_context : Context
empty_context = record { tasks = []; events = [] }

abbrev pub task : String → TaskStatus → ℕ → Task
task name status priority = record {
  task_id = name;
  title = "";
  priority = pos priority;
  dependencies = [];
  goal = "status";
  capability = "";
  agent = "";
  tool = "git";
  status = status;
  parent_id = none;
  input = end;
  steps = [];
  result = null;
  error = none;
  metadata = end;
  id = name;
  created_at = "";
  updated_at = "";
}

abbrev pub task_dict : String → String → TaskDict
task_dict tool status = record {
  id = none;
  task_id = some "t1";
  title = none;
  priority = some (pos 5);
  dependencies = none;
  goal = some "status";
  capability = none;
  agent = none;
  tool = some tool;
  action = some "status";
  status = some status;
  parent_id = none;
  input = some (dict end);
  steps = none;
  result = none;
  error = none;
  metadata = none;
  created_at = none;
  updated_at = none;
  repair_count = none;
  extra = end;
}

abbrev pub queue_state : List TaskDict → WorkflowState
queue_state ds = record empty_state { task_queue = some ds }

abbrev returns : WorkflowState → WorkflowState → ℕ → WorkflowState × ℕ
returns out s w = (out, w)

-- A planner that finds nothing to do, and a reflector that goes on.
abbrev pub agents : Agents ℕ
agents = record {
  manage = returns empty_state;
  analyze = returns empty_state;
  retrieve = returns empty_state;
  plan = returns (queue_state []);
  rewrite = λ question intent s w. (question, w);
  look_up = returns empty_state;
  reflect = returns (record empty_state { reflection_result = some "continue" });
  run_python = returns empty_state;
  compose = returns empty_state;
  remember = returns empty_state;
  schedule = λ w. [];
}
