-- ===== src/Workflow/State.antt =====
-- The typed state of the workflow, agentflow/graph/plan.py, and the accessors of
-- agentflow/graph/state_utils.py. Each key of a TypedDict is optional: `none` is a missing key.
use omni_forge.Base.{
  Bool, false, Option, none, some, String, str_eq, if◌then◌else◌, List, [], ◌∷◌, ℕ, any, ◌&&◌, not,
  get_or, map, length,
}
use omni_forge.Values.{Value, Fields}
use omni_forge.Tasks.{Task}
use omni_forge.Tasks.Serial.{TaskDict, to_dict}
use omni_forge.Results.{ToolResultDict, or_text, or_text?}

pub record Plan : Type 0 where
  pub goal : String
  pub category : String
  pub tasks : List Task
  pub direct_answer : Bool
  pub priority : String
  pub reasoning : String
  pub intent : String
  pub metadata : Fields
  pub goal_completed : Bool

unfoldable pub step_count : Plan → ℕ
step_count p = length p.tasks

-- The loop of `required_tools` and `active_agents`: each name once, in the order of the tasks.
unfoldable pub unique_names : (Task → String) → List String → List Task → List String
unique_names name seen [] = []
unique_names name seen (t ∷ ts) =
    let more = name t ∷ unique_names name (name t ∷ seen) ts in
    let rest = unique_names name seen ts in
    if not (str_eq (name t) "") && not (any (λ s. str_eq s (name t)) seen) then more else rest

unfoldable pub required_tools : Plan → List String
unfolding unique_names
required_tools p = unique_names (λ t. t.tool) [] p.tasks

unfoldable pub active_agents : Plan → List String
unfolding unique_names
active_agents p = unique_names (λ t. t.agent) [] p.tasks

-- A plan in the state is a dict, of which these keys are read, or a `Plan` object.
pub record PlanDict : Type 0 where
  pub goal_completed : Option Bool
  pub direct_answer : Option Bool
  pub reasoning : Option String
  pub intent : Option String
  pub tasks : Option (List TaskDict)

pub data PlanValue : Type 0 where
  plan_dict : PlanDict → PlanValue
  plan_object : Plan → PlanValue

pub record GoalAnalysis : Type 0 where
  pub goal : Option String
  pub goal_type : Option String
  pub knowledge_source : Option String
  pub source_mode : Option String

pub record TraceEntry : Type 0 where
  pub node : String
  pub start : String
  pub duration : ℕ
  pub route : Option String

pub record WorkflowState : Type 0 where
  pub question : Option String
  pub source_mode : Option String
  pub category : Option String
  pub plan : Option PlanValue
  pub search_results : Option Value
  pub answer : Option String
  pub history : Option Value
  pub goal_analysis : Option GoalAnalysis
  pub original_question : Option String
  pub rewritten_query : Option String
  pub tool_results : Option (List ToolResultDict)
  pub task_queue : Option (List TaskDict)
  pub reflection_result : Option String
  pub reflection_message : Option String
  pub replan_count : Option ℕ
  pub planner_cycle_count : Option ℕ
  pub stuck_rounds : Option ℕ
  pub generation_failed : Option Bool
  pub trace : Option (List TraceEntry)

abbrev pub empty_analysis : GoalAnalysis
empty_analysis = record {
  goal = none;
  goal_type = none;
  knowledge_source = none;
  source_mode = none;
}

unfoldable pub get_goal_analysis : WorkflowState → GoalAnalysis
get_goal_analysis s = get_or s.goal_analysis empty_analysis

unfoldable pub get_goal : WorkflowState → String
unfolding get_goal_analysis
get_goal s = or_text? (get_goal_analysis s).goal (get_or s.question "")

unfoldable pub get_goal_type : WorkflowState → String
unfolding get_goal_analysis
get_goal_type s =
    or_text (or_text? (get_goal_analysis s).goal_type (get_or s.category "other")) "other"

unfoldable pub get_knowledge_source : WorkflowState → String
unfolding get_goal_analysis
get_knowledge_source s = or_text (get_or (get_goal_analysis s).knowledge_source "hybrid") "hybrid"

unfoldable pub get_source_mode : WorkflowState → String
unfolding get_goal_analysis
get_source_mode s =
    or_text (or_text? s.source_mode (or_text? (get_goal_analysis s).source_mode "")) "auto"

pub data Flag : Type 0 where
  goal_completed direct_answer : Flag

-- `bool(plan.get(flag))`, or the attribute of an object
abbrev flag_of : PlanValue → Flag → Bool
flag_of (plan_dict d) goal_completed = get_or d.goal_completed false
flag_of (plan_dict d) direct_answer = get_or d.direct_answer false
flag_of (plan_object p) goal_completed = p.goal_completed
flag_of (plan_object p) direct_answer = p.direct_answer

unfoldable pub plan_flag : Option PlanValue → List Flag → Bool
plan_flag none flags = false
plan_flag (some plan) flags = any (flag_of plan) flags

unfoldable pub is_plan_completed : WorkflowState → Bool
unfolding plan_flag
is_plan_completed s = plan_flag s.plan (goal_completed ∷ direct_answer ∷ [])

abbrev plan_intent : Option PlanValue → String → String
plan_intent none default = default
plan_intent (some (plan_dict d)) default = get_or d.intent default
plan_intent (some (plan_object p)) default = p.intent

-- `get_plan_field(state, "intent", default)`
unfoldable pub get_plan_intent : WorkflowState → String → String
get_plan_intent s default = plan_intent s.plan default

unfoldable pub get_plan_tasks : Option PlanValue → List TaskDict
get_plan_tasks none = []
get_plan_tasks (some (plan_dict d)) = get_or d.tasks []
get_plan_tasks (some (plan_object p)) = map to_dict p.tasks

abbrev pub or_old {ℓ} : {A : Type ℓ} → Option A → Option A → Option A
or_old none old = old
or_old (some new) old = some new

-- What LangGraph does with the dict that a node returns: its keys are written over the state's.
unfoldable pub merge : WorkflowState → WorkflowState → WorkflowState
merge s new = record {
  question = or_old new.question s.question;
  source_mode = or_old new.source_mode s.source_mode;
  category = or_old new.category s.category;
  plan = or_old new.plan s.plan;
  search_results = or_old new.search_results s.search_results;
  answer = or_old new.answer s.answer;
  history = or_old new.history s.history;
  goal_analysis = or_old new.goal_analysis s.goal_analysis;
  original_question = or_old new.original_question s.original_question;
  rewritten_query = or_old new.rewritten_query s.rewritten_query;
  tool_results = or_old new.tool_results s.tool_results;
  task_queue = or_old new.task_queue s.task_queue;
  reflection_result = or_old new.reflection_result s.reflection_result;
  reflection_message = or_old new.reflection_message s.reflection_message;
  replan_count = or_old new.replan_count s.replan_count;
  planner_cycle_count = or_old new.planner_cycle_count s.planner_cycle_count;
  stuck_rounds = or_old new.stuck_rounds s.stuck_rounds;
  generation_failed = or_old new.generation_failed s.generation_failed;
  trace = or_old new.trace s.trace;
}

abbrev pub empty_state : WorkflowState
empty_state = record {
  question = none;
  source_mode = none;
  category = none;
  plan = none;
  search_results = none;
  answer = none;
  history = none;
  goal_analysis = none;
  original_question = none;
  rewritten_query = none;
  tool_results = none;
  task_queue = none;
  reflection_result = none;
  reflection_message = none;
  replan_count = none;
  planner_cycle_count = none;
  stuck_rounds = none;
  generation_failed = none;
  trace = none;
}
