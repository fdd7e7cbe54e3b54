-- ===== src/Planner/Run.antt =====
-- agentflow/agents/planner/agent.py: `PlannerAgent.run`, its flows, and the node names that a plan
-- stands for. The task queue is the one that `from_dict_list` reads from the state.
pub mod Kept
pub mod Path
use omni_forge.Base.{
  Bool, true, false, Option, none, some, String, str_eq, if◌then◌else◌, List, [], ◌∷◌, ◌++◌, ℕ, not,
  ◌&&◌, ◌||◌, map, is_empty, get_or, ltb,
}
use omni_forge.Tasks.{Task}
use omni_forge.Queue.{TaskQueue, add, to_dict_list}
use omni_forge.Workflow.State.{WorkflowState, Plan, plan_object, get_goal, get_goal_type}
use omni_forge.Registry.{ToolRegistry, get_node_for_tool}
use omni_forge.Executor.Actions.{contains}
use omni_forge.Planner.Build.{Runtime, Built, built, invalid, crashed, new_plan}
use omni_forge.Planner.Fill.{fill_code_content}
use omni_forge.Planner.Design.{shared_brief, build_project_brief}
use omni_forge.Planner.Asking.{
  Llm, PlanRequest, generate_more_tasks, llm_generate_tasks, plan_or_answer,
}
use omni_forge.Planner.Starting.{Projects, initialize_from_blueprint, initialize_from_template}
use Prim.Native.String.{◌++◌ as text_append}

-- A name that is there is not appended again.
abbrev pub append_node : String → List String → List String
append_node node nodes = if contains nodes node then nodes else nodes ++ node ∷ []

-- A tool of which the registry knows no node goes to `tool_executor`.
abbrev registered_node : {V : Type 0} → Option (ToolRegistry V) → String → Option String
registered_node none tool = none
registered_node (some registry) tool = get_node_for_tool tool registry

abbrev node_or_default : Option String → String
node_or_default none = "tool_executor"
node_or_default (some node) = if str_eq node "" then "tool_executor" else node

module _ {V : Type 0} (registry : Option (ToolRegistry V)) where
  abbrev pub tool_nodes : List Task → List String → List String
  tool_nodes [] nodes = nodes
  tool_nodes (t ∷ ts) nodes = tool_nodes ts (
      if str_eq t.tool ""
      then nodes
      else append_node (node_or_default (registered_node registry t.tool)) nodes)

  abbrev pub first_nodes : String → List String
  first_nodes goal_type =
      if str_eq goal_type "identity" || str_eq goal_type "search"
      then "goal_analyzer" ∷ []
      else "goal_analyzer" ∷ "knowledge" ∷ []

  unfoldable pub plan_to_workflow : Plan → String → List String
  unfolding get_node_for_tool
  plan_to_workflow plan goal_type =
      let nodes =
        if not plan.goal_completed && not plan.direct_answer
        then tool_nodes plan.tasks (first_nodes goal_type)
        else first_nodes goal_type in
      append_node "memory" (append_node "answer" nodes)

-- The state after a run, the keys of the dict that the typed state has not (`workflow`, what
-- `_degraded` got and the errors, each with its type), and the world.
pub record PlannerOutput (W : Type 0) : Type 0 where
  pub state : WorkflowState
  pub workflow : List String
  pub degraded : List String
  pub errors : List (String × String)
  pub world : W

-- `safe_run` turns an exception into the key `error`, beside a state that is as it was.
pub data Outcome (W : Type 0) : Type 0 where
  planned : PlannerOutput W → Outcome W
  failed : W → Outcome W

abbrev answered_types : List String
answered_types = "other" ∷ "translation" ∷ "editing" ∷ "question" ∷ []

module _ {V W : Type 0} (runtime : Runtime) (registry : Option (ToolRegistry V)) (llm : Llm W)
    (projects : Projects W) where
  open llm use {is_mock, complete_code, complete_design}
  open projects use {files, format_planner_prompt}

  -- A queue is stored unless the key is left alone.
  abbrev stored : Plan → String → Option TaskQueue → WorkflowState → WorkflowState
  stored plan goal_type none s = record s {
    plan = some (plan_object plan);
    category = some goal_type;
  }
  stored plan goal_type (some q) s = record s {
    plan = some (plan_object plan);
    category = some goal_type;
    task_queue = some (to_dict_list q);
  }

  abbrev gave_up : Plan → Bool
  gave_up plan = plan.direct_answer && not plan.goal_completed && is_empty plan.tasks

  abbrev codegen_error : String → String × String
  codegen_error err = ("codegen_invalid", err)

  abbrev unavailable : String → Plan → List (String × String)
  unavailable message plan = if gave_up plan then ("llm_unavailable", message) ∷ [] else []

  abbrev output :
      Plan → Option TaskQueue → List String → List (String × String) → WorkflowState → W → Outcome W
  output plan queue degraded errors s w = planned (record {
    state = stored plan (get_goal_type s) queue s;
    workflow = plan_to_workflow registry plan (get_goal_type s);
    degraded = degraded;
    errors = errors;
    world = w;
  })

  -- The prompt's parts; the reflector's message counts after a replan.
  abbrev request_of : Bool → WorkflowState → PlanRequest
  request_of replanned s = record {
    goal = get_goal s;
    goal_type = get_goal_type s;
    context_str = format_planner_prompt s;
    replan_context =
        if replanned && ltb 0 (get_or s.replan_count 0) then get_or s.reflection_message "" else "";
  }

  -- The first plan that there is: the blueprint's, the template's or the LLM's.
  abbrev or_generate : WorkflowState → Option Plan → W → Built Plan × W
  or_generate s none w = llm_generate_tasks runtime registry llm (request_of false s) w
  or_generate s (some plan) w = (built plan, w)

  abbrev or_template : WorkflowState → Option Plan → W → Built Plan × W
  or_template s none w = or_generate s (initialize_from_template runtime files (get_goal s)) w
  or_template s (some plan) w = (built plan, w)

  abbrev first_plan : WorkflowState → W → Built Plan × W
  first_plan s w =
      let (found, w') = initialize_from_blueprint runtime projects (get_goal s) w in
      or_template s found w'

  abbrev next_plan : TaskQueue → (W → Built Plan × W) → WorkflowState → W → Built Plan × W
  next_plan q first s w =
      if is_empty q then first w else generate_more_tasks runtime registry llm (request_of true s) w

  abbrev filled : Plan → List Task → Plan
  filled plan tasks = record plan { tasks = tasks }

  abbrev pub merged :
      Plan
      → TaskQueue
      → List String
      → String
      → (List String → List (String × String))
      → WorkflowState
      → W
      → Outcome W
  merged plan q degraded brief noted s w =
      let (tasks, errors, w') = fill_code_content runtime complete_code brief plan.tasks w in
      output (filled plan tasks) (some (add tasks q)) degraded (noted errors) s w'

  abbrev added : Plan → List String
  added plan = if gave_up plan then "planner" ∷ [] else []

  abbrev pub project_result : TaskQueue → WorkflowState → Built Plan × W → Outcome W
  project_result q s (built plan, w) =
      let (brief, w') = shared_brief runtime complete_design (get_goal s) plan.tasks w in
      merged plan q (added plan) brief
        (λ errors.
          map codegen_error errors
          ++ unavailable
              (text_append "LLM planner unavailable — both function-calling and JSON "
                "planning failed (timeout or network error)")
              plan)
        s w'
  project_result q s (_, w) = failed w

  unfoldable pub handle_project : TaskQueue → WorkflowState → W → Outcome W
  unfolding get_goal get_goal_type initialize_from_blueprint initialize_from_template
      llm_generate_tasks generate_more_tasks shared_brief fill_code_content add to_dict_list
      plan_to_workflow
  handle_project q s w = project_result q s (next_plan q (first_plan s) s w)

  abbrev pub mock_result : TaskQueue → WorkflowState → Built Plan × W → Outcome W
  mock_result q s (built plan, w) =
      merged plan q (added plan) (build_project_brief runtime plan.tasks (get_goal s))
        (λ errors. unavailable "LLM planner unavailable (mock degraded)" plan) s w
  mock_result q s (_, w) = failed w

  unfoldable pub handle_mock_project : TaskQueue → WorkflowState → W → Outcome W
  unfolding get_goal get_goal_type llm_generate_tasks generate_more_tasks build_project_brief
      fill_code_content add to_dict_list plan_to_workflow
  handle_mock_project q s w =
      mock_result q s
        (next_plan q (llm_generate_tasks runtime registry llm (request_of false s)) s w)

  abbrev pub other_result : TaskQueue → WorkflowState → Built Plan × W → Outcome W
  other_result q s (built plan, w) = merged plan q [] "" (λ errors. []) s w
  other_result q s (_, w) = failed w

  unfoldable pub handle_non_project : TaskQueue → WorkflowState → W → Outcome W
  unfolding get_goal get_goal_type plan_or_answer fill_code_content add to_dict_list
      plan_to_workflow
  handle_non_project q s w =
      other_result q s (plan_or_answer runtime registry llm (request_of true s) w)

  abbrev direct_plan : Bool → String → WorkflowState → Plan
  direct_plan completed reasoning s =
      new_plan (get_goal s) (get_goal_type s) [] true completed reasoning

  -- `run`, with the names in `_degraded` and whether `_llm_error` is set.
  unfoldable pub run : List String → Bool → TaskQueue → WorkflowState → W → Outcome W
  unfolding get_goal get_goal_type handle_project handle_mock_project handle_non_project
      to_dict_list plan_to_workflow
  run degraded llm_error q s w =
      let goal_type = get_goal_type s in
      let answer =
        direct_plan true (text_append "直接回答模式（goal_type=" (text_append goal_type "）")) s in
      let limited = direct_plan false "系统运行在受限模式，无法进行完整规划" s in
      if contains answered_types goal_type
      then output answer (some []) [] [] s w
      else if contains degraded "_planner" || llm_error
      then output limited none [] [] s w
      else if not (str_eq goal_type "project")
      then handle_non_project q s w
      else if is_mock
      then handle_mock_project q s w
      else handle_project q s w
