-- ===== src/Workflow/Nodes.antt =====
-- The nodes that wrap the planner, the query rewriter and the search agent. An agent is what it
-- adds to the state: the keys of the dict that its `run` returns.
pub mod Forced
use omni_forge.Base.{
  Bool, true, false, Option, none, some, String, str_eq, if◌then◌else◌, List, [], ◌∷◌, ℕ, ◌+◌,
  get_or, any, map, ◌||◌,
}
use omni_forge.Tasks.Serial.{TaskDict}
use omni_forge.Results.{or_text?}
use omni_forge.Termination.{TerminationPolicy, planner_should_force_complete}
use omni_forge.Workflow.State.{
  WorkflowState, PlanValue, plan_dict, plan_object, Flag, goal_completed, direct_answer, plan_flag,
  get_plan_intent, empty_state,
}
use omni_forge.Workflow.Select.{is_todo}
use Prim.Native.String.{◌++◌ as text_append}

abbrev pub force_message : String
force_message = "达到最大规划次数，强制结束"

abbrev forced_reasoning : String → String
forced_reasoning reasoning = text_append reasoning " (达到最大规划次数，强制结束)"

abbrev forced_plan : Option PlanValue → Option PlanValue
forced_plan none = none
forced_plan (some (plan_dict d)) = some (
    plan_dict (record d {
      goal_completed = some true;
      direct_answer = some true;
      reasoning = some (forced_reasoning (get_or d.reasoning ""));
    }))
forced_plan (some (plan_object p)) = some (
    plan_object (record p {
      goal_completed = true;
      direct_answer = true;
      reasoning = forced_reasoning p.reasoning;
    }))

-- The part of the planner node behind `planner.run`: `count` is the new cycle count.
unfoldable pub after_planner : TerminationPolicy → ℕ → WorkflowState → WorkflowState
unfolding plan_flag planner_should_force_complete
after_planner policy count result =
    let has_todo = any is_todo (get_or result.task_queue []) in
    let plan_completed = plan_flag result.plan (goal_completed ∷ direct_answer ∷ []) in
    let forced = record result {
      plan = forced_plan result.plan;
      reflection_result = some "done";
      reflection_message = some force_message;
      planner_cycle_count = some count;
    } in
    if planner_should_force_complete policy count has_todo plan_completed
    then forced
    else record result { planner_cycle_count = some count }

-- `_make_planner_node`; `run` is the method of the planner.
unfoldable pub planner_node :
    {W : Type 0}
    → TerminationPolicy
    → (WorkflowState → W → WorkflowState × W)
    → WorkflowState
    → W
    → WorkflowState × W
unfolding after_planner
planner_node policy run s w =
    let (result, w') = run s w in
    (after_planner policy (get_or s.planner_cycle_count 0 + 1) result, w')

-- The first task that is TODO or queued, or has no status, becomes running.
unfoldable pub mark_first_running : List TaskDict → List TaskDict
mark_first_running [] = []
mark_first_running (d ∷ ds) =
    let status = get_or d.status "todo" in
    if str_eq status "todo" || str_eq status "queued"
    then record d { status = some "running" } ∷ ds
    else d ∷ mark_first_running ds

-- `_make_query_rewriter_node`; `rewrite` is the method, on the question and the plan's intent.
unfoldable pub query_rewriter_node :
    {W : Type 0}
    → (String → String → WorkflowState → W → String × W)
    → WorkflowState
    → W
    → WorkflowState × W
unfolding mark_first_running get_plan_intent
query_rewriter_node rewrite s w =
    let question = or_text? s.original_question (or_text? s.question "") in
    let (rewritten, w') = rewrite question (get_plan_intent s "") s w in
    (
      record empty_state {
        rewritten_query = some rewritten;
        task_queue = some (mark_first_running (get_or s.task_queue []));
      },
      w',
    )

abbrev done_if_running : TaskDict → TaskDict
done_if_running d =
    if str_eq (get_or d.status "") "running" then record d { status = some "done" } else d

unfoldable pub mark_running_done : List TaskDict → List TaskDict
mark_running_done ds = map done_if_running ds

-- `_make_search_node`; `run` is the method of the search agent.
unfoldable pub search_node :
    {W : Type 0} → (WorkflowState → W → WorkflowState × W) → WorkflowState → W → WorkflowState × W
unfolding mark_running_done
search_node run s w =
    let (result, w') = run s w in
    (record result { task_queue = some (mark_running_done (get_or s.task_queue [])) }, w')
