-- ===== src/Workflow/Routes.antt =====
-- The routing functions. A route is the text that the function returns; `_route_after_reflector`
-- also counts stuck rounds in the state.
use omni_forge.Base.{
  Bool, true, false, Option, none, some, String, str_eq, if◌then◌else◌, List, [], ◌∷◌, ℕ, get_or,
  get_last?, not, ◌&&◌, ◌+◌,
}
use omni_forge.Tasks.Serial.{TaskDict}
use omni_forge.Results.{ToolResultDict}
use omni_forge.Termination.{
  TerminationPolicy, reflector_should_force_answer_on_replan,
  reflector_should_force_answer_when_stuck,
}
use omni_forge.Registry.{ToolRegistry, get_node_for_tool}
use omni_forge.Executor.Actions.{contains, entry}
use omni_forge.Workflow.State.{
  WorkflowState, TraceEntry, get_goal_analysis, get_source_mode, is_plan_completed,
}
use omni_forge.Workflow.Select.{find_highest_priority_todo}

-- `_record_route`: the last trace entry gets the route.
abbrev route_last : String → List TraceEntry → List TraceEntry
route_last route [] = []
route_last route (e ∷ []) = record e { route = some route } ∷ []
route_last route (e ∷ f ∷ es) = e ∷ route_last route (f ∷ es)

abbrev routed_trace : String → Option (List TraceEntry) → Option (List TraceEntry)
routed_trace route none = none
routed_trace route (some trace) = some (route_last route trace)

unfoldable pub record_route : String → WorkflowState → WorkflowState
record_route route s = record s { trace = routed_trace route s.trace }

abbrev pub knowledge_types : List String
knowledge_types = "question" ∷ "analysis" ∷ "document" ∷ []

abbrev pub direct_answer_types : List String
direct_answer_types = "other" ∷ "translation" ∷ "editing" ∷ []

unfoldable pub route_after_goal_analyzer : WorkflowState → String
unfolding get_goal_analysis get_source_mode
route_after_goal_analyzer s =
    let goal_type = get_or (get_goal_analysis s).goal_type "" in
    let knowledge_source = get_or (get_goal_analysis s).knowledge_source "" in
    if str_eq (get_source_mode s) "knowledge"
    then "knowledge"
    else if contains direct_answer_types goal_type
    then "answer"
    else if str_eq knowledge_source "general" && contains knowledge_types goal_type
    then "answer"
    else if contains knowledge_types goal_type
    then "knowledge"
    else "planner"

-- The map that serves while there is no executor.
abbrev pub known_nodes : List (String × String)
known_nodes =
    ("search", "query_rewriter")
    ∷ ("python", "python")
    ∷ ("filesystem", "tool_executor")
    ∷ ("git", "tool_executor")
    ∷ ("browser", "tool_executor")
    ∷ ("database", "tool_executor")
    ∷ ("mcp", "tool_executor")
    ∷ ("composio", "tool_executor")
    ∷ []

abbrev pub last_failed : List ToolResultDict → Bool
last_failed results = elim (get_last? results) [
  | none ↦ false
  | some r ↦ not (get_or r.success true)
]

module _ {W : Type 0} (registry : Option (ToolRegistry W)) where
  abbrev pub registered_node : Option (ToolRegistry W) → String → Option String
  registered_node none tool = entry known_nodes tool
  registered_node (some r) tool = get_node_for_tool tool r

  unfoldable pub resolve_tool_node : String → Option String
  resolve_tool_node tool = if str_eq tool "" then none else registered_node registry tool

  -- A resolved node counts if its name is not empty; else the task goes to `tool_executor`.
  abbrev pub node_or_executor : Option String → String
  node_or_executor none = "tool_executor"
  node_or_executor (some node) = if str_eq node "" then "tool_executor" else node

  -- The part that the routers share: where the chosen task goes.
  unfoldable pub route_task : String → TaskDict → String
  unfolding resolve_tool_node
  route_task for_knowledge d =
      let tool = get_or d.tool "" in
      if str_eq tool "knowledge" then for_knowledge else node_or_executor (resolve_tool_node tool)

  abbrev pub task_or : String → String → Option (ℕ × TaskDict) → String
  task_or for_knowledge otherwise none = otherwise
  task_or for_knowledge otherwise (some (i, d)) = route_task for_knowledge d

  unfoldable pub route_after_executor : WorkflowState → String
  unfolding route_task
  route_after_executor s =
      if last_failed (get_or s.tool_results [])
      then "reflector"
      else task_or "reflector" "reflector" (find_highest_priority_todo (get_or s.task_queue []))

  unfoldable pub route_after_planner : WorkflowState → String
  unfolding route_task is_plan_completed
  route_after_planner s =
      if str_eq (get_or s.reflection_result "") "done"
      then "answer"
      else if is_plan_completed s
      then "answer"
      else task_or "reflector" "reflector" (find_highest_priority_todo (get_or s.task_queue []))

  module _ (policy : TerminationPolicy) where
    -- No TODO task is left: one more stuck round.
    abbrev pub route_stuck : WorkflowState → String × WorkflowState
    route_stuck s =
        let stuck_rounds = get_or s.stuck_rounds 0 + 1 in
        let s' = record s { stuck_rounds = some stuck_rounds } in
        (
          if reflector_should_force_answer_when_stuck policy stuck_rounds
                (get_or s.planner_cycle_count 0)
              then "answer"
              else "planner",
          s',
        )

    abbrev pub route_next : WorkflowState → Option (ℕ × TaskDict) → String × WorkflowState
    route_next s none = route_stuck s
    route_next s (some (i, d)) = (route_task "planner" d, s)

    unfoldable pub route_after_reflector : WorkflowState → String × WorkflowState
    unfolding route_task
    route_after_reflector s =
        let result = get_or s.reflection_result "done" in
        if str_eq result "done"
        then ("answer", s)
        else if str_eq result "replan"
        then (
          if reflector_should_force_answer_on_replan policy (get_or s.replan_count 0)
              then "answer"
              else "planner",
          s,
        )
        else if str_eq result "retry"
        then ("tool_executor", s)
        else route_next s (find_highest_priority_todo (get_or s.task_queue []))
