-- ===== src/Workflow/Graph/Total.antt =====
-- The graph has no missing edge: every node but the end has a next node, in every state.
use omni_forge.Base.{
  ◌≡◌, refl, sym, true, Option, none, some, String, str_eq, List, inl, inr, ◌≢◌, subst, is_some,
  if_both, ◌&&◌, get_or,
}
use omni_forge.Termination.{TerminationPolicy}
use omni_forge.Registry.{ToolRegistry}
use omni_forge.Executor.{Runtime}
use omni_forge.Executor.Actions.{contains}
use omni_forge.Workflow.State.{WorkflowState, get_goal_analysis, get_source_mode}
use omni_forge.Workflow.Routes.{
  route_after_goal_analyzer, route_after_executor, route_after_planner, route_after_reflector,
  direct_answer_types, knowledge_types,
}
use omni_forge.Workflow.Repair.{Repairer}
use omni_forge.Workflow.Graph.{
  Node, conversation_manager, goal_analyzer, knowledge, planner, query_rewriter, search,
  tool_executor, reflector, python, answer, memory, finish, Agents, targets, after_executor_map,
  after_planner_map, after_reflector_map, after_goal_analyzer, next_node,
}
use omni_forge.Workflow.Graph.Edges.{
  Executes, RoutesKnown, route_after_executor-Either, route_after_planner-Either,
  route_after_reflector-Known,
}

-- The mapping names the route.
record Named (map : List (String × Node)) (route : String) : Type 0 where
  pub has_target : is_some (targets map route) ≡ true

here :
    (map : List (String × Node)) (route : String)
    → is_some (targets map route) ≡ true
    → Named map route
here map route h = record { has_target = h }

Named-by : (map : List (String × Node)) {a b : String} → a ≡ b → Named map b → Named map a
Named-by map e h = subst (Named map) (sym e) h

Executes-Named :
    (map : List (String × Node))
    → Named map "tool_executor"
    → Named map "query_rewriter"
    → Named map "python"
    → {route : String} → Executes route
    → Named map route
Executes-Named map a b c (inl e) = Named-by map e a
Executes-Named map a b c (inr (inl e)) = Named-by map e b
Executes-Named map a b c (inr (inr e)) = Named-by map e c

route_after_goal_analyzer-Named :
    (s : WorkflowState) → Named after_goal_analyzer (route_after_goal_analyzer s)
unfolding route_after_goal_analyzer
route_after_goal_analyzer-Named s =
    let N : String → Type 0 = Named after_goal_analyzer in
    let goal_type = get_or (get_goal_analysis s).goal_type "" in
    let general = str_eq (get_or (get_goal_analysis s).knowledge_source "") "general" in
    let direct = contains direct_answer_types goal_type in
    let question = contains knowledge_types goal_type in
    if_both N (str_eq (get_source_mode s) "knowledge") (here _ "knowledge" refl) (
      if_both N direct (here _ "answer" refl) (
        if_both N (general && question) (here _ "answer" refl)
          (if_both N question (here _ "knowledge" refl) (here _ "planner" refl))))

abbrev pair : {A : Type 0} → A → Option Node → Option (Node × A)
pair x o = elim o [ none ↦ none | some node ↦ some (node, x) ]

routed_some : {A : Type 0} (x : A) (o : Option Node) → is_some o ≡ true → is_some (pair x o) ≡ true
routed_some x none h = h
routed_some x (some node) h = refl

module _ {W : Type 0} (runtime : Runtime W) (registry : ToolRegistry W) (repairer : Repairer W)
    (policy : TerminationPolicy) (agents : Agents W) (known : RoutesKnown registry) where
  executor-Named :
      (s : WorkflowState) → Named after_executor_map (route_after_executor (some registry) s)
  executor-Named s = elim (route_after_executor-Either registry known s) [
    | inl e ↦ Named-by _ e (here _ _ refl)
    | inr e ↦ Executes-Named _ (here _ _ refl) (here _ _ refl) (here _ _ refl) e
  ]

  planner-Named :
      (s : WorkflowState) → Named after_planner_map (route_after_planner (some registry) s)
  planner-Named s = elim (route_after_planner-Either registry known s) [
    | inl e ↦ Named-by _ e (here _ _ refl)
    | inr (inl e) ↦ Named-by _ e (here _ _ refl)
    | inr (inr e) ↦ Executes-Named _ (here _ _ refl) (here _ _ refl) (here _ _ refl) e
  ]

  reflector-Named :
      (s : WorkflowState)
      → Named after_reflector_map (route_after_reflector (some registry) policy s).0
  reflector-Named s = elim (route_after_reflector-Known registry known policy s) [
    | inl e ↦ Named-by _ e (here _ _ refl)
    | inr (inl e) ↦ Named-by _ e (here _ _ refl)
    | inr (inr e) ↦ Executes-Named _ (here _ _ refl) (here _ _ refl) (here _ _ refl) e
  ]

  -- When every registered tool has one of the three executing nodes as its routing node, each node
  -- but the end has a next node, whatever the state: no router returns a route that its
  -- conditional edge does not name.
  pub next_node-total :
      (node : Node) (s : WorkflowState)
      → node ≢ finish
      → is_some (next_node runtime registry repairer policy agents node s) ≡ true
  unfolding next_node
  next_node-total conversation_manager s h = refl
  next_node-total goal_analyzer s h = routed_some _ _ (route_after_goal_analyzer-Named s).has_target
  next_node-total knowledge s h = refl
  next_node-total planner s h = routed_some _ _ (planner-Named s).has_target
  next_node-total query_rewriter s h = refl
  next_node-total search s h = refl
  next_node-total tool_executor s h = routed_some _ _ (executor-Named s).has_target
  next_node-total reflector s h = routed_some _ _ (reflector-Named s).has_target
  next_node-total python s h = routed_some _ _ (executor-Named s).has_target
  next_node-total answer s h = refl
  next_node-total memory s h = refl
  next_node-total finish s h = absurd (h refl)
