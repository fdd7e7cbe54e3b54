-- ===== src/Workflow/Graph.antt =====
-- `build_workflow`: the nodes of the graph, its edges, and one step of a run.
pub mod Edges
pub mod Total
use omni_forge.Base.{
  Bool, true, false, Option, none, some, String, str_eq, if◌then◌else◌, List, [], ◌∷◌, ◌++◌, ℕ,
  zero, suc, get_or,
}
use omni_forge.Results.{Call, returned, raised}
use omni_forge.Termination.{TerminationPolicy}
use omni_forge.Registry.{ToolRegistry}
use omni_forge.Executor.{Runtime}
use omni_forge.Workflow.State.{WorkflowState, TraceEntry, merge}
use omni_forge.Workflow.Routes.{
  record_route, route_after_goal_analyzer, route_after_executor, route_after_planner,
  route_after_reflector,
}
use omni_forge.Workflow.Repair.{Repairer}
use omni_forge.Workflow.Nodes.{planner_node, query_rewriter_node, search_node}
use omni_forge.Workflow.ToolNode.{tool_executor_node}

pub data Node : Type 0 where
  conversation_manager goal_analyzer knowledge planner query_rewriter search : Node
  tool_executor reflector python answer memory finish : Node

-- The mapping of a conditional edge; a route that it does not name is an error of LangGraph.
abbrev pub targets : List (String × Node) → String → Option Node
targets [] route = none
targets ((name, node) ∷ more) route = if str_eq name route then some node else targets more route

abbrev pub after_goal_analyzer : List (String × Node)
after_goal_analyzer = ("knowledge", knowledge) ∷ ("planner", planner) ∷ ("answer", answer) ∷ []

abbrev pub after_planner_map : List (String × Node)
after_planner_map =
    ("query_rewriter", query_rewriter)
    ∷ ("python", python)
    ∷ ("tool_executor", tool_executor)
    ∷ ("reflector", reflector)
    ∷ ("answer", answer)
    ∷ []

abbrev pub after_executor_map : List (String × Node)
after_executor_map =
    ("reflector", reflector)
    ∷ ("tool_executor", tool_executor)
    ∷ ("query_rewriter", query_rewriter)
    ∷ ("python", python)
    ∷ []

abbrev pub after_reflector_map : List (String × Node)
after_reflector_map =
    ("planner", planner)
    ∷ ("tool_executor", tool_executor)
    ∷ ("query_rewriter", query_rewriter)
    ∷ ("python", python)
    ∷ ("answer", answer)
    ∷ []

-- What the program takes from its agents: each adds keys to the state.
pub record Agents (W : Type 0) : Type 0 where
  pub manage : WorkflowState → W → WorkflowState × W
  pub analyze : WorkflowState → W → WorkflowState × W
  pub retrieve : WorkflowState → W → WorkflowState × W
  pub plan : WorkflowState → W → WorkflowState × W
  pub rewrite : String → String → WorkflowState → W → String × W
  pub look_up : WorkflowState → W → WorkflowState × W
  pub reflect : WorkflowState → W → WorkflowState × W
  pub run_python : WorkflowState → W → WorkflowState × W
  pub compose : WorkflowState → W → WorkflowState × W
  pub remember : WorkflowState → W → WorkflowState × W
  pub schedule : W → List ℕ

-- `_trace_node`: the entry behind those that the node returned.
unfoldable pub traced : String → String → ℕ → WorkflowState → WorkflowState
traced name start duration result =
    let entry : TraceEntry = record {
      node = name;
      start = start;
      duration = duration;
      route = none;
    } in
    record result { trace = some (get_or result.trace [] ++ entry ∷ []) }

pub record Config (W : Type 0) : Type 0 where
  pub node : Node
  pub state : WorkflowState
  pub world : W

module _ {W : Type 0} (runtime : Runtime W) (registry : ToolRegistry W) (repairer : Repairer W)
    (policy : TerminationPolicy) (agents : Agents W) where
  open runtime use {now, elapsed}

  abbrev pub plain : String → W → WorkflowState × W → Call WorkflowState × W
  plain name w (result, w') = (returned (traced name (now w) (elapsed w w') result), w')

  abbrev traced_call : String → W → Call WorkflowState × W → Call WorkflowState × W
  traced_call name w (raised text, w') = (raised text, w')
  traced_call name w (returned result, w') = plain name w (result, w')

  -- The keys that a node returns, with its trace entry.
  unfoldable pub run_node : Node → WorkflowState → W → Call WorkflowState × W
  unfolding traced planner_node query_rewriter_node search_node tool_executor_node
  run_node conversation_manager s w = plain "conversation_manager" w (agents.manage s w)
  run_node goal_analyzer s w = plain "goal_analyzer" w (agents.analyze s w)
  run_node knowledge s w = plain "knowledge" w (agents.retrieve s w)
  run_node planner s w = plain "planner" w (planner_node policy agents.plan s w)
  run_node query_rewriter s w = plain "query_rewriter" w (query_rewriter_node agents.rewrite s w)
  run_node search s w = plain "search" w (search_node agents.look_up s w)
  run_node tool_executor s w =
      traced_call "tool_executor" w
        (tool_executor_node runtime registry repairer agents.schedule s w)
  run_node reflector s w = plain "reflector" w (agents.reflect s w)
  run_node python s w = plain "python" w (agents.run_python s w)
  run_node answer s w = plain "answer" w (agents.compose s w)
  run_node memory s w = plain "memory" w (agents.remember s w)
  run_node finish s w = (returned s, w)

  -- A routing function with its decorator: the route goes into the trace.
  abbrev pub routed : List (String × Node) → String → WorkflowState → Option (Node × WorkflowState)
  routed map route s = elim (targets map route) [
    | none ↦ none
    | some node ↦ some (node, record_route route s)
  ]

  -- The edge out of a node, in the state that it left. A routing function reads a dict of its own, so
  -- the stuck rounds that it counts are lost; the entries of the trace are shared.
  unfoldable pub next_node : Node → WorkflowState → Option (Node × WorkflowState)
  unfolding route_after_goal_analyzer route_after_executor route_after_planner route_after_reflector
  next_node conversation_manager s = some (goal_analyzer, s)
  next_node goal_analyzer s = routed after_goal_analyzer (route_after_goal_analyzer s) s
  next_node knowledge s = some (planner, s)
  next_node planner s = routed after_planner_map (route_after_planner (some registry) s) s
  next_node query_rewriter s = some (search, s)
  next_node search s = some (answer, s)
  next_node tool_executor s = routed after_executor_map (route_after_executor (some registry) s) s
  next_node python s = routed after_executor_map (route_after_executor (some registry) s) s
  next_node reflector s =
      routed after_reflector_map (route_after_reflector (some registry) policy s).0 s
  next_node answer s = some (memory, s)
  next_node memory s = some (finish, s)
  next_node finish s = none

  abbrev pub arrive : W → Option (Node × WorkflowState) → Option (Config W)
  arrive w none = none
  arrive w (some (node, s)) = some (record { node = node; state = s; world = w })

  abbrev pub leave : Node → WorkflowState → Call WorkflowState × W → Option (Config W)
  leave node s (raised text, w) = none
  leave node s (returned new, w) = arrive w (next_node node (merge s new))

  -- One step of a run; `none` is its end, or an exception that leaves it.
  unfoldable pub step : Config W → Option (Config W)
  unfolding run_node next_node
  step c = leave c.node c.state (run_node c.node c.state c.world)
