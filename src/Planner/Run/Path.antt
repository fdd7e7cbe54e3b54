-- ===== src/Planner/Run/Path.antt =====
-- The node names that `_plan_to_workflow` lists.
use omni_forge.Base.{
  ◌≡◌, refl, true, false, Option, String, str_eq, eq_refl, eq_iff, List, [], ◌∷◌, ◌++◌, All,
  All-map, if_both, Bool-cases, inl, inr, ◌||◌, ◌&&◌, not, if◌then◌else◌, arith,
}
use omni_forge.Tasks.{Task}
use omni_forge.Workflow.State.{Plan}
use omni_forge.Registry.{ToolRegistry}
use omni_forge.Executor.Actions.{contains}
use omni_forge.Planner.Run.{
  append_node, registered_node, node_or_default, tool_nodes, first_nodes, plan_to_workflow,
}

-- No name stands twice.
abbrev pub IsDuplicateFree : List String → Type 0
IsDuplicateFree [] = Unit
IsDuplicateFree (node ∷ nodes) = (contains nodes node ≡ false) × IsDuplicateFree nodes

-- The list starts with `goal_analyzer`.
abbrev pub IsStarted : List String → Type 0
IsStarted [] = ⊥
IsStarted (node ∷ nodes) = node ≡ "goal_analyzer"

contains-append :
    (nodes : List String) (node name : String)
    → contains (nodes ++ node ∷ []) name ≡ (contains nodes name || str_eq node name)
contains-append [] node name = ground arith
contains-append (n ∷ nodes) node name = ground (arith, contains-append nodes node name)

append-IsDuplicateFree :
    (nodes : List String) (node : String)
    → IsDuplicateFree nodes
    → contains nodes node ≡ false
    → IsDuplicateFree (nodes ++ node ∷ [])
append-IsDuplicateFree [] node d h = (refl, tt)
append-IsDuplicateFree (n ∷ nodes) node d h = ground (
  arith,
  contains-append nodes node n,
  eq_iff node n,
  eq_iff n node,
  append-IsDuplicateFree nodes node d.1,
)

append_node-IsDuplicateFree :
    (node : String) (nodes : List String)
    → IsDuplicateFree nodes
    → IsDuplicateFree (append_node node nodes)
append_node-IsDuplicateFree node nodes d = elim (Bool-cases (contains nodes node)) [
  | inl there ↦ rw there d
  | inr new ↦ rw new (append-IsDuplicateFree nodes node d new)
]

append_node-IsStarted :
    (node : String) (nodes : List String) → IsStarted nodes → IsStarted (append_node node nodes)
append_node-IsStarted node [] h = absurd h
append_node-IsStarted node (n ∷ nodes) h = if_both IsStarted (contains (n ∷ nodes) node) h h

contains-append_node :
    (node : String) (nodes : List String) (name : String)
    → contains nodes name ≡ true
    → contains (append_node node nodes) name ≡ true
contains-append_node node nodes name h = ground (arith, contains-append nodes node name)

contains-append_node_self :
    (node : String) (nodes : List String) → contains (append_node node nodes) node ≡ true
contains-append_node_self node nodes = ground (arith, contains-append nodes node node, eq_refl node)

module _ {V : Type 0} (registry : Option (ToolRegistry V)) where
  abbrev pub node_of_tool : String → String
  node_of_tool tool = node_or_default (registered_node registry tool)

  abbrev step_nodes : Task → List String → List String
  step_nodes t nodes = if str_eq t.tool "" then nodes else append_node (node_of_tool t.tool) nodes

  step_nodes-IsDuplicateFree :
      (t : Task) (nodes : List String)
      → IsDuplicateFree nodes
      → IsDuplicateFree (step_nodes t nodes)
  step_nodes-IsDuplicateFree t nodes d =
      if_both IsDuplicateFree (str_eq t.tool "") d (append_node-IsDuplicateFree _ nodes d)

  step_nodes-IsStarted :
      (t : Task) (nodes : List String) → IsStarted nodes → IsStarted (step_nodes t nodes)
  step_nodes-IsStarted t nodes h =
      if_both IsStarted (str_eq t.tool "") h (append_node-IsStarted _ nodes h)

  contains-step_nodes :
      (t : Task) (nodes : List String) (name : String)
      → contains nodes name ≡ true
      → contains (step_nodes t nodes) name ≡ true
  contains-step_nodes t nodes name h =
      if_both (λ l. contains l name ≡ true) (str_eq t.tool "") h
        (contains-append_node (node_of_tool t.tool) nodes name h)

  tool_nodes-IsDuplicateFree :
      (ts : List Task) (nodes : List String)
      → IsDuplicateFree nodes
      → IsDuplicateFree (tool_nodes registry ts nodes)
  tool_nodes-IsDuplicateFree [] nodes d = d
  tool_nodes-IsDuplicateFree (t ∷ ts) nodes d =
      tool_nodes-IsDuplicateFree ts (step_nodes t nodes) (step_nodes-IsDuplicateFree t nodes d)

  tool_nodes-IsStarted :
      (ts : List Task) (nodes : List String)
      → IsStarted nodes
      → IsStarted (tool_nodes registry ts nodes)
  tool_nodes-IsStarted [] nodes h = h
  tool_nodes-IsStarted (t ∷ ts) nodes h =
      tool_nodes-IsStarted ts (step_nodes t nodes) (step_nodes-IsStarted t nodes h)

  contains-tool_nodes :
      (ts : List Task) (nodes : List String) (name : String)
      → contains nodes name ≡ true
      → contains (tool_nodes registry ts nodes) name ≡ true
  contains-tool_nodes [] nodes name h = h
  contains-tool_nodes (t ∷ ts) nodes name h =
      contains-tool_nodes ts (step_nodes t nodes) name (contains-step_nodes t nodes name h)

  -- The node of the task's tool is listed, if it has a tool.
  abbrev pub IsRouted : List String → Task → Type 0
  IsRouted nodes t = str_eq t.tool "" ≡ false → contains nodes (node_of_tool t.tool) ≡ true

  tool_nodes-IsRouted :
      (ts : List Task) (nodes : List String) → All (IsRouted (tool_nodes registry ts nodes)) ts
  tool_nodes-IsRouted [] nodes = tt
  tool_nodes-IsRouted (t ∷ ts) nodes = (
    (λ has_tool.
        contains-tool_nodes ts (step_nodes t nodes) (node_of_tool t.tool)
          (rw has_tool (contains-append_node_self (node_of_tool t.tool) nodes))),
    tool_nodes-IsRouted ts (step_nodes t nodes),
  )

  -- A list of nodes that a run can go along.
  abbrev pub IsPath : List String → Type 0
  IsPath nodes =
      IsStarted nodes
      × IsDuplicateFree nodes
      × (contains nodes "answer" ≡ true)
      × (contains nodes "memory" ≡ true)

  abbrev finish : List String → List String
  finish nodes = append_node "memory" (append_node "answer" nodes)

  contains-finish :
      (nodes : List String) (name : String)
      → contains nodes name ≡ true
      → contains (finish nodes) name ≡ true
  contains-finish nodes name h =
      contains-append_node "memory" (append_node "answer" nodes) name
        (contains-append_node "answer" nodes name h)

  finish-IsPath :
      (nodes : List String) → IsStarted nodes → IsDuplicateFree nodes → IsPath (finish nodes)
  finish-IsPath nodes started d =
      let answered = append_node "answer" nodes in
      (
        append_node-IsStarted "memory" answered (append_node-IsStarted "answer" nodes started),
        append_node-IsDuplicateFree "memory" answered
            (append_node-IsDuplicateFree "answer" nodes d),
        contains-append_node "memory" answered "answer" (contains-append_node_self "answer" nodes),
        contains-append_node_self "memory" answered,
      )

  first_nodes-IsStarted : (goal_type : String) → IsStarted (first_nodes registry goal_type)
  first_nodes-IsStarted goal_type =
      if_both IsStarted (str_eq goal_type "identity" || str_eq goal_type "search") refl refl

  first_nodes-IsDuplicateFree :
      (goal_type : String) → IsDuplicateFree (first_nodes registry goal_type)
  first_nodes-IsDuplicateFree goal_type =
      if_both IsDuplicateFree (str_eq goal_type "identity" || str_eq goal_type "search") (refl, tt)
        (refl, (refl, tt))

  -- The nodes of a plan start with `goal_analyzer`, no name stands twice, and `answer` and `memory`
  -- are among them; if the plan is neither completed nor answered directly, so is the node of each
  -- of its tasks that has a tool.
  pub plan_to_workflow-IsPath :
      (plan : Plan) (goal_type : String)
      → IsPath (plan_to_workflow registry plan goal_type)
        × ((not plan.goal_completed && not plan.direct_answer) ≡ true
            → All (IsRouted (plan_to_workflow registry plan goal_type)) plan.tasks)
  unfolding plan_to_workflow
  plan_to_workflow-IsPath plan goal_type =
      let first = first_nodes registry goal_type in
      let nodes = tool_nodes registry plan.tasks first in
      let started = first_nodes-IsStarted goal_type in
      let free = first_nodes-IsDuplicateFree goal_type in
      (
        if_both (λ l. IsPath (finish l)) (not plan.goal_completed && not plan.direct_answer)
            (finish-IsPath nodes (tool_nodes-IsStarted plan.tasks first started)
              (tool_nodes-IsDuplicateFree plan.tasks first free))
            (finish-IsPath first started free),
        (λ active. rw active (
            All-map (IsRouted nodes) (IsRouted (finish nodes)) plan.tasks
              (λ t routed has_tool. contains-finish nodes (node_of_tool t.tool) (routed has_tool))
              (tool_nodes-IsRouted plan.tasks first))),
      )
