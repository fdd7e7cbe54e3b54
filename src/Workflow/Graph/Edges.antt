-- ===== src/Workflow/Graph/Edges.antt =====
-- Every route that a router returns is named by the mapping of its conditional edge.
use omni_forge.Base.{
  none_some, ◌≡◌, refl, sym, Option, none, some, String, str_eq, [], ℕ, ◌+◌, All, Bool-cases,
  Option-cases, ◌⊎◌, inl, inr, subst, get_or, ap, ◌∙◌, some_injective,
}
use omni_forge.Base.Keyed.{lookup, lookup_holds}
use omni_forge.Tasks.Serial.{TaskDict}
use omni_forge.Termination.{
  TerminationPolicy, reflector_should_force_answer_when_stuck,
  reflector_should_force_answer_on_replan,
}
use omni_forge.Registry.{ToolRegistry, entry_name, get_node_for_tool, tool_of, node_of}
use omni_forge.Workflow.State.{WorkflowState, is_plan_completed}
use omni_forge.Workflow.Select.{find_highest_priority_todo}
use omni_forge.Workflow.Routes.{
  resolve_tool_node, route_task, task_or, node_or_executor, last_failed, route_stuck, route_next,
  route_after_executor, route_after_planner, route_after_reflector,
}

-- The nodes to which a tool may route.
abbrev pub Executes : String → Type 0
Executes node = (node ≡ "tool_executor") ⊎ ((node ≡ "query_rewriter") ⊎ (node ≡ "python"))

abbrev pub RoutesKnown : {W : Type 0} → ToolRegistry W → Type 0
RoutesKnown registry = All (λ e. Executes e.1.routing_node) registry

module _ {W : Type 0} (registry : ToolRegistry W) (known : RoutesKnown registry) where
  node-Executes : (tool node : String) → get_node_for_tool tool registry ≡ some node → Executes node
  unfolding get_node_for_tool
  node-Executes tool node h = elim (Option-cases (lookup entry_name tool registry)) [
    | inl missing ↦ none_some (sym (ap (λ o. node_of (tool_of o)) missing) ∙ h)
    | inr (e, found) ↦
        subst Executes (some_injective (sym (ap (λ o. node_of (tool_of o)) found) ∙ h))
          (lookup_holds entry_name (λ x. Executes x.1.routing_node) tool registry known found)
  ]

  or_executor-Executes :
      (o : Option String)
      → ((node : String) → o ≡ some node → Executes node)
      → Executes (node_or_executor (some registry) o)
  or_executor-Executes none h = inl refl
  or_executor-Executes (some node) h = elim (Bool-cases (str_eq node "")) [
    | inl e ↦ rw e (inl refl)
    | inr e ↦ rw e (h node refl)
  ]

  -- A task for a tool goes to an executing node.
  resolve-Executes :
      (tool : String)
      → Executes (node_or_executor (some registry) (resolve_tool_node (some registry) tool))
  unfolding resolve_tool_node
  resolve-Executes tool = elim (Bool-cases (str_eq tool "")) [
    | inl e ↦ rw e (inl refl)
    | inr e ↦ rw e (or_executor-Executes (get_node_for_tool tool registry) (node-Executes tool))
  ]

  abbrev Either : String → String → Type 0
  Either other route = (route ≡ other) ⊎ Executes route

  route_task-Either :
      (other : String) (d : TaskDict) → Either other (route_task (some registry) other d)
  unfolding route_task
  route_task-Either other d = elim (Bool-cases (str_eq (get_or d.tool "") "knowledge")) [
    | inl e ↦ rw e (inl refl)
    | inr e ↦ rw e (inr (resolve-Executes (get_or d.tool "")))
  ]

  task_or-Either :
      (other : String) (o : Option (ℕ × TaskDict))
      → Either other (task_or (some registry) other other o)
  task_or-Either other none = inl refl
  task_or-Either other (some (i, d)) = route_task-Either other d

  pub route_after_executor-Either :
      (s : WorkflowState) → Either "reflector" (route_after_executor (some registry) s)
  unfolding route_after_executor
  route_after_executor-Either s = elim (Bool-cases (last_failed (get_or s.tool_results []))) [
    | inl e ↦ rw e (inl refl)
    | inr e ↦
        rw e (task_or-Either "reflector" (find_highest_priority_todo (get_or s.task_queue [])))
  ]

  pub route_after_planner-Either :
      (s : WorkflowState)
      → (route_after_planner (some registry) s ≡ "answer")
        ⊎ Either "reflector" (route_after_planner (some registry) s)
  unfolding route_after_planner
  route_after_planner-Either s = elim (Bool-cases (str_eq (get_or s.reflection_result "") "done")) [
    | inl e ↦ rw e (inl refl)
    | inr e ↦ rw e (elim (Bool-cases (is_plan_completed s)) [
      | inl c ↦ rw c (inl refl)
      | inr c ↦
          rw c
            (inr (task_or-Either "reflector" (find_highest_priority_todo (get_or s.task_queue []))))
    ])
  ]

  module _ (policy : TerminationPolicy) where
    abbrev Known : String → Type 0
    Known route = (route ≡ "answer") ⊎ Either "planner" route

    route_stuck-Known : (s : WorkflowState) → Known (route_stuck (some registry) policy s).0
    route_stuck-Known s =
        elim (Bool-cases (
          reflector_should_force_answer_when_stuck policy (get_or s.stuck_rounds 0 + 1)
            (get_or s.planner_cycle_count 0))) [
              | inl e ↦ rw e (inl refl)
              | inr e ↦ rw e (inr (inl refl))
            ]

    route_next-Known :
        (s : WorkflowState) (o : Option (ℕ × TaskDict))
        → Known (route_next (some registry) policy s o).0
    route_next-Known s none = route_stuck-Known s
    route_next-Known s (some (i, d)) = inr (route_task-Either "planner" d)

    pub route_after_reflector-Known :
        (s : WorkflowState) → Known (route_after_reflector (some registry) policy s).0
    unfolding route_after_reflector
    route_after_reflector-Known s =
        let result = get_or s.reflection_result "done" in
        elim (Bool-cases (str_eq result "done")) [
          | inl e ↦ rw e (inl refl)
          | inr e ↦ rw e (elim (Bool-cases (str_eq result "replan")) [
            | inl r ↦
                rw r
                  (elim (Bool-cases
                    (reflector_should_force_answer_on_replan policy (get_or s.replan_count 0))) [
                      | inl f ↦ rw f (inl refl)
                      | inr f ↦ rw f (inr (inl refl))
                    ])
            | inr r ↦ rw r (elim (Bool-cases (str_eq result "retry")) [
              | inl t ↦ rw t (inr (inr (inl refl)))
              | inr t ↦
                  rw t (route_next-Known s (find_highest_priority_todo (get_or s.task_queue [])))
            ])
          ])
        ]
