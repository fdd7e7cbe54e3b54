-- ===== src/Workflow/Nodes/Forced.antt =====
-- The planner node against its limit: how it counts cycles and when it forces the end.
use omni_forge.Base.{
  ◌≡◌, refl, Bool, true, false, Option, none, some, str_eq, if◌then◌else◌, List, [], ◌∷◌, ℕ, ◌+◌,
  ◌≤◌, Bool-cases, inl, inr, get_or, any, le→leb,
}
use omni_forge.Termination.{TerminationPolicy, planner_should_force_complete}
use omni_forge.Registry.{ToolRegistry}
use omni_forge.Workflow.State.{
  WorkflowState, PlanValue, goal_completed, direct_answer, plan_flag, Flag, or_old,
  is_plan_completed, merge,
}
use omni_forge.Workflow.Select.{is_todo}
use omni_forge.Workflow.Routes.{route_after_planner}
use omni_forge.Workflow.Nodes.{planner_node, after_planner}

kept_flag :
    (new old : Option PlanValue) (flags : List Flag)
    → plan_flag new flags ≡ true
    → plan_flag (or_old new old) flags ≡ true
unfolding plan_flag
kept_flag none old flags h = cc
kept_flag (some plan) old flags h = h

module _ {W : Type 0} (registry : ToolRegistry W) (policy : TerminationPolicy) where
  completed-answers :
      (s : WorkflowState)
      → is_plan_completed s ≡ true
      → route_after_planner (some registry) s ≡ "answer"
  unfolding route_after_planner
  completed-answers s h = elim (Bool-cases (str_eq (get_or s.reflection_result "") "done")) [
    | inl e ↦ rw e refl
    | inr e ↦ rw (e, h) refl
  ]

  done-answers :
      (s : WorkflowState)
      → s.reflection_result ≡ some "done"
      → route_after_planner (some registry) s ≡ "answer"
  unfolding route_after_planner
  done-answers s h = rw h refl

  -- What the planner leaves, at the limit and with no TODO task.
  after_planner-answers :
      (completed : Bool) (count : ℕ) (s result : WorkflowState)
      → plan_flag result.plan (goal_completed ∷ direct_answer ∷ []) ≡ completed
      → policy.max_planner_cycles ≤ count
      → any is_todo (get_or result.task_queue []) ≡ false
      → route_after_planner (some registry) (merge s (after_planner policy count result)) ≡ "answer"
  unfolding after_planner planner_should_force_complete merge is_plan_completed
  after_planner-answers true count s result c limit quiet =
      completed-answers (merge s (after_planner policy count result))
        (rw c (kept_flag result.plan s.plan (goal_completed ∷ direct_answer ∷ []) c))
  after_planner-answers false count s result c limit quiet =
      done-answers (merge s (after_planner policy count result))
        (rw (c, quiet, le→leb _ _ limit) refl)

  -- At the limit of planner cycles, a planner that leaves no TODO task in its result is not
  -- followed by another round: the next route is "answer", whatever the state was.
  pub planner_node-answers :
      (run : WorkflowState → W → WorkflowState × W) (s : WorkflowState) (w : W)
      → policy.max_planner_cycles ≤ get_or s.planner_cycle_count 0 + 1
      → any is_todo (get_or (run s w).0.task_queue []) ≡ false
      → route_after_planner (some registry) (merge s (planner_node policy run s w).0) ≡ "answer"
  unfolding planner_node
  planner_node-answers run s w limit quiet =
      after_planner-answers _ (get_or s.planner_cycle_count 0 + 1) s (run s w).0 refl limit quiet

module _ {ℓ} {A : Type ℓ} where
  -- A field on which the two branches agree.
  branch_field :
      (b : Bool) (x y : WorkflowState) (field : WorkflowState → A) {a : A}
      → field x ≡ a
      → field y ≡ a
      → field (if b then x else y) ≡ a
  branch_field true x y field hx hy = hx
  branch_field false x y field hx hy = hy

-- The planner node leaves the queue as the planner has it.
pub after_planner-task_queue :
    (policy : TerminationPolicy) (count : ℕ) (result : WorkflowState)
    → (after_planner policy count result).task_queue ≡ result.task_queue
unfolding after_planner
after_planner-task_queue policy count result =
    branch_field _ _ (record result { planner_cycle_count = some count }) (λ s. s.task_queue) refl
      refl

-- The planner node counts its cycles, on both branches.
pub after_planner-count :
    (policy : TerminationPolicy) (count : ℕ) (result : WorkflowState)
    → (after_planner policy count result).planner_cycle_count ≡ some count
unfolding after_planner
after_planner-count policy count result =
    branch_field _ _ (record result { planner_cycle_count = some count })
      (λ s. s.planner_cycle_count) refl refl
