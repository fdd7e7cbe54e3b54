-- ===== src/Reflection/Verdict.antt =====
-- Where the verdict of the reflector sends the run.
use omni_forge.Base.{
  ◌≡◌, refl, true, false, some, String, str_eq, ℕ, ◌+◌, ◌≤◌, ◌<◌, arith, get_or, leb, le→leb,
  if_both,
}
use omni_forge.Termination.{TerminationPolicy, reflector_should_force_answer_on_replan}
use omni_forge.Registry.{ToolRegistry}
use omni_forge.Queue.{TaskQueue}
use omni_forge.Workflow.State.{WorkflowState}
use omni_forge.Workflow.Routes.{route_after_reflector}
use omni_forge.Reflection.{ReflectionOutput, conclude}

not_leb : (a b : ℕ) → b < a → leb a b ≡ false
not_leb a b h = ground arith

-- The reflector never asks for a retry, so the branch of `_route_after_reflector` for that verdict
-- is not taken behind it.
conclude-no_retry :
    (r : ReflectionOutput) (q : TaskQueue) (s : WorkflowState)
    → str_eq (get_or (conclude r q s).reflection_result "done") "retry" ≡ false
unfolding conclude
conclude-no_retry r q s =
    let Fine : WorkflowState → Type 0 =
      λ t. str_eq (get_or t.reflection_result "done") "retry" ≡ false in
    if_both Fine r.goal_completed refl (if_both Fine r.need_replan refl refl)

module _ {W : Type 0} (registry : ToolRegistry W) (policy : TerminationPolicy)
    (r : ReflectionOutput) (q : TaskQueue) (s : WorkflowState) where
  abbrev route : String
  route = (route_after_reflector (some registry) policy (conclude r q s)).0

  -- A completed goal goes on to the answer. A replan goes back to the planner while it is below
  -- `max_replan_count`, and on to the answer from then on; and it is counted.
  pub conclude_routes :
      (r.goal_completed ≡ true → route ≡ "answer")
      × (r.goal_completed ≡ false
          → r.need_replan ≡ true
          → ((conclude r q s).replan_count ≡ some (get_or s.replan_count 0 + 1))
            × (get_or s.replan_count 0 + 1 < policy.max_replan_count → route ≡ "planner")
            × (policy.max_replan_count ≤ get_or s.replan_count 0 + 1 → route ≡ "answer"))
  unfolding conclude route_after_reflector reflector_should_force_answer_on_replan
  conclude_routes = (
    (λ c. rw c refl),
    (λ c n. (
      rw (c, n) refl,
      (λ few. rw (c, n) (rw (not_leb _ _ few) refl)),
      (λ many. rw (c, n) (rw (le→leb _ _ many) refl)),
    )),
  )
