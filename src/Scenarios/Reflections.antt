-- ===== src/Scenarios/Reflections.antt =====
-- The theorems on the reflector at concrete inputs.
use omni_forge.Base.{◌≡◌, refl, true, false, none, some, [], ◌∷◌, ◌≤◌, ◌<◌}
use omni_forge.Base.Int.{pos}
use omni_forge.Values.{end}
use omni_forge.Tasks.{todo, done}
use omni_forge.Termination.{default_policy}
use omni_forge.Queue.{TaskQueue, get_task}
use omni_forge.Queue.Laws.{IsUnique}
use omni_forge.Workflow.State.{empty_state}
use omni_forge.Workflow.Routes.{route_after_reflector}
use omni_forge.Reflection.{ReflectionOutput, apply_reflection, conclude}
use omni_forge.Reflection.Frame.{apply_reflection-IsUnique, get_task-apply_reflection}
use omni_forge.Reflection.Verdict.{conclude_routes}
use omni_forge.Scenarios.{registry, task}

abbrev queue : TaskQueue
queue = task "a" todo 5 ∷ task "b" done 7 ∷ task "c" todo 1 ∷ []

queue-IsUnique : IsUnique queue
queue-IsUnique = ((refl, (refl, tt)), ((refl, tt), (tt, tt)))

abbrev decision : ReflectionOutput
decision = record {
  goal_completed = false;
  task_updates = record { task_id = "a"; status = some "DONE"; priority = none } ∷ [];
  new_tasks =
      record { task_id = "b"; title = "again"; priority = pos 9; tool = "git"; input = end } ∷ [];
  remove_tasks = "c" ∷ [];
  need_replan = true;
  reason = "";
}

get_task-apply_reflection_example :
    get_task "b" (apply_reflection "now" (λ n. "id") decision queue) ≡ some (task "b" done 7)
unfolding get_task
get_task-apply_reflection_example =
    get_task-apply_reflection "now" (λ n. "id") decision queue "b" queue-IsUnique refl (refl, tt)
      (refl, tt)

conclude_routes_example :
    let after = conclude decision queue empty_state in
    let route = (route_after_reflector (some registry) default_policy after).0 in
    (decision.goal_completed ≡ true → route ≡ "answer")
    × (decision.goal_completed ≡ false
        → decision.need_replan ≡ true
        → (after.replan_count ≡ some 1)
          × (1 < default_policy.max_replan_count → route ≡ "planner")
          × (default_policy.max_replan_count ≤ 1 → route ≡ "answer"))
conclude_routes_example = conclude_routes registry default_policy decision queue empty_state

apply_reflection-IsUnique_example : IsUnique (apply_reflection "now" (λ n. "id") decision queue)
apply_reflection-IsUnique_example =
    apply_reflection-IsUnique "now" (λ n. "id") decision queue queue-IsUnique
