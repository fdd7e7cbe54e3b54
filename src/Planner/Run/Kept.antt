-- ===== src/Planner/Run/Kept.antt =====
-- What a run of the planner leaves of the task queue.
use omni_forge.Base.{
  ◌≡◌, refl, Bool, true, false, Option, some, String, str_eq, List, ◌⊎◌, inl, inr, if_both, ◌||◌,
  not,
}
use omni_forge.Queue.{TaskQueue, add, get_task, is_done, to_dict_list}
use omni_forge.Queue.Laws.{get_task-add_done, IsUnique, add-IsUnique}
use omni_forge.Tasks.{Task}
use omni_forge.Workflow.State.{WorkflowState, Plan, get_goal_type}
use omni_forge.Registry.{ToolRegistry}
use omni_forge.Executor.Actions.{contains}
use omni_forge.Planner.Build.{Runtime, Built, built}
use omni_forge.Planner.Asking.{Llm}
use omni_forge.Planner.Starting.{Projects}
use omni_forge.Planner.Run.{
  Outcome, planned, failed, answered_types, project_result, mock_result, other_result,
  handle_project, handle_mock_project, handle_non_project, run,
}

module _ {V W : Type 0} (runtime : Runtime) (registry : Option (ToolRegistry V)) (llm : Llm W)
    (projects : Projects W) (q : TaskQueue) (s : WorkflowState) where
  -- The queue as it was, or the tasks of a plan added to it.
  abbrev Extends : Outcome W → Type 0
  Extends (planned out) =
      (out.state.task_queue ≡ s.task_queue)
      ⊎ ((new : List Task) × (out.state.task_queue ≡ some (to_dict_list (add new q))))
  Extends (failed w) = Unit

  project_result-Extends :
      (answer : Built Plan × W) → Extends (project_result runtime registry llm projects q s answer)
  project_result-Extends (built plan, w) = inr (_, refl)
  project_result-Extends (_, w) = tt

  mock_result-Extends :
      (answer : Built Plan × W) → Extends (mock_result runtime registry llm projects q s answer)
  mock_result-Extends (built plan, w) = inr (_, refl)
  mock_result-Extends (_, w) = tt

  other_result-Extends :
      (answer : Built Plan × W) → Extends (other_result runtime registry llm projects q s answer)
  other_result-Extends (built plan, w) = inr (_, refl)
  other_result-Extends (_, w) = tt

  handlers-Extends :
      (w : W)
      → Extends (handle_project runtime registry llm projects q s w)
        × Extends (handle_mock_project runtime registry llm projects q s w)
        × Extends (handle_non_project runtime registry llm projects q s w)
  unfolding handle_project handle_mock_project handle_non_project
  handlers-Extends w = (project_result-Extends _, mock_result-Extends _, other_result-Extends _)

  run-Extends :
      (degraded : List String) (llm_error : Bool) (w : W)
      → contains answered_types (get_goal_type s) ≡ false
      → Extends (run runtime registry llm projects degraded llm_error q s w)
  unfolding run
  run-Extends degraded llm_error w actionable =
      let (project, mock, other) = handlers-Extends w in
      rw actionable (
        if_both Extends (contains degraded "_planner" || llm_error) (inl refl) (
          if_both Extends (not (str_eq (get_goal_type s) "project")) other
            (if_both Extends llm.is_mock mock project)))

  -- The queue as it was, or one with a task to an id which still yields this task.
  abbrev pub Keeps : String → Task → Outcome W → Type 0
  Keeps id old (planned out) =
      (out.state.task_queue ≡ s.task_queue)
      ⊎ ((q' : TaskQueue) × (out.state.task_queue ≡ some (to_dict_list q'))
          × IsUnique q'
          × (get_task id q' ≡ some old))
  Keeps id old (failed w) = Unit

  Keeps-Extends :
      (id : String) (old : Task) (out : Outcome W)
      → IsUnique q
      → get_task id q ≡ some old
      → is_done old ≡ true
      → Extends out
      → Keeps id old out
  Keeps-Extends id old (failed w) unique found finished e = tt
  Keeps-Extends id old (planned out) unique found finished (inl same) = inl same
  Keeps-Extends id old (planned out) unique found finished (inr (new, e)) =
      inr (add new q, e, add-IsUnique new q unique, get_task-add_done new q id old found finished)

  -- Unless the goal's type is one that is answered directly, a run of the planner, on any answers of
  -- the LLM, leaves the stored queue alone or stores one with a task to an id in which a task that
  -- was DONE is still found as it was.
  pub run-Keeps :
      (degraded : List String) (llm_error : Bool) (w : W) (id : String) (old : Task)
      → contains answered_types (get_goal_type s) ≡ false
      → IsUnique q
      → get_task id q ≡ some old
      → is_done old ≡ true
      → Keeps id old (run runtime registry llm projects degraded llm_error q s w)
  run-Keeps degraded llm_error w id old actionable unique found finished =
      Keeps-Extends id old (run runtime registry llm projects degraded llm_error q s w) unique found
        finished (run-Extends degraded llm_error w actionable)
