-- ===== src/Scenarios/Graphs.antt =====
-- The theorems on the graph, its nodes and the parallel selection at concrete inputs.
use omni_forge.Base.{
  ◌≡◌, refl, true, some, [], ◌∷◌, ℕ, inl, inr, ◌≢◌, arith, is_some, All, get_elem?,
}
use omni_forge.Values.{field, end, str, dict}
use omni_forge.Tasks.Serial.{TaskDict}
use omni_forge.Results.{returned}
use omni_forge.Termination.{default_policy}
use omni_forge.Workflow.State.{empty_state, merge}
use omni_forge.Base.Int.{◌≤ℤ◌}
use omni_forge.Workflow.Select.{
  is_todo, priority_of, find_highest_priority_todo, find_highest_priority_todo-IsBest,
}
use omni_forge.Workflow.Parallel.{select_parallel_tasks}
use omni_forge.Workflow.Parallel.Paths.{Pairwise, Apart, select_parallel_tasks-Pairwise}
use omni_forge.Workflow.Parallel.Bounds.{MayJoin, select_parallel_tasks-MayJoin}
use omni_forge.Workflow.Repair.{repaired_task, repair_tool_task}
use omni_forge.Workflow.Repair.Once.{RepairedOnce, repair_tool_task-once}
use omni_forge.Workflow.Nodes.{planner_node}
use omni_forge.Workflow.Nodes.Forced.{planner_node-answers}
use omni_forge.Workflow.Routes.{route_after_planner}
use omni_forge.Workflow.ToolNode.{run_single, tool_executor_node, Outcome}
use omni_forge.Workflow.ToolNode.Progress.{RanAt, run_single-RanAt, tool_executor_node-RanAt}
use omni_forge.Workflow.Graph.{reflector, finish, next_node}
use omni_forge.Workflow.Graph.Edges.{RoutesKnown}
use omni_forge.Workflow.Graph.Total.{next_node-total}
use omni_forge.Results.{fail_result}
use omni_forge.Scenarios.{runtime, registry, repairer, agents, task_dict, queue_state}

registry-RoutesKnown : RoutesKnown registry
registry-RoutesKnown = (inl refl, (inr (inl refl), tt))

reflector_not_finish : reflector ≢ finish
reflector_not_finish h = cc

next_node-total_example :
    is_some (next_node runtime registry repairer default_policy agents reflector empty_state) ≡ true
next_node-total_example =
    next_node-total runtime registry repairer default_policy agents registry-RoutesKnown reflector
      empty_state reflector_not_finish

planner_node-answers_example :
    let s = record empty_state { planner_cycle_count = some 4 } in
    route_after_planner (some registry) (merge s (planner_node default_policy agents.plan s 0).0)
    ≡ "answer"
planner_node-answers_example =
    planner_node-answers registry default_policy agents.plan
      (record empty_state { planner_cycle_count = some 4 }) 0 (omega arith) refl

run_single-RanAt_example :
    RanAt
      (task_dict "git" "done" ∷ task_dict "git" "todo" ∷ [])
      1
      (run_single runtime registry repairer
        (task_dict "git" "done" ∷ task_dict "git" "todo" ∷ [])
        1
        (task_dict "git" "todo")
        0).0
run_single-RanAt_example =
    run_single-RanAt runtime registry repairer
      (task_dict "git" "done" ∷ task_dict "git" "todo" ∷ []) 1 0 refl refl

tool_executor_node-RanAt_example :
    (out : Outcome) × (w' : ℕ) × RanAt (task_dict "git" "todo" ∷ []) 0 out
    × (tool_executor_node runtime registry repairer agents.schedule
          (queue_state (task_dict "git" "todo" ∷ []))
          0
        ≡ (
          returned (record empty_state { task_queue = some out.0; tool_results = some out.1 }),
          w',
        ))
unfolding select_parallel_tasks find_highest_priority_todo
tool_executor_node-RanAt_example =
    tool_executor_node-RanAt runtime registry repairer agents.schedule
      (queue_state (task_dict "git" "todo" ∷ [])) 0 refl refl

abbrev file_task : TaskDict
file_task = record (task_dict "filesystem" "todo") {
  action = some "read_file";
  input = some (dict (field "path" (str "notes.txt") end));
}

select_parallel_tasks-MayJoin_example : All (MayJoin runtime.text_of) (
    select_parallel_tasks runtime.text_of
      (task_dict "search" "todo" ∷ task_dict "search" "todo" ∷ []))
select_parallel_tasks-MayJoin_example =
    select_parallel_tasks-MayJoin runtime.text_of
      (task_dict "search" "todo" ∷ task_dict "search" "todo" ∷ [])

select_parallel_tasks-Pairwise_example : Pairwise (Apart runtime.text_of) (
    select_parallel_tasks runtime.text_of
      (task_dict "search" "todo" ∷ task_dict "filesystem" "todo" ∷ file_task ∷ []))
select_parallel_tasks-Pairwise_example =
    select_parallel_tasks-Pairwise runtime.text_of
      (task_dict "search" "todo" ∷ task_dict "filesystem" "todo" ∷ file_task ∷ [])

repair_tool_task-once_example :
    RepairedOnce true
      (returned (some (field "path" (str "a") end)))
      (task_dict "git" "failed")
      (fail_result "git" "status" "no such file")
      (repaired_task (task_dict "git" "failed") (field "path" (str "a") end))
unfolding repair_tool_task fail_result
repair_tool_task-once_example =
    repair_tool_task-once repairer (task_dict "git" "failed")
      (repaired_task (task_dict "git" "failed") (field "path" (str "a") end))
      (fail_result "git" "status" "no such file") 0 refl

find_highest_priority_todo-IsBest_example :
    let queue = task_dict "git" "done" ∷ task_dict "git" "todo" ∷ [] in
    (get_elem? queue 1 ≡ some (task_dict "git" "todo"))
    × (is_todo (task_dict "git" "todo") ≡ true)
    × All (λ u. is_todo u ≡ true → priority_of u ≤ℤ priority_of (task_dict "git" "todo")) queue
unfolding find_highest_priority_todo
find_highest_priority_todo-IsBest_example =
    find_highest_priority_todo-IsBest (task_dict "git" "done" ∷ task_dict "git" "todo" ∷ []) refl
