-- ===== src/Workflow/ToolNode.antt =====
-- `_make_tool_executor_node`. The tasks of the queue are written at their positions. `schedule` is
-- the order in which the thread pool runs a parallel batch.
pub mod Progress
use omni_forge.Base.{
  Bool, true, false, Option, none, some, String, str_eq, if◌then◌else◌, List, [], ◌∷◌, ◌++◌, ℕ,
  zero, suc, get_or, get_elem?, set, map, length, ltb,
}
use omni_forge.Values.{null}
use omni_forge.Tasks.Serial.{TaskDict}
use omni_forge.Results.{
  Call, returned, raised, ToolResult, ToolResultDict, result_to_dict, or_text?,
}
use omni_forge.Events.{Context}
use omni_forge.Registry.{ToolRegistry}
use omni_forge.Executor.{Runtime}
use omni_forge.Executor.Dicts.{execute_task_dict}
use omni_forge.Executor.Batch.{execute_batch_parallel}
use omni_forge.Workflow.State.{WorkflowState, empty_state}
use omni_forge.Workflow.Select.{find_highest_priority_todo}
use omni_forge.Workflow.Parallel.{Candidate, select_parallel_tasks}
use omni_forge.Workflow.Repair.{Repairer, repair_tool_task}
use Prim.Native.String.{◌++◌ as text_append}

abbrev pub fresh_context : Context
fresh_context = record { tasks = []; events = [] }

abbrev pub as_running : TaskDict → TaskDict
as_running d = record d { status = some "running" }

abbrev pub as_failed : Option String → TaskDict → TaskDict
as_failed error d = record d { status = some "failed"; error = some error }

-- The status that a result gives to its task.
abbrev pub settled : ToolResult → TaskDict → TaskDict
settled r d =
    if r.success
    then record d { status = some "done" }
    else as_failed (some (or_text? r.error "Unknown error")) d

-- The entry of "tool_results" for an executor that raised.
abbrev crash_entry : TaskDict → String → ToolResultDict
crash_entry d text = record {
  success = some false;
  task_id = none;
  tool = some (get_or d.tool "?");
  action = some (get_or d.action (get_or d.goal ""));
  goal = none;
  result = some null;
  message = some (text_append "Executor crashed: " text);
  duration = none;
  error = some (some text);
}

-- What the node comes to: the queue and the entries of "tool_results".
abbrev pub Outcome : Type 0
Outcome = List TaskDict × List ToolResultDict

module _ {W : Type 0} (runtime : Runtime W) (registry : ToolRegistry W)
    (repairer : Repairer W) where
  open runtime use {text_of}

  -- A failed result gets one repair, and the repaired task is run again.
  abbrev rerun : ToolResult → Context → Option TaskDict × W → Call ToolResult × W
  rerun r ctx (none, w) = (returned r, w)
  rerun r ctx (some d, w) =
      let (answer, ctx', w') = execute_task_dict runtime registry ctx d w in (answer, w')

  abbrev repaired : TaskDict → ToolResult → Context → W → Call ToolResult × W
  repaired d r ctx w =
      if r.success then (returned r, w) else rerun r ctx (repair_tool_task repairer d r w)

  abbrev with_repair : TaskDict → Call ToolResult × Context × W → Call ToolResult × W
  with_repair d (raised text, ctx, w) = (raised text, w)
  with_repair d (returned r, ctx, w) = repaired d r ctx w

  abbrev finish_single : List TaskDict → ℕ → TaskDict → Call ToolResult × W → Outcome × W
  finish_single queue i d (returned r, w) = ((set queue i (settled r d), result_to_dict r ∷ []), w)
  finish_single queue i d (raised text, w) =
      ((set queue i (as_failed (some text) d), crash_entry d text ∷ []), w)

  -- The task at position `i`, which is marked running, is executed.
  unfoldable pub run_single : List TaskDict → ℕ → TaskDict → W → Outcome × W
  unfolding execute_task_dict repair_tool_task result_to_dict
  run_single queue i d w =
      let d' = as_running d in
      finish_single queue i d'
        (with_repair d' (execute_task_dict runtime registry fresh_context d' w))

  abbrev settle_answer : List TaskDict → Candidate → Call ToolResult × W → Call Outcome × W
  settle_answer queue c (raised text, w) = (raised text, w)
  settle_answer queue c (returned r, w) =
      (returned (set queue c.0 (settled r (as_running c.1)), result_to_dict r ∷ []), w)

  abbrev settle_one : List TaskDict → Candidate → Context → Option ToolResult → W → Call Outcome × W
  settle_one queue c ctx none w = (
    returned (set queue c.0 (as_failed (some "No result from executor") (as_running c.1)), []),
    w,
  )
  settle_one queue c ctx (some r) w = settle_answer queue c (repaired (as_running c.1) r ctx w)

  abbrev more_results : List ToolResultDict → Call Outcome × W → Call Outcome × W
  more_results rs (raised text, w) = (raised text, w)
  more_results rs (returned (queue, rs'), w) = (returned (queue, rs ++ rs'), w)

  abbrev go_on : (List TaskDict → W → Call Outcome × W) → Call Outcome × W → Call Outcome × W
  go_on rest (raised text, w) = (raised text, w)
  go_on rest (returned (queue, rs), w) = more_results rs (rest queue w)

  -- The loop over the tasks of a batch with their results, of which there may be too few. An
  -- exception of a repaired task leaves the node.
  unfoldable pub settle_all :
      Context → List Candidate → List (Option ToolResult) → List TaskDict → W → Call Outcome × W
  unfolding repair_tool_task execute_task_dict result_to_dict
  settle_all ctx [] results queue w = (returned (queue, []), w)
  settle_all ctx (c ∷ cs) [] queue w = go_on (settle_all ctx cs []) (settle_one queue c ctx none w)
  settle_all ctx (c ∷ cs) (r ∷ rs) queue w =
      go_on (settle_all ctx cs rs) (settle_one queue c ctx r w)

  abbrev mark_all : List TaskDict → List Candidate → List TaskDict
  mark_all queue [] = queue
  mark_all queue (c ∷ cs) = mark_all (set queue c.0 (as_running c.1)) cs

  unfoldable pub run_parallel : List ℕ → List TaskDict → List Candidate → W → Call Outcome × W
  unfolding execute_batch_parallel settle_all
  run_parallel schedule queue cs w =
      let (results, ctx, w') =
        execute_batch_parallel runtime registry schedule (map (λ c. as_running c.1) cs)
          fresh_context w in
      settle_all ctx cs (map some results) (mark_all queue cs) w'

  -- The keys that the node returns.
  abbrev update_of : Option (List TaskDict) → List ToolResultDict → WorkflowState
  update_of queue results = record empty_state { task_queue = queue; tool_results = some results }

  abbrev single_update : List TaskDict → Option (ℕ × TaskDict) → W → Call WorkflowState × W
  single_update queue none w = (returned (update_of none []), w)
  single_update queue (some (i, d)) w =
      let ((queue', results), w') = run_single queue i d w in
      (returned (update_of (some queue') results), w')

  abbrev parallel_update : Call Outcome × W → Call WorkflowState × W
  parallel_update (raised text, w) = (raised text, w)
  parallel_update (returned (queue, results), w) = (returned (update_of (some queue) results), w)

  unfoldable pub tool_executor_node : (W → List ℕ) → WorkflowState → W → Call WorkflowState × W
  unfolding run_single run_parallel select_parallel_tasks
  tool_executor_node schedule s w =
      let queue = get_or s.task_queue [] in
      let parallel = select_parallel_tasks text_of queue in
      if ltb 1 (length parallel)
      then parallel_update (run_parallel (schedule w) queue parallel w)
      else single_update queue (find_highest_priority_todo queue) w
