-- ===== src/Workflow/ToolNode/Progress.antt =====
-- What one task run by the tool executor node leaves in the queue.
use omni_forge.Base.{
  ◌≡◌, refl, Bool, true, false, Option, some, String, if◌then◌else◌, List, [], ◌∷◌, ℕ, suc, ◌⊎◌,
  inl, inr, get_or, get_elem?, set, length, count_if, count_if-set, length-set, get_elem?-set_self,
  get_elem?-set_ne, lt_of_get_elem?, ltb, ◌≢◌, is_some,
}
use omni_forge.Tasks.Serial.{TaskDict}
use omni_forge.Results.{Call, returned, raised, ToolResult, ToolResultDict}
use omni_forge.Registry.{ToolRegistry}
use omni_forge.Executor.{Runtime}
use omni_forge.Workflow.State.{WorkflowState, empty_state}
use omni_forge.Workflow.Select.{
  is_todo, find_highest_priority_todo, find_highest_priority_todo-IsBest,
}
use omni_forge.Workflow.Parallel.{select_parallel_tasks}
use omni_forge.Workflow.Repair.{Repairer}
use omni_forge.Workflow.ToolNode.{
  as_running, as_failed, settled, run_single, finish_single, tool_executor_node, Outcome,
}

-- A task that has been run: "done", or "failed" with a text of the error.
abbrev pub IsSettled : TaskDict → Type 0
IsSettled d = (d.status ≡ some "done") ⊎ (d.status ≡ some "failed") × (is_some d.error ≡ true)

-- The task at position `i` of `queue` is settled in the outcome, the others are what they were,
-- and there is one entry of "tool_results".
pub record RanAt (queue : List TaskDict) (i : ℕ) (out : Outcome) : Type 0 where
  pub ran : TaskDict
  pub placed : get_elem? out.0 i ≡ some ran
  pub is_settled : IsSettled ran
  pub others : (j : ℕ) → i ≢ j → get_elem? out.0 j ≡ get_elem? queue j
  pub same_length : length out.0 ≡ length queue
  pub fewer_todo : count_if is_todo queue ≡ suc (count_if is_todo out.0)
  pub one_result : length out.1 ≡ 1

settled-not_todo : (d : TaskDict) → IsSettled d → is_todo d ≡ false
settled-not_todo d (inl h) = rw h refl
settled-not_todo d (inr h) = rw h.0 refl

gated :
    (b : Bool) (error : Option String) (d : TaskDict)
    → is_some error ≡ true
    → IsSettled (if b then record d { status = some "done" } else as_failed error d)
gated true error d h = inl refl
gated false error d h = inr (refl, refl)

settled-IsSettled : (r : ToolResult) (d : TaskDict) → IsSettled (settled r d)
settled-IsSettled r d = gated r.success _ d refl

placed-RanAt :
    (queue : List TaskDict) (i : ℕ) {d : TaskDict} (new : TaskDict) (entry : ToolResultDict)
    → get_elem? queue i ≡ some d
    → is_todo d ≡ true
    → IsSettled new
    → RanAt queue i (set queue i new, entry ∷ [])
placed-RanAt queue i new entry h t s = record {
  ran = new;
  placed = get_elem?-set_self queue i new (lt_of_get_elem? queue i h);
  is_settled = s;
  others = λ j ne. get_elem?-set_ne queue i j new ne;
  same_length = length-set queue i new;
  fewer_todo = count_if-set is_todo queue i new h t (settled-not_todo new s);
  one_result = refl;
}

module _ {W : Type 0} (runtime : Runtime W) (registry : ToolRegistry W)
    (repairer : Repairer W) where
  open runtime use {text_of}

  finish_single-RanAt :
      (queue : List TaskDict) (i : ℕ) {d : TaskDict} (d' : TaskDict) (answer : Call ToolResult × W)
      → get_elem? queue i ≡ some d
      → is_todo d ≡ true
      → RanAt queue i (finish_single runtime registry repairer queue i d' answer).0
  finish_single-RanAt queue i d' (returned r, w) h t =
      placed-RanAt queue i _ _ h t (settled-IsSettled r d')
  finish_single-RanAt queue i d' (raised text, w) h t =
      placed-RanAt queue i _ _ h t (inr (refl, refl))

  -- Running the TODO task at a position settles it, whether the tool succeeds, fails, is repaired
  -- or raises: one TODO task less, every other task as it was, one result.
  pub run_single-RanAt :
      (queue : List TaskDict) (i : ℕ) {d : TaskDict} (w : W)
      → get_elem? queue i ≡ some d
      → is_todo d ≡ true
      → RanAt queue i (run_single runtime registry repairer queue i d w).0
  unfolding run_single
  run_single-RanAt queue i {d} w h t = finish_single-RanAt queue i (as_running d) _ h t

  -- When no batch of tasks may run together and some task is TODO, the node returns, and it returns
  -- the queue in which one task is settled, of the highest priority among the TODO tasks.
  pub tool_executor_node-RanAt :
      (schedule : W → List ℕ) (s : WorkflowState) (w : W) {i : ℕ} {d : TaskDict}
      → let queue = get_or s.task_queue [] in
        ltb 1 (length (select_parallel_tasks text_of queue)) ≡ false
        → find_highest_priority_todo queue ≡ some (i, d)
        → (out : Outcome) × (w' : W) × RanAt queue i out
          × (tool_executor_node runtime registry repairer schedule s w ≡ (
            returned (record empty_state { task_queue = some out.0; tool_results = some out.1 }),
            w',
          ))
  unfolding tool_executor_node
  tool_executor_node-RanAt schedule s w {i} {d} alone found =
      let queue = get_or s.task_queue [] in
      let best = find_highest_priority_todo-IsBest queue found in
      let ran = run_single runtime registry repairer queue i d w in
      (ran.0, ran.1, run_single-RanAt queue i w best.0 best.1, rw (alone, found) refl)
