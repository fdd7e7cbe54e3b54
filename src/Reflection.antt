-- ===== src/Reflection.antt =====
-- agentflow/agents/reflection/agent.py and schemas.py: what the reflector decides about the queue,
-- how the decision is applied, and the verdict that it leaves in the state.
pub mod Frame
pub mod Rules
pub mod Fallback
pub mod Run
pub mod Verdict
use omni_forge.Base.{
  Bool, true, false, Option, none, some, String, str_eq, if◌then◌else◌, List, [], ◌∷◌, ◌++◌, ℕ, suc,
  ◌+◌, get_or, is_some, is_empty, not, ◌&&◌, ◌||◌,
}
use omni_forge.Base.Int.{ℤ}
use omni_forge.Values.{Value, null, str, Fields, end, get, truthy}
use omni_forge.Tasks.{Task, TaskStatus}
use omni_forge.Queue.{
  TaskQueue, Update, status_text, attribute, get_task, add, remove, update, has_todo, to_dict_list,
}
use omni_forge.Workflow.State.{WorkflowState}

-- The schemas, after validation: each key is there.
pub record TaskUpdate : Type 0 where
  pub task_id : String
  pub status : Option String
  pub priority : Option ℤ

pub record NewTask : Type 0 where
  pub task_id : String
  pub title : String
  pub priority : ℤ
  pub tool : String
  pub input : Fields

pub record ReflectionOutput : Type 0 where
  pub goal_completed : Bool
  pub task_updates : List TaskUpdate
  pub new_tasks : List NewTask
  pub remove_tasks : List String
  pub need_replan : Bool
  pub reason : String

abbrev pub status_keyword : Option String → List Update
status_keyword none = []
status_keyword (some text) = if str_eq text "" then [] else status_text text ∷ []

abbrev pub write_priority : ℤ → Task → Task
write_priority p t = record t { priority = p }

abbrev pub priority_keyword : Option ℤ → List Update
priority_keyword none = []
priority_keyword (some p) = attribute (write_priority p) ∷ []

-- The keywords of the call of `queue.update`, in their order.
abbrev pub keywords : TaskUpdate → List Update
keywords u = status_keyword u.status ++ priority_keyword u.priority

unfoldable pub apply_task_update : TaskUpdate → TaskQueue → TaskQueue
unfolding update
apply_task_update u q =
    if str_eq u.task_id "" || is_empty (keywords u) then q else (update u.task_id (keywords u) q).0

unfoldable pub apply_task_updates : List TaskUpdate → TaskQueue → TaskQueue
unfolding apply_task_update
apply_task_updates [] q = q
apply_task_updates (u ∷ us) q = apply_task_updates us (apply_task_update u q)

-- `action in ("write_file", "create_file")`
abbrev writes_file : Option Value → Bool
writes_file (some (str action)) = str_eq action "write_file" || str_eq action "create_file"
writes_file _ = false

abbrev is_filled : Option Value → Bool
is_filled none = false
is_filled (some v) = truthy v

-- A file is to be written, and its content is missing.
unfoldable pub lacks_content : NewTask → Bool
unfolding get
lacks_content cfg =
    str_eq cfg.tool "filesystem"
    && writes_file (get "action" cfg.input)
    && not (is_filled (get "content" cfg.input))

module _ (now : String) (fresh : ℕ → String) where
  -- `fresh n` is the `uuid4` of the n-th new task.
  unfoldable pub new_task : ℕ → NewTask → Task
  new_task n cfg = record {
    task_id = cfg.task_id;
    title = cfg.title;
    priority = cfg.priority;
    dependencies = [];
    goal = cfg.title;
    capability = "";
    agent = "";
    tool = cfg.tool;
    status = TaskStatus.todo;
    parent_id = none;
    input = cfg.input;
    steps = [];
    result = null;
    error = none;
    metadata = end;
    id = fresh n;
    created_at = now;
    updated_at = now;
  }

  unfoldable pub add_new_task : ℕ → NewTask → TaskQueue → TaskQueue
  unfolding new_task lacks_content add get_task
  add_new_task n cfg q =
      if str_eq cfg.task_id "" || is_some (get_task cfg.task_id q) || lacks_content cfg
      then q
      else add (new_task n cfg ∷ []) q

  unfoldable pub add_new_tasks : ℕ → List NewTask → TaskQueue → TaskQueue
  unfolding add_new_task
  add_new_tasks n [] q = q
  add_new_tasks n (cfg ∷ cfgs) q = add_new_tasks (suc n) cfgs (add_new_task n cfg q)

  unfoldable pub remove_all : List String → TaskQueue → TaskQueue
  unfolding remove
  remove_all [] q = q
  remove_all (id ∷ ids) q = remove_all ids (remove id q).0

  -- `_apply_reflection`
  unfoldable pub apply_reflection : ReflectionOutput → TaskQueue → TaskQueue
  unfolding apply_task_updates add_new_tasks remove_all
  apply_reflection r q =
      remove_all r.remove_tasks (add_new_tasks 0 r.new_tasks (apply_task_updates r.task_updates q))

-- A decision, with the queue that the evaluation leaves.
abbrev pub Decision : Type 0
Decision = ReflectionOutput × TaskQueue

-- `_evaluate`: the rules decide, or `ask` (the LLM) when they see a failure or a queue that is
-- stuck.
unfoldable pub evaluate : Bool → (TaskQueue → Decision) → Decision → Decision
unfolding has_todo
evaluate degraded ask (rule, q) =
    let has_failure = rule.need_replan in
    let all_done = rule.goal_completed in
    let stuck = not (has_todo q) && not all_done in
    if degraded
    then (rule, q)
    else if all_done && not has_failure
    then (rule, q)
    else if has_failure || stuck
    then ask q
    else (rule, q)

-- The end of `run`: the queue and the verdict go into the state. `_reflection_output`, which no
-- router reads, is left out.
unfoldable pub conclude : ReflectionOutput → TaskQueue → WorkflowState → WorkflowState
unfolding to_dict_list
conclude r q s =
    let s' = record s { task_queue = some (to_dict_list q); reflection_message = some r.reason } in
    if r.goal_completed
    then record s' { reflection_result = some "done" }
    else if r.need_replan
    then record s' {
      replan_count = some (get_or s.replan_count 0 + 1);
      reflection_result = some "replan";
    }
    else record s' { reflection_result = some "next" }
