-- ===== src/Reflection/Rules.antt =====
-- `_rule_evaluation`: what the results of the tools say of the queue, with no LLM. A read of the
-- directory of the project is `files`: `none` when there is no such directory.
use omni_forge.Base.{
  Bool, true, false, Option, none, some, String, str_eq, if◌then◌else◌, List, [], ◌∷◌, ◌++◌, ℕ,
  get_or, set, length, filter, any, find_if, enumerate, max_by, is_empty, not, ◌&&◌, ◌||◌,
}
use omni_forge.Base.Int.{ℤ}
use omni_forge.Base.Words.{contains_text}
use omni_forge.Values.{Value, str, get}
use omni_forge.Tasks.{Task, TaskStatus}
use omni_forge.Results.{ToolResultDict}
use omni_forge.Queue.{TaskQueue, apply_updates, status_text, get_task, has_todo, all_tasks, is_todo}
use omni_forge.Executor.Actions.{contains}
use omni_forge.Planner.Templates.Tables.{Template}
use omni_forge.Planner.Templates.{
  match_template, get_initial_tasks, extract_project_name, is_goal_completed,
}
use omni_forge.Reflection.{TaskUpdate, Decision}
use Prim.Native.String.{◌++◌ as text_append}

abbrev pub file_actions : List String
file_actions = "write_file" ∷ "create_file" ∷ "append_file" ∷ "edit_file" ∷ []

abbrev is_file_action : Option Value → Bool
is_file_action (some (str action)) = contains file_actions action
is_file_action _ = false

-- `t.input.get("action", "") in _WRITE_ACTIONS`
unfoldable pub creates_file : Task → Bool
unfolding get
creates_file t = is_file_action (get "action" t.input)

unfoldable pub has_file_creation : TaskQueue → Bool
unfolding creates_file all_tasks
has_file_creation q = any creates_file (all_tasks q)

abbrev or_else {ℓ} : {A : Type ℓ} → Option A → Option A → Option A
or_else none other = other
or_else (some a) other = some a

abbrev is_failed_status : TaskStatus → Bool
is_failed_status TaskStatus.failed = true
is_failed_status _ = false

abbrev is_done_status : TaskStatus → Bool
is_done_status TaskStatus.done = true
is_done_status _ = false

abbrev waits : TaskStatus → Bool
waits TaskStatus.todo = true
waits TaskStatus.running = true
waits _ = false

-- `_match_task_to_result`: by the id, else by the goal or title, else by a part of them in a task
-- that has run. A task that is consumed is passed over.
unfoldable pub match_task_to_result :
    TaskQueue → ToolResultDict → String → List String → Option Task
unfolding all_tasks
match_task_to_result q r task_name consumed =
    let candidates = filter (λ t. not (contains consumed t.task_id)) (all_tasks q) in
    let result_id = get_or r.task_id "" in
    let by_id = find_if (λ t. not (str_eq result_id "") && str_eq t.task_id result_id) candidates in
    let exact = find_if (λ t. str_eq task_name t.goal || str_eq task_name t.title) candidates in
    let partly =
      find_if
        (λ t.
          not (waits t.status)
          && (contains_text task_name t.goal || contains_text task_name t.title))
        candidates in
    or_else by_id (if str_eq task_name "" then none else or_else exact partly)

-- What the loop over the results has found so far.
pub record Tally : Type 0 where
  pub updates : List TaskUpdate
  pub consumed : List String
  pub all_ok : Bool
  pub has_failure : Bool

abbrev status_update : String → String → TaskUpdate
status_update task_id status = record { task_id = task_id; status = some status; priority = none }

abbrev tally_match : Bool → Option Task → Tally → Tally
tally_match success none tally = tally
tally_match success (some t) tally = record tally {
  updates = tally.updates ++ status_update t.task_id (if success then "DONE" else "FAILED") ∷ [];
  consumed = t.task_id ∷ tally.consumed;
  has_failure = tally.has_failure || not success;
}

unfoldable pub tally_result : TaskQueue → ToolResultDict → Tally → Tally
unfolding match_task_to_result
tally_result q r tally =
    let success = get_or r.success false in
    let name = get_or r.action (get_or r.goal "") in
    let matched = tally_match success (match_task_to_result q r name tally.consumed) tally in
    record matched { all_ok = matched.all_ok && success }

unfoldable pub tally_results : TaskQueue → List ToolResultDict → Tally → Tally
unfolding tally_result
tally_results q [] tally = tally
tally_results q (r ∷ rs) tally = tally_results q rs (tally_result q r tally)

-- `_all_project_tasks_done`
unfoldable pub all_project_tasks_done : TaskQueue → List ToolResultDict → Bool
unfolding has_todo has_file_creation
all_project_tasks_done q results =
    not (is_empty q || has_todo q)
    && not (any (λ t. is_failed_status t.status) q)
    && not (any (λ t. not (is_done_status t.status)) q)
    && not (is_empty results)
    && has_file_creation q
    && not (any (λ (r : ToolResultDict). not (get_or r.success false)) results)

abbrev write_at : TaskQueue → TaskUpdate → Option (ℕ × Task) → TaskQueue
write_at q u none = q
write_at q u (some (i, t)) = set q i (apply_updates (status_text (get_or u.status "") ∷ []) t)

abbrev placed_priority : ℕ × Task → ℤ
placed_priority e = e.1.priority

-- `temp_queue.update`: the temporary queue lists the task objects of the queue itself from the
-- highest priority down, so the first of an id there is the first of the highest priority here.
unfoldable pub update_listed : List TaskUpdate → TaskQueue → TaskQueue
unfolding apply_updates
update_listed [] q = q
update_listed (u ∷ us) q =
    let places = filter (λ e. str_eq e.1.task_id u.task_id) (enumerate 0 q) in
    let written = write_at q u (max_by placed_priority places) in
    update_listed us (if str_eq u.task_id "" then q else written)

module _ (now : String) (fresh : ℕ → String) (number : ℕ → String)
    (files : String → Option (List String)) where
  abbrev is_waiting : Option Task → Bool
  is_waiting none = false
  is_waiting (some t) = is_todo t

  -- A DONE task of the template whose task in the queue is TODO.
  abbrev confirmed : TaskQueue → List Task → List TaskUpdate
  confirmed q [] = []
  confirmed q (t ∷ ts) =
      let later = confirmed q ts in
      if is_done_status t.status && is_waiting (get_task t.task_id q)
      then status_update t.task_id "DONE" ∷ later
      else later

  abbrev scanned : String → TaskQueue → Option Template → Option (List String) → List TaskUpdate
  scanned goal q (some template) (some existing) =
      confirmed q (get_initial_tasks now fresh template goal existing)
  scanned goal q _ _ = []

  -- The tasks whose files are there already.
  unfoldable pub existing_updates : String → String → TaskQueue → List TaskUpdate
  unfolding get_task get_initial_tasks extract_project_name match_template
  existing_updates goal goal_type q =
      let project_name = extract_project_name goal in
      if str_eq project_name ""
      then []
      else scanned goal q (match_template goal goal_type) (files project_name)

  abbrev is_project_type : String → Bool
  is_project_type goal_type = str_eq goal_type "project" || str_eq goal_type "coding"

  -- The completion test, with the queue that it leaves.
  abbrev completion :
      String
      → TaskQueue
      → List ToolResultDict
      → List TaskUpdate
      → Option Template
      → Bool × TaskQueue
  completion goal_type q results updates (some template) =
      let q' = update_listed updates q in (is_goal_completed template (all_tasks q'), q')
  completion goal_type q results updates none =
      (if is_project_type goal_type then all_project_tasks_done q results else not (has_todo q), q)

  abbrev start : List ToolResultDict → Tally
  start results = record {
    updates = [];
    consumed = [];
    all_ok = not (is_empty results);
    has_failure = false;
  }

  -- The decision of the rules, with the queue in which `update` may have written statuses.
  unfoldable pub rule_evaluation : String → String → TaskQueue → List ToolResultDict → Decision
  unfolding tally_results existing_updates has_file_creation update_listed is_goal_completed
      all_tasks all_project_tasks_done has_todo match_template
  rule_evaluation goal goal_type q results =
      let tally = tally_results q results (start results) in
      let updates = tally.updates ++ existing_updates goal goal_type q in
      let completed = completion goal_type q results updates (match_template goal goal_type) in
      let (goal_completed, q') =
        if tally.all_ok && has_file_creation q then completed else (false, q) in
      let failed = is_empty results && any (λ t. is_failed_status t.status) q' in
      (
        record {
          goal_completed = goal_completed;
          task_updates = updates;
          new_tasks = [];
          remove_tasks = [];
          need_replan = tally.has_failure || failed;
          reason = text_append (number (length updates)) " 个任务已更新";
        },
        q',
      )
