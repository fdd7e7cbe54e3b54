-- ===== src/Executor/Dicts.antt =====
-- `Executor.execute_task_dict` and `execute_batch`: tasks that come as dicts.
pub mod Stops
use omni_forge.Base.{
  Bool, false, Option, none, some, String, str_eq, if◌then◌else◌, List, [], ◌∷◌, get_or, not, ◌&&◌,
}
use omni_forge.Base.Int.{pos}
use omni_forge.Values.{
  Value, null, int, str, list, dict, Items, nil, cons, Fields, end, field, get, put, without,
}
use omni_forge.Tasks.{Task, TaskStatus, is_finished}
use omni_forge.Tasks.Serial.{TaskDict}
use omni_forge.Results.{
  Call, returned, raised, ToolResult, or_text, or_text?, read_result, text_or_null,
}
use omni_forge.Events.{Context}
use omni_forge.Registry.{ToolRegistry, execute_task}
use omni_forge.Executor.{Runtime, execute}
use omni_forge.Executor.Actions.{translate_action}

abbrev text_items : List String → Items
text_items [] = nil
text_items (s ∷ ss) = cons (str s) (text_items ss)

abbrev dict_items : List Fields → Items
dict_items [] = nil
dict_items (d ∷ ds) = cons (dict d) (dict_items ds)

-- `key: value`, if the dict has the key
abbrev with {ℓ} : {A : Type ℓ} → String → (A → Value) → Option A → Fields → Fields
with key value none rest = rest
with key value (some a) rest = field key (value a) rest

-- All keys of a task dict without "input" but "tool", "action" and "goal". The order of keywords
-- plays no part.
abbrev other_keys : TaskDict → Fields
other_keys d = with "id" str d.id (
    with "task_id" str d.task_id (
      with "title" str d.title (
        with "priority" int d.priority (
          with "dependencies" (λ ss. list (text_items ss)) d.dependencies
            (with "capability" str d.capability (
              with "agent" str d.agent (
                with "status" str d.status (
                  with "parent_id" text_or_null d.parent_id (
                    with "steps" (λ ds. list (dict_items ds)) d.steps
                      (with "result" (λ v. v) d.result
                        (with "error" text_or_null d.error (
                          with "metadata" dict d.metadata (
                            with "created_at" str d.created_at (
                              with "updated_at" str d.updated_at (
                                with "_repair_count" (λ n. int (pos n)) d.repair_count
                                  d.extra)))))))))))))))

-- The "input" dict unwrapped, or another "input" as the keyword of that name.
abbrev unwrapped : Option Value → TaskDict → Fields
unwrapped none d = other_keys d
unwrapped (some (dict kwargs)) d = kwargs
unwrapped (some v) d = field "input" v end

unfoldable pub task_kwargs : String → TaskDict → Fields
task_kwargs action d =
    if str_eq action ""
    then unwrapped d.input d
    else put "action" (str action) (unwrapped d.input d)

unfoldable pub dict_action : TaskDict → String
dict_action d = translate_action (get_or d.action "")

-- The lightweight task; `now` is also its time of creation.
unfoldable pub light_task : String → String → TaskDict → Task
unfolding task_kwargs dict_action
light_task id now d = record {
  task_id = "";
  title = "";
  priority = pos 50;
  dependencies = [];
  goal = or_text (get_or d.goal "") (dict_action d);
  capability = "";
  agent = "executor";
  tool = get_or d.tool "";
  status = TaskStatus.todo;
  parent_id = none;
  input = task_kwargs (dict_action d) d;
  steps = [];
  result = null;
  error = none;
  metadata = end;
  id = id;
  created_at = now;
  updated_at = now;
}

abbrev failed_result : String → String → Option String → ToolResult
failed_result tool action error = record {
  success = false;
  tool = tool;
  action = action;
  result = null;
  message = "";
  duration = 0;
  error = some (or_text? error "Unknown error");
}

-- What is made of the executed task.
abbrev task_result : String → String → Task → Value → ToolResult
task_result tool action t (dict rd) =
    if is_finished t then read_result tool action rd else failed_result tool action t.error
task_result tool action t _ = failed_result tool action t.error

unfoldable pub result_of_task : TaskDict → Task → ToolResult
unfolding dict_action
result_of_task d t =
    task_result (get_or d.tool "") (or_text (dict_action d) (get_or d.goal "")) t t.result

abbrev text_keyword : Option Value → (Value → String) → String
text_keyword none text = ""
text_keyword (some (str s)) text = s
text_keyword (some v) text = text v

module _ {W : Type 0} (runtime : Runtime W) (registry : ToolRegistry W) where
  open runtime use {now, elapsed, text_of, shown, fresh_id}

  abbrev to_result : TaskDict → Call Task × Context × W → Call ToolResult × Context × W
  to_result d (raised text, ctx, w) = (raised text, ctx, w)
  to_result d (returned t, ctx, w) = (returned (result_of_task d t), ctx, w)

  -- `execute_task_dict` with a context
  unfoldable pub execute_task_dict : Context → TaskDict → W → Call ToolResult × Context × W
  unfolding result_of_task light_task
  execute_task_dict ctx d w =
      to_result d (execute runtime registry ctx (light_task (fresh_id w) (now w) d) w)

  -- `execute_task_dict` with no context: the keyword "action" is the action.
  unfoldable pub execute_task_dict_alone : TaskDict → W → Call ToolResult × W
  unfolding task_kwargs dict_action
  execute_task_dict_alone d w =
      let kwargs = task_kwargs (dict_action d) d in
      execute_task elapsed shown registry (get_or d.tool "")
        (text_keyword (get "action" kwargs) text_of) (without "action" kwargs) w

  abbrev pub cons_result :
      ToolResult → Call (List ToolResult) × Context × W → Call (List ToolResult) × Context × W
  cons_result r (raised text, ctx, w) = (raised text, ctx, w)
  cons_result r (returned rs, ctx, w) = (returned (r ∷ rs), ctx, w)

  -- One round of the loop of `execute_batch`; `rest` runs the other tasks.
  abbrev pub batch_round :
      Bool
      → (Context → W → Call (List ToolResult) × Context × W)
      → Call ToolResult × Context × W
      → Call (List ToolResult) × Context × W
  batch_round stop_on_failure rest (raised text, ctx, w) = (raised text, ctx, w)
  batch_round stop_on_failure rest (returned r, ctx, w) =
      if not r.success && stop_on_failure
      then (returned (r ∷ []), ctx, w)
      else cons_result r (rest ctx w)

  unfoldable pub execute_batch :
      Bool → List TaskDict → Context → W → Call (List ToolResult) × Context × W
  unfolding execute_task_dict
  execute_batch stop_on_failure [] ctx w = (returned [], ctx, w)
  execute_batch stop_on_failure (d ∷ ds) ctx w =
      batch_round stop_on_failure (execute_batch stop_on_failure ds) (execute_task_dict ctx d w)
