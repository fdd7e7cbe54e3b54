-- ===== src/Executor.antt =====
-- agentflow/graph/executor.py: one task through its lifecycle. The context and the outside world
-- are passed along; a raised exception leaves the context as it was at that point.
pub mod Actions
pub mod Dicts
pub mod Batch
pub mod Lifecycle
use omni_forge.Base.{
  ◌≡◌, refl, Bool, true, false, Option, none, some, String, str_eq, if◌then◌else◌, List, [], ◌∷◌,
  ◌++◌, ℕ, get_or, not,
}
use omni_forge.Base.Int.{ℤ, pos}
use omni_forge.Values.{
  Value, null, bool, int, float, seconds, str, list, dict, opaque, Items, nil, cons, Fields, end,
  field, get, put, without, truthy,
}
use omni_forge.Tasks.{
  Task, TaskStatus, todo, pending, ready, mark_ready, mark_running, complete, fail, is_finished,
}
use omni_forge.Tasks.Serial.{TaskDict}
use omni_forge.Results.{
  Call, returned, raised, ToolResult, or_text, or_text?, result_fields, read_result, text_or_null,
}
use omni_forge.Events.{
  Context, emit_created, emit_started, emit_finished, emit_failed, emit_tool_finished,
}
use omni_forge.Registry.{ToolRegistry, get_tool, list_tools, execute_task}
use omni_forge.Executor.Actions.{translate_action}
use Prim.Native.String.{◌++◌ as text_append}

abbrev pub startable_status : TaskStatus → Bool
startable_status todo = true
startable_status pending = true
startable_status ready = true
startable_status _ = false

-- `inputs.pop("action", None) or task.goal`. A number or object passes on as its text; a list or
-- dict cannot be looked up in a frozenset, which is a TypeError.
abbrev chosen_action : Option Value → (Value → String) → String → Call String
chosen_action none text goal = returned goal
chosen_action (some (str s)) text goal = returned (or_text s goal)
chosen_action (some (list (cons _ _))) text goal = raised "TypeError: unhashable type: 'list'"
chosen_action (some (dict (field _ _ _))) text goal = raised "TypeError: unhashable type: 'dict'"
chosen_action (some v) text goal = returned (if truthy v then text v else goal)

-- What the code calls of Python: the clock, the texts of values and of lists of names, and uuid4.
pub record Runtime (W : Type 0) : Type 0 where
  pub now : W → String
  pub elapsed : W → W → ℕ
  pub text_of : Value → String
  pub shown : List String → String
  pub fresh_id : W → String

module _ {W : Type 0} (runtime : Runtime W) (registry : ToolRegistry W) where
  open runtime use {now, elapsed, text_of, shown, fresh_id}

  abbrev finish_failed : String → Task → Context → W → Call Task × Context × W
  finish_failed error t ctx w =
      let t' = fail (now w) error t in (returned t', emit_failed (now w) t' ctx, w)

  -- The two branches on the success of the result.
  abbrev settle : Bool → ToolResult → Task → Context → W → Call Task × Context × W
  settle true r t ctx w =
      let payload = dict (result_fields r) in
      let t' = complete (now w) payload t in
      (returned t', emit_finished (now w) t' (emit_tool_finished (now w) t' payload ctx), w)
  settle false r t ctx w = finish_failed (or_text? r.error "Unknown error") t ctx w

  -- The end of `execute`, when the registry has answered.
  abbrev conclude : Task → Context → Call ToolResult × W → Call Task × Context × W
  conclude t ctx (raised text, w) = (raised text, ctx, w)
  conclude t ctx (returned r, w) = settle r.success r t ctx w

  abbrev run_action : Task → Context → W → Call String → Call Task × Context × W
  run_action t ctx w (raised text) = (raised text, ctx, w)
  run_action t ctx w (returned action) = conclude t ctx (
      execute_task elapsed shown registry t.tool (translate_action action)
        (without "action" t.input) w)

  abbrev not_registered : Task → String
  not_registered t =
      text_append "No tool registered for '"
        (text_append t.tool (text_append "'.  Available: " (shown (list_tools registry))))

  abbrev run_started : Bool → Task → Context → W → Call Task × Context × W
  run_started false t ctx w = finish_failed (not_registered t) t ctx w
  run_started true t ctx w =
      run_action t ctx w (chosen_action (get "action" t.input) text_of t.goal)

  abbrev registered : Task → Bool
  registered t = elim (get_tool t.tool registry) [ none ↦ false | some _ ↦ true ]

  -- `Executor.execute`
  unfoldable pub execute : Context → Task → W → Call Task × Context × W
  execute ctx task w =
      let started = mark_running (now w) (mark_ready (now w) task) in
      if startable_status task.status
      then run_started (registered task) started
          (emit_started (now w) started (emit_created (now w) task ctx)) w
      else (returned task, ctx, w)
