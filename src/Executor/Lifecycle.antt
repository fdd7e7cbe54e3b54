-- ===== src/Executor/Lifecycle.antt =====
-- What one run of `Executor.execute` does to the task and to the event log.
use omni_forge.Base.{
  ◌≡◌, refl, Bool, true, false, String, List, [], ◌∷◌, ◌++◌, map, is_some, sym, ap, ◌∙◌,
}
use omni_forge.Values.{Value, dict}
use omni_forge.Tasks.{Task, done, failed, complete, fail, mark_running, mark_ready}
use omni_forge.Results.{Call, returned, raised, ToolResult, or_text?, result_fields}
use omni_forge.Events.{
  Context, Event, EventType, task_created, task_started, task_finished, task_failed, tool_finished,
  emit_created, emit_started, emit_finished, emit_failed, emit_tool_finished, event_of,
}
use omni_forge.Registry.{ToolRegistry}
use omni_forge.Executor.{
  Runtime, execute, startable_status, finish_failed, settle, conclude, run_action, not_registered,
  run_started, registered,
}
use mathlib.Core.List.{append_assoc, append-nil}

abbrev types : List Event → List EventType
types es = map (λ e. e.type) es

-- How a run ends, with the types of the events that it adds after those of its start.
pub data Ending : Call Task → List EventType → Type 0 where
  finished : (t : Task) → t.status ≡ done → Ending (returned t) (tool_finished ∷ task_finished ∷ [])
  failing :
      (t : Task)
      → t.status ≡ failed
      → is_some t.error ≡ true
      → Ending (returned t) (task_failed ∷ [])
  raising : (text : String) → Ending (raised text) []

-- The outcome of a run that was given the context `ctx` and has logged `start` events so far.
pub record Logged {W : Type 0} (ctx : Context) (start : List EventType)
    (out : Call Task × Context × W) : Type 0 where
  pub added : List Event
  pub late : List EventType
  pub extends : out.1.events ≡ ctx.events ++ added
  pub typed : types added ≡ start ++ late
  pub ending : Ending out.0 late
  pub same_tasks : out.1.tasks ≡ ctx.tasks

module _ {W : Type 0} (runtime : Runtime W) (registry : ToolRegistry W) where
  open runtime use {now}

  -- A task that is not TODO, PENDING or READY is returned as it is, with no event.
  execute_skips :
      (ctx : Context) (t : Task) (w : W)
      → startable_status t.status ≡ false
      → execute runtime registry ctx t w ≡ (returned t, ctx, w)
  unfolding execute
  execute_skips ctx t w h = rw h

  finish_failed-Logged :
      (error : String) (t : Task) (ctx : Context) (w : W)
      → Logged ctx [] (finish_failed runtime registry error t ctx w)
  unfolding emit_failed event_of fail
  finish_failed-Logged error t ctx w = record {
    added = event_of task_failed (now w) (fail (now w) error t) _ ∷ [];
    late = task_failed ∷ [];
    extends = refl;
    typed = refl;
    ending = failing (fail (now w) error t) refl refl;
    same_tasks = refl;
  }

  succeed-Logged :
      (t : Task) (ctx : Context) (v : Value) (w : W)
      → let t' = complete (now w) v t in
        Logged ctx []
          (returned t', emit_finished (now w) t' (emit_tool_finished (now w) t' v ctx), w)
  unfolding emit_finished emit_tool_finished event_of complete
  succeed-Logged t ctx v w = record {
    added = _ ∷ _ ∷ [];
    late = tool_finished ∷ task_finished ∷ [];
    extends = append_assoc ctx.events _ _;
    typed = refl;
    ending = finished (complete (now w) v t) refl;
    same_tasks = refl;
  }

  settle-Logged :
      (success : Bool) (r : ToolResult) (t : Task) (ctx : Context) (w : W)
      → Logged ctx [] (settle runtime registry success r t ctx w)
  settle-Logged true r t ctx w = succeed-Logged t ctx (dict (result_fields r)) w
  settle-Logged false r t ctx w = finish_failed-Logged (or_text? r.error "Unknown error") t ctx w

  conclude-Logged :
      (t : Task) (ctx : Context) (answer : Call ToolResult × W)
      → Logged ctx [] (conclude runtime registry t ctx answer)
  conclude-Logged t ctx (raised text, w) = record {
    added = [];
    late = [];
    extends = sym (append-nil ctx.events);
    typed = refl;
    ending = raising text;
    same_tasks = refl;
  }
  conclude-Logged t ctx (returned r, w) = settle-Logged r.success r t ctx w

  run_action-Logged :
      (t : Task) (ctx : Context) (w : W) (action : Call String)
      → Logged ctx [] (run_action runtime registry t ctx w action)
  run_action-Logged t ctx w (raised text) = conclude-Logged t ctx (raised text, w)
  run_action-Logged t ctx w (returned action) = conclude-Logged t ctx _

  run_started-Logged :
      (known : Bool) (t : Task) (ctx : Context) (w : W)
      → Logged ctx [] (run_started runtime registry known t ctx w)
  run_started-Logged false t ctx w =
      finish_failed-Logged (not_registered runtime registry t) t ctx w
  run_started-Logged true t ctx w = run_action-Logged t ctx w _

  -- The two events of the start, in front of what follows.
  started-Logged :
      (t t' : Task) (ctx : Context) (w : W) (out : Call Task × Context × W)
      → Logged (emit_started (now w) t' (emit_created (now w) t ctx)) [] out
      → Logged ctx (task_created ∷ task_started ∷ []) out
  unfolding emit_started emit_created event_of
  started-Logged t t' ctx w out later = record {
    added = event_of task_created (now w) t _ ∷ event_of task_started (now w) t' _ ∷ later.added;
    late = later.late;
    extends =
        later.extends
        ∙ append_assoc (ctx.events ++ _ ∷ []) (_ ∷ []) later.added
        ∙ append_assoc ctx.events (_ ∷ []) (_ ∷ later.added);
    typed = ap (λ l. task_created ∷ task_started ∷ l) later.typed;
    ending = later.ending;
    same_tasks = later.same_tasks;
  }

  -- A run of a task that may start keeps every event logged before and adds `task.created` and
  -- `task.started`; then the task comes back DONE with `tool.finished` and `task.finished`, or
  -- FAILED with an error and `task.failed`, or an exception is raised with no further event.
  pub execute-Logged :
      (ctx : Context) (t : Task) (w : W)
      → startable_status t.status ≡ true
      → Logged ctx (task_created ∷ task_started ∷ []) (execute runtime registry ctx t w)
  unfolding execute
  execute-Logged ctx t w h =
      let t' = mark_running (now w) (mark_ready (now w) t) in
      rw h (started-Logged t t' ctx w _ (run_started-Logged (registered runtime registry t) t' _ w))
