-- ===== src/Executor/Batch.antt =====
-- `execute_batch_parallel`: the order in which the thread pool gets to the tasks is a list of their
-- indices. Each task runs as one step.
pub mod Answers
use omni_forge.Base.{
  false, Option, none, some, String, List, [], ◌∷◌, ℕ, get_or, get_elem?, set, is_empty,
  if◌then◌else◌,
}
use omni_forge.Values.{null}
use omni_forge.Tasks.Serial.{TaskDict}
use omni_forge.Results.{Call, returned, raised, ToolResult}
use omni_forge.Events.{Context}
use omni_forge.Registry.{ToolRegistry}
use omni_forge.Executor.{Runtime}
use omni_forge.Executor.Dicts.{execute_task_dict}
use Prim.Native.String.{◌++◌ as text_append}

-- The result that `_run` makes of an exception.
unfoldable pub crashed : TaskDict → String → ToolResult
crashed d text = record {
  success = false;
  tool = get_or d.tool "?";
  action = get_or d.action (get_or d.goal "");
  result = null;
  message = text_append "Executor crashed: " text;
  duration = 0;
  error = some text;
}

abbrev pub empty_slots : List TaskDict → List (Option ToolResult)
empty_slots [] = []
empty_slots (d ∷ ds) = none ∷ empty_slots ds

-- `[r for r in indexed_results if r is not None]`
abbrev pub filled : List (Option ToolResult) → List ToolResult
filled [] = []
filled (none ∷ slots) = filled slots
filled (some r ∷ slots) = r ∷ filled slots

module _ {W : Type 0} (runtime : Runtime W) (registry : ToolRegistry W) where
  abbrev caught : TaskDict → Call ToolResult × Context × W → ToolResult × Context × W
  caught d (returned r, ctx, w) = (r, ctx, w)
  caught d (raised text, ctx, w) = (crashed d text, ctx, w)

  unfoldable pub run_caught : Context → TaskDict → W → ToolResult × Context × W
  unfolding execute_task_dict crashed
  run_caught ctx d w = caught d (execute_task_dict runtime registry ctx d w)

  abbrev pub Slots : Type 0
  Slots = List (Option ToolResult) × Context × W

  abbrev pub fill : ℕ → Option TaskDict → Slots → Slots
  fill i none out = out
  fill i (some d) (slots, ctx, w) =
      let (r, ctx', w') = run_caught ctx d w in (set slots i (some r), ctx', w')

  unfoldable pub run_scheduled : List ℕ → List TaskDict → Slots → Slots
  unfolding run_caught
  run_scheduled [] ds out = out
  run_scheduled (i ∷ schedule) ds out = run_scheduled schedule ds (fill i (get_elem? ds i) out)

  unfoldable pub execute_batch_parallel :
      List ℕ → List TaskDict → Context → W → List ToolResult × Context × W
  unfolding run_scheduled
  execute_batch_parallel schedule ds ctx w =
      let (slots, ctx', w') = run_scheduled schedule ds (empty_slots ds, ctx, w) in
      if is_empty ds then ([], ctx, w) else (filled slots, ctx', w')
