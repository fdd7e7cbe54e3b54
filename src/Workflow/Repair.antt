-- ===== src/Workflow/Repair.antt =====
-- `_repair_tool_task`: one pass of the LLM over the arguments of a failed tool call.
pub mod Once
use omni_forge.Base.{
  Bool, true, false, Option, none, some, String, str_eq, if◌then◌else◌, List, [], ◌∷◌, ℕ, get_or,
  not, ◌||◌, leb,
}
use omni_forge.Values.{Value, dict, Fields}
use omni_forge.Tasks.Serial.{TaskDict}
use omni_forge.Results.{Call, returned, raised, ToolResult, or_text?}
use omni_forge.Executor.Actions.{contains}

abbrev pub repairable_tools : List String
repairable_tools = "filesystem" ∷ "docx" ∷ "git" ∷ "database" ∷ "browser" ∷ "mcp" ∷ "composio" ∷ []

-- The setting, and the LLM: its answer to the prompt about a task and an error, as the dict under
-- "input" of the JSON in it, if there is one.
pub record Repairer (W : Type 0) : Type 0 where
  pub enabled : Bool
  pub ask : TaskDict → String → W → Call (Option Fields) × W

-- The early returns; `error` is the text of the failure.
unfoldable pub may_repair : Bool → TaskDict → ToolResult → Bool
may_repair enabled d r = not (
    not enabled
    || not (contains repairable_tools (get_or d.tool ""))
    || leb 1 (get_or d.repair_count 0)
    || r.success
    || str_eq (or_text? r.error r.message) "")

unfoldable pub repaired_task : TaskDict → Fields → TaskDict
repaired_task d input = record d { input = some (dict input); repair_count = some 1 }

module _ {W : Type 0} (repairer : Repairer W) where
  abbrev pub answered : TaskDict → Call (Option Fields) × W → Option TaskDict × W
  answered d (raised _, w) = (none, w)
  answered d (returned none, w) = (none, w)
  answered d (returned (some input), w) = (some (repaired_task d input), w)

  unfoldable pub repair_tool_task : TaskDict → ToolResult → W → Option TaskDict × W
  unfolding may_repair repaired_task
  repair_tool_task d r w =
      if may_repair repairer.enabled d r
      then answered d (repairer.ask d (or_text? r.error r.message) w)
      else (none, w)
