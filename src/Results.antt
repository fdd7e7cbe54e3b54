-- ===== src/Results.antt =====
-- agentflow/tools/result.py: what every tool returns. A duration is counted in ten-thousandths of a
-- second, to which the code rounds it. Also what a call of Python code comes to.
use omni_forge.Base.{
  ◌≡◌, arith, Bool, true, false, Option, none, some, String, str_eq, if◌then◌else◌, ℕ,
}
use omni_forge.Values.{Value, null, bool, str, seconds, Fields, end, field, get, safe_value}
use Prim.Native.String.{◌++◌}

-- A call returns a value or raises an exception, of which the text is kept.
pub data Call {ℓ} (A : Type ℓ) : Type ℓ where
  returned : A → Call A
  raised : String → Call A

pub record ToolResult : Type 0 where
  pub success : Bool
  pub tool : String
  pub action : String
  pub result : Value
  pub message : String
  pub duration : ℕ
  pub error : Option String

-- `text or default`
abbrev pub or_text : String → String → String
or_text text default = if str_eq text "" then default else text

abbrev pub or_text? : Option String → String → String
or_text? none default = default
or_text? (some text) default = or_text text default

-- No time passes between the two readings of the clock in the constructor.
unfoldable pub ok : String → String → Value → String → ToolResult
ok tool action result message = record {
  success = true;
  tool = tool;
  action = action;
  result = result;
  message = or_text message (tool ++ "." ++ action ++ " succeeded");
  duration = 0;
  error = none;
}

unfoldable pub fail_result : String → String → String → ToolResult
fail_result tool action error = record {
  success = false;
  tool = tool;
  action = action;
  result = null;
  message = tool ++ "." ++ action ++ " failed: " ++ error;
  duration = 0;
  error = some error;
}

-- `to_dict`, as the keys and their values.
pub record ToolResultDict : Type 0 where
  pub success : Option Bool
  pub task_id : Option String
  pub tool : Option String
  pub action : Option String
  pub goal : Option String
  pub result : Option Value
  pub message : Option String
  pub duration : Option ℕ
  pub error : Option (Option String)

unfoldable pub result_to_dict : ToolResult → ToolResultDict
result_to_dict r = record {
  success = some r.success;
  task_id = none;
  tool = some r.tool;
  action = some r.action;
  goal = none;
  result = some (safe_value r.result);
  message = some r.message;
  duration = some r.duration;
  error = some r.error;
}

abbrev pub text_or_null : Option String → Value
text_or_null none = null
text_or_null (some s) = str s

-- `to_dict`, as the dict that is stored as the result of a task.
unfoldable pub result_fields : ToolResult → Fields
result_fields r = field "success" (bool r.success) (
    field "tool" (str r.tool) (
      field "action" (str r.action) (
        field "result" (safe_value r.result) (
          field "message" (str r.message)
            (field "duration" (seconds r.duration) (field "error" (text_or_null r.error) end))))))

-- `rd.get(key, default)` where the key holds a value of the type that is wanted.
abbrev bool_at : Option Value → Bool → Bool
bool_at (some (bool b)) default = b
bool_at _ default = default

abbrev text_at : Option Value → String → String
text_at (some (str s)) default = s
text_at _ default = default

abbrev seconds_at : Option Value → ℕ
seconds_at (some (seconds n)) = n
seconds_at _ = 0

abbrev error_at : Option Value → Option String
error_at (some (str s)) = some s
error_at _ = none

abbrev value_at : Option Value → Value
value_at none = null
value_at (some v) = v

-- The result that `Executor.execute_task_dict` reads back from the result of the task.
unfoldable pub read_result : String → String → Fields → ToolResult
unfolding get
read_result tool action rd = record {
  success = bool_at (get "success" rd) true;
  tool = text_at (get "tool" rd) tool;
  action = text_at (get "action" rd) action;
  result = value_at (get "result" rd);
  message = text_at (get "message" rd) "";
  duration = seconds_at (get "duration" rd);
  error = error_at (get "error" rd);
}

-- A result that is stored in a task and read back is the same, but for a payload that JSON cannot
-- hold.
read_result-result_fields :
    (tool action : String) (r : ToolResult)
    → read_result tool action (result_fields r) ≡ record r { result = safe_value r.result }
unfolding read_result result_fields
read_result-result_fields tool action r = ground arith
