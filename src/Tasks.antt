-- ===== src/Tasks.antt =====
-- agentflow/graph/task.py: a unit of work, its lifecycle methods and its dict form.
-- A method that mutates the task returns the new record. `now` is the text of the clock.
pub mod Serial
use omni_forge.Base.{
  ◌≡◌, Bool, true, false, Option, none, some, String, str_eq, if◌then◌else◌, List, [], ◌∷◌,
}
use omni_forge.Base.Int.{ℤ}
use omni_forge.Values.{Value, null, str, Fields, put}

pub data TaskStatus : Type 0 where
  todo running done failed blocked skipped : TaskStatus
  pending ready waiting retrying completed cancelled : TaskStatus

-- `status.value`
unfoldable pub status_value : TaskStatus → String
status_value todo = "todo"
status_value running = "running"
status_value done = "done"
status_value failed = "failed"
status_value blocked = "blocked"
status_value skipped = "skipped"
status_value pending = "pending"
status_value ready = "ready"
status_value waiting = "waiting"
status_value retrying = "retrying"
status_value completed = "completed"
status_value cancelled = "cancelled"

abbrev members : List TaskStatus
members =
    todo ∷ running ∷ done ∷ failed ∷ blocked ∷ skipped ∷ pending ∷ ready ∷ waiting ∷ retrying
    ∷ completed ∷ cancelled ∷ []

find_member : String → List TaskStatus → Option TaskStatus
unfolding status_value
find_member text [] = none
find_member text (s ∷ more) = if str_eq (status_value s) text then some s else find_member text more

-- `TaskStatus(text)`; `none` is the ValueError.
unfoldable pub status_of : String → Option TaskStatus
unfolding find_member
status_of text = find_member text members

pub record Task : Type 0 where
  pub task_id : String
  pub title : String
  pub priority : ℤ
  pub dependencies : List String
  pub goal : String
  pub capability : String
  pub agent : String
  pub tool : String
  pub status : TaskStatus
  pub parent_id : Option String
  pub input : Fields
  pub steps : List Fields
  pub result : Value
  pub error : Option String
  pub metadata : Fields
  pub id : String
  pub created_at : String
  pub updated_at : String

unfoldable pub mark_ready : String → Task → Task
mark_ready now t = record t { status = ready; updated_at = now }

unfoldable pub mark_running : String → Task → Task
mark_running now t = record t { status = running; updated_at = now }

-- A result of `None` keeps the one that is stored.
abbrev pub stored_result : Value → Value → Value
stored_result null old = old
stored_result new old = new

unfoldable pub complete : String → Value → Task → Task
complete now result t = record t {
  status = done;
  result = stored_result result t.result;
  updated_at = now;
}

unfoldable pub fail : String → String → Task → Task
fail now error t = record t { status = failed; error = some error; updated_at = now }

-- The text is stored unless it is `None` or empty.
abbrev pub noted : String → Option String → Fields → Fields
noted key none metadata = metadata
noted key (some text) metadata = if str_eq text "" then metadata else put key (str text) metadata

unfoldable pub skip : String → Option String → Task → Task
skip now reason t = record t {
  status = skipped;
  metadata = noted "skip_reason" reason t.metadata;
  updated_at = now;
}

unfoldable pub cancel : String → Option String → Task → Task
cancel now reason t = record t {
  status = cancelled;
  metadata = noted "cancel_reason" reason t.metadata;
  updated_at = now;
}

abbrev pub terminal_status : TaskStatus → Bool
terminal_status done = true
terminal_status completed = true
terminal_status failed = true
terminal_status cancelled = true
terminal_status skipped = true
terminal_status _ = false

unfoldable pub is_terminal : Task → Bool
is_terminal t = terminal_status t.status

abbrev pub finished_status : TaskStatus → Bool
finished_status completed = true
finished_status done = true
finished_status _ = false

unfoldable pub is_finished : Task → Bool
is_finished t = finished_status t.status
