-- ===== src/Tasks/Serial.antt =====
-- `Task.to_dict` and `Task.from_dict`. A task as a dict is a record of optional keys: `none` is a
-- missing key, and a key that is there holds a value of its declared type, but for `input`, which
-- the code tests with isinstance. Keys that no code names are in `extra`.
use omni_forge.Base.{◌≡◌, refl, ℕ, Option, none, some, String, List, [], get_or}
use omni_forge.Base.Int.{ℤ, pos}
use omni_forge.Values.{Value, null, dict, Fields, end, safe_value}
use omni_forge.Tasks.{Task, TaskStatus, todo, status_value, status_of}

pub record TaskDict : Type 0 where
  pub id : Option String
  pub task_id : Option String
  pub title : Option String
  pub priority : Option ℤ
  pub dependencies : Option (List String)
  pub goal : Option String
  pub capability : Option String
  pub agent : Option String
  pub tool : Option String
  pub action : Option String
  pub status : Option String
  pub parent_id : Option (Option String)
  pub input : Option Value
  pub steps : Option (List Fields)
  pub result : Option Value
  pub error : Option (Option String)
  pub metadata : Option Fields
  pub created_at : Option String
  pub updated_at : Option String
  pub repair_count : Option ℕ
  pub extra : Fields

unfoldable pub to_dict : Task → TaskDict
to_dict t = record {
  id = some t.id;
  task_id = some t.task_id;
  title = some t.title;
  priority = some t.priority;
  dependencies = some t.dependencies;
  goal = some t.goal;
  capability = some t.capability;
  agent = some t.agent;
  tool = some t.tool;
  action = none;
  status = some (status_value t.status);
  parent_id = some t.parent_id;
  input = some (dict t.input);
  steps = some t.steps;
  result = some (safe_value t.result);
  error = some t.error;
  metadata = some t.metadata;
  created_at = some t.created_at;
  updated_at = some t.updated_at;
  repair_count = none;
  extra = end;
}

-- What `from_dict` does: it makes a task, raises ValueError on an unknown status, or stores an
-- `input` that is no dict, which `Task` cannot hold.
pub data Loaded {ℓ} (A : Type ℓ) : Type ℓ where
  ok : A → Loaded A
  value_error : Loaded A
  off_type : Loaded A

abbrev loaded_input : Option Value → Loaded Fields
loaded_input none = ok end
loaded_input (some (dict d)) = ok d
loaded_input (some _) = off_type

-- `fresh` is the id that uuid4 gives when the dict has none.
abbrev build : String → TaskDict → TaskStatus → Loaded Fields → Loaded Task
build fresh d status value_error = value_error
build fresh d status off_type = off_type
build fresh d status (ok input) = ok (record {
  task_id = get_or d.task_id "";
  title = get_or d.title "";
  priority = get_or d.priority (pos 50);
  dependencies = get_or d.dependencies [];
  goal = get_or d.goal "";
  capability = get_or d.capability "";
  agent = get_or d.agent "";
  tool = get_or d.tool "";
  status = status;
  parent_id = get_or d.parent_id none;
  input = input;
  steps = get_or d.steps [];
  result = get_or d.result null;
  error = get_or d.error none;
  metadata = get_or d.metadata end;
  id = get_or d.id fresh;
  created_at = get_or d.created_at "";
  updated_at = get_or d.updated_at "";
})

abbrev with_status : String → TaskDict → Option TaskStatus → Loaded Task
with_status fresh d none = value_error
with_status fresh d (some status) = build fresh d status (loaded_input d.input)

unfoldable pub from_dict : String → TaskDict → Loaded Task
unfolding status_of
from_dict fresh d = with_status fresh d (status_of (get_or d.status "todo"))

pub status_of-status_value : (s : TaskStatus) → status_of (status_value s) ≡ some s
unfolding status_of status_value
status_of-status_value todo = refl
status_of-status_value _ = refl

-- `from_dict` restores what `to_dict` wrote, whatever its status and with no fresh id, except that
-- a result which JSON cannot hold comes back as its text.
pub from_dict-to_dict :
    (fresh : String) (t : Task)
    → from_dict fresh (to_dict t) ≡ ok (record t { result = safe_value t.result })
unfolding from_dict to_dict
from_dict-to_dict fresh t = rw (status_of-status_value t.status)
