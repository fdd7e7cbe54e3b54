-- ===== src/Queue.antt =====
-- agentflow/agents/planner/task_queue.py: the prioritized queue of the planner. The object is its
-- `_tasks`; a method that mutates it returns the new list.
pub mod Reference
pub mod Laws
pub mod Order
pub mod Saved
use omni_forge.Base.{
  ◌≡◌, refl, Bool, true, false, Option, none, some, String, str_eq, if◌then◌else◌, List, [], ◌∷◌,
  ◌++◌, ℕ, suc, zero, map, get_elem?, set, filter, any, count_if, is_empty, max_by, is_some,
}
use omni_forge.Base.Int.{ℤ, ltb_ℤ}
use omni_forge.Base.Sort.{sort_into}
use omni_forge.Base.Text.{lower}
use omni_forge.Tasks.{Task, TaskStatus, todo, done, status_value, status_of}
use omni_forge.Tasks.Serial.{TaskDict, Loaded, to_dict, from_dict}

abbrev pub TaskQueue : Type 0
TaskQueue = List Task

abbrev is_todo_status : TaskStatus → Bool
is_todo_status todo = true
is_todo_status _ = false

abbrev is_done_status : TaskStatus → Bool
is_done_status done = true
is_done_status _ = false

-- `t.status == TaskStatus.TODO`
abbrev pub is_todo : Task → Bool
is_todo t = is_todo_status t.status

-- `t.status == TaskStatus.DONE`
abbrev pub is_done : Task → Bool
is_done t = is_done_status t.status

-- The loop of `_find_index`, the position at which it stands given.
abbrev find_from : ℕ → String → TaskQueue → Option ℕ
find_from i task_id [] = none
find_from i task_id (t ∷ rest) =
    if str_eq t.task_id task_id then some i else find_from (suc i) task_id rest

unfoldable pub find_index : String → TaskQueue → Option ℕ
find_index task_id q = find_from 0 task_id q

-- `self._tasks[idx]`, for an index that `_find_index` returned.
abbrev task_at : TaskQueue → Option ℕ → Option Task
task_at q none = none
task_at q (some idx) = get_elem? q idx

-- `get`
unfoldable pub get_task : String → TaskQueue → Option Task
unfolding find_index
get_task task_id q = task_at q (find_index task_id q)

-- One round of the loop of `add`: the task that is found is replaced unless it is DONE.
abbrev add_at : Task → TaskQueue → Option ℕ → Option Task → TaskQueue
add_at t q (some idx) (some old) = if is_done old then q else set q idx t
add_at t q _ _ = q ++ t ∷ []

unfoldable pub add_one : Task → TaskQueue → TaskQueue
unfolding find_index
add_one t q = add_at t q (find_index t.task_id q) (task_at q (find_index t.task_id q))

unfoldable pub add : List Task → TaskQueue → TaskQueue
unfolding add_one
add [] q = q
add (t ∷ ts) q = add ts (add_one t q)

abbrev pop : TaskQueue → ℕ → TaskQueue
pop [] i = []
pop (t ∷ rest) zero = rest
pop (t ∷ rest) (suc i) = t ∷ pop rest i

abbrev remove_at : TaskQueue → Option ℕ → TaskQueue × Bool
remove_at q none = (q, false)
remove_at q (some idx) = (pop q idx, true)

unfoldable pub remove : String → TaskQueue → TaskQueue × Bool
unfolding find_index
remove task_id q = remove_at q (find_index task_id q)

-- One keyword of `update`: a status that is a member, a text, or of another type; or another
-- attribute, as the write that `setattr` makes.
pub data Update : Type 0 where
  status_member : TaskStatus → Update
  status_text : String → Update
  status_other : Update
  attribute : (Task → Task) → Update

-- A text that names no status is logged and ignored.
abbrev pub parsed_status : Option TaskStatus → Task → Task
parsed_status none t = t
parsed_status (some s) t = record t { status = s }

unfoldable pub apply_update : Update → Task → Task
unfolding lower status_of
apply_update (status_member s) t = record t { status = s }
apply_update (status_text text) t = parsed_status (status_of (lower text)) t
apply_update status_other t = t
apply_update (attribute write) t = write t

unfoldable pub apply_updates : List Update → Task → Task
unfolding apply_update
apply_updates [] t = t
apply_updates (u ∷ us) t = apply_updates us (apply_update u t)

abbrev update_at : TaskQueue → List Update → Option ℕ → Option Task → TaskQueue × Bool
update_at q us (some idx) (some t) = (set q idx (apply_updates us t), true)
update_at q us _ _ = (q, false)

unfoldable pub update : String → List Update → TaskQueue → TaskQueue × Bool
unfolding find_index apply_updates
update task_id us q = update_at q us (find_index task_id q) (task_at q (find_index task_id q))

-- A criterion that is `None` or empty keeps every task.
abbrev criterion : Option String → (String → Task → Bool) → TaskQueue → TaskQueue
criterion none test q = q
criterion (some text) test q = if str_eq text "" then q else filter (test text) q

-- `filter(status=…, tool=…)`
unfoldable pub filter_tasks : Option String → Option String → TaskQueue → List Task
unfolding lower status_value
filter_tasks status tool q =
    criterion tool (λ text t. str_eq t.tool text)
      (criterion status (λ text t. str_eq (status_value t.status) (lower text)) q)

-- `t.priority`, the key of the selection and of the order
abbrev pub priority_of : Task → ℤ
priority_of t = t.priority

unfoldable pub get_next : TaskQueue → Option Task
unfolding filter_tasks
get_next q = max_by priority_of (filter_tasks (some "todo") none q)

unfoldable pub has_todo : TaskQueue → Bool
has_todo q = any is_todo q

unfoldable pub todo_count : TaskQueue → ℕ
todo_count q = count_if is_todo q

-- `all`
unfoldable pub all_tasks : TaskQueue → List Task
all_tasks q = sort_into priority_of [] q

unfoldable pub to_dict_list : TaskQueue → List TaskDict
to_dict_list q = map to_dict q

abbrev cons_loaded : Loaded Task → Loaded TaskQueue → Loaded TaskQueue
cons_loaded (Loaded.ok t) (Loaded.ok q) = Loaded.ok (t ∷ q)
cons_loaded (Loaded.ok t) failure = failure
cons_loaded Loaded.value_error rest = Loaded.value_error
cons_loaded Loaded.off_type rest = Loaded.off_type

-- The loop of `from_dict_list`: the first dict that cannot be read ends it. `fresh` gives the ids
-- that uuid4 makes, by position.
unfoldable pub load_from : (ℕ → String) → ℕ → List TaskDict → Loaded TaskQueue
unfolding from_dict
load_from fresh n [] = Loaded.ok []
load_from fresh n (d ∷ ds) = cons_loaded (from_dict (fresh n) d) (load_from fresh (suc n) ds)

unfoldable pub from_dict_list : (ℕ → String) → List TaskDict → Loaded TaskQueue
unfolding load_from
from_dict_list fresh ds = load_from fresh 0 ds
