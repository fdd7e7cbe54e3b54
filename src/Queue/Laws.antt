-- ===== src/Queue/Laws.antt =====
-- What `get`, `add`, `remove` and `update` of the task queue mean to one another.
use omni_forge.Base.{
  ◌≡◌, true, none, some, String, str_eq, eq_iff, if◌then◌else◌, List, [], ◌∷◌, Bool-cases, inl, inr,
  sym, ◌∙◌, subst,
}
use omni_forge.Base.Keyed.{
  mapped, kept, IsDistinct, lookup-insert, lookup-modify, lookup-delete, insert-IsDistinct,
  delete-IsDistinct, modify-IsDistinct,
}
use omni_forge.Tasks.{Task}
use omni_forge.Queue.{
  TaskQueue, get_task, add_one, add, remove, update, is_done, Update, apply_updates,
}
use omni_forge.Queue.Reference.{ident, get_task_lem, add_one_lem, remove_lem, update_lem}

-- After adding a task, its id yields the task that was stored if that is DONE, and else the new
-- one; every other id yields what it did before.
pub get_task-add_one :
    (t : Task) (id : String) (q : TaskQueue)
    → get_task id (add_one t q) ≡ (
        if str_eq t.task_id id
        then some (kept ident is_done (get_task t.task_id q) t)
        else get_task id q)
get_task-add_one t id q = simp (get_task_lem, add_one_lem) (lookup-insert ident is_done t id q)

-- The step of the next theorem, with the two tasks' other fields out of sight.
stays :
    (t old : Task) (id : String) (q : TaskQueue)
    → get_task id q ≡ some old
    → is_done old ≡ true
    → get_task id (add_one t q) ≡ some old
stays t old id q h d = elim (Bool-cases (str_eq t.task_id id)) [
  | inl e ↦ get_task-add_one t id q ∙ rw e (rw ((eq_iff t.task_id id).0 e) (rw h (rw d)))
  | inr e ↦ get_task-add_one t id q ∙ rw e h
]

-- A DONE task is never replaced, whatever tasks are added later.
pub get_task-add_done :
    (ts : List Task) (q : TaskQueue) (id : String) (old : Task)
    → get_task id q ≡ some old
    → is_done old ≡ true
    → get_task id (add ts q) ≡ some old
unfolding add
get_task-add_done [] q id old h d = h
get_task-add_done (t ∷ ts) q id old h d =
    get_task-add_done ts (add_one t q) id old (stays t old id q h d) d

abbrev pub IsUnique : TaskQueue → Type 0
IsUnique = IsDistinct ident

-- Adding tasks keeps one task to an id.
pub add-IsUnique : (ts : List Task) (q : TaskQueue) → IsUnique q → IsUnique (add ts q)
unfolding add
add-IsUnique [] q h = h
add-IsUnique (t ∷ ts) q h =
    add-IsUnique ts (add_one t q)
      (subst IsUnique (sym (add_one_lem t q)) (insert-IsDistinct ident is_done t q h))

pub remove-IsUnique : (id : String) (q : TaskQueue) → IsUnique q → IsUnique (remove id q).0
remove-IsUnique id q h = subst IsUnique (sym (remove_lem id q)) (delete-IsDistinct ident id q h)

-- An update that writes no `task_id`.
abbrev pub KeepsId : List Update → Type 0
KeepsId us = (t : Task) → (apply_updates us t).task_id ≡ t.task_id

pub update-IsUnique :
    (id : String) (us : List Update) (q : TaskQueue)
    → KeepsId us
    → IsUnique q
    → IsUnique (update id us q).0
update-IsUnique id us q same h =
    subst IsUnique (sym (update_lem id us q))
      (modify-IsDistinct ident id (apply_updates us) q same h)

-- In a queue with one task to an id, a removed id is gone and every other id yields what it did.
pub get_task-remove :
    (id other : String) (q : TaskQueue)
    → IsUnique q
    → get_task other (remove id q).0 ≡ (if str_eq id other then none else get_task other q)
get_task-remove id other q h = simp (get_task_lem, remove_lem) (lookup-delete ident id other q h)

-- Updates reach the task of that id and no other.
pub get_task-update :
    (id other : String) (us : List Update) (q : TaskQueue)
    → KeepsId us
    → get_task other (update id us q).0
      ≡ (if str_eq id other then mapped (apply_updates us) (get_task id q) else get_task other q)
get_task-update id other us q same =
    simp (get_task_lem, update_lem) (lookup-modify ident id (apply_updates us) other q same)
