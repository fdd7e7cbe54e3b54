-- ===== src/Reflection/Frame.antt =====
-- What applying a reflection to the queue leaves alone.
use omni_forge.Base.{
  true_false, ◌≡◌, refl, sym, ◌∙◌, Bool, false, Option, none, some, String, str_eq, eq_iff, List,
  [], ◌∷◌, ℕ, suc, Bool-cases, inl, inr, All, All-append, is_some, if_both, ◌||◌, ap, arith,
}
use omni_forge.Base.Int.{ℤ}
use omni_forge.Tasks.{Task, TaskStatus}
use omni_forge.Queue.{
  TaskQueue, Update, status_text, attribute, apply_update, apply_updates, get_task, add,
  parsed_status,
}
use omni_forge.Queue.Laws.{
  IsUnique, KeepsId, get_task-add_one, get_task-remove, get_task-update, add-IsUnique,
  remove-IsUnique, update-IsUnique,
}
use omni_forge.Reflection.{
  TaskUpdate, NewTask, ReflectionOutput, keywords, status_keyword, priority_keyword, write_priority,
  apply_task_update, apply_task_updates, lacks_content, new_task, add_new_task, add_new_tasks,
  remove_all, apply_reflection,
}

-- One keyword keeps the id of the task.
abbrev Keeps : Update → Type 0
Keeps u = (t : Task) → (apply_update u t).task_id ≡ t.task_id

All-KeepsId : (us : List Update) → All Keeps us → KeepsId us
unfolding apply_updates
All-KeepsId [] h t = refl
All-KeepsId (u ∷ us) h t = All-KeepsId us h.1 (apply_update u t) ∙ h.0 t

parsed_id : (s : Option TaskStatus) (t : Task) → (parsed_status s t).task_id ≡ t.task_id
parsed_id none t = refl
parsed_id (some s) t = refl

status_text-Keeps : (text : String) → Keeps (status_text text)
unfolding apply_update
status_text-Keeps text t = parsed_id _ t

write_priority-Keeps : (p : ℤ) → Keeps (attribute (write_priority p))
unfolding apply_update
write_priority-Keeps p t = refl

status_keyword-Keeps : (status : Option String) → All Keeps (status_keyword status)
status_keyword-Keeps none = tt
status_keyword-Keeps (some text) =
    if_both (All Keeps) (str_eq text "") tt (status_text-Keeps text, tt)

priority_keyword-Keeps : (priority : Option ℤ) → All Keeps (priority_keyword priority)
priority_keyword-Keeps none = tt
priority_keyword-Keeps (some p) = (write_priority-Keeps p, tt)

keywords-KeepsId : (u : TaskUpdate) → KeepsId (keywords u)
keywords-KeepsId u = All-KeepsId (keywords u) (
    All-append Keeps (status_keyword u.status) (priority_keyword u.priority)
      (status_keyword-Keeps u.status) (priority_keyword-Keeps u.priority))

-- An update leaves the tasks of other ids alone.
apply_task_update-other :
    (u : TaskUpdate) (id : String) (q : TaskQueue)
    → str_eq u.task_id id ≡ false
    → get_task id (apply_task_update u q) ≡ get_task id q
unfolding apply_task_update
apply_task_update-other u id q other =
    if_both (λ q'. get_task id q' ≡ get_task id q) _ refl
      (get_task-update u.task_id id (keywords u) q (keywords-KeepsId u) ∙ rw other refl)

apply_task_updates-other :
    (us : List TaskUpdate) (id : String) (q : TaskQueue)
    → All (λ u. str_eq u.task_id id ≡ false) us
    → get_task id (apply_task_updates us q) ≡ get_task id q
unfolding apply_task_updates
apply_task_updates-other [] id q others = refl
apply_task_updates-other (u ∷ us) id q others =
    apply_task_updates-other us id (apply_task_update u q) others.1
    ∙ apply_task_update-other u id q others.0

apply_task_updates-IsUnique :
    (us : List TaskUpdate) (q : TaskQueue) → IsUnique q → IsUnique (apply_task_updates us q)
unfolding apply_task_updates apply_task_update
apply_task_updates-IsUnique [] q h = h
apply_task_updates-IsUnique (u ∷ us) q h =
    apply_task_updates-IsUnique us (apply_task_update u q)
      (if_both IsUnique _ h (update-IsUnique u.task_id (keywords u) q (keywords-KeepsId u) h))

get_task-add-other :
    (t : Task) (id : String) (q : TaskQueue)
    → str_eq t.task_id id ≡ false
    → get_task id (add (t ∷ []) q) ≡ get_task id q
unfolding add
get_task-add-other t id q other = get_task-add_one t id q ∙ rw other refl

second_false : (a b c : Bool) → (a || b || c) ≡ false → b ≡ false
second_false a b c h = ground arith

module _ (now : String) (fresh : ℕ → String) where
  -- A new task never takes the place of a task that is there.
  add_new_task-keeps :
      (n : ℕ) (cfg : NewTask) (id : String) (q : TaskQueue) {old : Task}
      → get_task id q ≡ some old
      → get_task id (add_new_task now fresh n cfg q) ≡ some old
  unfolding add_new_task new_task
  add_new_task-keeps n cfg id q h =
      let there = is_some (get_task cfg.task_id q) in
      elim (Bool-cases (str_eq cfg.task_id "" || there || lacks_content cfg)) [
        | inl e ↦ rw e h
        | inr e ↦ rw e (elim (Bool-cases (str_eq cfg.task_id id)) [
          | inl same ↦ true_false (
              sym (ap (λ i. is_some (get_task i q)) ((eq_iff _ _).0 same) ∙ ap is_some h)
              ∙ second_false (str_eq cfg.task_id "") there (lacks_content cfg) e)
          | inr other ↦ get_task-add-other (new_task now fresh n cfg) id q other ∙ h
        ])
      ]

  add_new_tasks-keeps :
      (n : ℕ) (cfgs : List NewTask) (id : String) (q : TaskQueue) {old : Task}
      → get_task id q ≡ some old
      → get_task id (add_new_tasks now fresh n cfgs q) ≡ some old
  unfolding add_new_tasks
  add_new_tasks-keeps n [] id q h = h
  add_new_tasks-keeps n (cfg ∷ cfgs) id q h =
      add_new_tasks-keeps (suc n) cfgs id (add_new_task now fresh n cfg q)
        (add_new_task-keeps n cfg id q h)

  add_new_tasks-IsUnique :
      (n : ℕ) (cfgs : List NewTask) (q : TaskQueue)
      → IsUnique q
      → IsUnique (add_new_tasks now fresh n cfgs q)
  unfolding add_new_tasks add_new_task
  add_new_tasks-IsUnique n [] q h = h
  add_new_tasks-IsUnique n (cfg ∷ cfgs) q h =
      add_new_tasks-IsUnique (suc n) cfgs (add_new_task now fresh n cfg q)
        (if_both IsUnique _ h (add-IsUnique (new_task now fresh n cfg ∷ []) q h))

  remove_all-IsUnique :
      (ids : List String) (q : TaskQueue) → IsUnique q → IsUnique (remove_all now fresh ids q)
  unfolding remove_all
  remove_all-IsUnique [] q h = h
  remove_all-IsUnique (id ∷ ids) q h = remove_all-IsUnique ids _ (remove-IsUnique id q h)

  remove_all-other :
      (ids : List String) (id : String) (q : TaskQueue)
      → IsUnique q
      → All (λ i. str_eq i id ≡ false) ids
      → get_task id (remove_all now fresh ids q) ≡ get_task id q
  unfolding remove_all
  remove_all-other [] id q h others = refl
  remove_all-other (i ∷ ids) id q h others =
      remove_all-other ids id _ (remove-IsUnique i q h) others.1
      ∙ get_task-remove i id q h
      ∙ rw others.0 refl

  -- Applying a reflection to a queue with one task to an id, whatever it updates, adds and removes,
  -- leaves one task to an id.
  pub apply_reflection-IsUnique :
      (r : ReflectionOutput) (q : TaskQueue)
      → IsUnique q
      → IsUnique (apply_reflection now fresh r q)
  unfolding apply_reflection
  apply_reflection-IsUnique r q h =
      remove_all-IsUnique r.remove_tasks _
        (add_new_tasks-IsUnique 0 r.new_tasks _ (apply_task_updates-IsUnique r.task_updates q h))

  -- In a queue with one task to an id, a task that the reflection neither updates nor removes is
  -- there afterwards as it was, whatever new tasks it proposes.
  pub get_task-apply_reflection :
      (r : ReflectionOutput) (q : TaskQueue) (id : String) {old : Task}
      → IsUnique q
      → get_task id q ≡ some old
      → All (λ u. str_eq u.task_id id ≡ false) r.task_updates
      → All (λ i. str_eq i id ≡ false) r.remove_tasks
      → get_task id (apply_reflection now fresh r q) ≡ some old
  unfolding apply_reflection
  get_task-apply_reflection r q id h found kept_ids not_removed =
      remove_all-other r.remove_tasks id _
        (add_new_tasks-IsUnique 0 r.new_tasks _ (apply_task_updates-IsUnique r.task_updates q h))
        not_removed
      ∙ add_new_tasks-keeps 0 r.new_tasks id _
          (apply_task_updates-other r.task_updates id q kept_ids ∙ found)
