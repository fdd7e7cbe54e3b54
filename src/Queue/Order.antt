-- ===== src/Queue/Order.antt =====
-- Which task the queue hands out next, and when it has none.
use omni_forge.Base.{
  ◌≡◌, refl, sym, ◌∙◌, true, false, none, some, str_eq, List, [], ◌∷◌, All, ap, filter, max_by,
  max_by-le, max_by_holds, ◌↔◌, Memᴰ, filter-Mem, All-of_filter, any_of_filter_nil,
  filter_nil_of_any, filter_ext,
}
use omni_forge.Base.Int.{◌≤ℤ◌}
use omni_forge.Base.Text.{lower}
use omni_forge.Tasks.{Task, TaskStatus, todo, status_value}
use omni_forge.Queue.{TaskQueue, get_next, has_todo, is_todo, priority_of, is_todo_status}

status_value-todo : (s : TaskStatus) → str_eq (status_value s) (lower "todo") ≡ is_todo_status s
unfolding status_value lower
status_value-todo todo = refl
status_value-todo _ = refl

-- The selection is the greatest by priority of the tasks in state TODO.
get_next_lem : (q : TaskQueue) → get_next q ≡ max_by priority_of (filter is_todo q)
unfolding get_next
get_next_lem q = ap (max_by priority_of) (
    filter_ext (λ t. str_eq (status_value t.status) (lower "todo")) is_todo q
      (λ t. status_value-todo t.status))

-- The task that is handed out is one of the queue, is TODO, and no TODO task has a higher priority.
pub get_next-IsBest :
    (q : TaskQueue) {t : Task}
    → get_next q ≡ some t
    → Memᴰ t q × (is_todo t ≡ true) × All (λ u. is_todo u ≡ true → u.priority ≤ℤ t.priority) q
get_next-IsBest q {t} h =
    let chosen = sym (get_next_lem q) ∙ h in
    let (member, todo_state) =
      max_by_holds priority_of (λ u. Memᴰ u q × (is_todo u ≡ true)) (filter is_todo q)
        (filter-Mem is_todo q) chosen in
    (
      member,
      todo_state,
      All-of_filter (λ u. u.priority ≤ℤ t.priority) is_todo q
          (max_by-le priority_of (filter is_todo q) chosen),
    )

max_by-none_iff : (xs : List Task) → (max_by priority_of xs ≡ none) ↔ (xs ≡ [])
max_by-none_iff [] = ((λ _. refl), (λ _. refl))
max_by-none_iff (x ∷ xs) = ((λ h. cc), (λ h. cc))

-- No task is handed out exactly when `has_todo` is false.
get_next-none_iff : (q : TaskQueue) → (get_next q ≡ none) ↔ (has_todo q ≡ false)
unfolding has_todo
get_next-none_iff q = (
  (λ h. any_of_filter_nil is_todo q ((max_by-none_iff _).0 (sym (get_next_lem q) ∙ h))),
  (λ h. get_next_lem q ∙ (max_by-none_iff _).1 (filter_nil_of_any is_todo q h)),
)
