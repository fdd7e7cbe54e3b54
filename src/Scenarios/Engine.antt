-- ===== src/Scenarios/Engine.antt =====
-- The theorems on tasks, results, the queue, the registry and the executor at concrete inputs.
use omni_forge.Base.{
  ◌≡◌, ◌≢◌, refl, true, some_injective, ap, ◌∙◌, Option, none, some, String, str_eq, if◌then◌else◌,
  List, [], ◌∷◌, ℕ, All, Memᴰ, map,
}
use omni_forge.Base.Int.{pos, ◌≤ℤ◌}
use omni_forge.Base.Keyed.{kept, mapped}
use omni_forge.Values.{end, has_key}
use omni_forge.Tasks.{todo, done, running}
use omni_forge.Tasks.Serial.{Loaded}
use omni_forge.Results.{Call, returned, raised, ToolResult}
use omni_forge.Queue.{
  Update, attribute, status_member, TaskQueue, get_task, add_one, update, is_done, is_todo,
  get_next, to_dict_list, from_dict_list, apply_updates,
}
use omni_forge.Queue.Reference.{ident}
use omni_forge.Queue.Laws.{IsUnique, get_task-add_one, get_task-update, KeepsId}
use omni_forge.Queue.Order.{get_next-IsBest}
use omni_forge.Queue.Saved.{saved, from_dict_list-to_dict_list}
use omni_forge.Registry.{Tool, get_tool, execute_task}
use omni_forge.Registry.Dispatch.{IsAnswer, execute_task-Answers}
use omni_forge.Registry.Dispatch.{IsUnique as IsUniqueRegistry}
use omni_forge.Events.{task_created, task_started}
use omni_forge.Executor.{execute}
use omni_forge.Executor.Lifecycle.{Logged, execute-Logged}
use omni_forge.Scenarios.{runtime, registry, git, empty_context, task}

abbrev two_tasks : TaskQueue
two_tasks = task "a" todo 5 ∷ task "b" done 7 ∷ []

two_tasks-IsUnique : IsUnique two_tasks
two_tasks-IsUnique = ((refl, tt), (tt, tt))

get_task-add_one_example : get_task "a" (add_one (task "a" running 1) two_tasks) ≡ (
    if str_eq "a" "a"
    then some (kept ident is_done (get_task "a" two_tasks) (task "a" running 1))
    else get_task "a" two_tasks)
get_task-add_one_example = get_task-add_one (task "a" running 1) "a" two_tasks

abbrev raise_priority : List Update
raise_priority = attribute (λ t. record t { priority = pos 9 }) ∷ status_member running ∷ []

raise_priority-KeepsId : KeepsId raise_priority
unfolding apply_updates
raise_priority-KeepsId = λ t. refl

get_task-update_example : get_task "a" (update "a" raise_priority two_tasks).0 ≡ (
    if str_eq "a" "a"
    then mapped (apply_updates raise_priority) (get_task "a" two_tasks)
    else get_task "a" two_tasks)
get_task-update_example = get_task-update "a" "a" raise_priority two_tasks raise_priority-KeepsId

get_next-IsBest_example :
    Memᴰ (task "a" todo 5) two_tasks
    × (is_todo (task "a" todo 5) ≡ true)
    × All (λ u. is_todo u ≡ true → u.priority ≤ℤ pos 5) two_tasks
unfolding get_next
get_next-IsBest_example = get_next-IsBest two_tasks refl

from_dict_list-to_dict_list_example :
    from_dict_list (λ n. "fresh") (to_dict_list two_tasks) ≡ Loaded.ok (map saved two_tasks)
from_dict_list-to_dict_list_example = from_dict_list-to_dict_list (λ n. "fresh") two_tasks

registry-IsUnique : IsUniqueRegistry registry
registry-IsUnique = ((refl, tt), (tt, tt))

execute-Logged_example :
    Logged empty_context
      (task_created ∷ task_started ∷ [])
      (execute runtime registry empty_context (task "a" todo 5) 0)
execute-Logged_example = execute-Logged runtime registry empty_context (task "a" todo 5) 0 refl

-- The `validate` of the tools of the registry does not raise.
calm :
    (tool : Tool ℕ)
    → get_tool "git" registry ≡ some tool
    → (text : String) → tool.validate end ≢ raised text
unfolding get_tool has_key
calm tool found text e =
    let same : git ≡ tool = some_injective found in
    let bad : ◌≡◌ {A = Call (Option String)} (returned none) (raised text) =
      ap (λ (t : Tool ℕ). t.validate end) same ∙ e in
    cc

execute_task-Answers_example :
    (r : ToolResult) × (w' : ℕ) × (execute_task runtime.elapsed runtime.shown registry "git"
        "status" end 0
      ≡ (returned r, w'))
    × IsAnswer runtime.elapsed registry "git" "status" end 0 r w'
unfolding has_key
execute_task-Answers_example =
    execute_task-Answers runtime.elapsed runtime.shown registry "git" "status" end 0 refl calm
