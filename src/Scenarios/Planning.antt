-- ===== src/Scenarios/Planning.antt =====
-- The theorems on the templates and on the fallback of the reflector at concrete inputs.
use omni_forge.Base.{◌≡◌, refl, true, false, none, String, List, [], ◌∷◌, ◌↔◌, All, is_empty}
use omni_forge.Base.Int.{pos}
use omni_forge.Values.{end}
use omni_forge.Tasks.{done}
use omni_forge.Queue.{TaskQueue}
use omni_forge.Queue.Laws.{IsUnique}
use omni_forge.Planner.Templates.Tables.{python_cli}
use omni_forge.Planner.Templates.{is_goal_completed, get_initial_tasks}
use omni_forge.Planner.Templates.Done.{IsDone, is_goal_completed_iff}
use omni_forge.Planner.Templates.Existing.{Marked, get_initial_tasks-Marked}
use omni_forge.Reflection.{NewTask, ReflectionOutput}
use omni_forge.Reflection.Run.{Surroundings, settle_stuck}
use omni_forge.Reflection.Run.Moves.{Moves, settle_stuck-Moves}
use omni_forge.Scenarios.{task}

abbrev finished : TaskQueue
finished = task "create_main" done 9 ∷ task "create_utils" done 8 ∷ []

finished-IsUnique : IsUnique finished
finished-IsUnique = ((refl, tt), (tt, tt))

is_goal_completed_iff_example :
    (is_goal_completed python_cli finished ≡ true)
    ↔ ((is_empty python_cli.required_ids ≡ false) × All (IsDone finished) python_cli.required_ids)
is_goal_completed_iff_example = is_goal_completed_iff finished finished-IsUnique python_cli

abbrev goal : String
goal = "创建一个日程命令行工具"

abbrev existing : List String
existing = "main.py" ∷ "utils.py" ∷ []

-- An empty project, and an LLM that does not answer.
abbrev around : Surroundings
around = record {
  now = "now";
  fresh = λ n. "id";
  number = λ n. "1";
  files = λ name. none;
  file_names = λ text. [];
  path_name = λ path. path;
  is_word = λ code. false;
  text_of = λ v. "value";
  ask = λ q. none;
}

abbrev undecided : ReflectionOutput
undecided = record {
  goal_completed = false;
  task_updates = [];
  new_tasks = [];
  remove_tasks = [];
  need_replan = false;
  reason = "";
}

abbrev wishes : List NewTask
wishes =
    record {
      task_id = "create_main";
      title = "again";
      priority = pos 9;
      tool = "filesystem";
      input = end;
    }
    ∷ record {
      task_id = "create_readme";
      title = "readme";
      priority = pos 9;
      tool = "filesystem";
      input = end;
    }
    ∷ []

settle_stuck-Moves_example :
    Moves around finished wishes (settle_stuck around undecided finished wishes)
settle_stuck-Moves_example = settle_stuck-Moves around undecided finished wishes

get_initial_tasks-Marked_example :
    All (Marked existing) (get_initial_tasks "now" (λ n. "id") python_cli goal existing)
get_initial_tasks-Marked_example =
    get_initial_tasks-Marked "now" (λ n. "id") python_cli goal existing
