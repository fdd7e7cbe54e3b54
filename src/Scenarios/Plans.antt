-- ===== src/Scenarios/Plans.antt =====
-- The theorems on the planner and on blueprints at concrete inputs.
use omni_forge.Base.{
  ◌≡◌, refl, true, false, Option, none, some, String, str_eq, if◌then◌else◌, List, [], ◌∷◌, ℕ, suc,
  All, not, ◌&&◌, ◌+◌, ◌⊎◌, ◌<◌,
}
use omni_forge.Base.Int.{ℤ, pos}
use omni_forge.Values.{Value, str, dict, end, field}
use omni_forge.Tasks.{Task, todo, done}
use omni_forge.Queue.{TaskQueue, get_task}
use omni_forge.Workflow.State.{WorkflowState, Plan, empty_state, get_goal_type}
use omni_forge.Registry.{ToolRegistry}
use omni_forge.Blueprints.{FileSpec, Blueprint, Jinja, match_blueprint, render}
use omni_forge.Blueprints.Matched.{Fits, match_blueprint-Fits}
use omni_forge.Planner.Arguments.Newlines.{
  fix_json_newlines, newlines_in_strings, fix_json_newlines-repairs,
}
use omni_forge.Base.Words.{text_length}
use omni_forge.Planner.Build.{Runtime, trim_tasks, new_plan}
use omni_forge.Planner.Build.Bounds.{IsTop, trim_tasks-IsTop}
use omni_forge.Planner.Build.Shape.{IfBuilt, NewPlan}
use omni_forge.Planner.Fill.{fill_code_content}
use omni_forge.Planner.Fill.Valid.{AllFilled, fill_code_content-IsFilled}
use omni_forge.Planner.Asking.{
  PlanRequest, Llm, llm_generate_tasks, generate_more_tasks, plan_or_answer,
}
use omni_forge.Planner.Asking.Plans.{UsablePlan, asked-NewPlan}
use omni_forge.Planner.Starting.{Projects, specs_plan}
use omni_forge.Planner.Starting.Untouched.{Spares, specs_plan-Spares}
use omni_forge.Planner.Run.{plan_to_workflow, run}
use omni_forge.Planner.Run.Kept.{Keeps, run-Keeps}
use omni_forge.Planner.Run.Path.{IsPath, IsRouted, plan_to_workflow-IsPath}
use omni_forge.Scenarios.{task}

-- Arguments that are JSON, and some that are not: a newline stands in the content.
abbrev broken : String
broken = "{\"path\": \"app/main.py\", \"content\": \"import sys\nprint(sys.argv)\"}"

abbrev loads : String → Option Value
loads text =
    if str_eq text "{\"path\": \"app\"}" then some (dict (field "path" (str "app") end)) else none

abbrev runtime : Runtime
runtime = record {
  now = "now";
  fresh = λ n. "id";
  number = λ n. "1";
  text_of = λ v. "value";
  int_of = λ v. none;
  loads = loads;
  parent = λ path. "app";
  reader = record {
    name = λ path. path;
    stem = λ path. path;
    splitlines = λ text. text ∷ [];
    parse = λ code. none;
  };
}

-- The LLM calls two functions, one of them with broken arguments; `W` counts its answers.
abbrev llm : Llm ℕ
llm = record {
  is_mock = false;
  ask_tools = λ request n. (
    some (record {
      content = "two calls";
      tool_calls =
          record { id = "1"; name = "filesystem__mkdir"; arguments = "{\"path\": \"app\"}" }
          ∷ record { id = "2"; name = "filesystem__write_file"; arguments = broken }
          ∷ [];
      degraded = false;
    }),
    suc n,
  );
  ask_json = λ request n. (none, suc n);
  complete_code = λ request n. (some "print(1)", suc n);
  complete_design = λ goal files n. (none, suc n);
}

abbrev request : PlanRequest
request = record { goal = "写代码"; goal_type = "code"; context_str = ""; replan_context = "" }

abbrev no_registry : Option (ToolRegistry ℕ)
no_registry = none

asked-NewPlan_example :
    IfBuilt NewPlan (llm_generate_tasks runtime no_registry llm request 0).0
    × IfBuilt NewPlan (generate_more_tasks runtime no_registry llm request 0).0
    × IfBuilt UsablePlan (plan_or_answer runtime no_registry llm request 0).0
asked-NewPlan_example = asked-NewPlan runtime no_registry llm request 0

abbrev main_spec : FileSpec
main_spec = record {
  path = "app/main.py";
  content_template = "print(1)";
  template_ref = none;
  type = "create";
  description = "";
  condition = none;
  encoding = "utf-8";
}

abbrev readme_spec : FileSpec
readme_spec = record main_spec { path = "README.md" }

abbrev flask : Blueprint
flask = record {
  id = "flask-basic";
  name = "Flask";
  description = "";
  keywords = "web" ∷ [];
  frameworks = "flask" ∷ [];
  exclude_keywords = [];
  files = main_spec ∷ readme_spec ∷ [];
}

abbrev django : Blueprint
django = record flask { id = "django"; frameworks = "django" ∷ [] }

-- Tenths, without the exclusions.
abbrev weigh : ℕ → ℕ → ℕ → ℤ
weigh keywords frameworks exclusions =
    pos (keywords + keywords + keywords + frameworks + frameworks + frameworks + frameworks)

abbrev rejecting : String → Option Value
rejecting text = some (dict end)

match_blueprint-Fits_example :
    Fits weigh "a flask web app" "project" (django ∷ flask ∷ []) (
      match_blueprint weigh rejecting (django ∷ flask ∷ []) "a flask web app" "project" (some "{}"))
match_blueprint-Fits_example =
    match_blueprint-Fits weigh "a flask web app" "project" (django ∷ flask ∷ []) rejecting
      (some "{}")

abbrev jinja : Jinja
jinja = record { from_string = λ text variables. some text; get_template = λ name variables. none }

specs_plan-Spares_example :
    All
      (Spares ("README.md" ∷ []))
      (specs_plan runtime "goal" "flask-basic"
        (render jinja ("README.md" ∷ []) end (main_spec ∷ readme_spec ∷ []))).tasks
specs_plan-Spares_example =
    specs_plan-Spares runtime ("README.md" ∷ []) jinja end "goal" "flask-basic"
      (main_spec ∷ readme_spec ∷ [])

abbrev projects : Projects ℕ
projects = record {
  files = λ name. none;
  format_planner_prompt = λ s. "";
  blueprints = [];
  weigh = weigh;
  jinja = jinja;
  confirm = λ goal candidates n. (none, n);
  configure = λ goal bp n. (none, n);
}

abbrev finished : Task
finished = task "create_main" done 9

abbrev queue : TaskQueue
queue = finished ∷ task "create_readme" todo 8 ∷ []

abbrev coding : WorkflowState
coding = record empty_state { question = some "写代码"; category = some "code" }

run-Keeps_example :
    Keeps runtime no_registry llm projects queue coding "create_main" finished
      (run runtime no_registry llm projects [] false queue coding 0)
unfolding get_goal_type get_task
run-Keeps_example =
    run-Keeps runtime no_registry llm projects queue coding [] false 0 "create_main" finished refl
      ((refl, tt), (tt, tt)) refl refl

abbrev plan : Plan
plan = new_plan "goal" "code" (task "a" todo 1 ∷ task "b" todo 2 ∷ []) false false ""

plan_to_workflow-IsPath_example :
    IsPath no_registry (plan_to_workflow no_registry plan "code")
    × ((not plan.goal_completed && not plan.direct_answer) ≡ true
        → All (IsRouted no_registry (plan_to_workflow no_registry plan "code")) plan.tasks)
plan_to_workflow-IsPath_example = plan_to_workflow-IsPath no_registry plan "code"

-- A task that writes a file without a content.
abbrev unwritten : Task
unwritten = record (task "write" todo 5) {
  goal = "write the entry point";
  input = field "action" (str "write_file") (field "path" (str "main.py") end);
}

fill_code_content-IsFilled_example :
    AllFilled runtime llm.complete_code
      (unwritten ∷ [])
      (fill_code_content runtime llm.complete_code "brief" (unwritten ∷ []) 0).0
unfolding fill_code_content
fill_code_content-IsFilled_example =
    fill_code_content-IsFilled runtime llm.complete_code "brief" (unwritten ∷ []) 0 refl

abbrev nine : List Task
nine =
    task "a" todo 1
    ∷ task "b" todo 2
    ∷ task "c" todo 3
    ∷ task "d" todo 4
    ∷ task "e" todo 5
    ∷ task "f" todo 6
    ∷ task "g" todo 7
    ∷ task "h" todo 8
    ∷ task "i" todo 9
    ∷ []

trim_tasks-IsTop_example : (dropped : List Task) × IsTop nine (trim_tasks nine) dropped
trim_tasks-IsTop_example = trim_tasks-IsTop nine

fix_json_newlines-repairs_example :
    (newlines_in_strings (fix_json_newlines broken) ≡ 0)
    × (text_length (fix_json_newlines broken) ≡ text_length broken + newlines_in_strings broken)
    × ((fix_json_newlines broken ≡ broken) ⊎ (0 < newlines_in_strings broken))
fix_json_newlines-repairs_example = fix_json_newlines-repairs broken
