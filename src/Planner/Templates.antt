-- ===== src/Planner/Templates.antt =====
-- agentflow/agents/planner/templates.py: which template fits a goal, the tasks that it starts with,
-- and when it is completed. The set of existing files is a list of paths.
pub mod Existing
pub mod Tables
pub mod Done
use omni_forge.Base.{
  Bool, true, false, Option, none, some, String, str_eq, if◌then◌else◌, List, [], ◌∷◌, ℕ, suc,
  get_or, count_if, ltb, leb, is_empty, any, ◌&&◌, not, ◌==◌,
}
use omni_forge.Base.Int.{pos}
use omni_forge.Base.Text.{lower, strip, lstrip}
use omni_forge.Base.Words.{drop_prefix, starts_with, contains_text, replace_text, text_take}
use omni_forge.Values.{null, str, Fields, end, field}
use omni_forge.Tasks.{Task, TaskStatus, is_finished}
use omni_forge.Executor.Actions.{entry}
use omni_forge.Planner.Templates.Tables.{
  Template, TemplateTask, templates, path_map, default_content, prefixes,
}
use Prim.Native.Char.{Char, code}
use Prim.Native.String.{◌++◌ as text_append}

abbrev pub keyword_count : String → Template → ℕ
keyword_count goal_lower tpl = count_if (λ kw. contains_text kw goal_lower) tpl.keywords

-- The loop over the templates: a later one takes the place only with more keywords.
abbrev pub best_template : String → Option Template → ℕ → List Template → Option Template × ℕ
best_template goal_lower best best_count [] = (best, best_count)
best_template goal_lower best best_count (tpl ∷ more) =
    let count = keyword_count goal_lower tpl in
    if ltb best_count count
    then best_template goal_lower (some tpl) count more
    else best_template goal_lower best best_count more

unfoldable pub match_template : String → String → Option Template
unfolding lower
match_template goal goal_type =
    let (best, best_count) = best_template (lower goal) none 0 templates in
    if not (str_eq goal_type "project") then none else if leb 2 best_count then best else none

-- The first prefix that the goal starts with is dropped.
abbrev without_prefix : List String → String → String
without_prefix [] goal = goal
without_prefix (prefix ∷ more) goal = elim (drop_prefix prefix goal) [
  | none ↦ without_prefix more goal
  | some rest ↦ lstrip rest
]

abbrev project_words : List String
project_words = "系统" ∷ "项目" ∷ "应用" ∷ "网站" ∷ "平台" ∷ []

abbrev cons_found : Char → Option String → Option String
cons_found c none = none
cons_found c (some text) = some (String.◌∷◌ c text)

-- `re.match(r"^(.*?)(?:系统|项目|应用|网站|平台)", goal)`, the first group: what stands in front of
-- the first of these words, on the first line.
abbrev before_word : String → Option String
before_word String.[] = none
before_word (String.◌∷◌ c s) =
    let later = if code c == 10 then none else cons_found c (before_word s) in
    if any (starts_with (String.◌∷◌ c s)) project_words then some String.[] else later

abbrev or_whole : String → Option String → String
or_whole goal none = goal
or_whole goal (some text) = strip text

unfoldable pub extract_project_name : String → String
unfolding lower strip replace_text
extract_project_name goal =
    let goal_clean = without_prefix prefixes (strip goal) in
    let matched = or_whole goal_clean (before_word goal_clean) in
    let raw = strip (replace_text "的" "" (replace_text "一个" "" matched)) in
    if str_eq raw ""
    then lower (replace_text " " "_" (text_take 20 goal_clean))
    else text_take 48 (lower (replace_text "-" "_" (replace_text " " "_" raw)))

abbrev pub under_project : String → Option String → Option String
under_project project_name none = none
under_project project_name (some path) = some (text_append project_name path)

-- `_infer_path`
unfoldable pub infer_path : String → String → Option String
infer_path task_id project_name = under_project project_name (entry path_map task_id)

-- `os.path.basename`
abbrev basename_from : String → String → String
basename_from seen String.[] = seen
basename_from seen (String.◌∷◌ c s) =
    if code c == 47 then basename_from s s else basename_from seen s

abbrev filled_content : String → Option String → Option String
filled_content project_name none = none
filled_content project_name (some template) = some (
    replace_text "{project_name}" (if str_eq project_name "" then "project" else project_name)
      template)

-- `_get_default_content`
unfoldable pub get_default_content : String → String → Option String
unfolding replace_text
get_default_content path project_name =
    filled_content project_name (entry default_content (basename_from path path))

abbrev content_field : Option String → Fields
content_field none = end
content_field (some content) = if str_eq content "" then end else field "content" (str content) end

-- A path that is `None` or empty adds nothing to the input.
abbrev pub path_input : String → String → Option String → Fields
path_input task_id project_name none = end
path_input task_id project_name (some path) =
    if str_eq path ""
    then end
    else if str_eq task_id "create_project_dir"
    then field "action" (str "mkdir") (field "path" (str path) end)
    else field "action" (str "write_file")
        (field "path" (str path) (content_field (get_default_content path project_name)))

unfoldable pub template_input : String → String → Fields
unfolding infer_path get_default_content
template_input task_id project_name =
    path_input task_id project_name (infer_path task_id project_name)

abbrev pub path_exists : List String → Option String → Bool
path_exists existing none = false
path_exists existing (some path) = not (str_eq path "") && any (λ file. str_eq file path) existing

abbrev pub status_if : Bool → TaskStatus
status_if true = TaskStatus.done
status_if false = TaskStatus.todo

module _ (now : String) (fresh : ℕ → String) where
  unfoldable pub template_task : String → List String → ℕ → TemplateTask → Task
  unfolding infer_path template_input
  template_task project_name existing n cfg = record {
    task_id = cfg.task_id;
    title = cfg.title;
    priority = pos cfg.priority;
    dependencies = [];
    goal = cfg.goal;
    capability = "";
    agent = "";
    tool = cfg.tool;
    status = status_if (path_exists existing (infer_path cfg.task_id project_name));
    parent_id = none;
    input = template_input cfg.task_id project_name;
    steps = [];
    result = null;
    error = none;
    metadata = end;
    id = fresh n;
    created_at = now;
    updated_at = now;
  }

  unfoldable pub template_tasks : String → List String → ℕ → List TemplateTask → List Task
  unfolding template_task
  template_tasks project_name existing n [] = []
  template_tasks project_name existing n (cfg ∷ more) =
      template_task project_name existing n cfg ∷ template_tasks project_name existing (suc n) more

  unfoldable pub get_initial_tasks : Template → String → List String → List Task
  unfolding template_tasks extract_project_name
  get_initial_tasks template goal existing =
      template_tasks (extract_project_name goal) existing 0 template.initial_tasks

-- `{t.task_id: t for t in task_queue}.get(task_id)`: a later task of the same id wins.
unfoldable pub task_map : Option Task → String → List Task → Option Task
task_map found task_id [] = found
task_map found task_id (t ∷ ts) =
    task_map (if str_eq t.task_id task_id then some t else found) task_id ts

abbrev pub is_done_task : Option Task → Bool
is_done_task none = false
is_done_task (some t) = is_finished t

abbrev pub all_done : List String → List Task → Bool
all_done [] ts = true
all_done (id ∷ ids) ts = is_done_task (task_map none id ts) && all_done ids ts

unfoldable pub is_goal_completed : Template → List Task → Bool
unfolding task_map is_finished
is_goal_completed template ts =
    if is_empty template.required_ids then false else all_done template.required_ids ts
