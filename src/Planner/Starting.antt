-- ===== src/Planner/Starting.antt =====
-- agentflow/agents/planner/agent.py: the first plan of a project, from a blueprint or a template.
pub mod Untouched
use omni_forge.Base.{
  Bool, true, false, Option, none, some, String, str_eq, if◌then◌else◌, List, [], ◌∷◌, ◌++◌, ℕ, suc,
  not, ◌&&◌, any, filter, length, get_or, ltb,
}
use omni_forge.Base.Int.{ℤ, pos}
use omni_forge.Base.Sort.{sort_into}
use omni_forge.Base.Words.{contains_text, replace_text}
use omni_forge.Values.{str, Fields, end, field}
use omni_forge.Tasks.{Task}
use omni_forge.Workflow.State.{Plan, WorkflowState}
use omni_forge.Blueprints.{FileSpec, Blueprint, Jinja, score_blueprints, match_blueprint, render}
use omni_forge.Planner.Build.{Runtime, make_task, mkdir_task, new_plan}
use omni_forge.Planner.Templates.{match_template, extract_project_name, get_initial_tasks}
use omni_forge.Planner.Templates.Tables.{Template}
use Prim.Native.String.{◌++◌ as text_append}

module _ (runtime : Runtime) where
  open runtime use {now, fresh, number, parent}

  abbrev has_parent : String → Bool
  has_parent path =
      contains_text "/" path && not (str_eq (parent path) "") && not (str_eq (parent path) ".")

  abbrev pub is_made : FileSpec → Bool
  is_made spec = not (str_eq spec.type "skip") && not (str_eq spec.type "reference")

  abbrev spec_action : FileSpec → String
  spec_action spec = if str_eq spec.type "modify" then "edit_file" else "write_file"

  unfoldable pub spec_task : ℕ → FileSpec → Task
  unfolding make_task replace_text
  spec_task n spec =
      let task_id = replace_text "-" "_" (replace_text "." "_" (replace_text "/" "_" spec.path)) in
      let title =
        if str_eq spec.description "" then text_append "创建 " spec.path else spec.description in
      make_task runtime n task_id title (pos 80) "filesystem"
        (text_append (spec_action spec) (text_append ": " spec.path))
        (field "action" (str (spec_action spec))
          (field "path" (str spec.path) (field "content" (str spec.content_template) end)))

  -- The loop: a directory is made once, before the first file in it.
  unfoldable pub spec_tasks : ℕ → List String → List FileSpec → List Task
  unfolding spec_task mkdir_task
  spec_tasks n created [] = []
  spec_tasks n created (spec ∷ specs) =
      let dir = parent spec.path in
      let skipped = spec_tasks n created specs in
      let alone = spec_task n spec ∷ spec_tasks (suc n) created specs in
      let both =
        mkdir_task runtime n dir
        ∷ spec_task (suc n) spec
        ∷ spec_tasks (suc (suc n)) (dir ∷ created) specs in
      if not (is_made spec)
      then skipped
      else if has_parent spec.path && not (any (λ d. str_eq d dir) created)
      then both
      else alone

  abbrev names_mkdir : Task → Bool
  names_mkdir t = contains_text "mkdir" t.task_id

  abbrev by_priority : List Task → List Task
  by_priority ts = sort_into (λ t. t.priority) [] ts

  -- The stable sort by the pair of both keys.
  unfoldable pub blueprint_specs_to_tasks : List FileSpec → List Task
  unfolding spec_tasks
  blueprint_specs_to_tasks specs =
      let tasks = spec_tasks 0 [] specs in
      by_priority (filter names_mkdir tasks)
      ++ by_priority (filter (λ t. not (names_mkdir t)) tasks)

  abbrev project_plan : String → String → String → List Task → Plan
  project_plan goal nothing reasoning [] = new_plan goal "project" [] false true nothing
  project_plan goal nothing reasoning (t ∷ ts) =
      new_plan goal "project" (t ∷ ts) false false reasoning

  unfoldable pub specs_plan : String → String → List FileSpec → Plan
  unfolding blueprint_specs_to_tasks
  specs_plan goal id specs =
      let tasks = blueprint_specs_to_tasks specs in
      let front = text_append "Blueprint '" (text_append id "': ") in
      project_plan goal (text_append front "no files to create (all exist)")
        (text_append front (text_append (number (length tasks)) " file(s) to create")) tasks

  -- The files of a directory of that name; none if there is no such directory.
  abbrev existing_files : (String → Option (List String)) → String → List String
  existing_files files name = if str_eq name "" then [] else get_or (files name) []

  abbrev template_plan : (String → Option (List String)) → String → Option Template → Option Plan
  template_plan files goal none = none
  template_plan files goal (some template) =
      let existing = existing_files files (extract_project_name goal) in
      let tasks = get_initial_tasks now fresh template goal existing in
      let reasoning = text_append "Template " (
        text_append template.id
          (text_append ": initialized " (text_append (number (length tasks)) " tasks"))) in
      some (project_plan goal "没有需要初始化的任务" reasoning tasks)

  unfoldable pub initialize_from_template : (String → Option (List String)) → String → Option Plan
  unfolding match_template extract_project_name get_initial_tasks
  initialize_from_template files goal = template_plan files goal (match_template goal "project")

-- What the agent calls for a new project: the files of a directory (none if there is no such
-- directory), the prompt's context, the blueprints with the order of their scores and Jinja2, the
-- LLM's choice among candidates (none for an exception), and the configurator, which gives the
-- name and the variables of the project, or none for an exception of its rules.
pub record Projects (W : Type 0) : Type 0 where
  pub files : String → Option (List String)
  pub format_planner_prompt : WorkflowState → String
  pub blueprints : List Blueprint
  pub weigh : ℕ → ℕ → ℕ → ℤ
  pub jinja : Jinja
  pub confirm : String → List Blueprint → W → Option String × W
  pub configure : String → Blueprint → W → Option (String × Fields) × W

module _ {W : Type 0} (runtime : Runtime) (projects : Projects W) where
  open projects use {files, blueprints, weigh, jinja, confirm, configure}

  -- The LLM is asked only to choose among several candidates.
  unfoldable pub found_blueprint : String → W → Option Blueprint × W
  unfolding score_blueprints match_blueprint
  found_blueprint goal w =
      let candidates = score_blueprints weigh goal blueprints in
      let (answer, w') = confirm goal candidates w in
      let matched = match_blueprint weigh runtime.loads blueprints goal "project" in
      if ltb 1 (length candidates) then (matched answer, w') else (matched none, w)

  abbrev pub configured_plan : String → Blueprint → Option (String × Fields) → Option Plan
  configured_plan goal bp none = none
  configured_plan goal bp (some (name, variables)) = some (
      specs_plan runtime goal bp.id
        (render jinja (existing_files runtime files name) variables bp.files))

  abbrev pub blueprint_plan : String → Option Blueprint × W → Option Plan × W
  blueprint_plan goal (none, w) = (none, w)
  blueprint_plan goal (some bp, w) =
      let (config, w') = configure goal bp w in (configured_plan goal bp config, w')

  unfoldable pub initialize_from_blueprint : String → W → Option Plan × W
  unfolding found_blueprint specs_plan render
  initialize_from_blueprint goal w = blueprint_plan goal (found_blueprint goal w)
