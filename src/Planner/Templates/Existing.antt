-- ===== src/Planner/Templates/Existing.antt =====
-- Which of the initial tasks are DONE from the start.
use omni_forge.Base.{
  ◌≡◌, refl, Bool, true, false, Option, none, some, String, str_eq, if◌then◌else◌, List, [], ◌∷◌, ℕ,
  suc, All, any, Bool-cases, inl, inr, ap, ◌∙◌,
}
use omni_forge.Values.{Value, str, get}
use omni_forge.Tasks.{Task, todo, done}
use omni_forge.Planner.Templates.Tables.{Template, TemplateTask}
use omni_forge.Planner.Templates.{
  infer_path, path_input, template_input, path_exists, status_if, template_task, template_tasks,
  extract_project_name, get_initial_tasks,
}

-- The value is a path of the list.
abbrev pub is_listed : List String → Option Value → Bool
is_listed existing (some (str path)) = any (λ file. str_eq file path) existing
is_listed existing _ = false

-- A task is DONE exactly if the path in its input is in the list, and else TODO.
abbrev pub Marked : List String → Task → Type 0
Marked existing t = t.status ≡ (if is_listed existing (get "path" t.input) then done else todo)

status_if-if : (b : Bool) → status_if b ≡ (if b then done else todo)
status_if-if true = refl
status_if-if false = refl

path_exists-is_listed :
    (existing : List String) (task_id project_name : String)
    → path_exists existing (infer_path task_id project_name)
      ≡ is_listed existing (get "path" (template_input task_id project_name))
unfolding template_input get
path_exists-is_listed existing task_id project_name =
    by_path task_id project_name (infer_path task_id project_name)
  where
    by_path :
        (task_id project_name : String) (o : Option String)
        → path_exists existing o
          ≡ is_listed existing (get "path" (path_input task_id project_name o))
    by_path task_id project_name none = refl
    by_path task_id project_name (some path) = elim (Bool-cases (str_eq path "")) [
      | inl e ↦ rw e refl
      | inr e ↦ elim (Bool-cases (str_eq task_id "create_project_dir")) [
        | inl d ↦ rw (e, d) refl
        | inr d ↦ rw (e, d) refl
      ]
    ]

module _ (now : String) (fresh : ℕ → String) where
  template_tasks-Marked :
      (project_name : String) (existing : List String) (n : ℕ) (cfgs : List TemplateTask)
      → All (Marked existing) (template_tasks now fresh project_name existing n cfgs)
  unfolding template_tasks template_task
  template_tasks-Marked project_name existing n [] = tt
  template_tasks-Marked project_name existing n (cfg ∷ more) = (
    ap status_if (path_exists-is_listed existing cfg.task_id project_name) ∙ status_if-if _,
    template_tasks-Marked project_name existing (suc n) more,
  )

  -- An initial task is DONE when the path that it is to write, which its input names, is one of the
  -- existing files, and is TODO when it is not or when the task has no path.
  pub get_initial_tasks-Marked :
      (template : Template) (goal : String) (existing : List String)
      → All (Marked existing) (get_initial_tasks now fresh template goal existing)
  unfolding get_initial_tasks
  get_initial_tasks-Marked template goal existing =
      template_tasks-Marked (extract_project_name goal) existing 0 template.initial_tasks
