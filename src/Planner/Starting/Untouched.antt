-- ===== src/Planner/Starting/Untouched.antt =====
-- The tasks of a blueprint's plan and the files that are there already.
use omni_forge.Base.{
  ◌≡◌, refl, true, false, some, String, str_eq, List, [], ◌∷◌, ℕ, suc, All, All-append, All-filter,
  if_both, Bool-cases, inl, inr, not, ◌&&◌, ◌⊎◌, any, arith,
}
use omni_forge.Base.Sort.{All-sort_into}
use omni_forge.Values.{str, Fields, get}
use omni_forge.Tasks.{Task}
use omni_forge.Executor.Actions.{contains}
use omni_forge.Blueprints.{FileSpec, Jinja, render}
use omni_forge.Blueprints.Rendered.{IsAbsent, render-IsAbsent}
use omni_forge.Planner.Build.{Runtime, make_task, mkdir_task}
use omni_forge.Planner.Starting.{
  is_made, has_parent, names_mkdir, by_priority, spec_task, spec_tasks, blueprint_specs_to_tasks,
  project_plan, specs_plan,
}

-- The task makes a directory, or the file that its path names does not exist.
abbrev pub Spares : List String → Task → Type 0
Spares existing t =
    (get "action" t.input ≡ some (str "mkdir"))
    ⊎ ((path : String) × (get "path" t.input ≡ some (str path)) × (contains existing path ≡ false))

module _ (runtime : Runtime) (existing : List String) where
  mkdir_task-Spares : (n : ℕ) (dir : String) → Spares existing (mkdir_task runtime n dir)
  unfolding mkdir_task make_task get
  mkdir_task-Spares n dir = inl refl

  spec_task-Spares :
      (n : ℕ) (spec : FileSpec)
      → contains existing spec.path ≡ false
      → Spares existing (spec_task runtime n spec)
  unfolding spec_task make_task get
  spec_task-Spares n spec absent = inr (spec.path, refl, absent)

  -- What is made is not skipped.
  made_lem : (spec : FileSpec) → is_made runtime spec ≡ true → str_eq spec.type "skip" ≡ false
  made_lem spec h = ground arith

  spec_tasks-Spares :
      (n : ℕ) (created : List String) (specs : List FileSpec)
      → All (IsAbsent existing) specs
      → All (Spares existing) (spec_tasks runtime n created specs)
  unfolding spec_tasks
  spec_tasks-Spares n created [] h = tt
  spec_tasks-Spares n created (spec ∷ specs) h = elim (Bool-cases (is_made runtime spec)) [
    | inr skipped ↦ rw skipped (spec_tasks-Spares n created specs h.1)
    | inl made ↦
        let absent = h.0 (made_lem spec made) in
        let dir = runtime.parent spec.path in
        let both : All (Spares existing) (
            mkdir_task runtime n dir
            ∷ spec_task runtime (suc n) spec
            ∷ spec_tasks runtime (suc (suc n)) (dir ∷ created) specs) =
          (
            mkdir_task-Spares n dir,
            (
              spec_task-Spares (suc n) spec absent,
              spec_tasks-Spares (suc (suc n)) (dir ∷ created) specs h.1,
            ),
          ) in
        let alone : All (Spares existing)
            (spec_task runtime n spec ∷ spec_tasks runtime (suc n) created specs) =
          (spec_task-Spares n spec absent, spec_tasks-Spares (suc n) created specs h.1) in
        rw made (
          if_both (All (Spares existing))
            (has_parent runtime spec.path && not (any (λ d. str_eq d dir) created)) both alone)
  ]

  by_priority-Spares :
      (ts : List Task) → All (Spares existing) ts → All (Spares existing) (by_priority runtime ts)
  by_priority-Spares ts h = All-sort_into (Spares existing) (λ t. t.priority) [] ts tt h

  blueprint_specs_to_tasks-Spares :
      (specs : List FileSpec)
      → All (IsAbsent existing) specs
      → All (Spares existing) (blueprint_specs_to_tasks runtime specs)
  unfolding blueprint_specs_to_tasks
  blueprint_specs_to_tasks-Spares specs h =
      let tasks = spec_tasks runtime 0 [] specs in
      let all = spec_tasks-Spares 0 [] specs h in
      let is_dir = names_mkdir runtime in
      All-append (Spares existing) _ _
        (by_priority-Spares _ (All-filter (Spares existing) is_dir tasks all))
        (by_priority-Spares _ (All-filter (Spares existing) (λ t. not (is_dir t)) tasks all))

  project_plan-Spares :
      (goal nothing reasoning : String) (ts : List Task)
      → All (Spares existing) ts
      → All (Spares existing) (project_plan runtime goal nothing reasoning ts).tasks
  project_plan-Spares goal nothing reasoning [] h = tt
  project_plan-Spares goal nothing reasoning (t ∷ ts) h = h

  -- Each task of the plan that a blueprint renders to makes a directory, or names a file that is
  -- not among the existing ones.
  pub specs_plan-Spares :
      (jinja : Jinja) (variables : Fields) (goal id : String) (specs : List FileSpec)
      → All
          (Spares existing)
          (specs_plan runtime goal id (render jinja existing variables specs)).tasks
  unfolding specs_plan
  specs_plan-Spares jinja variables goal id specs = project_plan-Spares goal _ _ _ (
      blueprint_specs_to_tasks-Spares (render jinja existing variables specs)
        (render-IsAbsent jinja existing variables specs))
