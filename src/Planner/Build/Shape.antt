-- ===== src/Planner/Build/Shape.antt =====
-- What every task of a plan out of the LLM's answers is like.
use omni_forge.Base.{
  ◌≡◌, refl, Bool, false, Option, none, some, String, List, [], ◌∷◌, ℕ, suc, All, All-take, if_both,
  arith, not, get_or, length, ◌≤◌, ◌||◌,
}
use omni_forge.Base.Int.{ℤ}
use omni_forge.Base.Sort.{All-sort_into}
use omni_forge.Values.{Value, null, Items, nil, cons, dict, list, Fields, bool, truthy, get}
use omni_forge.Tasks.{Task, todo}
use omni_forge.Workflow.State.{Plan}
use omni_forge.Registry.{ToolRegistry}
use omni_forge.Services.Llm.{ToolCall}
use omni_forge.Executor.Actions.{contains}
use omni_forge.Planner.Arguments.{parse_tool_arguments, extract_path_from_args}
use omni_forge.Planner.Capability.{parse_function_name}
use omni_forge.Planner.Build.{
  Runtime, Built, built, invalid, crashed, then_built, make_task, mkdir_task, text_field,
  trim_tasks, cons_task, max_tasks,
}
use omni_forge.Planner.Build.Bounds.{trim_tasks-IsTop}
use omni_forge.Planner.Build.Calls.{
  non_creative_actions, recovered_at, arguments_task, call_task, call_tasks,
  build_plan_from_tool_calls, direct_task,
}
use omni_forge.Planner.Build.Json.{
  item_task, used_task, json_task, json_tasks, no_tasks, listed_plan, build_plan_from_object,
  build_plan_from_json,
}

-- A new task of the planner: TODO, and without an outcome or anything to wait for.
abbrev pub IsNew : Task → Type 0
IsNew t =
    (t.status ≡ todo)
    × (t.agent ≡ "planner")
    × (t.dependencies ≡ [])
    × (t.result ≡ null)
    × (t.error ≡ none)

abbrev pub IfBuilt : {A : Type 0} → (A → Type 0) → Built A → Type 0
IfBuilt P (built a) = P a
IfBuilt P invalid = Unit
IfBuilt P crashed = Unit

abbrev pub IfSome : Option Task → Type 0
IfSome none = Unit
IfSome (some t) = IsNew t

pub then_built_holds :
    {A B : Type 0} (P : A → Type 0) (Q : B → Type 0) (x : Built A) (next : A → Built B)
    → IfBuilt P x
    → ((a : A) → P a → IfBuilt Q (next a))
    → IfBuilt Q (then_built x next)
then_built_holds P Q (built a) next p f = f a p
then_built_holds P Q invalid next p f = tt
then_built_holds P Q crashed next p f = tt

cons_task-IsNew :
    (t : Option Task) (ts : List Task) → IfSome t → All IsNew ts → All IsNew (cons_task t ts)
cons_task-IsNew none ts p ps = ps
cons_task-IsNew (some t) ts p ps = (p, ps)

-- One step of either loop.
step :
    (first : Built (Option Task)) (rest : Built (List Task))
    → IfBuilt IfSome first
    → IfBuilt (All IsNew) rest
    → IfBuilt (All IsNew) (then_built first (λ t. then_built rest (λ ts. built (cons_task t ts))))
step first rest p ps =
    then_built_holds IfSome (All IsNew) first _ p (λ t q.
      then_built_holds (All IsNew) (All IsNew) rest _ ps (λ ts qs. cons_task-IsNew t ts q qs))

trim_tasks-IsNew : (ts : List Task) → All IsNew ts → All IsNew (trim_tasks ts)
unfolding trim_tasks
trim_tasks-IsNew ts ps =
    if_both (All IsNew) _
      (All-take IsNew max_tasks _ (All-sort_into IsNew (λ t. t.priority) [] ts tt ps)) ps

-- A plan of at most eight new tasks.
abbrev pub NewPlan : Plan → Type 0
NewPlan plan = (length plan.tasks ≤ max_tasks) × All IsNew plan.tasks

trim_tasks_holds :
    (ts : List Task)
    → All IsNew ts
    → (length (trim_tasks ts) ≤ max_tasks) × All IsNew (trim_tasks ts)
trim_tasks_holds ts ps = ((trim_tasks-IsTop ts).1.0, trim_tasks-IsNew ts ps)

module _ (runtime : Runtime) where
  recovered_at-IsNew :
      (i : ℕ) (tc : ToolCall) (path : Option String) → IfSome (recovered_at runtime i tc path)
  unfolding recovered_at make_task mkdir_task
  recovered_at-IsNew i tc none = tt
  recovered_at-IsNew i tc (some path) = ground arith

  arguments_task-IsNew :
      (i : ℕ) (tc : ToolCall) (tool action : String) (v : Value)
      → IfBuilt IfSome (arguments_task runtime i tc tool action v)
  unfolding direct_task make_task
  arguments_task-IsNew i tc tool action (dict input) =
      let path = extract_path_from_args tc.arguments in ground (arith, recovered_at-IsNew i tc path)
  arguments_task-IsNew i tc tool action _ = tt

  call_task-IsNew : (i : ℕ) (tc : ToolCall) → IfBuilt IfSome (call_task runtime i tc)
  unfolding call_task
  call_task-IsNew i tc =
      let (tool, action) = parse_function_name tc.name in
      let given = parse_tool_arguments runtime.loads tc.arguments in
      if_both (IfBuilt IfSome) (contains non_creative_actions action) {yes = built none}
        {no = arguments_task runtime i tc tool action given} tt
        (arguments_task-IsNew i tc tool action given)

  call_tasks-IsNew : (i : ℕ) (tcs : List ToolCall) → IfBuilt (All IsNew) (call_tasks runtime i tcs)
  unfolding call_tasks
  call_tasks-IsNew i [] = tt
  call_tasks-IsNew i (tc ∷ tcs) =
      step (call_task runtime i tc) (call_tasks runtime (suc i) tcs) (call_task-IsNew i tc)
        (call_tasks-IsNew (suc i) tcs)

  pub build_plan_from_tool_calls-IsNew :
      (tcs : List ToolCall) (reasoning goal category : String)
      → IfBuilt NewPlan (build_plan_from_tool_calls runtime tcs reasoning goal category)
  unfolding build_plan_from_tool_calls
  build_plan_from_tool_calls-IsNew tcs reasoning goal category =
      then_built_holds (All IsNew) NewPlan (call_tasks runtime 0 tcs) _ (call_tasks-IsNew 0 tcs)
        (λ ts ps. trim_tasks_holds ts ps)

  module _ {V : Type 0} (registry : Option (ToolRegistry V)) where
    item_task-IsNew :
        (i : ℕ) (item : Fields) (priority : Option ℤ) (used : Option (String × String))
        → IfBuilt IfSome (item_task runtime registry i item priority used)
    unfolding used_task make_task
    item_task-IsNew i item none used = tt
    item_task-IsNew i item (some priority) none = tt
    item_task-IsNew i item (some priority) (some used) = (refl, refl, refl, refl, refl)

    json_tasks-IsNew :
        (i : ℕ) (items : Items) → IfBuilt (All IsNew) (json_tasks runtime registry i items)
    unfolding json_tasks json_task
    json_tasks-IsNew i nil = tt
    json_tasks-IsNew i (cons (dict item) items) =
        step (json_task runtime registry i item) (json_tasks runtime registry (suc i) items)
          (item_task-IsNew i item _ _) (json_tasks-IsNew (suc i) items)
    json_tasks-IsNew i (cons _ items) = json_tasks-IsNew (suc i) items

    listed_plan-IsNew :
        (goal goal_type : String) (completed : Bool) (reasoning : String) (v : Value)
        → IfBuilt NewPlan (listed_plan runtime registry goal goal_type completed reasoning v)
    listed_plan-IsNew goal goal_type completed reasoning (list items) =
        then_built_holds (All IsNew) NewPlan (json_tasks runtime registry 0 items) _
          (json_tasks-IsNew 0 items) (λ ts ps. trim_tasks_holds ts ps)
    listed_plan-IsNew goal goal_type completed reasoning _ = tt

    pub build_plan_from_json-IsNew :
        (v : Value) (goal goal_type : String)
        → IfBuilt NewPlan (build_plan_from_json runtime registry v goal goal_type)
    unfolding build_plan_from_object
    build_plan_from_json-IsNew (dict answer) goal goal_type =
        let completed = truthy (get_or (get "goal_completed" answer) (bool false)) in
        let tasks_raw = get_or (get "tasks" answer) (list nil) in
        let reasoning = text_field runtime "reasoning" "" answer in
        let direct = truthy (get_or (get "direct_answer" answer) (bool (not (truthy tasks_raw)))) in
        if_both (IfBuilt NewPlan) (completed || not (truthy tasks_raw))
          {yes = built (no_tasks runtime registry goal goal_type reasoning direct completed)}
          {no = listed_plan runtime registry goal goal_type completed reasoning tasks_raw}
          (omega arith, tt) (listed_plan-IsNew goal goal_type completed reasoning tasks_raw)
    build_plan_from_json-IsNew _ goal goal_type = tt
