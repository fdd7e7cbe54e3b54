-- ===== src/Planner/Asking/Plans.antt =====
-- The plans that asking the LLM ends in.
use omni_forge.Base.{
  ◌≡◌, refl, Bool, true, false, Option, none, some, String, str_eq, if_both, is_empty, not, ◌||◌,
  arith, if◌then◌else◌,
}
use omni_forge.Base.Text.{strip}
use omni_forge.Values.{Value}
use omni_forge.Planner.Arguments.{parse_json}
use omni_forge.Workflow.State.{Plan}
use omni_forge.Registry.{ToolRegistry}
use omni_forge.Services.Llm.{LlmResponse}
use omni_forge.Planner.Build.{Runtime, Built, built, invalid, crashed}
use omni_forge.Planner.Build.Shape.{
  IfBuilt, NewPlan, build_plan_from_tool_calls-IsNew, build_plan_from_json-IsNew,
}
use omni_forge.Planner.Asking.{
  PlanRequest, Llm, as_plan, tolerated, used_if, is_usable, not_empty, plan_of_value, response_plan,
  fc_plan, raw_plan, llm_plan, plan_or, last_resort, plan_or_ask, or_ask, Asked,
  generate_more_tasks, llm_generate_tasks, plan_or_answer,
}

-- What holds of the plan, if there is one.
abbrev pub IfPlan : (Plan → Type 0) → Option Plan → Type 0
IfPlan P none = Unit
IfPlan P (some plan) = P plan

-- A plan with tasks, or one that is completed.
abbrev pub UsablePlan : Plan → Type 0
UsablePlan plan = NewPlan plan × (is_usable plan ≡ true)

module _ (P : Plan → Type 0) where
  as_plan_holds : (b : Built Plan) → IfBuilt P b → IfBuilt (IfPlan P) (as_plan b)
  as_plan_holds (built plan) h = h
  as_plan_holds invalid h = tt
  as_plan_holds crashed h = tt

  tolerated_holds : (b : Built Plan) → IfBuilt P b → IfBuilt (IfPlan P) (tolerated b)
  tolerated_holds (built plan) h = h
  tolerated_holds invalid h = tt
  tolerated_holds crashed h = tt

  tested :
      (test : Plan → Bool) (plan : Plan) (b : Bool)
      → P plan
      → test plan ≡ b
      → IfPlan (λ p. P p × (test p ≡ true)) (if b then some plan else none)
  tested test plan true h e = (h, e)
  tested test plan false h e = tt

  -- The plan that is used passes the test.
  used_if_holds :
      (test : Plan → Bool) (answer : Option Plan)
      → IfPlan P answer
      → IfPlan (λ plan. P plan × (test plan ≡ true)) (used_if test answer)
  used_if_holds test none h = tt
  used_if_holds test (some plan) h = tested test plan (test plan) h refl

module _ {V W : Type 0} (runtime : Runtime) (registry : Option (ToolRegistry V)) (llm : Llm W) where
  -- Answers of which `Q` holds, and which pass the test, give plans of which `P` holds.
  module _ (Q P : Plan → Type 0) where
    plan_or_holds :
        (test : Plan → Bool) (fallback : Plan) (w : W) (answer : Option Plan)
        → ((plan : Plan) → Q plan → test plan ≡ true → P plan)
        → P fallback
        → IfPlan (λ plan. Q plan × (test plan ≡ true)) answer
        → IfBuilt P (plan_or runtime registry llm fallback w answer).0
    plan_or_holds test fallback w none use_it f h = f
    plan_or_holds test fallback w (some plan) use_it f h = use_it plan h.0 h.1

    last_resort_holds :
        (fallback : Plan) (answer : Built (Option Plan) × W)
        → ((plan : Plan) → Q plan → is_usable plan ≡ true → P plan)
        → P fallback
        → IfBuilt (IfPlan Q) answer.0
        → IfBuilt P (last_resort runtime registry llm fallback answer).0
    last_resort_holds fallback (built answer, w) use_it f h =
        plan_or_holds is_usable fallback w (used_if is_usable answer) use_it f
          (used_if_holds Q is_usable answer h)
    last_resort_holds fallback (_, w) use_it f h = tt

    plan_or_ask_holds :
        (test : Plan → Bool) (second : Asked runtime registry llm) (fallback : Plan) (w : W)
        (answer : Option Plan)
        → ((plan : Plan) → Q plan → test plan ≡ true → P plan)
        → ((plan : Plan) → Q plan → is_usable plan ≡ true → P plan)
        → P fallback
        → ((v : W) → IfBuilt (IfPlan Q) (second v).0)
        → IfPlan (λ plan. Q plan × (test plan ≡ true)) answer
        → IfBuilt P (plan_or_ask runtime registry llm second fallback w answer).0
    plan_or_ask_holds test second fallback w none use_it use_last f later h =
        last_resort_holds fallback (second w) use_last f (later w)
    plan_or_ask_holds test second fallback w (some plan) use_it use_last f later h =
        use_it plan h.0 h.1

    or_ask_holds :
        (test : Plan → Bool) (second : Asked runtime registry llm) (fallback : Plan)
        (answer : Built (Option Plan) × W)
        → ((plan : Plan) → Q plan → test plan ≡ true → P plan)
        → ((plan : Plan) → Q plan → is_usable plan ≡ true → P plan)
        → P fallback
        → ((v : W) → IfBuilt (IfPlan Q) (second v).0)
        → IfBuilt (IfPlan Q) answer.0
        → IfBuilt P (or_ask runtime registry llm test second fallback answer).0
    or_ask_holds test second fallback (built answer, w) use_it use_last f later h =
        plan_or_ask_holds test second fallback w (used_if test answer) use_it use_last f later
          (used_if_holds Q test answer h)
    or_ask_holds test second fallback (_, w) use_it use_last f later h = tt

  value_holds :
      (read : Built Plan → Built (Option Plan)) (goal goal_type : String) (v : Option Value)
      → ((b : Built Plan) → IfBuilt NewPlan b → IfBuilt (IfPlan NewPlan) (read b))
      → IfBuilt (IfPlan NewPlan) (plan_of_value runtime registry llm read goal goal_type v)
  value_holds read goal goal_type none keep = tt
  value_holds read goal goal_type (some v) keep =
      keep _ (build_plan_from_json-IsNew runtime registry v goal goal_type)

  response_plan_holds :
      (request : PlanRequest) (response : Option LlmResponse)
      → IfBuilt (IfPlan NewPlan) (response_plan runtime registry llm request response)
  response_plan_holds request none = tt
  response_plan_holds request (some response) =
      let content = strip response.content in
      let parsed = not_empty runtime registry llm (parse_json runtime.loads content) in
      let value =
        plan_of_value runtime registry llm as_plan request.goal request.goal_type parsed in
      if_both (IfBuilt (IfPlan NewPlan)) (not (is_empty response.tool_calls))
        (as_plan_holds NewPlan _ (
          build_plan_from_tool_calls-IsNew runtime response.tool_calls response.content request.goal
            request.goal_type))
        (if_both (IfBuilt (IfPlan NewPlan)) (response.degraded || str_eq content "")
          {yes = built none} {no = value} tt
          (value_holds as_plan request.goal request.goal_type parsed (as_plan_holds NewPlan)))

  raw_plan_holds :
      (request : PlanRequest) (raw : Option String)
      → IfBuilt (IfPlan NewPlan) (raw_plan runtime registry llm request raw)
  raw_plan_holds request none = tt
  raw_plan_holds request (some raw) =
      let parsed = parse_json runtime.loads raw in
      let value =
        plan_of_value runtime registry llm tolerated request.goal request.goal_type parsed in
      if_both (IfBuilt (IfPlan NewPlan)) (str_eq (strip raw) "") {yes = built none} {no = value} tt
        (value_holds tolerated request.goal request.goal_type parsed (tolerated_holds NewPlan))

  abbrev Good : Built (Option Plan) × W → Type 0
  Good answer = IfBuilt (IfPlan NewPlan) answer.0

  fc_plan_holds : (request : PlanRequest) (w : W) → Good (fc_plan runtime registry llm request w)
  unfolding fc_plan
  fc_plan_holds request w =
      let (response, w') = llm.ask_tools request w in
      if_both Good (str_eq request.goal "") {yes = (built none, w)}
        {no = (response_plan runtime registry llm request response, w')} tt
        (response_plan_holds request response)

  llm_plan_holds : (request : PlanRequest) (w : W) → Good (llm_plan runtime registry llm request w)
  unfolding llm_plan
  llm_plan_holds request w =
      let (raw, w') = llm.ask_json request w in
      if_both Good (str_eq request.goal "") {yes = (built none, w)}
        {no = (raw_plan runtime registry llm request raw, w')} tt (raw_plan_holds request raw)

  -- Whatever the LLM answers, a plan that is asked of it, for a new project, for more tasks or for
  -- another goal, has at most eight tasks, each TODO, of the planner and without dependencies,
  -- result or error; the plan for another goal moreover has tasks or is completed.
  pub asked-NewPlan :
      (request : PlanRequest) (w : W)
      → IfBuilt NewPlan (llm_generate_tasks runtime registry llm request w).0
        × IfBuilt NewPlan (generate_more_tasks runtime registry llm request w).0
        × IfBuilt UsablePlan (plan_or_answer runtime registry llm request w).0
  unfolding llm_generate_tasks generate_more_tasks plan_or_answer
  asked-NewPlan request w =
      let by_calls = fc_plan_holds request in
      let by_json = llm_plan_holds request in
      (
        or_ask_holds NewPlan NewPlan _ _ _ _ (λ p h e. h) (λ p h e. h) (omega arith, tt) by_json
            (by_calls w),
        or_ask_holds NewPlan NewPlan _ _ _ _ (λ p h e. h) (λ p h e. h) (omega arith, tt) by_calls
            (by_json w),
        or_ask_holds NewPlan UsablePlan _ _ _ _ (λ p h e. (h, e)) (λ p h e. (h, e))
            ((omega arith, tt), refl) by_json (by_calls w),
      )
