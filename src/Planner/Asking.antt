-- ===== src/Planner/Asking.antt =====
-- agentflow/agents/planner/agent.py: the ways in which the LLM is asked for a plan, and which
-- answer is used. The prompts are a parameter of the LLM's; its state is threaded through `W`.
pub mod Plans
use omni_forge.Base.{
  Bool, true, false, Option, none, some, String, str_eq, if◌then◌else◌, List, [], ◌∷◌, not, ◌||◌,
  is_empty,
}
use omni_forge.Base.Text.{strip}
use omni_forge.Values.{Value, truthy}
use omni_forge.Workflow.State.{Plan}
use omni_forge.Registry.{ToolRegistry}
use omni_forge.Services.Llm.{ToolCall, LlmResponse}
use omni_forge.Planner.Arguments.{parse_json}
use omni_forge.Planner.Fill.{CodeRequest}
use omni_forge.Planner.Build.{Runtime, Built, built, invalid, crashed, new_plan}
use omni_forge.Planner.Build.Calls.{build_plan_from_tool_calls}
use omni_forge.Planner.Build.Json.{build_plan_from_json, build_plan_from_object}
use Prim.Native.String.{◌++◌ as text_append}

-- What a prompt for a plan is made of.
pub record PlanRequest : Type 0 where
  pub goal : String
  pub goal_type : String
  pub context_str : String
  pub replan_context : String

-- The calls of the LLM service; `none` is an exception.
pub record Llm (W : Type 0) : Type 0 where
  pub is_mock : Bool
  pub ask_tools : PlanRequest → W → Option LlmResponse × W
  pub ask_json : PlanRequest → W → Option String × W
  pub complete_code : CodeRequest → W → Option String × W
  pub complete_design : String → List String → W → Option String × W

abbrev pub as_plan : Built Plan → Built (Option Plan)
as_plan (built plan) = built (some plan)
as_plan invalid = crashed
as_plan crashed = crashed

-- A ValueError, KeyError or TypeError gives no plan; another exception ends the run.
abbrev pub tolerated : Built Plan → Built (Option Plan)
tolerated (built plan) = built (some plan)
tolerated invalid = built none
tolerated crashed = crashed

-- `plan.tasks`, as a condition
abbrev pub has_tasks : Plan → Bool
has_tasks plan = not (is_empty plan.tasks)

-- `plan.tasks or plan.goal_completed`
abbrev pub is_usable : Plan → Bool
is_usable plan = has_tasks plan || plan.goal_completed

abbrev pub used_if : (Plan → Bool) → Option Plan → Option Plan
used_if test none = none
used_if test (some plan) = if test plan then some plan else none

module _ {V W : Type 0} (runtime : Runtime) (registry : Option (ToolRegistry V)) (llm : Llm W) where
  open llm use {ask_tools, ask_json}

  abbrev plan_of_value :
      (Built Plan → Built (Option Plan)) → String → String → Option Value → Built (Option Plan)
  plan_of_value read goal goal_type none = built none
  plan_of_value read goal goal_type (some v) =
      read (build_plan_from_json runtime registry v goal goal_type)

  -- `if parsed:`
  abbrev not_empty : Option Value → Option Value
  not_empty none = none
  not_empty (some v) = if truthy v then some v else none

  abbrev pub response_plan : PlanRequest → Option LlmResponse → Built (Option Plan)
  response_plan request none = built none
  response_plan request (some response) =
      let content = strip response.content in
      let parsed = not_empty (parse_json runtime.loads content) in
      let from_calls = as_plan (
        build_plan_from_tool_calls runtime response.tool_calls response.content request.goal
          request.goal_type) in
      if not (is_empty response.tool_calls)
      then from_calls
      else if response.degraded || str_eq content ""
      then built none
      else plan_of_value as_plan request.goal request.goal_type parsed

  unfoldable pub fc_plan : PlanRequest → W → Built (Option Plan) × W
  unfolding strip parse_json build_plan_from_tool_calls build_plan_from_object
  fc_plan request w =
      let (response, w') = ask_tools request w in
      if str_eq request.goal "" then (built none, w) else (response_plan request response, w')

  abbrev pub raw_plan : PlanRequest → Option String → Built (Option Plan)
  raw_plan request none = built none
  raw_plan request (some raw) =
      if str_eq (strip raw) ""
      then built none
      else plan_of_value tolerated request.goal request.goal_type (parse_json runtime.loads raw)

  unfoldable pub llm_plan : PlanRequest → W → Built (Option Plan) × W
  unfolding strip parse_json build_plan_from_object
  llm_plan request w =
      let (raw, w') = ask_json request w in
      if str_eq request.goal "" then (built none, w) else (raw_plan request raw, w')

  abbrev pub Asked : Type 0
  Asked = W → Built (Option Plan) × W

  -- The answer of the last one that is asked, or the fallback.
  abbrev pub plan_or : Plan → W → Option Plan → Built Plan × W
  plan_or fallback w none = (built fallback, w)
  plan_or fallback w (some plan) = (built plan, w)

  abbrev pub last_resort : Plan → Built (Option Plan) × W → Built Plan × W
  last_resort fallback (built answer, w) = plan_or fallback w (used_if is_usable answer)
  last_resort fallback (_, w) = (crashed, w)

  abbrev pub plan_or_ask : Asked → Plan → W → Option Plan → Built Plan × W
  plan_or_ask second fallback w none = last_resort fallback (second w)
  plan_or_ask second fallback w (some plan) = (built plan, w)

  abbrev pub or_ask : (Plan → Bool) → Asked → Plan → Built (Option Plan) × W → Built Plan × W
  or_ask test second fallback (built answer, w) =
      plan_or_ask second fallback w (used_if test answer)
  or_ask test second fallback (_, w) = (crashed, w)

  -- `_generate_more_tasks`: JSON first, which can hold several files.
  unfoldable pub generate_more_tasks : PlanRequest → W → Built Plan × W
  unfolding fc_plan llm_plan
  generate_more_tasks request w =
      or_ask is_usable (fc_plan request)
        (new_plan request.goal request.goal_type [] false false "无法生成新任务") (llm_plan request w)

  -- `_llm_generate_tasks`: function calls first, of which only tasks count.
  unfoldable pub llm_generate_tasks : PlanRequest → W → Built Plan × W
  unfolding fc_plan llm_plan
  llm_generate_tasks request w =
      or_ask has_tasks (llm_plan request)
        (new_plan request.goal request.goal_type [] true false
          (text_append "LLM 规划不可用（goal_type=" (text_append request.goal_type "），使用降级回答模式")))
        (fc_plan request w)

  -- The first part of `_handle_non_project`.
  unfoldable pub plan_or_answer : PlanRequest → W → Built Plan × W
  unfolding fc_plan llm_plan
  plan_or_answer request w =
      or_ask is_usable (llm_plan request)
        (new_plan request.goal request.goal_type [] true true
          (text_append "无法生成计划（goal_type=" (text_append request.goal_type "），直接回答")))
        (fc_plan request w)
