-- ===== src/Scenarios/Completions.antt =====
-- The theorems on the client of the LLM at concrete inputs: a world that counts requests, and a
-- provider that sends each of them three times and fails the first two calls.
use omni_forge.Base.{
  ◌≡◌, refl, true, none, some, if◌then◌else◌, List, [], ◌∷◌, ℕ, suc, ◌+◌, ◌*◌, ◌<◌, ◌≤◌, ◌⊎◌, arith,
  ltb,
}
use omni_forge.Results.{returned, raised}
use omni_forge.Conversation.Session.{new_session}
use omni_forge.Services.Breaker.{
  new_breaker, Section, probe, success, failure, read_state, enter_all,
}
use omni_forge.Services.Breaker.Phases.{working, phase, moved_all, seen, enter_all-refines}
use omni_forge.Services.Llm.{Provider, LlmService, Message, input_tokens, get_breaker}
use omni_forge.Services.Completions.{complete}
use omni_forge.Services.Completions.Nodes.{complete-get_breaker}
use omni_forge.Services.Completions.Budget.{Refused, Answers, complete-Answers}
use omni_forge.Services.Completions.Attempts.{CountsRequests, complete-Bounded}

abbrev sections : List Section
sections = failure 3 ∷ failure 4 ∷ probe ∷ probe ∷ failure 17 ∷ success ∷ failure 18 ∷ []

enter_all-refines_example :
    let b = enter_all sections (new_breaker 2 10) in
    (phase b ≡ moved_all 2 10 sections (working 0))
    × ((now : ℕ) → phase (read_state now b) ≡ seen 2 10 now (moved_all 2 10 sections (working 0)))
enter_all-refines_example = enter_all-refines 2 10 (omega arith) sections

abbrev provider : Provider ℕ
provider = record {
  clock = λ w. w;
  jitter = λ w. (7, w);
  sleep = λ n w. w;
  create =
      λ model messages tokens w. (if ltb w 6 then raised "timeout" else returned "answer", w + 3);
  create_tools = λ model messages tokens w. (raised "not called here", suc w);
}

provider-CountsRequests : CountsRequests provider (λ w. w) 2
provider-CountsRequests = record {
  by_create = λ model messages tokens w. omega arith;
  by_sleep = λ n w. refl;
  by_jitter = λ w. refl;
}

abbrev service : LlmService
service = record {
  has_client = true;
  model_name = "model";
  max_tokens = 1000;
  breakers = ("answer", new_breaker 5 300000) ∷ [];
}

abbrev question : List Message
question = record { role = "user"; content = some "what is the state of the repository" } ∷ []

complete-get_breaker_example :
    get_breaker "answer"
      (complete provider 50 none (some question) none "planner" none none service 0).service
    ≡ get_breaker "answer" service
complete-get_breaker_example =
    complete-get_breaker provider 50 "planner" "answer" refl none (some question) none none none
      service 0

complete-Bounded_example :
    (complete provider 50 none (some question) none "planner" none none service 0).world ≤ 0 + 3 * 3
complete-Bounded_example =
    complete-Bounded provider (λ w. w) 2 provider-CountsRequests 50 none none "planner" none none
      service (some question) 0

complete-Answers_example :
    let after =
      complete provider 50 none (some question) (some new_session) "planner" none none service 0 in
    ((0 < input_tokens question) × (50 < 0 + input_tokens question)
      → Refused provider 50 none new_session "planner" none none service 0 after)
    × ((input_tokens question ≡ 0) ⊎ (0 + input_tokens question ≤ 50)
        → Answers provider 50 none new_session "planner" none none service 0
            (input_tokens question)
            after)
complete-Answers_example =
    complete-Answers provider 50 none new_session "planner" none none service 0 (some question)
      question refl refl refl
