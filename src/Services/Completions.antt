-- ===== src/Services/Completions.antt =====
-- `complete` and `complete_with_tools` of agentflow/services/llm_service.py. An exception that
-- leaves `complete` is a failed reply. Metrics and logs are left out; the tools and the choice among
-- them that a request offers are fixed with the provider.
pub mod Nodes
pub mod Budget
pub mod Attempts
use omni_forge.Base.{
  Bool, true, false, Option, none, some, String, str_eq, if◌then◌else◌, List, [], ◌∷◌, ℕ, ◌+◌, ltb,
  not, get_or, get_last?,
}
use omni_forge.Base.Words.{text_take}
use omni_forge.Conversation.Session.{SessionState, budget_remaining, add_token_usage}
use omni_forge.Services.Llm.{
  LlmError, budget_exceeded, llm_unavailable, other, Reply, answered, failed, Message, ToolCall,
  LlmResponse, Provider, LlmService, estimate_tokens, input_tokens, content_of, call_with_retry,
  retry, get_breaker, put_breaker, pause_always, or_number, max_retries,
}
use Prim.Native.String.{◌++◌ as text_append}

abbrev pub fallback_text : String → String
fallback_text text = text_append "[fallback] " (text_take 160 text)

abbrev pub fallback_or_empty : String → String
fallback_or_empty text = if str_eq text "" then "" else fallback_text text

abbrev last_or_empty : Option Message → String
last_or_empty none = ""
last_or_empty (some m) = fallback_or_empty (content_of m)

abbrev pub without_client : Option String → Option (List Message) → String
without_client (some prompt) messages = fallback_text prompt
without_client none none = ""
without_client none (some messages) = last_or_empty (get_last? messages)

abbrev pub chosen_messages : Option String → Option (List Message) → Option (List Message)
chosen_messages prompt (some messages) = some messages
chosen_messages none none = none
chosen_messages (some prompt) none = some (record { role = "user"; content = some prompt } ∷ [])

abbrev pub over_budget : ℕ → Option SessionState → List Message → Bool
over_budget budget none messages = false
over_budget budget (some s) messages = ltb (budget_remaining budget s) (input_tokens messages)

abbrev pub charged : ℕ → Option SessionState → Option SessionState
charged tokens none = none
charged tokens (some s) = some (add_token_usage tokens s)

-- `messages[-1]` of no messages is an IndexError.
abbrev last_reply : Option Message → Reply String
last_reply none = failed (other "list index out of range")
last_reply (some m) = answered (fallback_or_empty (content_of m))

abbrev pub after_failure : Option String → List Message → LlmError → Reply String
after_failure prompt messages budget_exceeded = failed budget_exceeded
after_failure (some prompt) messages e = answered (fallback_text prompt)
after_failure none messages e = last_reply (get_last? messages)

-- A reply with what the call has changed.
pub record Completion (W : Type 0) : Type 0 where
  pub reply : Reply String
  pub session : Option SessionState
  pub service : LlmService
  pub world : W

module _ {W : Type 0} (provider : Provider W) (budget : ℕ) where
  open provider use {create_tools}

  abbrev pub charge_reply :
      Option String
      → Option SessionState
      → List Message
      → Reply String × LlmService × W
      → Completion W
  charge_reply prompt session messages (answered text, service, w) = record {
    reply = answered text;
    session = charged (input_tokens messages + estimate_tokens text) session;
    service = service;
    world = w;
  }
  charge_reply prompt session messages (failed e, service, w) = record {
    reply = after_failure prompt messages e;
    session = session;
    service = service;
    world = w;
  }

  -- `complete` from the check of the budget on
  unfoldable pub complete_messages :
      Option String
      → List Message
      → Option SessionState
      → String
      → Option ℕ
      → Option String
      → LlmService
      → W
      → Completion W
  unfolding call_with_retry input_tokens estimate_tokens add_token_usage budget_remaining
  complete_messages prompt messages session node_name max_tokens model service w =
      if over_budget budget session messages
      then record {
        reply = failed budget_exceeded;
        session = session;
        service = service;
        world = w;
      }
      else charge_reply prompt session messages
          (call_with_retry provider messages node_name max_tokens model service w)

  abbrev pub complete_chosen :
      Option String
      → Option (List Message)
      → Option SessionState
      → String
      → Option ℕ
      → Option String
      → LlmService
      → W
      → Completion W
  complete_chosen prompt none session node_name max_tokens model service w = record {
    reply = answered "";
    session = session;
    service = service;
    world = w;
  }
  complete_chosen prompt (some messages) session node_name max_tokens model service w =
      complete_messages prompt messages session node_name max_tokens model service w

  unfoldable pub complete :
      Option String
      → Option (List Message)
      → Option SessionState
      → String
      → Option ℕ
      → Option String
      → LlmService
      → W
      → Completion W
  unfolding complete_messages
  complete prompt messages session node_name max_tokens model service w =
      if not service.has_client
      then record {
        reply = answered (without_client prompt messages);
        session = session;
        service = service;
        world = w;
      }
      else complete_chosen prompt (chosen_messages prompt messages) session node_name max_tokens
          model service w

  -- The response of a message, or the degraded one by which the planner sees the failure.
  abbrev response_of : Reply (Option String × List ToolCall) → LlmResponse
  response_of (answered (content, tool_calls)) = record {
    content = get_or content "";
    tool_calls = tool_calls;
    degraded = false;
  }
  response_of (failed e) = record {
    content = "[LLM_UNAVAILABLE]";
    tool_calls = [];
    degraded = true;
  }

  unfoldable pub complete_with_tools :
      List Message → String → Option ℕ → LlmService → W → LlmResponse × LlmService × W
  unfolding retry get_breaker put_breaker
  complete_with_tools messages node_name max_tokens service w =
      let func =
        create_tools service.model_name messages (or_number max_tokens service.max_tokens) in
      let (reply, b, w') =
        retry provider (pause_always provider) func 0 max_retries (get_breaker node_name service)
          w in
      elim service.has_client [
        | false ↦ (record { content = ""; tool_calls = []; degraded = false }, service, w)
        | true ↦ (response_of reply, put_breaker node_name b service, w')
      ]
