-- ===== src/Services/Completions/Nodes.antt =====
-- The circuit breakers of different nodes are independent.
use omni_forge.Base.{
  ◌≡◌, refl, ◌∙◌, ap, false, Option, none, some, String, str_eq, List, ℕ, if_both, not,
}
use omni_forge.Base.Keyed.{lookup, lookup-insert}
use omni_forge.Conversation.Session.{SessionState}
use omni_forge.Services.Breaker.{CircuitBreaker}
use omni_forge.Services.Llm.{
  Reply, answered, failed, Message, Provider, LlmService, node_of, never, breaker_or_new,
  get_breaker, put_breaker, stored, call_with_retry,
}
use omni_forge.Services.Completions.{
  charge_reply, over_budget, chosen_messages, complete_messages, complete_chosen, complete,
  Completion,
}

get_breaker-put_breaker :
    (node j : String) (b : CircuitBreaker) (service : LlmService)
    → str_eq node j ≡ false
    → get_breaker j (put_breaker node b service) ≡ get_breaker j service
unfolding get_breaker put_breaker
get_breaker-put_breaker node j b service h =
    ap breaker_or_new {y = lookup node_of j service.breakers}
      (lookup-insert node_of never (node, b) j service.breakers ∙ rw h refl)

module _ {W : Type 0} (provider : Provider W) (budget : ℕ) (node j : String)
    (apart : str_eq node j ≡ false) where
  charge_reply-get_breaker :
      (prompt : Option String) (session : Option SessionState) (messages : List Message)
      (service : LlmService) (r : Reply String × CircuitBreaker × W)
      → get_breaker j
          (charge_reply provider budget prompt session messages
            (stored provider node service r)).service
        ≡ get_breaker j service
  charge_reply-get_breaker prompt session messages service (answered text, b, w) =
      get_breaker-put_breaker node j b service apart
  charge_reply-get_breaker prompt session messages service (failed e, b, w) =
      get_breaker-put_breaker node j b service apart

  abbrev Kept : LlmService → Completion W → Type 0
  Kept service c = get_breaker j c.service ≡ get_breaker j service

  complete_messages-Kept :
      (prompt : Option String) (messages : List Message) (session : Option SessionState)
      (max_tokens : Option ℕ) (model : Option String) (service : LlmService) (w : W)
      → Kept service (
          complete_messages provider budget prompt messages session node max_tokens model service w)
  unfolding complete_messages call_with_retry
  complete_messages-Kept prompt messages session max_tokens model service w =
      if_both (Kept service) (over_budget budget session messages) refl
        (charge_reply-get_breaker prompt session messages service _)

  complete_chosen-Kept :
      (prompt : Option String) (messages : Option (List Message)) (session : Option SessionState)
      (max_tokens : Option ℕ) (model : Option String) (service : LlmService) (w : W)
      → Kept service
          (complete_chosen provider budget prompt messages session node max_tokens model service w)
  complete_chosen-Kept prompt none session max_tokens model service w = refl
  complete_chosen-Kept prompt (some messages) session max_tokens model service w =
      complete_messages-Kept prompt messages session max_tokens model service w

  -- A completion for one node leaves the circuit breaker of every other node as it was.
  pub complete-get_breaker :
      (prompt : Option String) (messages : Option (List Message)) (session : Option SessionState)
      (max_tokens : Option ℕ) (model : Option String) (service : LlmService) (w : W)
      → get_breaker j
          (complete provider budget prompt messages session node max_tokens model service w).service
        ≡ get_breaker j service
  unfolding complete
  complete-get_breaker prompt messages session max_tokens model service w =
      if_both (Kept service) (not service.has_client) refl (
        complete_chosen-Kept prompt (chosen_messages prompt messages) session max_tokens model
          service w)
