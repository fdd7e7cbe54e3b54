-- ===== src/Services/Completions/Attempts.antt =====
-- How often a completion calls the provider.
use omni_forge.Base.{
  ◌≡◌, ◌∙◌, Option, none, some, String, List, ℕ, zero, suc, ◌+◌, ◌*◌, ◌≤◌, if_both, not, arith,
}
use omni_forge.Conversation.Session.{SessionState}
use omni_forge.Results.{Call, returned, raised}
use omni_forge.Services.Breaker.{CircuitBreaker, is_open, read_state}
use omni_forge.Services.Llm.{
  LlmError, budget_exceeded, llm_unavailable, other, Reply, answered, failed, Message, Provider,
  LlmService, get_breaker, after_call, call_through, resumed, retry, stored, call_with_retry,
  do_call, pause, max_retries,
}
use omni_forge.Services.Completions.{
  charge_reply, over_budget, chosen_messages, complete_messages, complete_chosen, complete,
  Completion,
}

module _ {W : Type 0} (provider : Provider W) (load : W → ℕ) where
  open provider use {clock, jitter, sleep, create}

  -- `load` counts the requests that the provider has had: a call of the client sends its request and
  -- repeats it at most `client_retries` times (`max_retries` of the OpenAI client, which is 2 where,
  -- as here, the constructor is not given it), and to sleep or to draw a number adds none.
  pub record CountsRequests (client_retries : ℕ) : Type 0 where
    pub by_create :
        (model : String) (messages : List Message) (tokens : ℕ) (w : W)
        → load (create model messages tokens w).1 ≤ load w + suc client_retries
    pub by_sleep : (n : ℕ) (w : W) → load (sleep n w) ≡ load w
    pub by_jitter : (w : W) → load (jitter w).1 ≡ load w

  module _ (client_retries : ℕ) (counts : CountsRequests client_retries) where
    pause_load : (attempt : ℕ) (e : LlmError) (w : W) → load (pause provider attempt e w) ≡ load w
    pause_load attempt llm_unavailable w = counts.by_jitter w
    pause_load attempt budget_exceeded w = counts.by_sleep _ (jitter w).1 ∙ counts.by_jitter w
    pause_load attempt (other text) w = counts.by_sleep _ (jitter w).1 ∙ counts.by_jitter w

    -- At most so many requests have been made behind a call.
    abbrev Within : ℕ → Reply String × CircuitBreaker × W → Type 0
    Within n r = load r.2 ≤ n

    module _ (func : W → Call String × W)
        (by_func : (w : W) → load (func w).1 ≤ load w + suc client_retries) where
      after_call-Within :
          (b : CircuitBreaker) (r : Call String × W) → Within (load r.1) (after_call provider b r)
      after_call-Within b (returned a, w) = omega arith
      after_call-Within b (raised text, w) = omega arith

      call_through-Within :
          (b : CircuitBreaker) (w : W)
          → Within (load w + suc client_retries) (call_through provider func b w)
      unfolding call_through
      call_through-Within b w =
          let b' = read_state (clock w) b in
          let called : Within (load w + suc client_retries) (after_call provider b' (func w)) =
            omega (arith, after_call-Within b' (func w), by_func w) in
          if_both (Within (load w + suc client_retries)) (is_open b'.state) (omega arith) called

      resumed-Within :
          (attempt n m : ℕ) (next : CircuitBreaker → W → Reply String × CircuitBreaker × W)
          → ((b : CircuitBreaker) (w : W) → Within (load w + n) (next b w))
          → (r : Reply String × CircuitBreaker × W) → Within m r
          → Within (m + n) (resumed provider (pause provider attempt) next r)
      resumed-Within attempt n m next h (answered a, b, w) within = omega (arith, within)
      resumed-Within attempt n m next h (failed e, b, w) within =
          let w' = pause provider attempt e w in
          omega (arith, within, h b w', pause_load attempt e w)

      retry-Within :
          (attempt left : ℕ) (b : CircuitBreaker) (w : W)
          → Within
              (load w + suc left * suc client_retries)
              (retry provider (pause provider) func attempt left b w)
      unfolding retry
      retry-Within attempt zero b w = omega (arith, call_through-Within b w)
      retry-Within attempt (suc left) b w = omega (
        arith,
        resumed-Within attempt (suc left * suc client_retries) (load w + suc client_retries)
            (retry provider (pause provider) func (suc attempt) left)
            (retry-Within (suc attempt) left) (call_through provider func b w)
            (call_through-Within b w),
      )

    module _ (budget : ℕ) (prompt : Option String) (session : Option SessionState) (node : String)
        (max_tokens : Option ℕ) (model : Option String) (service : LlmService) where
      abbrev Bounded : W → Completion W → Type 0
      Bounded w c = load c.world ≤ load w + 3 * suc client_retries

      charge_reply-Bounded :
          (messages : List Message) (w : W) (r : Reply String × CircuitBreaker × W)
          → Within (load w + 3 * suc client_retries) r
          → Bounded w (
              charge_reply provider budget prompt session messages (stored provider node service r))
      charge_reply-Bounded messages w (answered text, b, w') within = within
      charge_reply-Bounded messages w (failed e, b, w') within = within

      complete_messages-Bounded :
          (messages : List Message) (w : W)
          → Bounded w (
              complete_messages provider budget prompt messages session node max_tokens model
                service w)
      unfolding complete_messages call_with_retry
      complete_messages-Bounded messages w =
          let func = do_call provider messages max_tokens model service in
          let b = get_breaker node service in
          if_both (Bounded w) (over_budget budget session messages) (omega arith) (
            charge_reply-Bounded messages w (retry provider (pause provider) func 0 max_retries b w)
              (retry-Within func (counts.by_create _ messages _) 0 max_retries b w))

      complete_chosen-Bounded :
          (messages : Option (List Message)) (w : W)
          → Bounded w (
              complete_chosen provider budget prompt messages session node max_tokens model service
                w)
      complete_chosen-Bounded none w = omega arith
      complete_chosen-Bounded (some messages) w = complete_messages-Bounded messages w

      -- Where a call of the client sends its request at most `client_retries + 1` times, a completion
      -- sends at most three times as many requests: nine by the client's default of two retries.
      pub complete-Bounded :
          (messages : Option (List Message)) (w : W)
          → load
              (complete provider budget prompt messages session node max_tokens model service
                w).world
            ≤ load w + 3 * suc client_retries
      unfolding complete
      complete-Bounded messages w =
          if_both (Bounded w) (not service.has_client) (omega arith)
            (complete_chosen-Bounded (chosen_messages prompt messages) w)
