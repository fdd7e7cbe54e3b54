-- ===== src/Services/Completions/Budget.antt =====
-- A completion within the budget of its session is answered, and one over it is refused.
use omni_forge.Base.{
  ◌≡◌, refl, sym, ◌∙◌, ap, subst, Bool, true, false, Option, none, some, String, List, [], ◌∷◌, ℕ,
  zero, suc, ◌+◌, ◌<◌, ◌≤◌, ◌⊎◌, inl, inr, if◌then◌else◌, not, ◌||◌, is_some, is_empty, arith,
  get_last?, true_false, false_true, if_both,
}
use omni_forge.Conversation.Session.{SessionState, budget_remaining, add_token_usage}
use omni_forge.Results.{Call, returned, raised}
use omni_forge.Services.Breaker.{CircuitBreaker, is_open, read_state}
use omni_forge.Services.Llm.{
  LlmError, budget_exceeded, llm_unavailable, other, Reply, answered, failed, Message, Provider,
  LlmService, estimate_tokens, input_tokens, get_breaker, after_call, call_through, resumed, retry,
  call_with_retry, do_call, pause, max_retries,
}
use omni_forge.Services.Completions.{
  charge_reply, over_budget, chosen_messages, complete_messages, complete_chosen, complete,
  Completion, after_failure, last_reply,
}

abbrev NotBudget {ℓ} : {A : Type ℓ} → Reply A → Type 0
NotBudget (failed budget_exceeded) = true ≡ false
NotBudget _ = Unit

module _ {W : Type 0} (provider : Provider W) where
  after_call-NotBudget :
      {A : Type 0} (b : CircuitBreaker) (r : Call A × W) → NotBudget (after_call provider b r).0
  after_call-NotBudget b (returned a, w) = tt
  after_call-NotBudget b (raised text, w) = tt

  call_through-NotBudget :
      {A : Type 0} (func : W → Call A × W) (b : CircuitBreaker) (w : W)
      → NotBudget (call_through provider func b w).0
  unfolding call_through
  call_through-NotBudget func b w =
      let b' = read_state (provider.clock w) b in
      if_both (λ (r : Reply _ × CircuitBreaker × W). NotBudget r.0) (is_open b'.state) tt
        (after_call-NotBudget b' (func w))

  resumed-NotBudget :
      {A : Type 0} (wait : LlmError → W → W)
      (next : CircuitBreaker → W → Reply A × CircuitBreaker × W)
      → ((b : CircuitBreaker) (w : W) → NotBudget (next b w).0)
      → (r : Reply A × CircuitBreaker × W) → NotBudget (resumed provider wait next r).0
  resumed-NotBudget wait next h (answered a, b, w) = tt
  resumed-NotBudget wait next h (failed e, b, w) = h b (wait e w)

  -- The circuit breaker and the provider never report an exceeded budget.
  retry-NotBudget :
      {A : Type 0} (wait : ℕ → LlmError → W → W) (func : W → Call A × W) (attempt left : ℕ)
      (b : CircuitBreaker) (w : W)
      → NotBudget (retry provider wait func attempt left b w).0
  unfolding retry
  retry-NotBudget wait func attempt zero b w = call_through-NotBudget func b w
  retry-NotBudget wait func attempt (suc left) b w =
      resumed-NotBudget (wait attempt) (retry provider wait func (suc attempt) left)
        (retry-NotBudget wait func (suc attempt) left) (call_through provider func b w)

  call_with_retry-NotBudget :
      (messages : List Message) (node : String) (max_tokens : Option ℕ) (model : Option String)
      (service : LlmService) (w : W)
      → NotBudget (call_with_retry provider messages node max_tokens model service w).0
  unfolding call_with_retry
  call_with_retry-NotBudget messages node max_tokens model service w =
      retry-NotBudget (pause provider) (do_call provider messages max_tokens model service) 0
        max_retries (get_breaker node service) w

-- A failure has a text to fall back on: the prompt or the last of the messages.
abbrev pub CanFallBack : Option String → List Message → Type 0
CanFallBack prompt messages = (is_some prompt || not (is_empty messages)) ≡ true

last_reply_lem :
    (messages : List Message)
    → not (is_empty messages) ≡ true
    → (text : String) × (last_reply (get_last? messages) ≡ answered text)
last_reply_lem [] h = false_true h
last_reply_lem (m ∷ []) h = (_, refl)
last_reply_lem (m ∷ n ∷ more) h = last_reply_lem (n ∷ more) refl

after_failure_lem :
    (prompt : Option String) (messages : List Message) (e : LlmError)
    → NotBudget {A = String} (failed e)
    → CanFallBack prompt messages
    → (text : String) × (after_failure prompt messages e ≡ answered text)
after_failure_lem prompt messages budget_exceeded not_budget h = true_false not_budget
after_failure_lem (some p) messages llm_unavailable not_budget h = (_, refl)
after_failure_lem (some p) messages (other text) not_budget h = (_, refl)
after_failure_lem none messages llm_unavailable not_budget h = last_reply_lem messages h
after_failure_lem none messages (other text) not_budget h = last_reply_lem messages h

module _ {W : Type 0} (provider : Provider W) (budget : ℕ) (prompt : Option String)
    (s : SessionState) (node : String) (max_tokens : Option ℕ) (model : Option String)
    (service : LlmService) (w : W) where
  -- Nothing is called and nothing has changed.
  abbrev pub Refused : Completion W → Type 0
  Refused c =
      (c.reply ≡ failed budget_exceeded)
      × (c.session ≡ some s)
      × (c.service ≡ service)
      × (c.world ≡ w)

  -- There is a text, and the session has used what is estimated of it and of the input, or no more
  -- than before.
  abbrev pub Answers : ℕ → Completion W → Type 0
  Answers input c =
      (text : String) × (c.reply ≡ answered text)
      × ((used : SessionState) × (c.session ≡ some used)
          × ((used.token_usage ≡ s.token_usage)
              ⊎ (used.token_usage ≡ s.token_usage + (input + estimate_tokens text))))

  charge_reply-Answers :
      (messages : List Message) (r : Reply String × LlmService × W)
      → NotBudget r.0
      → CanFallBack prompt messages
      → Answers (input_tokens messages) (charge_reply provider budget prompt (some s) messages r)
  unfolding add_token_usage
  charge_reply-Answers messages (answered text, service', w') not_budget h =
      (text, refl, (_, refl, inr refl))
  charge_reply-Answers messages (failed e, service', w') not_budget h =
      let (text, found) = after_failure_lem prompt messages e not_budget h in
      (text, found, (s, refl, inl refl))

  complete_messages-Answers :
      (messages : List Message)
      → CanFallBack prompt messages
      → over_budget budget (some s) messages ≡ false
      → Answers (input_tokens messages) (
          complete_messages provider budget prompt messages
            (some s)
            node
            max_tokens
            model
            service
            w)
  unfolding complete_messages
  complete_messages-Answers messages can h = rw h (
      charge_reply-Answers messages
        (call_with_retry provider messages node max_tokens model service w)
        (call_with_retry-NotBudget provider messages node max_tokens model service w) can)

  complete_messages-Refused :
      (messages : List Message)
      → over_budget budget (some s) messages ≡ true
      → Refused (
          complete_messages provider budget prompt messages
            (some s)
            node
            max_tokens
            model
            service
            w)
  unfolding complete_messages
  complete_messages-Refused messages h = rw h (refl, refl, refl, refl)

  over_budget_lem :
      (messages : List Message)
      → ((0 < input_tokens messages) × (budget < s.token_usage + input_tokens messages)
          → over_budget budget (some s) messages ≡ true)
        × ((input_tokens messages ≡ 0) ⊎ (s.token_usage + input_tokens messages ≤ budget)
            → over_budget budget (some s) messages ≡ false)
  unfolding budget_remaining
  over_budget_lem messages = ((λ h. ground (arith, h.0, h.1)), (λ h. ground (arith, h)))

  otherwise : {A : Type 0} (b : Bool) (x y : A) → b ≡ true → (if not b then x else y) ≡ y
  otherwise b x y h = ground (arith, h)

  complete_lem :
      (messages : Option (List Message)) (chosen : List Message)
      → service.has_client ≡ true
      → chosen_messages prompt messages ≡ some chosen
      → complete provider budget prompt messages (some s) node max_tokens model service w
        ≡ complete_messages provider budget prompt chosen (some s) node max_tokens model service w
  unfolding complete
  complete_lem messages chosen client h =
      otherwise service.has_client _ _ client
      ∙ ap
          (λ (ms : Option (List Message)).
            complete_chosen provider budget prompt ms (some s) node max_tokens model service w)
          h

  -- With a client and messages, of which the last or the prompt is there to fall back on: when the
  -- estimated input is not empty and exceeds what is left of the session's budget, the completion is
  -- refused, and nothing is called and nothing has changed. Else it returns a text, whatever the
  -- provider does, and the session has used what is estimated of the input and of that text, or no
  -- more than before.
  pub complete-Answers :
      (messages : Option (List Message)) (chosen : List Message)
      → service.has_client ≡ true
      → chosen_messages prompt messages ≡ some chosen
      → CanFallBack prompt chosen
      → ((0 < input_tokens chosen) × (budget < s.token_usage + input_tokens chosen)
          → Refused
              (complete provider budget prompt messages (some s) node max_tokens model service w))
        × ((input_tokens chosen ≡ 0) ⊎ (s.token_usage + input_tokens chosen ≤ budget)
            → Answers
                (input_tokens chosen)
                (complete provider budget prompt messages (some s) node max_tokens model service w))
  complete-Answers messages chosen client h can =
      let same = sym (complete_lem messages chosen client h) in
      (
        (λ over.
            subst Refused same
              (complete_messages-Refused chosen ((over_budget_lem chosen).0 over))),
        (λ within.
            subst (Answers (input_tokens chosen)) same
              (complete_messages-Answers chosen can ((over_budget_lem chosen).1 within))),
      )
