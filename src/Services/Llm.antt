-- ===== src/Services/Llm.antt =====
-- The `LLMService` of agentflow/services/llm_service.py: `complete` and `complete_with_tools` with
-- their budget, retries and circuit breakers. `W` is the outside world: `create` sends a request to
-- the provider, `sleep` and `jitter` are Python's, and the settings are fixed. The model's
-- temperature, the streams and the choice of an active model are left out.
use omni_forge.Base.{
  Bool, false, Option, none, some, String, str_eq, if◌then◌else◌, List, [], ◌∷◌, ℕ, zero, suc, ◌+◌,
  ◌*◌, min, ◌==◌, get_or,
}
use omni_forge.Base.Keyed.{lookup, insert}
use omni_forge.Base.Words.{text_length}
use omni_forge.Results.{Call, returned, raised}
use omni_forge.Services.Breaker.{
  CircuitBreaker, new_breaker, is_open, read_state, on_success, on_failure,
}
use Prim.Native.Nat.{◌/◌, ◌^◌, max}

pub data LlmError : Type 0 where
  budget_exceeded : LlmError
  llm_unavailable : LlmError
  other : String → LlmError

pub data Reply {ℓ} (A : Type ℓ) : Type ℓ where
  answered : A → Reply A
  failed : LlmError → Reply A

pub record Message : Type 0 where
  pub role : String
  pub content : Option String

pub record ToolCall : Type 0 where
  pub id : String
  pub name : String
  pub arguments : String

pub record LlmResponse : Type 0 where
  pub content : String
  pub tool_calls : List ToolCall
  pub degraded : Bool

abbrev pub max_retries : ℕ
max_retries = 2

-- Seconds in ten-thousandths.
abbrev pub base_delay : ℕ
base_delay = 10000

abbrev pub max_delay : ℕ
max_delay = 100000

-- `CircuitBreaker()`
abbrev pub default_breaker : CircuitBreaker
default_breaker = new_breaker 5 300000

unfoldable pub estimate_tokens : String → ℕ
estimate_tokens text = if str_eq text "" then 0 else max 1 (text_length text / 4)

abbrev pub content_of : Message → String
content_of m = get_or m.content ""

unfoldable pub input_tokens : List Message → ℕ
unfolding estimate_tokens
input_tokens [] = 0
input_tokens (m ∷ ms) = estimate_tokens (content_of m) + input_tokens ms

-- What a service calls. A request with tools yields the message of the response, in which no tool
-- calls are an empty list.
pub record Provider (W : Type 0) : Type 1 where
  pub clock : W → ℕ
  pub jitter : W → ℕ × W
  pub sleep : ℕ → W → W
  pub create : String → List Message → ℕ → W → Call String × W
  pub create_tools : String → List Message → ℕ → W → Call (Option String × List ToolCall) × W

pub record LlmService : Type 0 where
  pub has_client : Bool
  pub model_name : String
  pub max_tokens : ℕ
  pub breakers : List (String × CircuitBreaker)

abbrev pub node_of : String × CircuitBreaker → String
node_of e = e.0

abbrev pub never : String × CircuitBreaker → Bool
never e = false

abbrev pub breaker_or_new : Option (String × CircuitBreaker) → CircuitBreaker
breaker_or_new none = default_breaker
breaker_or_new (some e) = e.1

-- `_get_breaker`
unfoldable pub get_breaker : String → LlmService → CircuitBreaker
get_breaker node_name service = breaker_or_new (lookup node_of node_name service.breakers)

unfoldable pub put_breaker : String → CircuitBreaker → LlmService → LlmService
put_breaker node_name b service = record service {
  breakers = insert node_of never (node_name, b) service.breakers;
}

-- `max_tokens or self._max_tokens`
abbrev pub or_number : Option ℕ → ℕ → ℕ
or_number none default = default
or_number (some n) default = if n == 0 then default else n

abbrev or_name : Option String → String → String
or_name none default = default
or_name (some name) default = if str_eq name "" then default else name

module _ {W : Type 0} (provider : Provider W) where
  open provider use {clock, jitter, sleep, create, create_tools}

  abbrev pub after_call : {A : Type 0} → CircuitBreaker → Call A × W → Reply A × CircuitBreaker × W
  after_call b (returned a, w) = (answered a, on_success b, w)
  after_call b (raised text, w) = (failed (other text), on_failure (clock w) b, w)

  -- `CircuitBreaker.call`
  unfoldable pub call_through :
      {A : Type 0} → (W → Call A × W) → CircuitBreaker → W → Reply A × CircuitBreaker × W
  unfolding read_state on_success on_failure
  call_through func b w =
      let b' = read_state (clock w) b in
      if is_open b'.state then (failed llm_unavailable, b', w) else after_call b' (func w)

  -- The delay before the next attempt, in which the jitter is drawn.
  abbrev slept : ℕ → ℕ × W → W
  slept attempt (extra, w) = sleep (min (base_delay * 2 ^ attempt) max_delay + extra) w

  abbrev drawn : ℕ × W → W
  drawn (extra, w) = w

  -- `_call_with_retry` does not sleep behind a breaker that is open.
  abbrev pub pause : ℕ → LlmError → W → W
  pause attempt llm_unavailable w = drawn (jitter w)
  pause attempt budget_exceeded w = slept attempt (jitter w)
  pause attempt (other text) w = slept attempt (jitter w)

  abbrev pub pause_always : ℕ → LlmError → W → W
  pause_always attempt e w = slept attempt (jitter w)

  abbrev pub resumed :
      {A : Type 0}
      → (LlmError → W → W)
      → (CircuitBreaker → W → Reply A × CircuitBreaker × W)
      → Reply A × CircuitBreaker × W
      → Reply A × CircuitBreaker × W
  resumed wait next (answered a, b, w) = (answered a, b, w)
  resumed wait next (failed e, b, w) = next b (wait e w)

  -- The loop over the attempts, with so many left behind this one.
  unfoldable pub retry :
      {A : Type 0}
      → (ℕ → LlmError → W → W)
      → (W → Call A × W)
      → ℕ
      → ℕ
      → CircuitBreaker
      → W
      → Reply A × CircuitBreaker × W
  unfolding call_through
  retry wait func attempt zero b w = call_through func b w
  retry wait func attempt (suc left) b w =
      resumed (wait attempt) (retry wait func (suc attempt) left) (call_through func b w)

  abbrev pub stored :
      {A : Type 0} → String → LlmService → Reply A × CircuitBreaker × W → Reply A × LlmService × W
  stored node_name service (r, b, w) = (r, put_breaker node_name b service, w)

  -- `_do_call`
  abbrev pub do_call : List Message → Option ℕ → Option String → LlmService → W → Call String × W
  do_call messages max_tokens model service =
      create (or_name model service.model_name) messages (or_number max_tokens service.max_tokens)

  unfoldable pub call_with_retry :
      List Message
      → String
      → Option ℕ
      → Option String
      → LlmService
      → W
      → Reply String × LlmService × W
  unfolding retry get_breaker put_breaker
  call_with_retry messages node_name max_tokens model service w =
      let func = do_call messages max_tokens model service in
      stored node_name service (retry pause func 0 max_retries (get_breaker node_name service) w)
