-- ===== src/Services/Breaker.antt =====
-- The `CircuitBreaker` of agentflow/services/llm_service.py. Time is counted in ten-thousandths of a
-- second. Each of the three sections that change the breaker under its lock is an operation here, and
-- threads interleave as a list of such operations. The property `state` tests the timeout in front of
-- the lock and only `OPEN` behind it, so its section stands in the list wherever a thread that passed
-- the test got the lock, also when the test is out of date by then.
pub mod Phases
use omni_forge.Base.{Bool, true, false, if◌then◌else◌, List, [], ◌∷◌, ℕ, suc, ◌+◌, leb, ◌&&◌}

pub data BreakerState : Type 0 where
  closed : BreakerState
  opened : BreakerState
  half_open : BreakerState

pub record CircuitBreaker : Type 0 where
  pub failure_threshold : ℕ
  pub recovery_timeout : ℕ
  pub state : BreakerState
  pub failure_count : ℕ
  pub last_failure_time : ℕ

abbrev pub new_breaker : ℕ → ℕ → CircuitBreaker
new_breaker threshold timeout = record {
  failure_threshold = threshold;
  recovery_timeout = timeout;
  state = closed;
  failure_count = 0;
  last_failure_time = 0;
}

abbrev pub is_open : BreakerState → Bool
is_open opened = true
is_open _ = false

-- The test of `state` in front of the lock.
unfoldable pub should_probe : ℕ → CircuitBreaker → Bool
should_probe now b = is_open b.state && leb (b.last_failure_time + b.recovery_timeout) now

-- The section of `state` under the lock.
unfoldable pub try_half_open : CircuitBreaker → CircuitBreaker
try_half_open b = if is_open b.state then record b { state = half_open } else b

-- The property `state` when no other thread comes between, as the breaker that it leaves.
unfoldable pub read_state : ℕ → CircuitBreaker → CircuitBreaker
unfolding should_probe try_half_open
read_state now b = if should_probe now b then try_half_open b else b

unfoldable pub on_success : CircuitBreaker → CircuitBreaker
on_success b = record b { state = closed; failure_count = 0 }

unfoldable pub on_failure : ℕ → CircuitBreaker → CircuitBreaker
on_failure now b =
    let counted = record b { failure_count = suc b.failure_count; last_failure_time = now } in
    if leb b.failure_threshold (suc b.failure_count)
    then record counted { state = opened }
    else counted

-- What threads do to a breaker, in the order in which they get the lock.
pub data Section : Type 0 where
  probe : Section
  success : Section
  failure : ℕ → Section

unfoldable pub enter : Section → CircuitBreaker → CircuitBreaker
unfolding try_half_open on_success on_failure
enter probe b = try_half_open b
enter success b = on_success b
enter (failure now) b = on_failure now b

unfoldable pub enter_all : List Section → CircuitBreaker → CircuitBreaker
unfolding enter
enter_all [] b = b
enter_all (s ∷ ss) b = enter_all ss (enter s b)
