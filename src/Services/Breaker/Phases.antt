-- ===== src/Services/Breaker/Phases.antt =====
-- The breaker as the machine that its users see: it counts failures while it works, and else knows
-- only since when it is broken. It forgets the count of failures of a breaker that is not closed.
use omni_forge.Base.{
  ◌≡◌, refl, ◌∙◌, ap, if◌then◌else◌, List, [], ◌∷◌, ℕ, suc, ◌+◌, ◌≤◌, ◌<◌, leb, arith,
}
use omni_forge.Services.Breaker.{
  BreakerState, CircuitBreaker, new_breaker, Section, probe, success, failure, should_probe,
  try_half_open, read_state, on_success, on_failure, enter, enter_all,
}

pub data Phase : Type 0 where
  working : ℕ → Phase
  broken : ℕ → Phase
  probing : Phase

abbrev pub phase_of : BreakerState → ℕ → ℕ → Phase
phase_of BreakerState.closed count since = working count
phase_of BreakerState.opened count since = broken since
phase_of BreakerState.half_open count since = probing

abbrev pub phase : CircuitBreaker → Phase
phase b = phase_of b.state b.failure_count b.last_failure_time

module _ (threshold timeout : ℕ) where
  -- The machine of the comment of the class: a success closes the circuit, so many failures in a
  -- row, or one while it is probing, open it, and a thread that saw the timeout pass lets it probe.
  abbrev pub moved : Section → Phase → Phase
  moved probe (broken since) = probing
  moved probe (working n) = working n
  moved probe probing = probing
  moved success p = working 0
  moved (failure now) (working n) = if leb threshold (suc n) then broken now else working (suc n)
  moved (failure now) (broken since) = broken now
  moved (failure now) probing = broken now

  abbrev pub moved_all : List Section → Phase → Phase
  moved_all [] p = p
  moved_all (s ∷ ss) p = moved_all ss (moved s p)

  -- A closed breaker has counted less than the threshold, and another one not less.
  abbrev Counted : BreakerState → ℕ → Type 0
  Counted BreakerState.closed n = n < threshold
  Counted BreakerState.opened n = threshold ≤ n
  Counted BreakerState.half_open n = threshold ≤ n

  record IsCounted (b : CircuitBreaker) : Type 0 where
    same_threshold : b.failure_threshold ≡ threshold
    same_timeout : b.recovery_timeout ≡ timeout
    counted : Counted b.state b.failure_count

  enter-phase :
      (s : Section) (b : CircuitBreaker) → IsCounted b → phase (enter s b) ≡ moved s (phase b)
  unfolding enter try_half_open on_success on_failure
  enter-phase s b h = ground (arith, h.same_threshold, h.same_timeout, h.counted)

  enter-IsCounted :
      0 < threshold → (s : Section) (b : CircuitBreaker) → IsCounted b → IsCounted (enter s b)
  unfolding enter try_half_open on_success on_failure
  enter-IsCounted pos s b h = ground (arith, h.same_threshold, h.same_timeout, h.counted)

  -- What a thread finds that no other one comes between: a broken circuit is probed when the timeout
  -- has passed since the last failure.
  abbrev pub seen : ℕ → Phase → Phase
  seen now (broken since) = if leb (since + timeout) now then probing else broken since
  seen now (working n) = working n
  seen now probing = probing

  read_state-phase :
      (now : ℕ) (b : CircuitBreaker) → IsCounted b → phase (read_state now b) ≡ seen now (phase b)
  unfolding read_state should_probe try_half_open
  read_state-phase now b h = ground (arith, h.same_timeout)

  enter_all-IsCounted :
      0 < threshold
      → (ss : List Section) (b : CircuitBreaker) → IsCounted b
      → IsCounted (enter_all ss b)
  unfolding enter_all
  enter_all-IsCounted pos [] b h = h
  enter_all-IsCounted pos (s ∷ ss) b h =
      enter_all-IsCounted pos ss (enter s b) (enter-IsCounted pos s b h)

  enter_all-moved :
      0 < threshold
      → (ss : List Section) (b : CircuitBreaker) → IsCounted b
      → phase (enter_all ss b) ≡ moved_all ss (phase b)
  unfolding enter_all
  enter_all-moved pos [] b h = refl
  enter_all-moved pos (s ∷ ss) b h =
      enter_all-moved pos ss (enter s b) (enter-IsCounted pos s b h)
      ∙ ap (moved_all ss) (enter-phase s b h)

  -- Whatever sections of a new breaker with a threshold threads pass, in whatever order they get the
  -- lock, also with a test of the timeout that is out of date, the breaker is in the phase of the
  -- machine: it works with so many failures since the last success, has been broken since the last
  -- failure, or is probing. A thread that reads the state then, with no other one between its test and
  -- its section, finds it broken until the timeout has passed since the last failure, and probing from
  -- then on.
  pub enter_all-refines :
      0 < threshold
      → (ss : List Section)
      → let b = enter_all ss (new_breaker threshold timeout) in
        (phase b ≡ moved_all ss (working 0))
        × ((now : ℕ) → phase (read_state now b) ≡ seen now (moved_all ss (working 0)))
  enter_all-refines pos ss =
      let new = new_breaker threshold timeout in
      let counted : IsCounted new = record {
        same_threshold = refl;
        same_timeout = refl;
        counted = pos;
      } in
      let same = enter_all-moved pos ss new counted in
      (
        same,
        λ now.
            read_state-phase now (enter_all ss new) (enter_all-IsCounted pos ss new counted)
            ∙ ap (seen now) same,
      )
