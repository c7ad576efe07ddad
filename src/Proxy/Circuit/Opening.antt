-- ===== src/Proxy/Circuit/Opening.antt =====
-- When a breaker is closed: the count of failures since the last success decides.
use mathlib.Core.List.{List, [], ◌∷◌}
use vrata.Common.{
  ℕ, ◌+◌, ◌^◌, ◌<◌, ◌≡◌, refl, ◌∙◌, ◌↔◌, Option, List, [], ◌∷◌, arith, ltb, if◌then◌else◌, length,
}
use vrata.Proxy.Circuit.{
  CircuitBreaker, closed, Event, asks, succeeds, fails, starts, completes, new_circuit_breaker,
  step, run,
}

-- The failures since the last success, `acc` of them before the events.
abbrev pub streak : ℕ → List Event → ℕ
streak acc [] = acc
streak acc (succeeds ∷ es) = streak 0 es
streak acc (fails _ ∷ es) = streak (acc + 1) es
streak acc (asks _ ∷ es) = streak acc es
streak acc (starts ∷ es) = streak acc es
streak acc (completes ∷ es) = streak acc es

-- The counter holds the streak, and the circuit is closed as long as that is below the threshold.
pub record Tracks (n : ℕ) (cb : CircuitBreaker) : Type 0 where
  pub threshold_pos : 0 < cb.failure_threshold
  pub threshold_fits : cb.failure_threshold < 2 ^ 63
  pub counted : cb.consecutive_failures ≡ n
  pub closed_below : cb.state ≡ closed → n < cb.failure_threshold
  pub below_closed : n < cb.failure_threshold → cb.state ≡ closed

step-Tracks :
    (n : ℕ) (cb : CircuitBreaker) (e : Event)
    → Tracks n cb
    → n + 1 < 2 ^ 63
    → Tracks (streak n (e ∷ [])) (step cb e)
unfolding step
step-Tracks n cb (asks now) t h = ground arith
step-Tracks n cb succeeds t h = ground arith
step-Tracks n cb (fails now) t h = ground arith
step-Tracks n cb starts t h = ground arith
step-Tracks n cb completes t h = ground arith

run-Tracks :
    (n : ℕ) (cb : CircuitBreaker) (es : List Event)
    → Tracks n cb
    → n + length es < 2 ^ 63
    → Tracks (streak n es) (run cb es)
unfolding run
run-Tracks n cb [] t h = t
run-Tracks n cb (asks now ∷ es) t h =
    run-Tracks n (step cb (asks now)) es (step-Tracks n cb (asks now) t (omega arith)) (omega arith)
run-Tracks n cb (succeeds ∷ es) t h =
    run-Tracks 0 (step cb succeeds) es (step-Tracks n cb succeeds t (omega arith)) (omega arith)
run-Tracks n cb (fails now ∷ es) t h =
    run-Tracks (n + 1) (step cb (fails now)) es (step-Tracks n cb (fails now) t (omega arith))
      (omega arith)
run-Tracks n cb (starts ∷ es) t h =
    run-Tracks n (step cb starts) es (step-Tracks n cb starts t (omega arith)) (omega arith)
run-Tracks n cb (completes ∷ es) t h =
    run-Tracks n (step cb completes) es (step-Tracks n cb completes t (omega arith)) (omega arith)

step-threshold :
    (cb : CircuitBreaker) (e : Event) → (step cb e).failure_threshold ≡ cb.failure_threshold
unfolding step
step-threshold cb (asks now) = ground arith
step-threshold cb succeeds = refl
step-threshold cb (fails now) = ground arith
step-threshold cb starts = refl
step-threshold cb completes = refl

run-threshold :
    (cb : CircuitBreaker) (es : List Event) → (run cb es).failure_threshold ≡ cb.failure_threshold
unfolding run
run-threshold cb [] = refl
run-threshold cb (e ∷ es) = run-threshold (step cb e) es ∙ step-threshold cb e

module _ (max_conn max_pending max_req max_retry threshold : ℕ) (parsed : Option ℕ) where
  new-threshold :
      (new_circuit_breaker max_conn max_pending max_req max_retry threshold
        parsed).failure_threshold
      ≡ (if ltb 0 threshold then threshold else 5)
  unfolding new_circuit_breaker
  new-threshold = refl

  new-Tracks :
      threshold < 2 ^ 32
      → Tracks 0 (new_circuit_breaker max_conn max_pending max_req max_retry threshold parsed)
  unfolding new_circuit_breaker
  new-Tracks h = ground arith

-- A new breaker that has seen fewer than 2 ^ 63 events is closed exactly when the failures recorded
-- since the last recorded success are fewer than its threshold, which is the configured one or, where
-- that is 0, the default of 5.
pub run-closed_iff :
    (max_conn max_pending max_req max_retry threshold : ℕ) (parsed : Option ℕ) (es : List Event)
    → threshold < 2 ^ 32
    → length es < 2 ^ 63
    → ((run (new_circuit_breaker max_conn max_pending max_req max_retry threshold parsed) es).state
        ≡ closed)
      ↔ (streak 0 es < (if ltb 0 threshold then threshold else 5))
run-closed_iff max_conn max_pending max_req max_retry threshold parsed es small short = (
  λ c. omega (arith, tracked.closed_below c, same),
  λ lt. tracked.below_closed (omega (arith, same)),
)
  where
    start : CircuitBreaker
    start = new_circuit_breaker max_conn max_pending max_req max_retry threshold parsed

    tracked : Tracks (streak 0 es) (run start es)
    tracked =
        run-Tracks 0 start es
          (new-Tracks max_conn max_pending max_req max_retry threshold parsed small) (omega arith)

    same : (run start es).failure_threshold ≡ (if ltb 0 threshold then threshold else 5)
    same =
        run-threshold start es
        ∙ new-threshold max_conn max_pending max_req max_retry threshold parsed
