-- ===== src/Proxy/Retry/Exhausting.antt =====
-- A call with so many retries that the backoff overflows.
use vrata.Common.{
  ℕ, zero, suc, ◌+◌, ◌-◌, ◌^◌, ◌≤◌, ◌<◌, ◌≡◌, refl, ap, ◌∙◌, Bool, true, Option, none, some, arith,
  lt→ltb, length,
}
use vrata.Proxy.Retry.{
  RouteRetry, calc_backoff, Reply, panicked, Trip, base_backoff, max_backoff, round, attempt_loop,
  wrapped_trip, round_trip,
}
use vrata.Proxy.Retry.Attempts.{AllRetriable, positive, backoff}
use vrata.Proxy.Retry.Backoff.{calc_backoff-last}

module _ (retry : RouteRetry) (inner : Bool → ℕ → Reply) (draws : ℕ → ℕ) where
  go_on :
      (attempt k : ℕ) (b : Option ℕ) (r : Reply) (rest : Trip)
      → (rest.outcome ≡ panicked) × (length rest.sent ≤ k)
      → ((round true b attempt r rest).outcome ≡ panicked)
        × (length (round true b attempt r rest).sent ≤ suc k)
  unfolding round
  go_on attempt k none r rest h = (refl, omega arith)
  go_on attempt k (some d) r rest (ends, few) = (ends, omega (arith, few))

  attempt_loop-panicked :
      (k attempt rounds : ℕ)
      → attempt + k ≡ 63
      → max_backoff retry < 2 ^ 64
      → 64 ≤ retry.attempts
      → k < rounds
      → AllRetriable retry inner draws attempt (suc k)
      → ((attempt_loop retry inner draws (retry.attempts + 1) rounds attempt).outcome ≡ panicked)
        × (length (attempt_loop retry inner draws (retry.attempts + 1) rounds attempt).sent ≤ suc k)
  unfolding attempt_loop
  attempt_loop-panicked k attempt zero e m many h a = absurd (omega arith)
  attempt_loop-panicked zero attempt (suc rounds) e m many h (r, as_) =
      let is63 : attempt ≡ 63 = omega arith in
      let stops : backoff retry inner draws attempt ≡ none =
        ap (λ n. calc_backoff (base_backoff retry) (max_backoff retry) n (draws attempt)) is63
        ∙ calc_backoff-last (base_backoff retry) (max_backoff retry) (draws attempt) m in
      rw (r, lt→ltb attempt (retry.attempts + 1 - 1) (omega arith), stops) (refl, omega arith)
  attempt_loop-panicked (suc k) attempt (suc rounds) e m many h (r, as_) =
      rw (r, lt→ltb attempt (retry.attempts + 1 - 1) (omega arith))
        (go_on attempt (suc k) _ _ _
          (attempt_loop-panicked k (attempt + 1) rounds (omega arith) m many (omega arith) as_))

  -- If at least 64 retries are configured, the body is read, and the first 64 replies are retriable,
  -- then the call panics in calcBackoff, after at most 64 attempts, whatever the base and the maximum
  -- of the configuration, a number of 64 bits, and the drawn numbers are.
  pub round_trip-panicked :
      64 ≤ retry.attempts
      → max_backoff retry < 2 ^ 64
      → AllRetriable retry inner draws 0 64
      → ((round_trip retry inner draws none).outcome ≡ panicked)
        × (length (round_trip retry inner draws none).sent ≤ 64)
  unfolding round_trip wrapped_trip
  round_trip-panicked many m a =
      rw (positive retry.attempts (omega arith))
        (attempt_loop-panicked 63 0 (retry.attempts + 1) refl m many (omega arith) a)
