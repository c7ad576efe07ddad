-- ===== src/Proxy/Retry/Tests.antt =====
-- The theorems of the retrying transport at concrete inputs, and a call that retries twice.
use vrata.Common.{
  ℕ, zero, suc, ◌+◌, ◌*◌, ◌/◌, ◌^◌, ◌≤◌, ◌<◌, ◌≡◌, refl, Bool, none, some, [], ◌∷◌, arith, length,
}
use Prim.Native.Nat.{min}
use vrata.Proxy.Retry.{
  RouteRetry, gateway_error, retriable_codes, Reply, response, failure, returned, panicked,
  calc_backoff, capped, round_trip, should_retry,
}
use vrata.Proxy.Retry.Backoff.{calc_backoff_bounds}
use vrata.Proxy.Retry.Attempts.{AllRetriable, Trips, round_trip-Ran}
use vrata.Proxy.Retry.Exhausting.{round_trip-panicked}

abbrev twice : RouteRetry
twice = record {
  attempts = 2;
  per_attempt_timeout = none;
  backoff_base = some 100;
  backoff_max = some 150;
  on = gateway_error ∷ retriable_codes ∷ [];
  codes = 429 ∷ [];
}

-- A connection that fails, then a 503, then a 200.
abbrev flaky : Bool → ℕ → Reply
flaky _ zero = failure "connection refused"
flaky _ (suc zero) = response 503
flaky _ (suc (suc n)) = response 200

flaky_recovers :
    round_trip twice flaky (λ n. 7) none
    ≡ record { sent = 1 ∷ 2 ∷ 3 ∷ []; slept = 57 ∷ 82 ∷ []; outcome = returned (response 200) }
unfolding round_trip should_retry calc_backoff capped
flaky_recovers = refl

calc_backoff_bounds_example :
    (d : ℕ) × (calc_backoff 100 1000 2 7 ≡ some d)
    × (min 1000 (100 * 2 ^ 2) / 2 ≤ d)
    × (d < min 1000 (100 * 2 ^ 2))
calc_backoff_bounds_example =
    calc_backoff_bounds 100 1000 2 7 (omega arith) (omega arith) (omega arith) (omega arith)

abbrev often : RouteRetry
often = record twice { attempts = 64 }

abbrev down : Bool → ℕ → Reply
down _ n = failure "connection refused"

down-AllRetriable : (attempt n : ℕ) → AllRetriable often down (λ n. 7) attempt n
down-AllRetriable attempt zero = tt
down-AllRetriable attempt (suc n) = (refl, down-AllRetriable (attempt + 1) n)

round_trip-panicked_example :
    ((round_trip often down (λ n. 7) none).outcome ≡ panicked)
    × (length (round_trip often down (λ n. 7) none).sent ≤ 64)
round_trip-panicked_example =
    round_trip-panicked often down (λ n. 7) (omega arith) (omega arith) (down-AllRetriable 0 64)

round_trip-Ran_example : Trips twice flaky (λ n. 7) none (round_trip twice flaky (λ n. 7) none)
round_trip-Ran_example = round_trip-Ran twice flaky (λ n. 7) none (omega arith)
