-- ===== src/Proxy/Circuit.antt =====
-- The circuit breaker of a destination: server/internal/proxy/circuit.go.
--
-- Each method is one step on the breaker. The int64 and int32 counters are bit patterns (Words);
-- the state is one of the three values that the code stores. Times are nanoseconds, and the clock
-- and the result of time.ParseDuration are arguments of the calls that read them.
pub mod Opening
pub mod Probe
mod Tests
use vrata.Common.{
  ℕ, ◌-◌, ◌*◌, Bool, true, false, Option, none, some, List, [], ◌∷◌, ltb, ◌==◌, if◌then◌else◌,
}
use vrata.Common.Words.{add64, add32, minus_one64, minus_one32, slt64, sle64, nonneg32}

pub data CircuitState : Type 0 where
  closed open_ half_open : CircuitState

abbrev pub default_failure_threshold : ℕ
default_failure_threshold = 5

abbrev pub default_open_duration : ℕ
default_open_duration = 30 * 1000000000

pub record CircuitBreaker : Type 0 where
  pub max_connections : ℕ
  pub max_pending_requests : ℕ
  pub max_requests : ℕ
  pub max_retries : ℕ
  pub failure_threshold : ℕ
  pub active_connections : ℕ
  pub active_requests : ℕ
  pub consecutive_failures : ℕ
  pub state : CircuitState
  pub half_open_allowed : ℕ
  pub last_failure : ℕ
  pub open_duration : ℕ

-- NewCircuitBreaker. `parsed` is what time.ParseDuration gives for a text that is not empty, and
-- `none` where the text is empty or does not parse.
pub new_circuit_breaker :
    (max_conn max_pending max_req max_retry fail_threshold : ℕ) → Option ℕ → CircuitBreaker
new_circuit_breaker max_conn max_pending max_req max_retry fail_threshold parsed = record {
  max_connections = if max_conn == 0 then 1024 else max_conn;
  max_pending_requests = if max_pending == 0 then 1024 else max_pending;
  max_requests = if max_req == 0 then 1024 else max_req;
  max_retries = if max_retry == 0 then 3 else max_retry;
  failure_threshold = if ltb 0 fail_threshold then fail_threshold else default_failure_threshold;
  active_connections = 0;
  active_requests = 0;
  consecutive_failures = 0;
  state = closed;
  half_open_allowed = 0;
  last_failure = 0;
  open_duration = elim parsed [ none ↦ default_open_duration | some d ↦ d ];
}

-- cb.halfOpenAllowed.Add(-1) >= 0
take_permit : CircuitBreaker → CircuitBreaker × Bool
take_permit cb =
    let left = add32 cb.half_open_allowed minus_one32 in
    (record cb { half_open_allowed = left }, nonneg32 left)

-- The `switch` of Allow, and the limits below it.
allow_in : CircuitState → CircuitBreaker → ℕ → CircuitBreaker × Bool
unfolding take_permit
allow_in open_ cb now =
    if slt64 cb.open_duration (now - cb.last_failure)
    then take_permit (record cb { state = half_open; half_open_allowed = 1 })
    else (cb, false)
allow_in half_open cb now = take_permit cb
allow_in closed cb now =
    if sle64 cb.max_connections cb.active_connections
    then (cb, false)
    else if sle64 cb.max_requests cb.active_requests
    then (cb, false)
    else (cb, true)

-- Allow, at time `now`.
pub allow : CircuitBreaker → ℕ → CircuitBreaker × Bool
unfolding allow_in
allow cb now = allow_in cb.state cb now

pub record_success : CircuitBreaker → CircuitBreaker
record_success cb = record cb { consecutive_failures = 0; state = closed }

-- RecordFailure, at time `now`.
pub record_failure : CircuitBreaker → ℕ → CircuitBreaker
record_failure cb now =
    let failures = add64 cb.consecutive_failures 1 in
    let counted = record cb { consecutive_failures = failures } in
    if sle64 cb.failure_threshold failures
    then record counted { state = open_; last_failure = now }
    else counted

pub on_request : CircuitBreaker → CircuitBreaker
on_request cb = record cb {
  active_requests = add64 cb.active_requests 1;
  active_connections = add64 cb.active_connections 1;
}

pub on_complete : CircuitBreaker → CircuitBreaker
on_complete cb = record cb {
  active_requests = add64 cb.active_requests minus_one64;
  active_connections = add64 cb.active_connections minus_one64;
}

-- The calls that the request handler makes on a breaker, each at its time.
pub data Event : Type 0 where
  asks : ℕ → Event
  succeeds : Event
  fails : ℕ → Event
  starts : Event
  completes : Event

pub step : CircuitBreaker → Event → CircuitBreaker
unfolding allow record_success record_failure on_request on_complete
step cb (asks now) = (allow cb now).0
step cb succeeds = record_success cb
step cb (fails now) = record_failure cb now
step cb starts = on_request cb
step cb completes = on_complete cb

pub run : CircuitBreaker → List Event → CircuitBreaker
run cb [] = cb
run cb (e ∷ es) = run (step cb e) es
