-- ===== src/Proxy/Retry.antt =====
-- The retrying transport: server/internal/proxy/retry.go.
--
-- A duration is the bit pattern of an int64 count of nanoseconds. The inner transport and the random
-- numbers are functions of the attempt; a drawn number stands for rand.Int63n by its remainder.
-- The request body is what reading it gives: `none` where it is read or there is none, and an error
-- otherwise. Its replay and the sleep itself are left out; the sleeps are recorded.
pub mod Backoff
pub mod Attempts
pub mod Exhausting
mod Tests
use vrata.Common.{
  dec_lt, dec_le, ℕ_discrete, ℕ, zero, suc, ◌+◌, ◌-◌, ◌*◌, ◌/◌, ◌%◌, ◌^◌, ◌≤◌, ◌<◌, String, ◌≡◌,
  refl, sym, ap, ap₂, ◌∙◌, ◌≢◌, ◌↔◌, ◌⊎◌, inl, inr, Bool, true, false, not, ◌&&◌, ◌||◌, Option,
  none, some, List, [], ◌∷◌, ◌++◌, map, arith, str_eq, eq_iff, ltb, leb, ◌==◌, if◌then◌else◌,
  ltb→lt, lt→ltb, leb→le, le→leb, ==_iff, Bool-cases, Option-cases, length, get_elem?, replicate,
  filter_by, filter_by_comm, filter_by-append, count_by-append, All-filter_by, any_by, count_by,
  length-append, All, bind, bind-some, unwrap,
}
use vrata.Common.Words.{add64, slt64, sle64}

pub data RetryCondition : Type 0 where
  server_error gateway_error connection_failure retriable_codes : RetryCondition

pub record RouteRetry : Type 0 where
  pub attempts : ℕ
  -- The parsed perAttemptTimeout, backoff.base and backoff.max, where they are set and parse.
  pub per_attempt_timeout : Option ℕ
  pub backoff_base : Option ℕ
  pub backoff_max : Option ℕ
  pub on : List RetryCondition
  pub codes : List ℕ

abbrev is_gateway : ℕ → Bool
is_gateway status = status == 502 || status == 503 || status == 504

-- One round of the loop over retry.On: whether it returns true.
abbrev condition_met : ℕ → List ℕ → RetryCondition → Bool
condition_met status codes server_error = leb 500 status
condition_met status codes gateway_error = is_gateway status
condition_met status codes retriable_codes = any_by (λ code. status % 2 ^ 32 == code) codes
condition_met status codes connection_failure = false

-- The branch on len(retry.On) == 0.
should_retry_on : ℕ → List ℕ → List RetryCondition → Bool
should_retry_on status codes [] = leb 500 status
should_retry_on status codes (c ∷ cs) = any_by (condition_met status codes) (c ∷ cs)

pub should_retry : ℕ → RouteRetry → Bool
unfolding should_retry_on
should_retry status retry = should_retry_on status retry.codes retry.on

-- d / 2 on int64, which rounds towards 0.
abbrev pub half64 : ℕ → ℕ
half64 d = if ltb d (2 ^ 63) then d / 2 else (2 ^ 64 - (2 ^ 64 - d) / 2) % 2 ^ 64

-- base * time.Duration(1 << uint(attempt)), cut at max.
pub capped : ℕ → ℕ → ℕ → ℕ
capped base max attempt =
    let backoff = base * (2 ^ attempt % 2 ^ 64) % 2 ^ 64 in
    if slt64 max backoff then max else backoff

-- calcBackoff; `none` is the panic of rand.Int63n at an argument that is not positive.
pub calc_backoff : ℕ → ℕ → ℕ → ℕ → Option ℕ
calc_backoff base max attempt draw =
    let half = half64 (capped base max attempt) in
    if sle64 half 0 then none else some (add64 half (draw % half))

-- What the inner transport gives for one attempt: a response's status, or an error.
pub data Reply : Type 0 where
  response : ℕ → Reply
  failure : String → Reply

pub data Outcome : Type 0 where
  returned : Reply → Outcome
  panicked : Outcome
  -- The `return nil, lastErr` behind the loop.
  exhausted : Outcome

-- What a call did: the values of X-Request-Attempt-Count sent, the sleeps, and how it ended.
pub record Trip : Type 0 where
  pub sent : List ℕ
  pub slept : List ℕ
  pub outcome : Outcome

abbrev pub or_default : Option ℕ → ℕ → ℕ
or_default none d = d
or_default (some v) d = v

-- Whether the reply is one that the loop goes on after, an attempt being left.
abbrev pub retriable : RouteRetry → Reply → Bool
retriable retry (response status) = should_retry status retry
retriable retry (failure e) = true

abbrev pub base_backoff : RouteRetry → ℕ
base_backoff retry = or_default retry.backoff_base 100000000

abbrev pub max_backoff : RouteRetry → ℕ
max_backoff retry = or_default retry.backoff_max 1000000000

-- perAttemptTimeout > 0: the attempt then runs under a deadline, and the loop's body is otherwise
-- the same in the two branches.
pub has_deadline : RouteRetry → Bool
has_deadline retry = slt64 0 (or_default retry.per_attempt_timeout 0)

-- One round of the loop, given whether it goes on, what calcBackoff gives, and the later rounds.
pub round : Bool → Option ℕ → ℕ → Reply → Trip → Trip
round true none attempt reply rest = record {
  sent = (attempt + 1) ∷ [];
  slept = [];
  outcome = panicked;
}
round true (some d) attempt reply rest = record {
  sent = (attempt + 1) ∷ rest.sent;
  slept = d ∷ rest.slept;
  outcome = rest.outcome;
}
round false b attempt reply rest = record {
  sent = (attempt + 1) ∷ [];
  slept = [];
  outcome = returned reply;
}

module _ (retry : RouteRetry) (inner : Bool → ℕ → Reply) (draws : ℕ → ℕ) where
  -- The loop, with the number of rounds that are left.
  pub attempt_loop : ℕ → ℕ → ℕ → Trip
  unfolding round
  attempt_loop max_attempts zero attempt = record { sent = []; slept = []; outcome = exhausted }
  attempt_loop max_attempts (suc rounds) attempt =
      let reply = inner (has_deadline retry) attempt in
      round (retriable retry reply && ltb attempt (max_attempts - 1))
        (calc_backoff (base_backoff retry) (max_backoff retry) attempt (draws attempt)) attempt
        reply (attempt_loop max_attempts rounds (attempt + 1))

  -- RoundTrip, where reading the body gives an error or not.
  pub wrapped_trip : Option String → Trip
  unfolding attempt_loop
  wrapped_trip (some e) = record { sent = []; slept = []; outcome = returned (failure e) }
  wrapped_trip none = attempt_loop (retry.attempts + 1) (retry.attempts + 1) 0

  -- RoundTrip of the transport that newRetryTransport gives; with no attempts it is the inner one.
  pub round_trip : Option String → Trip
  unfolding wrapped_trip
  round_trip body =
      if retry.attempts == 0
      then record { sent = []; slept = []; outcome = returned (inner false 0) }
      else wrapped_trip body
