-- ===== src/Proxy/Circuit/Probe.antt =====
-- What an open breaker answers while it waits, and when it probes.
use mathlib.Core.List.{List, [], ◌∷◌}
use vrata.Common.{
  ℕ, suc, ◌+◌, ◌-◌, ◌%◌, ◌^◌, ◌≤◌, ◌<◌, ◌≡◌, refl, ap, ap₂, Bool, true, false, List, [], ◌∷◌, arith,
  length, replicate, All,
}
use vrata.Proxy.Circuit.{CircuitBreaker, open_, half_open, allow}

-- The answers to requests that ask at the given times, and the breaker after them.
abbrev pub answers : CircuitBreaker → List ℕ → List Bool
answers cb [] = []
answers cb (t ∷ ts) = let (cb', ok) = allow cb t in ok ∷ answers cb' ts

abbrev pub after : CircuitBreaker → List ℕ → CircuitBreaker
after cb [] = cb
after cb (t ∷ ts) = after (allow cb t).0 ts

allow_waiting :
    (cb : CircuitBreaker) (t : ℕ)
    → cb.state ≡ open_
    → t ≤ cb.last_failure + cb.open_duration
    → t < 2 ^ 63
    → cb.open_duration < 2 ^ 63
    → allow cb t ≡ (cb, false)
unfolding allow
allow_waiting cb t o h k d = ground arith

-- With times and an open duration below 2 ^ 63 ns, as long as no request asks later than the open
-- duration after the last failure, an open breaker
-- rejects every request and is left as it was.
pub answers_waiting :
    (cb : CircuitBreaker) (ts : List ℕ)
    → cb.state ≡ open_
    → cb.open_duration < 2 ^ 63
    → All (λ t. (t ≤ cb.last_failure + cb.open_duration) × (t < 2 ^ 63)) ts
    → (answers cb ts ≡ replicate (length ts) false) × (after cb ts ≡ cb)
answers_waiting cb [] o d h = (refl, refl)
answers_waiting cb (t ∷ ts) o d ((h, k), hs) =
    let (said, same) = answers_waiting cb ts o d hs in
    rw (allow_waiting cb t o h k d) (ap (◌∷◌ false) said, same)

-- In the half-open state with `k` rejections behind it.
allow_spent :
    (cb : CircuitBreaker) (t k : ℕ)
    → cb.state ≡ half_open
    → k < 2 ^ 31
    → cb.half_open_allowed ≡ (2 ^ 32 - k) % 2 ^ 32
    → ((allow cb t).1 ≡ false)
      × ((allow cb t).0.state ≡ half_open)
      × ((allow cb t).0.half_open_allowed ≡ (2 ^ 32 - suc k) % 2 ^ 32)
unfolding allow
allow_spent cb t k s h e = ground arith

answers_spent :
    (cb : CircuitBreaker) (ts : List ℕ) (k : ℕ)
    → cb.state ≡ half_open
    → k + length ts ≤ 2 ^ 31
    → cb.half_open_allowed ≡ (2 ^ 32 - k) % 2 ^ 32
    → answers cb ts ≡ replicate (length ts) false
answers_spent cb [] k s h e = refl
answers_spent cb (t ∷ ts) k s h e =
    let (said, still, left) = allow_spent cb t k s (omega arith) e in
    ap₂ ◌∷◌ said (answers_spent (allow cb t).0 ts (suc k) still (omega arith) left)

allow_probe :
    (cb : CircuitBreaker) (t : ℕ)
    → cb.state ≡ open_
    → cb.last_failure + cb.open_duration < t
    → t < 2 ^ 63
    → ((allow cb t).1 ≡ true)
      × ((allow cb t).0.state ≡ half_open)
      × ((allow cb t).0.half_open_allowed ≡ 0)
unfolding allow
allow_probe cb t o h k = ground arith

-- Once the open duration has passed (at a time below 2 ^ 63 ns), the next request is let through as the probe, and none of the
-- up to 2 ^ 31 requests that ask after it, at any times, until a result is recorded.
pub answers_single_probe :
    (cb : CircuitBreaker) (t : ℕ) (ts : List ℕ)
    → cb.state ≡ open_
    → cb.last_failure + cb.open_duration < t
    → t < 2 ^ 63
    → length ts ≤ 2 ^ 31
    → answers cb (t ∷ ts) ≡ true ∷ replicate (length ts) false
answers_single_probe cb t ts o h k short =
    let (said, still, left) = allow_probe cb t o h k in
    ap₂ ◌∷◌ said (answers_spent (allow cb t).0 ts 0 still (omega arith) left)
