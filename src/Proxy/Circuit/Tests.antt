-- ===== src/Proxy/Circuit/Tests.antt =====
-- The theorems of the circuit breaker at concrete breakers, and runs of its calls.
use vrata.Common.{◌<◌, ◌≡◌, refl, ◌↔◌, true, false, some, List, [], ◌∷◌, arith}
use vrata.Proxy.Circuit.{
  CircuitBreaker, closed, open_, Event, asks, succeeds, fails, starts, completes,
  new_circuit_breaker, step, run,
}
use vrata.Proxy.Circuit.Opening.{run-closed_iff}
use vrata.Proxy.Circuit.Probe.{answers, after, answers_waiting, answers_single_probe}

-- A threshold of 2 failures, and 10 ns open.
abbrev fresh : CircuitBreaker
unfolding new_circuit_breaker
fresh = new_circuit_breaker 0 0 0 0 2 (some 10)

abbrev history : List Event
history = asks 1 ∷ starts ∷ fails 5 ∷ completes ∷ succeeds ∷ fails 7 ∷ asks 8 ∷ fails 9 ∷ []

history_opens : (run fresh history).state ≡ open_
unfolding run step new_circuit_breaker
history_opens = refl

abbrev tripped : CircuitBreaker
unfolding run step new_circuit_breaker
tripped = run fresh history

run-closed_iff_example :
    ((run (new_circuit_breaker 0 0 0 0 2 (some 10)) history).state ≡ closed) ↔ (2 < 2)
run-closed_iff_example = run-closed_iff 0 0 0 0 2 (some 10) history (omega arith) (omega arith)

answers_waiting_example :
    (answers tripped (10 ∷ 19 ∷ []) ≡ false ∷ false ∷ []) × (after tripped (10 ∷ 19 ∷ []) ≡ tripped)
unfolding tripped
answers_waiting_example = answers_waiting tripped (10 ∷ 19 ∷ []) refl (omega arith) (omega arith)

answers_single_probe_example : answers tripped (20 ∷ 21 ∷ 40 ∷ []) ≡ true ∷ false ∷ false ∷ []
unfolding tripped
answers_single_probe_example =
    answers_single_probe tripped 20 (21 ∷ 40 ∷ []) refl (omega arith) (omega arith) (omega arith)
