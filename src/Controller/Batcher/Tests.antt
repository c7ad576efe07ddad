-- ===== src/Controller/Batcher/Tests.antt =====
-- The theorems of the batcher at a run with a failing flush.
use vrata.Common.{◌<◌, ◌≡◌, refl, true, false, none, some, List, [], ◌∷◌, arith}
use vrata.Controller.Batcher.{Answer, new, Event, signals, timeout, step, run}
use vrata.Controller.Batcher.Pending.{run-pending, run-below}

abbrev good : Answer
good = record { created = some "s1"; activates = true }

abbrev down : Answer
down = record { created = none; activates = true }

-- The limit of 2 is reached while the API is down, and the next change makes the snapshot.
abbrev outage : List Event
outage = signals good ∷ signals down ∷ signals good ∷ signals good ∷ timeout down ∷ []

abbrev calm : List Event
calm = signals good ∷ timeout good ∷ signals good ∷ signals good ∷ signals good ∷ []

-- A flush that fails leaves no timer.
stranded : (run (new 2) (signals good ∷ signals down ∷ [])).timer ≡ false
unfolding new step
stranded = refl

one_left : (run (new 2) outage).pending ≡ 1
unfolding new step
one_left = refl

run-pending_example : (run (new 2) outage).pending ≡ 1
run-pending_example = run-pending 2 outage (omega arith) (omega arith)

run-below_example : (run (new 2) calm).pending < 2
run-below_example =
    run-below 2 calm (omega arith) (omega arith) (omega arith)
      (refl, (refl, (refl, (refl, (refl, tt)))))
