-- ===== src/Proxy/Health/Tests.antt =====
-- The theorem of health checking at endpoints that fail and come back.
use vrata.Common.{◌≡◌, refl, Bool, true, false, Option, none, some, List, [], ◌∷◌, arith}
use vrata.Proxy.Health.{HealthThresholds, HealthCounter, rebuilt, record_probe}
use vrata.Proxy.Health.Streaks.{after, healthy_by, after-healthy}

abbrev defaults : HealthThresholds
defaults = record { unhealthy_threshold = 0; healthy_threshold = 0 }

-- The counter of an endpoint that has failed twice before the update.
abbrev failed_twice : Option HealthCounter
failed_twice = some (record { successes = 0; failures = 2 })

-- Three failures, a pass, and the newest first.
abbrev failing : List Bool
failing = true ∷ false ∷ false ∷ false ∷ true ∷ []

still_unhealthy : (after defaults none failing).healthy ≡ false
unfolding rebuilt record_probe
still_unhealthy = refl

back_again : (after defaults none (true ∷ failing)).healthy ≡ true
unfolding rebuilt record_probe
back_again = refl

-- With the kept failures one more is enough, and without them it is not.
kept_failures : (after defaults failed_twice (false ∷ [])).healthy ≡ false
unfolding rebuilt record_probe
kept_failures = refl

no_failures : (after defaults none (false ∷ [])).healthy ≡ true
unfolding rebuilt record_probe
no_failures = refl

after-healthy_example :
    (after defaults failed_twice failing).healthy ≡ healthy_by defaults failed_twice failing
after-healthy_example = after-healthy defaults failed_twice failing (omega arith) (omega arith)
