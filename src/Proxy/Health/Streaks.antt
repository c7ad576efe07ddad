-- ===== src/Proxy/Health/Streaks.antt =====
-- Health follows the streaks of probes.
use vrata.Common.{
  ℕ, ◌+◌, ◌^◌, ◌≤◌, ◌<◌, ◌≡◌, refl, Bool, true, false, Option, List, [], ◌∷◌, arith, leb,
  if◌then◌else◌, length,
}
use vrata.Proxy.Health.{
  HealthThresholds, HealthCounter, Checked, counter_for, rebuilt, or_default, record_probe,
}

-- The streaks and the health of an endpoint of a new table, where Update found a counter or none.
module _ (cfg : HealthThresholds) (found : Option HealthCounter) where
  abbrev start : HealthCounter
  start = counter_for found

  -- The endpoint after probes, the newest of them first.
  abbrev pub after : List Bool → Checked
  after [] = rebuilt found
  after (r ∷ rs) = record_probe cfg (after rs) r

  -- How many of the newest probes in a row had a result, with the ones that Update kept.
  abbrev pub passes : List Bool → ℕ
  passes [] = start.successes
  passes (true ∷ rs) = passes rs + 1
  passes (false ∷ rs) = 0

  abbrev pub fails : List Bool → ℕ
  fails [] = start.failures
  fails (true ∷ rs) = 0
  fails (false ∷ rs) = fails rs + 1

  passes_le : (rs : List Bool) → passes rs ≤ start.successes + length rs
  passes_le [] = omega arith
  passes_le (true ∷ rs) = omega (arith, passes_le rs)
  passes_le (false ∷ rs) = omega arith

  fails_le : (rs : List Bool) → fails rs ≤ start.failures + length rs
  fails_le [] = omega arith
  fails_le (true ∷ rs) = omega arith
  fails_le (false ∷ rs) = omega (arith, fails_le rs)

  -- The last streak that reached its threshold at a probe is one of passes, or none has.
  abbrev pub healthy_by : List Bool → Bool
  healthy_by [] = true
  healthy_by (r ∷ rs) =
      if leb (or_default cfg.healthy_threshold 2) (passes (r ∷ rs))
      then true
      else if leb (or_default cfg.unhealthy_threshold 3) (fails (r ∷ rs))
      then false
      else healthy_by rs

  after-counter :
      (rs : List Bool)
      → start.successes + length rs < 2 ^ 32
      → start.failures + length rs < 2 ^ 32
      → ((after rs).counter.successes ≡ passes rs) × ((after rs).counter.failures ≡ fails rs)
  unfolding rebuilt record_probe
  after-counter [] short small = (refl, refl)
  after-counter (true ∷ rs) short small =
      let (s, f) = after-counter rs (omega arith) (omega arith) in
      (omega (arith, s, passes_le rs), refl)
  after-counter (false ∷ rs) short small =
      let (s, f) = after-counter rs (omega arith) (omega arith) in
      (refl, omega (arith, f, fails_le rs))

  -- An endpoint of a new table, with the streaks of its kept counter or none and fewer than 2 ^ 32 probes
  -- with them, is healthy exactly if the last streak of equal results that reached its threshold at a probe
  -- since then was one of passes, or none did. A threshold of 0 stands for the default, 2 passes or 3
  -- failures.
  pub after-healthy :
      (rs : List Bool)
      → start.successes + length rs < 2 ^ 32
      → start.failures + length rs < 2 ^ 32
      → (after rs).healthy ≡ healthy_by rs
  unfolding rebuilt record_probe
  after-healthy [] short small = refl
  after-healthy (true ∷ rs) short small =
      let (s, f) = after-counter rs (omega arith) (omega arith) in
      ground (arith, s, passes_le rs, after-healthy rs (omega arith) (omega arith))
  after-healthy (false ∷ rs) short small =
      let (s, f) = after-counter rs (omega arith) (omega arith) in
      ground (arith, f, fails_le rs, after-healthy rs (omega arith) (omega arith))
