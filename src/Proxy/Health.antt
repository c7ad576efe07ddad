-- ===== src/Proxy/Health.antt =====
-- The thresholds of active health checking: server/internal/proxy/health.go.
--
-- Whether a probe passed is an argument. Counters and thresholds are uint32 patterns (Words).
pub mod Streaks
mod Tests
use vrata.Common.{
  dec_lt, dec_le, ℕ_discrete, ℕ, zero, suc, ◌+◌, ◌-◌, ◌*◌, ◌/◌, ◌%◌, ◌^◌, ◌≤◌, ◌<◌, String, ◌≡◌,
  refl, sym, ap, ap₂, ◌∙◌, ◌≢◌, ◌↔◌, ◌⊎◌, inl, inr, Bool, true, false, not, ◌&&◌, ◌||◌, Option,
  none, some, List, [], ◌∷◌, ◌++◌, map, arith, str_eq, eq_iff, ltb, leb, ◌==◌, if◌then◌else◌,
  ltb→lt, lt→ltb, leb→le, le→leb, ==_iff, Bool-cases, Option-cases, length, get_elem?, replicate,
  filter_by, filter_by_comm, filter_by-append, count_by-append, All-filter_by, any_by, count_by,
  length-append, All, bind, bind-some, unwrap,
}
use vrata.Common.Words.{add32}

-- The thresholds of HealthCheckOptions, 0 where they are not set.
pub record HealthThresholds : Type 0 where
  pub unhealthy_threshold : ℕ
  pub healthy_threshold : ℕ

pub record HealthCounter : Type 0 where
  pub successes : ℕ
  pub failures : ℕ

-- An endpoint: its counter, and Endpoint.Healthy.
pub record Checked : Type 0 where
  pub counter : HealthCounter
  pub healthy : Bool

-- The counter that Update gives an endpoint, or checkAll where it finds none: the one that stands under
-- the same key, or a new one.
abbrev pub counter_for : Option HealthCounter → HealthCounter
counter_for none = record { successes = 0; failures = 0 }
counter_for (some c) = c

-- An endpoint of a new table, which is healthy, behind an Update that found this counter.
pub rebuilt : Option HealthCounter → Checked
rebuilt found = record { counter = counter_for found; healthy = true }

abbrev pub or_default : ℕ → ℕ → ℕ
or_default configured default = if ltb 0 configured then configured else default

-- What checkAll does with the result of one probe.
pub record_probe : HealthThresholds → Checked → Bool → Checked
record_probe cfg c true =
    let counter : HealthCounter = record {
      successes = add32 c.counter.successes 1;
      failures = 0;
    } in
    record {
      counter = counter;
      healthy = c.healthy || leb (or_default cfg.healthy_threshold 2) counter.successes;
    }
record_probe cfg c false =
    let counter : HealthCounter = record { successes = 0; failures = add32 c.counter.failures 1 } in
    record {
      counter = counter;
      healthy = c.healthy && not (leb (or_default cfg.unhealthy_threshold 3) counter.failures);
    }
