-- ===== src/Proxy/Outlier.antt =====
-- Outlier detection, which takes failing endpoints out of use: server/internal/proxy/outlier.go.
--
-- An endpoint is the index of its flag Healthy in the list of all flags, as the detector and the pools
-- share the endpoints by pointer. Counters and durations are int64 patterns (Words), times nanoseconds
-- that do not go back; the clock and the result of time.ParseDuration are arguments.
pub mod Ejecting
pub mod Flags
pub mod Agreement
pub mod Rebuilding
mod Tests
use vrata.Common.{
  dec_lt, dec_le, ℕ_discrete, ℕ, zero, suc, ◌+◌, ◌-◌, ◌*◌, ◌/◌, ◌%◌, ◌^◌, ◌≤◌, ◌<◌, String, ◌≡◌,
  refl, sym, ap, ap₂, ◌∙◌, ◌≢◌, ◌↔◌, ◌⊎◌, inl, inr, Bool, true, false, not, ◌&&◌, ◌||◌, Option,
  none, some, List, [], ◌∷◌, ◌++◌, map, arith, str_eq, eq_iff, ltb, leb, ◌==◌, if◌then◌else◌,
  ltb→lt, lt→ltb, leb→le, le→leb, ==_iff, Bool-cases, Option-cases, length, get_elem?, replicate,
  filter_by, filter_by_comm, filter_by-append, count_by-append, All-filter_by, any_by, count_by,
  length-append, All, bind, bind-some, unwrap,
}
use vrata.Common.Words.{add64, slt64, sle64}
use vrata.Common.StringMap.{lookup, insert}
use Prim.Native.String.{◌++◌ as append}

-- The fields that the detector reads. A base ejection time is what time.ParseDuration gives for a text
-- that is not empty, and `none` where the text is empty or does not parse.
pub record OutlierDetectionOptions : Type 0 where
  pub consecutive5xx : ℕ
  pub consecutive_gateway_errors : ℕ
  pub base_ejection_time : Option ℕ

pub record OutlierTracker : Type 0 where
  pub consecutive5xx : ℕ
  pub consecutive_gateway : ℕ
  pub ejected : Bool
  pub ejected_at : ℕ
  pub ejection_count : ℕ
  pub cfg : OutlierDetectionOptions
  pub endpoint : ℕ

pub record OutlierDetector : Type 0 where
  pub trackers : List (String × OutlierTracker)
  -- Endpoint.Healthy of each endpoint.
  pub healthy : List Bool

-- A pool of Update: its destination, and the ID and the index of each endpoint.
pub record TrackedPool : Type 0 where
  pub destination_id : String
  pub outlier_detection : Option OutlierDetectionOptions
  pub endpoints : List (String × ℕ)

abbrev pub set_flag : ℕ → Bool → List Bool → List Bool
set_flag i v [] = []
set_flag zero v (x ∷ xs) = v ∷ xs
set_flag (suc i) v (x ∷ xs) = x ∷ set_flag i v xs

abbrev pub key_of : String → String → String
key_of dest_id ep_id = append dest_id (append "/" ep_id)

abbrev pub new_tracker : OutlierDetectionOptions → ℕ → OutlierTracker
new_tracker cfg ep = record {
  consecutive5xx = 0;
  consecutive_gateway = 0;
  ejected = false;
  ejected_at = 0;
  ejection_count = 0;
  cfg = cfg;
  endpoint = ep;
}

-- NewOutlierDetector, beside the endpoints that there are.
pub new_outlier_detector : List Bool → OutlierDetector
new_outlier_detector healthy = record { trackers = []; healthy = healthy }

-- NewEndpoint: a new endpoint is healthy.
pub new_endpoint : OutlierDetector → OutlierDetector × ℕ
new_endpoint od = (record od { healthy = od.healthy ++ true ∷ [] }, length od.healthy)

abbrev pub tracker_for : Option OutlierTracker → OutlierDetectionOptions → ℕ → OutlierTracker
tracker_for none cfg ep = new_tracker cfg ep
tracker_for (some existing) cfg ep = record existing { endpoint = ep }

pub track_endpoints :
    List (String × OutlierTracker)
    → String
    → OutlierDetectionOptions
    → List (String × ℕ)
    → List (String × OutlierTracker)
    → List (String × OutlierTracker)
track_endpoints old dest_id cfg [] trackers = trackers
track_endpoints old dest_id cfg ((id, ep) ∷ eps) trackers =
    let key = key_of dest_id id in
    track_endpoints old dest_id cfg eps (insert key (tracker_for (lookup key old) cfg ep) trackers)

unfoldable pub tracked :
    List (String × OutlierTracker)
    → TrackedPool
    → Option OutlierDetectionOptions
    → List (String × OutlierTracker)
    → List (String × OutlierTracker)
unfolding track_endpoints
tracked old pool none trackers = trackers
tracked old pool (some cfg) trackers =
    track_endpoints old pool.destination_id cfg pool.endpoints trackers

pub track_pools :
    List (String × OutlierTracker)
    → List TrackedPool
    → List (String × OutlierTracker)
    → List (String × OutlierTracker)
unfolding tracked
track_pools old [] trackers = trackers
track_pools old (pool ∷ pools) trackers =
    track_pools old pools (tracked old pool pool.outlier_detection trackers)

-- Update
pub update : OutlierDetector → List TrackedPool → OutlierDetector
unfolding track_pools
update od pools = record od { trackers = track_pools od.trackers pools [] }

abbrev pub is_gateway_error : ℕ → Bool
is_gateway_error status = status == 502 || status == 503 || status == 504

pub count_response : OutlierTracker → ℕ → OutlierTracker
count_response t status =
    if leb 500 status
    then record t {
      consecutive5xx = add64 t.consecutive5xx 1;
      consecutive_gateway =
          if is_gateway_error status then add64 t.consecutive_gateway 1 else t.consecutive_gateway;
    }
    else record t { consecutive5xx = 0; consecutive_gateway = 0 }

abbrev pub threshold5xx : OutlierDetectionOptions → ℕ
threshold5xx cfg = if ltb 0 cfg.consecutive5xx then cfg.consecutive5xx else 5

pub should_eject : OutlierTracker → Bool
should_eject t =
    sle64 (threshold5xx t.cfg) t.consecutive5xx
    || (ltb 0 t.cfg.consecutive_gateway_errors
        && sle64 t.cfg.consecutive_gateway_errors t.consecutive_gateway)

-- What RecordResponse does to the tracker, and whether it ejects the endpoint.
pub respond : OutlierTracker → ℕ → ℕ → OutlierTracker × Bool
unfolding count_response should_eject
respond t status now =
    let counted = count_response t status in
    if should_eject counted && not counted.ejected
    then (
      record counted {
        ejected = true;
        ejected_at = now;
        ejection_count = add64 counted.ejection_count 1;
      },
      true,
    )
    else (counted, false)

-- RecordResponse behind the lookup.
pub recorded : OutlierDetector → String → ℕ → ℕ → Option OutlierTracker → OutlierDetector
unfolding respond
recorded od key status now none = od
recorded od key status now (some t) =
    let (t', ejects) = respond t status now in
    record {
      trackers = insert key t' od.trackers;
      healthy = if ejects then set_flag t.endpoint false od.healthy else od.healthy;
    }

-- RecordResponse, at time `now`.
pub record_response : OutlierDetector → String → String → ℕ → ℕ → OutlierDetector
unfolding recorded
record_response od dest_id ep_id status now =
    recorded od (key_of dest_id ep_id) status now (lookup (key_of dest_id ep_id) od.trackers)

-- baseTime * time.Duration(t.ejectionCount)
abbrev pub ejection_duration : OutlierTracker → ℕ
ejection_duration t =
    elim t.cfg.base_ejection_time [ none ↦ 30 * 1000000000 | some d ↦ d ]
    * t.ejection_count
    % 2 ^ 64

-- What checkEjections does to a tracker, and whether it restores the endpoint.
pub restore : OutlierTracker → ℕ → OutlierTracker × Bool
restore t now =
    if not t.ejected
    then (t, false)
    else if slt64 (ejection_duration t) (now - t.ejected_at)
    then (record t { ejected = false; consecutive5xx = 0; consecutive_gateway = 0 }, true)
    else (t, false)

pub restore_all :
    List (String × OutlierTracker) → List Bool → ℕ → List (String × OutlierTracker) × List Bool
unfolding restore
restore_all [] healthy now = ([], healthy)
restore_all ((key, t) ∷ trackers) healthy now =
    let (t', restores) = restore t now in
    let (trackers', healthy') =
      restore_all trackers (if restores then set_flag t.endpoint true healthy else healthy) now in
    ((key, t') ∷ trackers', healthy')

-- checkEjections, at time `now`.
pub check_ejections : OutlierDetector → ℕ → OutlierDetector
unfolding restore_all
check_ejections od now =
    let (trackers, healthy) = restore_all od.trackers od.healthy now in
    record { trackers = trackers; healthy = healthy }
