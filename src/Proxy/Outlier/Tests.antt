-- ===== src/Proxy/Outlier/Tests.antt =====
-- The theorems of outlier detection at a destination with two endpoints.
use vrata.Common.{◌≡◌, refl, true, false, none, some, List, [], ◌∷◌, ◌++◌, arith}
use vrata.Proxy.Outlier.{
  OutlierDetectionOptions, OutlierTracker, OutlierDetector, TrackedPool, new_tracker,
  new_outlier_detector, update, track_pools, track_endpoints, record_response, respond, restore,
  check_ejections,
}
use vrata.Common.StringMap.{lookup, insert}
use vrata.Proxy.Outlier.Ejecting.{Response, after, reached, after-ejected, restore-respond}
use vrata.Proxy.Outlier.Agreement.{Step, responds, run, Consistent, run-Consistent}
use vrata.Proxy.Outlier.Rebuilding.{new_endpoints, record_responses, record_responses-rebuild}

abbrev strict : OutlierDetectionOptions
strict = record { consecutive5xx = 3; consecutive_gateway_errors = 2; base_ejection_time = none }

-- Two gateway errors behind a good response, the newest first.
abbrev bad_run : List Response
bad_run = (503, 20) ∷ (502, 10) ∷ (200, 0) ∷ []

abbrev shop : TrackedPool
shop = record {
  destination_id = "shop";
  outlier_detection = some strict;
  endpoints = ("a:80", 0) ∷ ("b:80", 1) ∷ [];
}

abbrev watched : OutlierDetector
unfolding update new_outlier_detector track_pools track_endpoints
watched = update (new_outlier_detector (true ∷ true ∷ [])) (shop ∷ [])

-- The first endpoint is ejected at 20, and restored more than 30 s later.
abbrev steps : List Step
steps =
    responds "shop" "a:80" 502 10
    ∷ responds "shop" "a:80" 503 20
    ∷ responds "shop" "b:80" 500 30
    ∷ []

first_is_ejected : (run watched steps).healthy ≡ false ∷ true ∷ []
unfolding watched record_response lookup insert
first_is_ejected = refl

first_waits : (check_ejections (run watched steps) 30000000020).healthy ≡ false ∷ true ∷ []
unfolding watched record_response check_ejections lookup insert
first_waits = refl

first_is_restored : (check_ejections (run watched steps) 30000000021).healthy ≡ true ∷ true ∷ []
unfolding watched record_response check_ejections lookup insert
first_is_restored = refl

after-ejected_example : (after (new_tracker strict 0) bad_run).ejected ≡ reached strict bad_run
after-ejected_example = after-ejected strict 0 bad_run (omega arith) (omega arith) (omega arith)

restore-respond_example :
    let t' = (respond (after (new_tracker strict 0) ((502, 10) ∷ [])) 503 20).0 in
    ((restore (after t' ((500, 30) ∷ [])) 40000000000).1 ≡ true)
    × ((restore (after t' ((500, 30) ∷ [])) 40000000000).0.ejected ≡ false)
unfolding respond
restore-respond_example =
    restore-respond (after (new_tracker strict 0) ((502, 10) ∷ [])) 503 20 40000000000
      ((500, 30) ∷ []) refl (omega arith) (omega arith) (omega arith)

watched-Consistent : Consistent watched
unfolding watched lookup insert
watched-Consistent = (((cc, tt), (tt, tt)), (refl, (refl, tt)))

run-Consistent_example : Consistent (run watched steps)
run-Consistent_example = run-Consistent watched steps watched-Consistent

abbrev first_ejected : OutlierTracker
first_ejected = record {
  consecutive5xx = 2;
  consecutive_gateway = 2;
  ejected = true;
  ejected_at = 20;
  ejection_count = 1;
  cfg = strict;
  endpoint = 0;
}

-- The pools of a rebuilt table, whose new endpoints are 2, 3 and 4.
abbrev rebuilt_pools : List TrackedPool
rebuilt_pools =
    record { destination_id = "other"; outlier_detection = none; endpoints = ("a:80", 2) ∷ [] }
    ∷ record {
      destination_id = "shop";
      outlier_detection = some strict;
      endpoints = ("b:80", 3) ∷ ("a:80", 4) ∷ [];
    }
    ∷ []

record_responses-rebuild_example :
    (record_responses
      (update (new_endpoints 3 (run watched steps)) rebuilt_pools)
      "shop"
      "a:80"
      ((500, 40) ∷ (500, 50) ∷ (500, 60) ∷ [])).healthy
    ≡ (run watched steps).healthy ++ true ∷ true ∷ true ∷ []
unfolding watched record_response lookup insert
record_responses-rebuild_example =
    record_responses-rebuild (run watched steps) "shop" "a:80" 3 rebuilt_pools first_ejected
      ((500, 40) ∷ (500, 50) ∷ (500, 60) ∷ []) refl refl refl
