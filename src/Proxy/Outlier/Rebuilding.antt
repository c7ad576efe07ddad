-- ===== src/Proxy/Outlier/Rebuilding.antt =====
-- What an update makes of ejected endpoints: Update gets the pools of a rebuilt table, whose endpoints
-- are new (server/internal/gateway/gateway.go, server/internal/sync/client.go).
use mathlib.Core.List.{append-nil, append_assoc}
use vrata.Common.{
  ℕ, zero, suc, String, ◌≡◌, refl, sym, ap, ◌∙◌, inl, inr, Bool, true, false, ◌&&◌, Option, none,
  some, List, [], ◌∷◌, ◌++◌, arith, str_eq, eq_iff, Bool-cases, replicate, any_by,
}
use vrata.Common.StringMap.{lookup, insert, lookup-insert}
use mathlib.Core.Path.{subst}
use vrata.Proxy.Outlier.{
  OutlierDetectionOptions, OutlierTracker, OutlierDetector, TrackedPool, tracked, key_of,
  new_endpoint, update, track_pools, track_endpoints, tracker_for, recorded, respond,
  count_response, record_response,
}

abbrev pub is_some {ℓ} : {A : Type ℓ} → Option A → Bool
is_some none = false
is_some (some a) = true

-- The endpoints of a rebuilt table.
abbrev pub new_endpoints : ℕ → OutlierDetector → OutlierDetector
new_endpoints zero od = od
new_endpoints (suc n) od = new_endpoints n (new_endpoint od).0

-- A pool of an update that tracks an endpoint: its destination has outlier detection, and the
-- endpoint is one of its own.
abbrev pub tracks : String → String → TrackedPool → Bool
tracks dest_id ep_id pool =
    is_some pool.outlier_detection
    && str_eq pool.destination_id dest_id
    && any_by (λ ep. str_eq ep.0 ep_id) pool.endpoints

-- Responses of the endpoint, each with its time.
abbrev pub record_responses : OutlierDetector → String → String → List (ℕ × ℕ) → OutlierDetector
record_responses od dest_id ep_id [] = od
record_responses od dest_id ep_id ((status, now) ∷ rs) =
    record_responses (record_response od dest_id ep_id status now) dest_id ep_id rs

respond_ejected :
    (t : OutlierTracker) (status now : ℕ)
    → t.ejected ≡ true
    → ((respond t status now).1 ≡ false) × ((respond t status now).0.ejected ≡ true)
unfolding respond count_response
respond_ejected t status now e = (ground (arith, e), ground (arith, e))

abbrev StaysEjected : OutlierDetector → String → Type 0
StaysEjected od key = (t : OutlierTracker) × (lookup key od.trackers ≡ some t) × (t.ejected ≡ true)

eq_self : (k : String) → str_eq k k ≡ true
eq_self k = (eq_iff k k).1 refl

recorded-StaysEjected :
    (od : OutlierDetector) (key : String) (status now : ℕ) (t : OutlierTracker)
    → t.ejected ≡ true
    → StaysEjected (recorded od key status now (some t)) key
      × ((recorded od key status now (some t)).healthy ≡ od.healthy)
unfolding recorded
recorded-StaysEjected od key status now t e =
    let (quiet, still) = respond_ejected t status now e in
    (
      (
        (respond t status now).0,
        lookup-insert key key (respond t status now).0 od.trackers ∙ rw (eq_self key) refl,
        still,
      ),
      rw quiet refl,
    )

record_response-StaysEjected :
    (od : OutlierDetector) (dest_id ep_id : String) (status now : ℕ)
    → StaysEjected od (key_of dest_id ep_id)
    → StaysEjected (record_response od dest_id ep_id status now) (key_of dest_id ep_id)
      × ((record_response od dest_id ep_id status now).healthy ≡ od.healthy)
unfolding record_response
record_response-StaysEjected od dest_id ep_id status now (t, found, e) =
    let key = key_of dest_id ep_id in
    subst
      (λ o.
        StaysEjected (recorded od key status now o) key
        × ((recorded od key status now o).healthy ≡ od.healthy))
      (sym found) (recorded-StaysEjected od key status now t e)

record_responses-healthy :
    (od : OutlierDetector) (dest_id ep_id : String) (rs : List (ℕ × ℕ))
    → StaysEjected od (key_of dest_id ep_id)
    → (record_responses od dest_id ep_id rs).healthy ≡ od.healthy
record_responses-healthy od dest_id ep_id [] e = refl
record_responses-healthy od dest_id ep_id ((status, now) ∷ rs) e =
    let (e', same) = record_response-StaysEjected od dest_id ep_id status now e in
    record_responses-healthy (record_response od dest_id ep_id status now) dest_id ep_id rs e'
    ∙ same

abbrev EjectedAt : List (String × OutlierTracker) → String → Type 0
EjectedAt trackers key = (t : OutlierTracker) × (lookup key trackers ≡ some t) × (t.ejected ≡ true)

module _ (old : List (String × OutlierTracker)) (key : String) (was : EjectedAt old key) where
  abbrev next_tracker : String → OutlierDetectionOptions → ℕ → OutlierTracker
  next_tracker k cfg ep = tracker_for (lookup k old) cfg ep

  carried : (cfg : OutlierDetectionOptions) (ep : ℕ) → (next_tracker key cfg ep).ejected ≡ true
  carried cfg ep = let (t, found, e) = was in ap (λ o. (tracker_for o cfg ep).ejected) found ∙ e

  insert-EjectedAt :
      (cfg : OutlierDetectionOptions) (ep : ℕ) (trackers : List (String × OutlierTracker))
      → EjectedAt (insert key (next_tracker key cfg ep) trackers) key
  insert-EjectedAt cfg ep trackers = (
    next_tracker key cfg ep,
    lookup-insert key key (next_tracker key cfg ep) trackers ∙ rw (eq_self key) refl,
    carried cfg ep,
  )

  -- Tracking any endpoint leaves the tracker ejected.
  insert_keeps :
      (k : String) (cfg : OutlierDetectionOptions) (ep : ℕ)
      (trackers : List (String × OutlierTracker))
      → EjectedAt trackers key
      → EjectedAt (insert k (next_tracker k cfg ep) trackers) key
  insert_keeps k cfg ep trackers (t, found, e) = elim (Bool-cases (str_eq k key)) [
    | inl same ↦
        subst (λ x. EjectedAt (insert x (next_tracker x cfg ep) trackers) key)
          (sym ((eq_iff k key).0 same)) (insert-EjectedAt cfg ep trackers)
    | inr other ↦ (t, lookup-insert key k (next_tracker k cfg ep) trackers ∙ rw other found, e)
  ]

  track_endpoints_keeps :
      (dest_id : String) (cfg : OutlierDetectionOptions) (eps : List (String × ℕ))
      (trackers : List (String × OutlierTracker))
      → EjectedAt trackers key
      → EjectedAt (track_endpoints old dest_id cfg eps trackers) key
  unfolding track_endpoints
  track_endpoints_keeps dest_id cfg [] trackers e = e
  track_endpoints_keeps dest_id cfg ((id, ep) ∷ eps) trackers e =
      track_endpoints_keeps dest_id cfg eps _ (insert_keeps (key_of dest_id id) cfg ep trackers e)

  track_endpoints-EjectedAt :
      (dest_id ep_id : String) (cfg : OutlierDetectionOptions) (eps : List (String × ℕ))
      (trackers : List (String × OutlierTracker))
      → key_of dest_id ep_id ≡ key
      → any_by (λ ep. str_eq ep.0 ep_id) eps ≡ true
      → EjectedAt (track_endpoints old dest_id cfg eps trackers) key
  unfolding track_endpoints
  track_endpoints-EjectedAt dest_id ep_id cfg [] trackers k h = cc
  track_endpoints-EjectedAt dest_id ep_id cfg ((id, ep) ∷ eps) trackers k h =
      elim (Bool-cases (str_eq id ep_id)) [
        | inl same ↦ track_endpoints_keeps dest_id cfg eps _ (
            subst (λ x. EjectedAt (insert x (next_tracker x cfg ep) trackers) key)
              (sym (ap (key_of dest_id) ((eq_iff id ep_id).0 same) ∙ k))
              (insert-EjectedAt cfg ep trackers))
        | inr other ↦ track_endpoints-EjectedAt dest_id ep_id cfg eps _ k (rw other at h)
      ]

  track_pools_keeps :
      (pools : List TrackedPool) (trackers : List (String × OutlierTracker))
      → EjectedAt trackers key
      → EjectedAt (track_pools old pools trackers) key
  unfolding track_pools tracked
  track_pools_keeps [] trackers e = e
  track_pools_keeps (pool ∷ pools) trackers e =
      track_pools_keeps pools _ (kept pool.outlier_detection)
    where
      kept : (o : Option OutlierDetectionOptions) → EjectedAt (tracked old pool o trackers) key
      kept none = e
      kept (some cfg) = track_endpoints_keeps pool.destination_id cfg pool.endpoints trackers e

  track_pools-EjectedAt :
      (dest_id ep_id : String) (pools : List TrackedPool)
      (trackers : List (String × OutlierTracker))
      → key_of dest_id ep_id ≡ key
      → any_by (tracks dest_id ep_id) pools ≡ true
      → EjectedAt (track_pools old pools trackers) key
  unfolding track_pools tracked
  track_pools-EjectedAt dest_id ep_id [] trackers k h = cc
  track_pools-EjectedAt dest_id ep_id (pool ∷ pools) trackers k h =
      elim (Bool-cases (tracks dest_id ep_id pool)) [
        | inl there ↦
            track_pools_keeps pools _ (covered pool.outlier_detection refl (ground (arith, there)))
        | inr other ↦ track_pools-EjectedAt dest_id ep_id pools _ k (rw other at h)
      ]
    where
      covered :
          (o : Option OutlierDetectionOptions)
          → pool.outlier_detection ≡ o
          → (is_some o
              && str_eq pool.destination_id dest_id
              && any_by (λ ep. str_eq ep.0 ep_id) pool.endpoints)
            ≡ true
          → EjectedAt (tracked old pool o trackers) key
      covered none same h = cc
      covered (some cfg) same h =
          let dest : str_eq pool.destination_id dest_id ≡ true = ground (arith, h) in
          track_endpoints-EjectedAt pool.destination_id ep_id cfg pool.endpoints trackers
            (ap (λ d. key_of d ep_id) ((eq_iff pool.destination_id dest_id).0 dest) ∙ k)
            (ground (arith, h))

trackers-new_endpoints :
    (n : ℕ) (od : OutlierDetector) → (new_endpoints n od).trackers ≡ od.trackers
unfolding new_endpoint
trackers-new_endpoints zero od = refl
trackers-new_endpoints (suc n) od = trackers-new_endpoints n (new_endpoint od).0

healthy-new_endpoints :
    (n : ℕ) (od : OutlierDetector) → (new_endpoints n od).healthy ≡ od.healthy ++ replicate n true
unfolding new_endpoint
healthy-new_endpoints zero od = sym (append-nil od.healthy)
healthy-new_endpoints (suc n) od =
    healthy-new_endpoints n (new_endpoint od).0
    ∙ append_assoc od.healthy (true ∷ []) (replicate n true)

-- After an update with any pools of a rebuilt table, whose endpoints are new: if the tracker of an endpoint
-- was ejected, and the pools track the endpoint, then whatever responses it gives, all new endpoints are
-- healthy and the flags of the old ones are as they were.
pub record_responses-rebuild :
    (od : OutlierDetector) (dest_id ep_id : String) (n : ℕ) (pools : List TrackedPool)
    (t : OutlierTracker) (rs : List (ℕ × ℕ))
    → lookup (key_of dest_id ep_id) od.trackers ≡ some t
    → t.ejected ≡ true
    → any_by (tracks dest_id ep_id) pools ≡ true
    → (record_responses (update (new_endpoints n od) pools) dest_id ep_id rs).healthy
      ≡ od.healthy ++ replicate n true
unfolding update
record_responses-rebuild od dest_id ep_id n pools t rs found e h =
    let key = key_of dest_id ep_id in
    let was : EjectedAt (new_endpoints n od).trackers key =
      (t, ap (lookup key) (trackers-new_endpoints n od) ∙ found, e) in
    record_responses-healthy (update (new_endpoints n od) pools) dest_id ep_id rs
      (track_pools-EjectedAt (new_endpoints n od).trackers key was dest_id ep_id pools [] refl h)
    ∙ healthy-new_endpoints n od
