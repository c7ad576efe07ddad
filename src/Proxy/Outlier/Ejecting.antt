-- ===== src/Proxy/Outlier/Ejecting.antt =====
-- When responses eject an endpoint, and when it is restored.
use vrata.Common.{
  ℕ, ◌+◌, ◌-◌, ◌*◌, ◌^◌, ◌≤◌, ◌<◌, ◌≡◌, refl, ap, ◌∙◌, inl, inr, Bool, true, false, not, ◌&&◌, ◌||◌,
  none, some, List, [], ◌∷◌, arith, ltb, leb, if◌then◌else◌, Bool-cases, length, count_by,
}
use vrata.Proxy.Outlier.{
  OutlierDetectionOptions, OutlierTracker, new_tracker, threshold5xx, is_gateway_error,
  count_response, should_eject, respond, restore,
}

-- A response: its status, and the time at which it is recorded.
abbrev pub Response : Type 0
Response = ℕ × ℕ

-- The tracker after responses, the newest of them first.
abbrev pub after : OutlierTracker → List Response → OutlierTracker
after t [] = t
after t ((status, now) ∷ h) = (respond (after t h) status now).0

-- The responses since the last one below 500.
abbrev pub failing : List Response → List Response
failing [] = []
failing ((status, now) ∷ h) = if leb 500 status then (status, now) ∷ failing h else []

abbrev pub is_gateway_response : Response → Bool
is_gateway_response (status, now) = is_gateway_error status

-- Whether the responses since the last one below 500 reach a threshold.
abbrev pub reaches : OutlierDetectionOptions → List Response → Bool
reaches cfg h =
    leb (threshold5xx cfg) (length (failing h))
    || (ltb 0 cfg.consecutive_gateway_errors
        && leb cfg.consecutive_gateway_errors (count_by is_gateway_response (failing h)))

-- Whether they did so after some response.
abbrev pub reached : OutlierDetectionOptions → List Response → Bool
reached cfg [] = false
reached cfg (r ∷ h) = reaches cfg (r ∷ h) || reached cfg h

count_le : (h : List Response) → count_by is_gateway_response h ≤ length h
count_le [] = omega arith
count_le (r ∷ h) = ground (arith, count_le h)

failing_le : (h : List Response) → length (failing h) ≤ length h
failing_le [] = omega arith
failing_le ((status, now) ∷ h) = ground (arith, failing_le h)

record Counts (cfg : OutlierDetectionOptions) (h : List Response) (t : OutlierTracker)
    : Type 0 where
  configured : t.cfg ≡ cfg
  counted5xx : t.consecutive5xx ≡ length (failing h)
  counted_gateway : t.consecutive_gateway ≡ count_by is_gateway_response (failing h)

module _ (cfg : OutlierDetectionOptions) (status now : ℕ) (h : List Response)
    (t : OutlierTracker) where
  count_response-Counts :
      Counts cfg h t
      → length h + 1 < 2 ^ 63
      → Counts cfg ((status, now) ∷ h) (count_response t status)
  unfolding count_response
  count_response-Counts c short = record {
    configured = ground (arith, c.configured);
    counted5xx = ground (arith, c.counted5xx, failing_le h);
    counted_gateway = ground (arith, c.counted_gateway, count_le (failing h), failing_le h);
  }

  should_eject-reaches :
      Counts cfg h t
      → threshold5xx cfg < 2 ^ 32
      → cfg.consecutive_gateway_errors < 2 ^ 32
      → length h < 2 ^ 63
      → should_eject t ≡ reaches cfg h
  unfolding should_eject
  should_eject-reaches c small small_gateway short =
      ground
        (arith, c.configured, c.counted5xx, c.counted_gateway, count_le (failing h), failing_le h)

  respond-Counts : Counts cfg h (count_response t status) → Counts cfg h (respond t status now).0
  unfolding respond
  respond-Counts c =
      elim (Bool-cases
        (should_eject (count_response t status) && not (count_response t status).ejected)) [
          | inl yes_ ↦ rw yes_ (record {
            configured = c.configured;
            counted5xx = c.counted5xx;
            counted_gateway = c.counted_gateway;
          })
          | inr no_ ↦ rw no_ c
        ]

  respond-ejected :
      (respond t status now).0.ejected ≡ (should_eject (count_response t status) || t.ejected)
  unfolding respond count_response
  respond-ejected = ground arith

module _ (cfg : OutlierDetectionOptions) (ep : ℕ) where
  after-Counts :
      (h : List Response) → length h < 2 ^ 63 → Counts cfg h (after (new_tracker cfg ep) h)
  after-Counts [] short = record { configured = refl; counted5xx = refl; counted_gateway = refl }
  after-Counts ((status, now) ∷ h) short =
      respond-Counts cfg status now ((status, now) ∷ h) (after (new_tracker cfg ep) h) (
        count_response-Counts cfg status now h (after (new_tracker cfg ep) h)
          (after-Counts h (omega arith)) (omega arith))

  -- With thresholds on uint32 and fewer than 2 ^ 63 responses, a new tracker is ejected exactly if after
  -- some response the ones since the last response below 500 reached a threshold: their number the one
  -- for 5xx, which is 5 where the configuration has 0, or the number of 502, 503 and 504 among them the
  -- one for gateway errors, if that is not 0.
  pub after-ejected :
      (h : List Response)
      → threshold5xx cfg < 2 ^ 32
      → cfg.consecutive_gateway_errors < 2 ^ 32
      → length h < 2 ^ 63
      → (after (new_tracker cfg ep) h).ejected ≡ reached cfg h
  after-ejected [] small small_gateway short = refl
  after-ejected ((status, now) ∷ h) small small_gateway short = rw (
    respond-ejected cfg status now h (after (new_tracker cfg ep) h),
    after-ejected h small small_gateway (omega arith),
    should_eject-reaches cfg status now ((status, now) ∷ h)
        (count_response (after (new_tracker cfg ep) h) status)
        (count_response-Counts cfg status now h (after (new_tracker cfg ep) h)
          (after-Counts h (omega arith)) (omega arith))
        small small_gateway short,
  )

-- Of an ejected tracker.
record Ejected (at : ℕ) (count : ℕ) (cfg : OutlierDetectionOptions) (t : OutlierTracker)
    : Type 0 where
  is_ejected : t.ejected ≡ true
  since : t.ejected_at ≡ at
  times : t.ejection_count ≡ count
  under : t.cfg ≡ cfg

module _ (at count : ℕ) (cfg : OutlierDetectionOptions) where
  respond-Ejected :
      (t : OutlierTracker) (status now : ℕ)
      → Ejected at count cfg t
      → Ejected at count cfg (respond t status now).0
  unfolding respond count_response
  respond-Ejected t status now e = record {
    is_ejected = ground (arith, e.is_ejected);
    since = ground (arith, e.is_ejected, e.since);
    times = ground (arith, e.is_ejected, e.times);
    under = ground (arith, e.under);
  }

  after-Ejected :
      (t : OutlierTracker) (h : List Response)
      → Ejected at count cfg t
      → Ejected at count cfg (after t h)
  after-Ejected t [] e = e
  after-Ejected t ((status, now) ∷ h) e =
      respond-Ejected (after t h) status now (after-Ejected t h e)

abbrev pub base_of : OutlierDetectionOptions → ℕ
base_of cfg = elim cfg.base_ejection_time [ none ↦ 30 * 1000000000 | some d ↦ d ]

respond-ejects :
    (t : OutlierTracker) (status at : ℕ)
    → (respond t status at).1 ≡ true
    → t.ejection_count + 1 < 2 ^ 64
    → Ejected at (t.ejection_count + 1) t.cfg (respond t status at).0
unfolding respond count_response
respond-ejects t status at ejects few = record {
  is_ejected = ground arith;
  since = ground arith;
  times = ground arith;
  under = ground arith;
}

restore_after :
    (t : OutlierTracker) (at count now : ℕ) (cfg : OutlierDetectionOptions)
    → Ejected at count cfg t
    → base_of cfg * count < 2 ^ 63
    → now - at < 2 ^ 63
    → (restore t now).1 ≡ ltb (base_of cfg * count) (now - at)
unfolding restore
restore_after t at count now cfg e long short =
    ground (arith, e.is_ejected, e.since, e.times, e.under)

restored_flag :
    (t : OutlierTracker) (now : ℕ)
    → t.ejected ≡ true
    → (restore t now).0.ejected ≡ not (restore t now).1
unfolding restore
restored_flag t now e = ground (arith, e)

-- Whatever responses follow an ejection, the n-th of the endpoint, a check restores the endpoint exactly
-- if more than n times the base ejection time has passed since, the base being 30 s where none is
-- configured or it does not parse. The time passed and that duration are below 2 ^ 63 ns.
pub restore-respond :
    (t : OutlierTracker) (status at now : ℕ) (h : List Response)
    → (respond t status at).1 ≡ true
    → t.ejection_count + 1 < 2 ^ 64
    → base_of t.cfg * (t.ejection_count + 1) < 2 ^ 63
    → now - at < 2 ^ 63
    → ((restore (after (respond t status at).0 h) now).1
        ≡ ltb (base_of t.cfg * (t.ejection_count + 1)) (now - at))
      × ((restore (after (respond t status at).0 h) now).0.ejected
          ≡ not (ltb (base_of t.cfg * (t.ejection_count + 1)) (now - at)))
restore-respond t status at now h ejects few long short =
    let e =
      after-Ejected at (t.ejection_count + 1) t.cfg (respond t status at).0 h
        (respond-ejects t status at ejects few) in
    let r =
      restore_after (after (respond t status at).0 h) at (t.ejection_count + 1) now t.cfg e long
        short in
    (r, restored_flag (after (respond t status at).0 h) now e.is_ejected ∙ ap not r)
