-- ===== src/Proxy/Outlier/Agreement.antt =====
-- The flags of the endpoints agree with the trackers, whatever responses and checks come.
use vrata.Common.{
  ℕ, String, ◌≡◌, refl, sym, ◌∙◌, ◌⊎◌, inl, inr, Bool, true, false, not, none, some, List, [], ◌∷◌,
  arith, if◌then◌else◌, Bool-cases, Option-cases, get_elem?,
}
use mathlib.Core.Path.{subst}
use vrata.Common.StringMap.{lookup}
use vrata.Proxy.Outlier.{
  OutlierTracker, OutlierDetector, set_flag, key_of, respond, count_response, recorded,
  record_response, restore, restore_all, check_ejections,
}
use vrata.Proxy.Outlier.Flags.{
  Trackers, AwayFrom, Apart, Agrees, set_flag-same, set_flag-other, Elsewhere, Agrees-Elsewhere,
  insert-Apart, insert-Agrees, found-Agrees,
}

-- The trackers' endpoints differ, and each is healthy exactly if its tracker is not ejected.
abbrev pub Consistent : OutlierDetector → Type 0
Consistent od = Apart od.trackers × Agrees od.trackers od.healthy

respond-endpoint :
    (t : OutlierTracker) (status now : ℕ) → (respond t status now).0.endpoint ≡ t.endpoint
unfolding respond count_response
respond-endpoint t status now = ground arith

respond-flag :
    (t : OutlierTracker) (status now : ℕ)
    → ((respond t status now).1 ≡ true) × ((respond t status now).0.ejected ≡ true)
      ⊎ ((respond t status now).1 ≡ false) × ((respond t status now).0.ejected ≡ t.ejected)
unfolding respond count_response
respond-flag t status now = ground arith

recorded-Consistent :
    (od : OutlierDetector) (key : String) (status now : ℕ) (t : OutlierTracker)
    → lookup key od.trackers ≡ some t
    → Consistent od
    → Consistent (recorded od key status now (some t))
unfolding recorded
recorded-Consistent od key status now t found (apart, agrees) = (
  insert-Apart key t (respond t status now).0 (respond-endpoint t status now) od.trackers found
      apart,
  elim (respond-flag t status now) [
    | inl (ejects, ejected) ↦ rw ejects (
        insert-Agrees key t (respond t status now).0 (respond-endpoint t status now) od.trackers
          od.healthy (set_flag t.endpoint false od.healthy) found apart
          (λ q d. set_flag-other t.endpoint q false od.healthy d)
          (rw (respond-endpoint t status now, ejected)
            (set_flag-same t.endpoint false (not t.ejected) od.healthy
              (found-Agrees key t od.trackers od.healthy found agrees)))
          agrees)
    | inr (quiet, kept) ↦ rw quiet (
        insert-Agrees key t (respond t status now).0 (respond-endpoint t status now) od.trackers
          od.healthy od.healthy found apart (λ q d. refl)
          (rw (respond-endpoint t status now, kept)
            (found-Agrees key t od.trackers od.healthy found agrees))
          agrees)
  ],
)

untracked-Consistent :
    (od : OutlierDetector) (key : String) (status now : ℕ)
    → Consistent od
    → Consistent (recorded od key status now none)
unfolding recorded
untracked-Consistent od key status now c = c

pub record_response-Consistent :
    (od : OutlierDetector) (dest_id ep_id : String) (status now : ℕ)
    → Consistent od
    → Consistent (record_response od dest_id ep_id status now)
unfolding record_response
record_response-Consistent od dest_id ep_id status now c =
    elim (Option-cases (lookup (key_of dest_id ep_id) od.trackers)) [
      | inl missing ↦
          subst (λ o. Consistent (recorded od (key_of dest_id ep_id) status now o)) (sym missing)
            (untracked-Consistent od (key_of dest_id ep_id) status now c)
      | inr (t, found) ↦
          subst (λ o. Consistent (recorded od (key_of dest_id ep_id) status now o)) (sym found)
            (recorded-Consistent od (key_of dest_id ep_id) status now t found c)
    ]

restore-endpoint : (t : OutlierTracker) (now : ℕ) → (restore t now).0.endpoint ≡ t.endpoint
unfolding restore
restore-endpoint t now = ground arith

restore-flag :
    (t : OutlierTracker) (now : ℕ)
    → ((restore t now).1 ≡ true) × ((restore t now).0.ejected ≡ false)
      ⊎ ((restore t now).1 ≡ false) × ((restore t now).0.ejected ≡ t.ejected)
unfolding restore
restore-flag t now = ground arith

abbrev flags_after : OutlierTracker → ℕ → List Bool → List Bool
flags_after t now flags = if (restore t now).1 then set_flag t.endpoint true flags else flags

flags_after-Elsewhere :
    (t : OutlierTracker) (now : ℕ) (flags : List Bool)
    → Elsewhere t.endpoint flags (flags_after t now flags)
flags_after-Elsewhere t now flags q d = elim (Bool-cases (restore t now).1) [
  | inl yes_ ↦ rw yes_ (set_flag-other t.endpoint q true flags d)
  | inr no_ ↦ rw no_ refl
]

flags_after-own :
    (t : OutlierTracker) (now : ℕ) (flags : List Bool)
    → get_elem? flags t.endpoint ≡ some (not t.ejected)
    → get_elem? (flags_after t now flags) t.endpoint ≡ some (not (restore t now).0.ejected)
flags_after-own t now flags e = elim (restore-flag t now) [
  | inl (restores, back) ↦
      rw (restores, back) (set_flag-same t.endpoint true (not t.ejected) flags e)
  | inr (quiet, kept) ↦ rw (quiet, kept) e
]

module _ (now : ℕ) where
  restore_all-AwayFrom :
      (q : ℕ) (ts : Trackers) (flags : List Bool)
      → AwayFrom q ts
      → AwayFrom q (restore_all ts flags now).0
  unfolding restore_all
  restore_all-AwayFrom q [] flags a = tt
  restore_all-AwayFrom q ((k, t) ∷ ts) flags (d, a) = (
    λ e. d (sym (restore-endpoint t now) ∙ e),
    restore_all-AwayFrom q ts (flags_after t now flags) a,
  )

  restore_all-elsewhere :
      (q : ℕ) (ts : Trackers) (flags : List Bool)
      → AwayFrom q ts
      → get_elem? (restore_all ts flags now).1 q ≡ get_elem? flags q
  unfolding restore_all
  restore_all-elsewhere q [] flags a = refl
  restore_all-elsewhere q ((k, t) ∷ ts) flags (d, a) =
      restore_all-elsewhere q ts (flags_after t now flags) a
      ∙ flags_after-Elsewhere t now flags q (λ e. d (sym e))

  restore_all-Apart :
      (ts : Trackers) (flags : List Bool) → Apart ts → Apart (restore_all ts flags now).0
  unfolding restore_all
  restore_all-Apart [] flags a = tt
  restore_all-Apart ((k, t) ∷ ts) flags (away, apart) = (
    restore_all-AwayFrom (restore t now).0.endpoint ts (flags_after t now flags)
        (subst (λ p. AwayFrom p ts) (sym (restore-endpoint t now)) away),
    restore_all-Apart ts (flags_after t now flags) apart,
  )

  restore_all-Agrees :
      (ts : Trackers) (flags : List Bool)
      → Apart ts
      → Agrees ts flags
      → Agrees (restore_all ts flags now).0 (restore_all ts flags now).1
  unfolding restore_all
  restore_all-Agrees [] flags apart a = tt
  restore_all-Agrees ((k, t) ∷ ts) flags (away, apart) (e, a) = (
    rw (restore-endpoint t now) (
        restore_all-elsewhere t.endpoint ts (flags_after t now flags) away
        ∙ flags_after-own t now flags e),
    restore_all-Agrees ts (flags_after t now flags) apart (
        Agrees-Elsewhere t.endpoint ts flags (flags_after t now flags)
          (flags_after-Elsewhere t now flags) away a),
  )

pub check_ejections-Consistent :
    (od : OutlierDetector) (now : ℕ) → Consistent od → Consistent (check_ejections od now)
unfolding check_ejections
check_ejections-Consistent od now (apart, agrees) = (
  restore_all-Apart now od.trackers od.healthy apart,
  restore_all-Agrees now od.trackers od.healthy apart agrees,
)

pub data Step : Type 0 where
  responds : (dest_id ep_id : String) (status now : ℕ) → Step
  checks : ℕ → Step

abbrev pub step : OutlierDetector → Step → OutlierDetector
step od (responds dest_id ep_id status now) = record_response od dest_id ep_id status now
step od (checks now) = check_ejections od now

abbrev pub run : OutlierDetector → List Step → OutlierDetector
run od [] = od
run od (s ∷ ss) = run (step od s) ss

-- If the tracked endpoints are different ones, and each is healthy exactly if its tracker is not
-- ejected, then that is still so after any responses and checks, in any order.
pub run-Consistent :
    (od : OutlierDetector) (ss : List Step) → Consistent od → Consistent (run od ss)
run-Consistent od [] c = c
run-Consistent od (responds dest_id ep_id status now ∷ ss) c =
    run-Consistent (record_response od dest_id ep_id status now) ss
      (record_response-Consistent od dest_id ep_id status now c)
run-Consistent od (checks now ∷ ss) c =
    run-Consistent (check_ejections od now) ss (check_ejections-Consistent od now c)
