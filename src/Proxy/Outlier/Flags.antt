-- ===== src/Proxy/Outlier/Flags.antt =====
-- The flags of the endpoints and the list of the trackers: what a change of one leaves of the others.
use vrata.Common.{
  ℕ, zero, suc, String, ◌≡◌, refl, sym, ap, ◌∙◌, ◌≢◌, inl, inr, Bool, not, none, some, List, [],
  ◌∷◌, str_eq, Bool-cases, get_elem?, All,
}
use mathlib.Core.Path.{subst}
use vrata.Common.StringMap.{lookup, insert}
use vrata.Proxy.Outlier.{OutlierTracker, set_flag}

abbrev pub Trackers : Type 0
Trackers = List (String × OutlierTracker)

-- The trackers' endpoints differ from one, and from each other.
abbrev pub AwayFrom : ℕ → Trackers → Type 0
AwayFrom q = All (λ kt. kt.1.endpoint ≢ q)

abbrev pub Apart : Trackers → Type 0
Apart [] = Unit
Apart ((k, t) ∷ ts) = AwayFrom t.endpoint ts × Apart ts

-- Each tracked endpoint is healthy exactly if its tracker is not ejected.
abbrev pub Agrees : Trackers → List Bool → Type 0
Agrees ts flags = All (λ kt. get_elem? flags kt.1.endpoint ≡ some (not kt.1.ejected)) ts

pub unwrap : (s t : OutlierTracker) → some s ≡ some t → s ≡ t
unwrap s t e = ap (λ o. elim o [ none ↦ s | some x ↦ x ]) e

pub set_flag-same :
    (p : ℕ) (v w : Bool) (flags : List Bool)
    → get_elem? flags p ≡ some w
    → get_elem? (set_flag p v flags) p ≡ some v
set_flag-same p v w [] h = cc
set_flag-same zero v w (x ∷ xs) h = refl
set_flag-same (suc p) v w (x ∷ xs) h = set_flag-same p v w xs h

pub set_flag-other :
    (p q : ℕ) (v : Bool) (flags : List Bool)
    → q ≢ p
    → get_elem? (set_flag p v flags) q ≡ get_elem? flags q
set_flag-other p q v [] h = refl
set_flag-other zero zero v (x ∷ xs) h = absurd (h refl)
set_flag-other zero (suc q) v (x ∷ xs) h = refl
set_flag-other (suc p) zero v (x ∷ xs) h = refl
set_flag-other (suc p) (suc q) v (x ∷ xs) h = set_flag-other p q v xs (λ e. h (ap suc e))

-- The flags that a change of the flag at `p` leaves: all the others.
abbrev pub Elsewhere : ℕ → List Bool → List Bool → Type 0
Elsewhere p flags flags' = (q : ℕ) → q ≢ p → get_elem? flags' q ≡ get_elem? flags q

pub Agrees-Elsewhere :
    (p : ℕ) (ts : Trackers) (flags flags' : List Bool)
    → Elsewhere p flags flags'
    → AwayFrom p ts
    → Agrees ts flags
    → Agrees ts flags'
Agrees-Elsewhere p [] flags flags' h away a = tt
Agrees-Elsewhere p ((k, t) ∷ ts) flags flags' h (d, away) (e, a) =
    (h t.endpoint d ∙ e, Agrees-Elsewhere p ts flags flags' h away a)

pub found_away :
    (q : ℕ) (key : String) (t : OutlierTracker) (ts : Trackers)
    → AwayFrom q ts
    → lookup key ts ≡ some t
    → t.endpoint ≢ q
unfolding lookup
found_away q key t [] away found = cc
found_away q key t ((k, s) ∷ ts) (d, away) found = elim (Bool-cases (str_eq k key)) [
  | inl same ↦ λ e. d (ap (λ o. elim o [ none ↦ q | some x ↦ x.endpoint ]) (rw same at found) ∙ e)
  | inr differ ↦ found_away q key t ts away (rw differ at found)
]

module _ (key : String) (t t' : OutlierTracker) (same_endpoint : t'.endpoint ≡ t.endpoint) where
  pub insert-AwayFrom :
      (q : ℕ) (ts : Trackers)
      → lookup key ts ≡ some t
      → AwayFrom q ts
      → AwayFrom q (insert key t' ts)
  unfolding lookup insert
  insert-AwayFrom q [] found away = cc
  insert-AwayFrom q ((k, s) ∷ ts) found (d, away) = elim (Bool-cases (str_eq k key)) [
    | inl same ↦
        rw same
          ((λ e. found_away q key t ((k, s) ∷ ts) (d, away) found (sym same_endpoint ∙ e)), away)
    | inr differ ↦ rw differ (d, insert-AwayFrom q ts (rw differ at found) away)
  ]

  pub insert-Apart : (ts : Trackers) → lookup key ts ≡ some t → Apart ts → Apart (insert key t' ts)
  unfolding lookup insert
  insert-Apart [] found a = cc
  insert-Apart ((k, s) ∷ ts) found (away, apart) = elim (Bool-cases (str_eq k key)) [
    | inl same ↦
        let at_head : s ≡ t = unwrap s t (rw same at found) in
        rw same (
          subst (λ p. AwayFrom p ts) (ap (λ x. x.endpoint) at_head ∙ sym same_endpoint) away,
          apart,
        )
    | inr differ ↦ rw differ (
      insert-AwayFrom s.endpoint ts (rw differ at found) away,
      insert-Apart ts (rw differ at found) apart,
    )
  ]

  pub insert-Agrees :
      (ts : Trackers) (flags flags' : List Bool)
      → lookup key ts ≡ some t
      → Apart ts
      → Elsewhere t.endpoint flags flags'
      → get_elem? flags' t'.endpoint ≡ some (not t'.ejected)
      → Agrees ts flags
      → Agrees (insert key t' ts) flags'
  unfolding lookup insert
  insert-Agrees [] flags flags' found apart h e a = cc
  insert-Agrees ((k, s) ∷ ts) flags flags' found (away, apart) h e (a, as_) =
      elim (Bool-cases (str_eq k key)) [
        | inl same ↦
            let at_head : s ≡ t = unwrap s t (rw same at found) in
            rw same (
              e,
              Agrees-Elsewhere t.endpoint ts flags flags' h
                  (subst (λ p. AwayFrom p ts) (ap (λ x. x.endpoint) at_head) away) as_,
            )
        | inr differ ↦
            let later = (rw differ at found) in
            rw differ (
              h s.endpoint (λ e. found_away s.endpoint key t ts away later (sym e)) ∙ a,
              insert-Agrees ts flags flags' later apart h e as_,
            )
      ]

pub found-Agrees :
    (key : String) (t : OutlierTracker) (ts : Trackers) (flags : List Bool)
    → lookup key ts ≡ some t
    → Agrees ts flags
    → get_elem? flags t.endpoint ≡ some (not t.ejected)
unfolding lookup
found-Agrees key t [] flags found a = cc
found-Agrees key t ((k, s) ∷ ts) flags found (a, as_) = elim (Bool-cases (str_eq k key)) [
  | inl same ↦
      subst (λ x. get_elem? flags x.endpoint ≡ some (not x.ejected)) (unwrap s t (rw same at found))
        a
  | inr differ ↦ found-Agrees key t ts flags (rw differ at found) as_
]
