-- ===== src/Proxy/Retry/Backoff.antt =====
-- The backoff between two attempts: its bounds, and the inputs at which it panics.
use vrata.Common.{
  dec_lt, dec_le, ℕ, zero, suc, ◌*◌, ◌/◌, ◌%◌, ◌^◌, ◌≤◌, ◌<◌, ◌≡◌, ◌⊎◌, inl, inr, true, false,
  Option, none, some, arith, if◌then◌else◌,
}
use vrata.Common.Words.{add64, slt64, sle64}
use vrata.Proxy.Retry.{capped, calc_backoff, half64}
use Prim.Native.Nat.{min}
use native.Mathlib.Nat.{pow-suc, mod-eq_of_lt}

capped-lt : (base max attempt : ℕ) → max < 2 ^ 64 → capped base max attempt < 2 ^ 64
unfolding capped
capped-lt base max attempt h = ground arith

half_small : (b : ℕ) → b < 2 ^ 64 → (b < 2) ⊎ (2 ^ 63 ≤ b) → sle64 (half64 b) 0 ≡ true
half_small b h c = ground arith

half_large : (b : ℕ) → 2 ≤ b → b < 2 ^ 63 → (half64 b ≡ b / 2) × (sle64 (b / 2) 0 ≡ false)
half_large b h k = ground arith

jitter_bounds :
    (b r : ℕ) → 2 ≤ b → b < 2 ^ 63 → r < b / 2 → (b / 2 ≤ add64 (b / 2) r) × (add64 (b / 2) r < b)
jitter_bounds b r h k l = omega arith

-- What the code makes of a capped backoff `b`, for a drawn number.
abbrev Sleeps : ℕ → Option ℕ → Type 0
Sleeps b r =
    (((b < 2) ⊎ (2 ^ 63 ≤ b)) × (r ≡ none))
    ⊎ ((2 ≤ b) × (b < 2 ^ 63) × ((d : ℕ) × (r ≡ some d) × (b / 2 ≤ d) × (d < b)))

abbrev jittered : ℕ → ℕ → Option ℕ
jittered b draw = if sle64 (half64 b) 0 then none else some (add64 (half64 b) (draw % half64 b))

jittered-Sleeps : (b draw : ℕ) → b < 2 ^ 64 → Sleeps b (jittered b draw)
jittered-Sleeps b draw lt = elim (dec_lt b 2) [
  | yes lo ↦ inl (inl lo, rw (half_small b lt (inl lo)))
  | no more ↦ elim (dec_le (2 ^ 63) b) [
    | yes neg ↦ inl (inr neg, rw (half_small b lt (inr neg)))
    | no fits ↦
        let (same, pos) = half_large b (omega arith) (omega arith) in
        let (lo, hi) = jitter_bounds b (draw % (b / 2)) (omega arith) (omega arith) (omega arith) in
        inr (omega arith, omega arith, (add64 (b / 2) (draw % (b / 2)), rw (same, pos), lo, hi))
  ]
]

calc_backoff-Sleeps :
    (base max attempt draw : ℕ)
    → max < 2 ^ 64
    → Sleeps (capped base max attempt) (calc_backoff base max attempt draw)
unfolding calc_backoff
calc_backoff-Sleeps base max attempt draw h =
    jittered-Sleeps (capped base max attempt) draw (capped-lt base max attempt h)

pow_pos : (a : ℕ) → 0 < 2 ^ a
pow_pos zero = omega arith
pow_pos (suc a) = omega (arith, pow_pos a, pow-suc 2 a)

wrapped_exact :
    (base pow : ℕ) → 0 < base → base * pow < 2 ^ 63 → base * (pow % 2 ^ 64) % 2 ^ 64 ≡ base * pow
wrapped_exact base pow p h = rw (mod-eq_of_lt small) (mod-eq_of_lt (omega arith))
  where
    below : pow ≤ base * pow
    below = grind arith

    small : pow < 2 ^ 64
    small = omega (arith, below)

cut_exact : (max x : ℕ) → x < 2 ^ 63 → max < 2 ^ 63 → (if slt64 max x then max else x) ≡ min max x
cut_exact max x h k = elim (dec_lt max x) [ yes p ↦ ground arith | no p ↦ ground arith ]

-- Where base * 2 ^ attempt does not pass int64, the exponential is cut at max as written.
capped_exact :
    (base max attempt : ℕ)
    → 0 < base
    → base * 2 ^ attempt < 2 ^ 63
    → max < 2 ^ 63
    → capped base max attempt ≡ min max (base * 2 ^ attempt)
unfolding capped
capped_exact base max attempt p h m =
    rw (wrapped_exact base (2 ^ attempt) p h) (cut_exact max (base * 2 ^ attempt) h m)

le_mul_pos : (b p : ℕ) → 0 < p → b ≤ b * p
le_mul_pos b p h = grind arith

-- With a base and a maximum of at least 2 ns, and base * 2 ^ attempt within int64, calcBackoff does
-- not panic, and sleeps at least half of the exponential backoff cut at the maximum, and less than it.
pub calc_backoff_bounds :
    (base max attempt draw : ℕ)
    → 2 ≤ base
    → 2 ≤ max
    → max < 2 ^ 63
    → base * 2 ^ attempt < 2 ^ 63
    → (d : ℕ) × (calc_backoff base max attempt draw ≡ some d)
      × (min max (base * 2 ^ attempt) / 2 ≤ d)
      × (d < min max (base * 2 ^ attempt))
calc_backoff_bounds base max attempt draw b m k h =
    rw (← exact) (elim (calc_backoff-Sleeps base max attempt draw (omega arith)) [
      | inl (bad, _) ↦ absurd (omega (arith, exact, grows))
      | inr (_, _, found) ↦ found
    ])
  where
    exact : capped base max attempt ≡ min max (base * 2 ^ attempt)
    exact = capped_exact base max attempt (omega arith) h k

    positive : 0 < 2 ^ attempt
    positive = pow_pos attempt

    grows : base ≤ base * 2 ^ attempt
    grows = le_mul_pos base (2 ^ attempt) positive

capped_last :
    (base max : ℕ) → max < 2 ^ 64 → (capped base max 63 < 2) ⊎ (2 ^ 63 ≤ capped base max 63)
unfolding capped
capped_last base max h = ground arith

-- The product for the 64th retry wraps to 0 or to the least int64.
pub calc_backoff-last : (base max draw : ℕ) → max < 2 ^ 64 → calc_backoff base max 63 draw ≡ none
calc_backoff-last base max draw h = elim (calc_backoff-Sleeps base max 63 draw h) [
  | inl (_, stops) ↦ stops
  | inr (lo, hi, _) ↦
      absurd (elim (capped_last base max h) [ inl small ↦ omega arith | inr large ↦ omega arith ])
]
