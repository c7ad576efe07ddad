-- ===== src/Common/Counting.antt =====
-- Counting the numbers of a range that pass a test.
use Prim.Native.Nat.{ℕ, zero, suc, ◌+◌, ◌≤◌, ◌<◌}
use mathlib.Core.Path.{◌≡◌, refl, ap}
use mathlib.Core.Bool.{Bool, true, false}
use native.Mathlib.Omega.{arith}
use vrata.Common.Tests.{if◌then◌else◌}

-- How many of the `n` numbers from `start` on pass.
abbrev pub count_from : (ℕ → Bool) → ℕ → ℕ → ℕ
count_from p start zero = 0
count_from p start (suc n) = (if p start then 1 else 0) + count_from p (start + 1) n

plus_zero : (start : ℕ) → start + 0 ≡ start
plus_zero start = omega arith

zero_plus : (n : ℕ) → 0 + n ≡ n
zero_plus n = omega arith

suc_plus : (m n : ℕ) → suc m + n ≡ suc (m + n)
suc_plus m n = omega arith

suc_shift : (start m : ℕ) → start + 1 + m ≡ start + suc m
suc_shift start m = omega arith

pub count_from-append :
    (p : ℕ → Bool) (start m n : ℕ)
    → count_from p start (m + n) ≡ count_from p start m + count_from p (start + m) n
count_from-append p start zero n =
    omega
      (arith, ap (λ s. count_from p s n) (plus_zero start), ap (count_from p start) (zero_plus n))
count_from-append p start (suc m) n = omega (
  arith,
  count_from-append p (start + 1) m n,
  ap (λ s. count_from p s n) (suc_shift start m),
  ap (count_from p start) (suc_plus m n),
)

one_more :
    (v : Bool) (n : ℕ) → (if v then 1 else 0) + (if v then n else 0) ≡ (if v then suc n else 0)
one_more true n = omega arith
one_more false n = omega arith

-- Where the test is constant.
pub count_from-const :
    (p : ℕ → Bool) (v : Bool) (start n : ℕ)
    → ((r : ℕ) → start ≤ r → r < start + n → p r ≡ v)
    → count_from p start n ≡ (if v then n else 0)
count_from-const p v start zero h = ground arith
count_from-const p v start (suc n) h =
    rw
      (
        h start (omega arith) (omega arith),
        count_from-const p v (start + 1) n (λ r lo hi. h r (omega arith) (omega arith)),
      )
      (one_more v n)

pub count_from-same :
    (p q : ℕ → Bool) (start n : ℕ)
    → ((r : ℕ) → start ≤ r → r < start + n → p r ≡ q r)
    → count_from p start n ≡ count_from q start n
count_from-same p q start zero h = refl
count_from-same p q start (suc n) h = rw (h start (omega arith) (omega arith)) (
    ap (λ c. (if q start then 1 else 0) + c)
      (count_from-same p q (start + 1) n (λ r lo hi. h r (omega arith) (omega arith))))
