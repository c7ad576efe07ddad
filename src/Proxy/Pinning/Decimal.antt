-- ===== src/Proxy/Pinning/Decimal.antt =====
-- itoa writes a number in decimal.
use vrata.Common.{ℕ, zero, suc, ◌+◌, ◌-◌, ◌*◌, ◌/◌, ◌≤◌, ◌≡◌, refl, List, [], ◌∷◌, ◌++◌, arith, All}
use mathlib.Core.List.{reverse, reverse-cons}
use vrata.Proxy.Pinning.{digits_back, itoa}

-- The number that a decimal text stands for.
abbrev pub value_from : ℕ → List ℕ → ℕ
value_from acc [] = acc
value_from acc (d ∷ ds) = value_from (acc * 10 + (d - b'0')) ds

-- The same for digits whose last comes first.
abbrev value_back : List ℕ → ℕ
value_back [] = 0
value_back (d ∷ ds) = (d - b'0') + 10 * value_back ds

abbrev pub Digits : List ℕ → Type 0
Digits = All (λ d. (b'0' ≤ d) × (d ≤ b'9'))

value_back-digits_back : (fuel n : ℕ) → n ≤ fuel → value_back (digits_back fuel n) ≡ n
unfolding digits_back
value_back-digits_back zero n h = omega arith
value_back-digits_back (suc fuel) n h = ground (arith, value_back-digits_back fuel (n / 10))

value_from-append :
    (acc d : ℕ) (xs : List ℕ) → value_from acc (xs ++ d ∷ []) ≡ value_from acc xs * 10 + (d - b'0')
value_from-append acc d [] = refl
value_from-append acc d (x ∷ xs) = value_from-append (acc * 10 + (x - b'0')) d xs

value_from-reverse : (xs : List ℕ) → value_from 0 (reverse xs) ≡ value_back xs
value_from-reverse [] = refl
value_from-reverse (x ∷ xs) =
    rw (reverse-cons x xs, value_from-append 0 x (reverse xs))
      (omega (arith, value_from-reverse xs))

-- What itoa writes for a number reads back as that number, so that two numbers never give one text.
pub value-itoa : (n : ℕ) → value_from 0 (itoa n) ≡ n
unfolding itoa
value-itoa n = ground (arith, value_from-reverse (digits_back n n), value_back-digits_back n n)
