-- ===== src/Common/Lists.antt =====
-- Lists measured and indexed by native numbers, under the library's names.
use Prim.Native.Nat.{ℕ, zero, suc, ◌+◌}
use mathlib.Core.Path.{◌≡◌, refl}
use mathlib.Core.Bool.{Bool, true, false}
use mathlib.Core.List.{List, [], ◌∷◌, ◌++◌}
use mathlib.Core.Option.{Option, none, some}
use native.Mathlib.Omega.{arith}
use vrata.Common.Tests.{if◌then◌else◌}

module _ {ℓ} {A : Type ℓ} where
  abbrev pub length : List A → ℕ
  length [] = 0
  length (x ∷ xs) = suc (length xs)

  abbrev pub get_elem? : List A → ℕ → Option A
  get_elem? [] i = none
  get_elem? (x ∷ xs) zero = some x
  get_elem? (x ∷ xs) (suc i) = get_elem? xs i

  abbrev pub replicate : ℕ → A → List A
  replicate zero a = []
  replicate (suc n) a = a ∷ replicate n a

  -- The elements that pass a Boolean test, in their order.
  abbrev pub filter_by : (A → Bool) → List A → List A
  filter_by p [] = []
  filter_by p (x ∷ xs) = if p x then x ∷ filter_by p xs else filter_by p xs

  -- Whether some element passes.
  abbrev pub any_by : (A → Bool) → List A → Bool
  any_by p [] = false
  any_by p (x ∷ xs) = if p x then true else any_by p xs

  -- How many elements pass.
  abbrev pub count_by : (A → Bool) → List A → ℕ
  count_by p [] = 0
  count_by p (x ∷ xs) = (if p x then 1 else 0) + count_by p xs

  pub length-append : (xs ys : List A) → length (xs ++ ys) ≡ length xs + length ys
  length-append [] ys = omega arith
  length-append (x ∷ xs) ys = omega (arith, length-append xs ys)

module _ {ℓ κ} {A : Type ℓ} (P : A → Type κ) where
  abbrev pub All : List A → Type κ
  All [] = Unit
  All (x ∷ xs) = P x × All xs

module _ {A : Type 0} (p q : A → Bool) where
  pub filter_by_comm : (xs : List A) → filter_by p (filter_by q xs) ≡ filter_by q (filter_by p xs)
  filter_by_comm [] = refl
  filter_by_comm (x ∷ xs) = ground (arith, filter_by_comm xs)

module _ {A : Type 0} (p : A → Bool) where
  pub filter_by-append :
      (xs ys : List A) → filter_by p (xs ++ ys) ≡ filter_by p xs ++ filter_by p ys
  filter_by-append [] ys = refl
  filter_by-append (x ∷ xs) ys = ground (arith, filter_by-append xs ys)

  pub count_by-append : (xs ys : List A) → count_by p (xs ++ ys) ≡ count_by p xs + count_by p ys
  count_by-append [] ys = omega arith
  count_by-append (x ∷ xs) ys = omega (arith, count_by-append xs ys)

  pub All-filter_by : (P : A → Type 0) (xs : List A) → All P xs → All P (filter_by p xs)
  All-filter_by P [] a = tt
  All-filter_by P (x ∷ xs) (a, as_) = keep (p x) (All-filter_by P xs as_)
    where
      keep :
          (b : Bool)
          → All P (filter_by p xs)
          → All P (if b then x ∷ filter_by p xs else filter_by p xs)
      keep true h = (a, h)
      keep false h = h
