-- ===== src/Store/Bolt/Tests/Encodings.antt =====
-- Encodings of texts and records as bytes, for the platform of the tests.
use Prim.Native.Nat.{compare, Ordering}
use Prim.Native.Char.{Char, char, IsScalar, code, nul}
use Prim.Native.String.{[] as end, ◌∷◌ as ◌followed_by◌}
use text.Mathlib.TextEquality.{IsScalar-prop}
use mathlib.Core.Path.{subst}
use vrata.Common.{ℕ, zero, suc, String, ◌≡◌, refl, sym, ap, ◌∙◌, Option, none, some, [], ◌∷◌, arith}
use vrata.Store.Encrypt.{Bytes}

dec_scalar : (n : ℕ) → Dec (IsScalar n)
dec_scalar n = first (compare n 55296) refl
  where
    below :
        (r : Ordering)
        → compare n 55296 ≡ Ordering.gt
        → compare 57343 n ≡ Ordering.lt
        → compare n 1114112 ≡ r
        → Dec (IsScalar n)
    below Ordering.lt a b c = rw (a, b, c) (yes tt)
    below Ordering.eq a b c = rw (a, b, c) (no (λ x. x))
    below Ordering.gt a b c = rw (a, b, c) (no (λ x. x))

    second : (r : Ordering) → compare n 55296 ≡ Ordering.gt → compare 57343 n ≡ r → Dec (IsScalar n)
    second Ordering.lt a b = below (compare n 1114112) a b refl
    second Ordering.eq a b = rw (a, b) (no (λ x. x))
    second Ordering.gt a b = rw (a, b) (no (λ x. x))

    is_55296 : compare n 55296 ≡ Ordering.eq → n ≡ 55296
    is_55296 a = ground arith

    first : (r : Ordering) → compare n 55296 ≡ r → Dec (IsScalar n)
    first Ordering.lt a = rw a (yes tt)
    first Ordering.eq a = subst (λ k. Dec (IsScalar k)) (sym (is_55296 a)) (no (λ x. x))
    first Ordering.gt a = second (compare 57343 n) a refl

abbrev char_or_nul : (n : ℕ) → Dec (IsScalar n) → Char
char_or_nul n (yes s) = char n s
char_or_nul n (no x) = nul

char_or_nul-scalar : (n : ℕ) (s : IsScalar n) (d : Dec (IsScalar n)) → char_or_nul n d ≡ char n s
char_or_nul-scalar n s (yes t) = ap (char n) (IsScalar-prop n t s)
char_or_nul-scalar n s (no x) = absurd (x s)

-- A text is the numbers of its characters, each one more, and then zero.
unfoldable pub put_text : String → Bytes → Bytes
put_text end rest = 0 ∷ rest
put_text (c followed_by s) rest = suc (code c) ∷ put_text s rest

abbrev then_char : Char → Option (String × Bytes) → Option (String × Bytes)
then_char c none = none
then_char c (some (s, rest)) = some (c followed_by s, rest)

unfoldable pub take_text : Bytes → Option (String × Bytes)
unfolding dec_scalar
take_text [] = none
take_text (zero ∷ rest) = some ("", rest)
take_text (suc n ∷ rest) = then_char (char_or_nul n (dec_scalar n)) (take_text rest)

pub take_text-put_text : (s : String) (rest : Bytes) → take_text (put_text s rest) ≡ some (s, rest)
unfolding take_text put_text
take_text-put_text end rest = refl
take_text-put_text (char n p followed_by s) rest =
    ap (λ c. then_char c (take_text (put_text s rest))) (char_or_nul-scalar n p (dec_scalar n))
    ∙ ap (then_char (char n p)) (take_text-put_text s rest)
