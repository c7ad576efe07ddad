-- ===== src/Resolve/Escaping.antt =====
-- The strings of a JSON document, and how an escaped value reads inside one of them.
use vrata.Common.{
  ℕ, zero, suc, ◌≡◌, refl, sym, ap, ◌∙◌, inl, inr, Bool, true, false, not, ◌&&◌, ◌||◌, Option, none,
  some, List, [], ◌∷◌, ◌++◌, map, ltb, leb, ◌==◌, if◌then◌else◌, ==_iff, Bool-cases, any_by, bind,
}
use mathlib.Core.List.{append_assoc}
use mathlib.Core.Path.{subst}
use vrata.Resolve.{Text, replace_all, escape_json}

-- Where a reader of a JSON document stands: between strings, in a string, behind a backslash, or behind
-- \u, with the number of hexadecimal digits that are still to come behind the next one.
pub data State : Type 0 where
  outside inside escape : State
  code : ℕ → State

-- What it reads: a byte between strings, the quote of a string, a byte of the value of a string, or a
-- digit behind \u.
pub data Token : Type 0 where
  mark : ℕ → Token
  quote : Token
  byte : ℕ → Token
  code_digit : ℕ → Token

abbrev pub Reading : Type 0
Reading = Option (State × List Token)

-- The byte that stands behind a backslash, for another one (RFC 8259, section 7).
unfoldable escaped : ℕ → Option ℕ
escaped y =
    if y == 34 || y == 47 || y == 92
    then some y
    else if y == 98
    then some 8
    else if y == 102
    then some 12
    else if y == 110
    then some 10
    else if y == 114
    then some 13
    else if y == 116
    then some 9
    else none

abbrev is_hex : ℕ → Bool
is_hex x = (leb 48 x && leb x 57) || (leb 65 x && leb x 70) || (leb 97 x && leb x 102)

abbrev digits_left : ℕ → State
digits_left zero = inside
digits_left (suc n) = code n

-- One byte. A string may not hold a control byte.
unfoldable pub step : State → ℕ → Reading
unfolding escaped
step outside x = if x == 34 then some (inside, quote ∷ []) else some (outside, mark x ∷ [])
step inside x =
    if x == 92
    then some (escape, [])
    else if x == 34
    then some (outside, quote ∷ [])
    else if ltb x 32
    then none
    else some (inside, byte x ∷ [])
step escape x =
    if x == 117 then some (code 3, []) else bind (escaped x) (λ y. some (inside, byte y ∷ []))
step (code n) x = if is_hex x then some (digits_left n, code_digit x ∷ []) else none

abbrev pub prepend : List Token → Reading → Reading
prepend ts none = none
prepend ts (some (q, us)) = some (q, ts ++ us)

-- A text, from a state.
unfoldable pub read : State → Text → Reading
unfolding step
read q [] = some (q, [])
read q (x ∷ s) = bind (step q x) (λ r. prepend r.1 (read r.0 s))

pub prepend-nil : (o : Reading) → prepend [] o ≡ o
prepend-nil none = refl
prepend-nil (some (q, us)) = refl

prepend-append :
    (ts us : List Token) (o : Reading) → prepend ts (prepend us o) ≡ prepend (ts ++ us) o
prepend-append ts us none = refl
prepend-append ts us (some (q, vs)) = ap (λ ws. some (q, ws)) (sym (append_assoc ts us vs))

prepend-bind :
    (ts : List Token) (o : Reading) (f : State → Reading)
    → prepend ts (bind o (λ r. prepend r.1 (f r.0)))
      ≡ bind (prepend ts o) (λ r. prepend r.1 (f r.0))
prepend-bind ts none f = refl
prepend-bind ts (some (q, us)) f = prepend-append ts us (f q)

bind-prepend :
    (o : Reading) (f g h : State → Reading)
    → ((q : State) → f q ≡ bind (g q) (λ r. prepend r.1 (h r.0)))
    → bind o (λ r. prepend r.1 (f r.0))
      ≡ bind (bind o (λ r. prepend r.1 (g r.0))) (λ r. prepend r.1 (h r.0))
bind-prepend none f g h e = refl
bind-prepend (some (q, ts)) f g h e = ap (prepend ts) (e q) ∙ prepend-bind ts (g q) h

-- A text behind another is read from where that one ends.
pub read-append :
    (q : State) (a b : Text) → read q (a ++ b) ≡ bind (read q a) (λ r. prepend r.1 (read r.0 b))
unfolding read
read-append q [] b = sym (prepend-nil (read q b))
read-append q (x ∷ a) b =
    bind-prepend (step q x) (λ r. read r (a ++ b)) (λ r. read r a) (λ r. read r b)
      (λ r. read-append r a b)

-- A control byte that escapeJSON does not know.
abbrev pub other_control : ℕ → Bool
other_control x = ltb x 32 && not (x == 9) && not (x == 10) && not (x == 13)

abbrev escape_byte : ℕ → Text
escape_byte x =
    if x == 92
    then 92 ∷ 92 ∷ []
    else if x == 34
    then 92 ∷ 34 ∷ []
    else if x == 10
    then 92 ∷ 110 ∷ []
    else if x == 13
    then 92 ∷ 114 ∷ []
    else if x == 9
    then 92 ∷ 116 ∷ []
    else x ∷ []

-- A byte is one of the five that are escaped, or none of them.
byte_cases :
    (P : ℕ → Type 0) (x : ℕ)
    → P 92
    → P 34
    → P 10
    → P 13
    → P 9
    → (x == 92 ≡ false → x == 34 ≡ false → x == 10 ≡ false → x == 13 ≡ false → x == 9 ≡ false → P x)
    → P x
byte_cases P x p92 p34 p10 p13 p9 other = elim (Bool-cases (x == 92)) [
  | inl a ↦ subst P (sym ((==_iff x 92).0 a)) p92
  | inr a ↦ elim (Bool-cases (x == 34)) [
    | inl b ↦ subst P (sym ((==_iff x 34).0 b)) p34
    | inr b ↦ elim (Bool-cases (x == 10)) [
      | inl c ↦ subst P (sym ((==_iff x 10).0 c)) p10
      | inr c ↦ elim (Bool-cases (x == 13)) [
        | inl d ↦ subst P (sym ((==_iff x 13).0 d)) p13
        | inr d ↦ elim (Bool-cases (x == 9)) [
          | inl f ↦ subst P (sym ((==_iff x 9).0 f)) p9
          | inr f ↦ other a b c d f
        ]
      ]
    ]
  ]
]

escape_json-cons : (x : ℕ) (s : Text) → escape_json (x ∷ s) ≡ escape_byte x ++ escape_json s
unfolding escape_json replace_all
escape_json-cons x s =
    byte_cases (λ y. escape_json (y ∷ s) ≡ escape_byte y ++ escape_json s) x refl refl refl refl
      refl (λ a b c d f. rw (a, b, c, d, f) refl)

read-escape_byte :
    (x : ℕ) (s : Text)
    → read inside (escape_byte x ++ s)
      ≡ (if other_control x then none else prepend (byte x ∷ []) (read inside s))
unfolding read step escaped
read-escape_byte x s =
    byte_cases
      (λ y.
        read inside (escape_byte y ++ s)
        ≡ (if other_control y then none else prepend (byte y ∷ []) (read inside s)))
      x (prepend-nil _) (prepend-nil _) (prepend-nil _) (prepend-nil _) (prepend-nil _)
      (λ a b c d f. other a b c d f (ltb x 32) refl)
  where
    other :
        x == 92 ≡ false
        → x == 34 ≡ false
        → x == 10 ≡ false
        → x == 13 ≡ false
        → x == 9 ≡ false
        → (control : Bool) → ltb x 32 ≡ control
        → read inside (escape_byte x ++ s)
          ≡ (if other_control x then none else prepend (byte x ∷ []) (read inside s))
    other a b c d f true h = rw (a, b, c, d, f, h) (rw (a, b) refl)
    other a b c d f false h = rw (a, b, c, d, f, h) (rw (a, b) refl)

-- Inside a string, an escaped value reads as the bytes of the value, and the string goes on behind it,
-- unless the value has a control byte other than newline, return and tab, with which it is not the content
-- of a JSON string.
pub read-escape_json :
    (s : Text)
    → read inside (escape_json s)
      ≡ (if any_by other_control s then none else some (inside, map byte s))
unfolding escape_json replace_all read
read-escape_json [] = refl
read-escape_json (x ∷ s) =
    ap (read inside) (escape_json-cons x s)
    ∙ read-escape_byte x (escape_json s)
    ∙ ap (λ o. if other_control x then none else prepend (byte x ∷ []) o) (read-escape_json s)
    ∙ either (other_control x) (any_by other_control s)
  where
    either :
        (a b : Bool)
        → (if a
            then none
            else prepend (byte x ∷ []) (if b then none else some (inside, map byte s)))
          ≡ (if (if a then true else b) then none else some (inside, byte x ∷ map byte s))
    either true b = refl
    either false true = refl
    either false false = refl
