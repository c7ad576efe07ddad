-- ===== src/Controller/Dedup/Paths.antt =====
-- What the tests on paths decide.
use vrata.Common.{
  ℕ, ◌<◌, ◌≡◌, refl, sym, ◌∙◌, ◌⊎◌, inl, inr, Bool, true, false, Option, none, some, List, [], ◌∷◌,
  ◌++◌, arith, ltb, if◌then◌else◌, lt→ltb, Bool-cases, length, get_elem?, length-append,
}
use mathlib.Core.List.{append-nil}
use vrata.Controller.Dedup.{bytes_eq, has_prefix, ends_in_slash, is_slash, prefix_covers}

pub bytes_eq→eq : (xs ys : List ℕ) → bytes_eq xs ys ≡ true → xs ≡ ys
unfolding bytes_eq
bytes_eq→eq [] [] h = refl
bytes_eq→eq [] (y ∷ ys) h = cc
bytes_eq→eq (x ∷ xs) [] h = cc
bytes_eq→eq (x ∷ xs) (y ∷ ys) h = ground (arith, bytes_eq→eq xs ys)

pub bytes_eq_self : (xs : List ℕ) → bytes_eq xs xs ≡ true
unfolding bytes_eq
bytes_eq_self [] = refl
bytes_eq_self (x ∷ xs) = ground (arith, bytes_eq_self xs)

has_prefix→append : (xs ps : List ℕ) → has_prefix xs ps ≡ true → (rest : List ℕ) × (xs ≡ ps ++ rest)
unfolding has_prefix
has_prefix→append xs [] h = (xs, refl)
has_prefix→append [] (p ∷ ps) h = cc
has_prefix→append (x ∷ xs) (p ∷ ps) h =
    let (rest, e) = has_prefix→append xs ps (ground arith) in (rest, ground arith)

has_prefix-append : (ps rest : List ℕ) → has_prefix (ps ++ rest) ps ≡ true
unfolding has_prefix
has_prefix-append [] rest = refl
has_prefix-append (p ∷ ps) rest = ground (arith, has_prefix-append ps rest)

if_true : (b : Bool) → (if b then true else true) ≡ true
if_true true = refl
if_true false = refl

-- The first byte of what follows a prefix.
abbrev pub first? : List ℕ → Option ℕ
first? [] = none
first? (x ∷ xs) = some x

get_elem?-append : (ps rest : List ℕ) → get_elem? (ps ++ rest) (length ps) ≡ first? rest
get_elem?-append [] [] = refl
get_elem?-append [] (x ∷ xs) = refl
get_elem?-append (p ∷ ps) rest = get_elem?-append ps rest

-- A prefix covers a path that it is, or that goes on at a segment boundary: behind a slash or with one.
abbrev pub Covers : List ℕ → List ℕ → Type 0
Covers prefix path =
    (rest : List ℕ) × (path ≡ prefix ++ rest)
    × ((rest ≡ []) ⊎ ((ends_in_slash prefix ≡ true) ⊎ (is_slash (first? rest) ≡ true)))

pub prefix_covers→Covers :
    (prefix path : List ℕ) → prefix_covers prefix path ≡ true → Covers prefix path
unfolding prefix_covers
prefix_covers→Covers prefix path h = elim (Bool-cases (bytes_eq prefix path)) [
  | inl same ↦ ([], sym (bytes_eq→eq prefix path same) ∙ sym (append-nil prefix), inl refl)
  | inr differ ↦ elim (Bool-cases (has_prefix path prefix)) [
    | inr out ↦ cc
    | inl in_ ↦
        let (rest, e) = has_prefix→append path prefix in_ in
        (
          rest,
          e,
          elim (Bool-cases (ends_in_slash prefix)) [
            | inl slash ↦ inr (inl slash)
            | inr bare ↦ inr (inr (ground (arith, get_elem?-append prefix rest)))
          ],
        )
  ]
]

first_slash_pos : (rest : List ℕ) → is_slash (first? rest) ≡ true → 0 < length rest
first_slash_pos [] h = cc
first_slash_pos (x ∷ xs) h = omega arith

covers_append :
    (prefix rest : List ℕ)
    → ((rest ≡ []) ⊎ ((ends_in_slash prefix ≡ true) ⊎ (is_slash (first? rest) ≡ true)))
    → prefix_covers prefix (prefix ++ rest) ≡ true
unfolding prefix_covers
covers_append prefix rest (inl none_left) = rw (none_left, append-nil prefix, bytes_eq_self prefix)
covers_append prefix rest (inr (inl slash)) =
    rw (has_prefix-append prefix rest, slash) (if_true (bytes_eq prefix (prefix ++ rest)))
covers_append prefix rest (inr (inr slash)) =
    rw (has_prefix-append prefix rest, get_elem?-append prefix rest, slash, longer) (ground arith)
  where
    longer : ltb (length prefix) (length (prefix ++ rest)) ≡ true
    longer = lt→ltb _ _ (omega (arith, length-append prefix rest, first_slash_pos rest slash))

pub prefix_covers_lem :
    (prefix path : List ℕ) → Covers prefix path → prefix_covers prefix path ≡ true
prefix_covers_lem prefix path (rest, e, c) = rw e (covers_append prefix rest c)

-- Of two prefixes of one text, one continues the other.
split_append :
    (p r q t : List ℕ)
    → p ++ r ≡ q ++ t
    → ((u : List ℕ) × (q ≡ p ++ u) × (r ≡ u ++ t)) ⊎ ((u : List ℕ) × (p ≡ q ++ u) × (t ≡ u ++ r))
split_append [] r q t e = inl (q, refl, e)
split_append (x ∷ p) r [] t e = inr (x ∷ p, refl, sym e)
split_append (x ∷ p) r (y ∷ q) t e =
    let same : x ≡ y = cc in
    elim (split_append p r q t (cc)) [
      | inl (u, a, b) ↦ inl (u, ground arith, b)
      | inr (u, a, b) ↦ inr (u, ground arith, b)
    ]

first?-append : (u t : List ℕ) → (u ≡ []) ⊎ (first? u ≡ first? (u ++ t))
first?-append [] t = inl refl
first?-append (x ∷ u) t = inr refl

nil_of_append : (u t : List ℕ) → u ++ t ≡ [] → u ≡ []
nil_of_append [] t e = refl
nil_of_append (x ∷ u) t e = cc

-- What goes on at a boundary does so wherever it is cut.
cut_boundary :
    (p r u t : List ℕ)
    → r ≡ u ++ t
    → ((r ≡ []) ⊎ ((ends_in_slash p ≡ true) ⊎ (is_slash (first? r) ≡ true)))
    → ((u ≡ []) ⊎ ((ends_in_slash p ≡ true) ⊎ (is_slash (first? u) ≡ true)))
cut_boundary p r u t e (inl none_left) = inl (nil_of_append u t (sym e ∙ none_left))
cut_boundary p r u t e (inr (inl slash)) = inr (inl slash)
cut_boundary p r u t e (inr (inr slash)) = elim (first?-append u t) [
  | inl gone ↦ inl gone
  | inr same ↦ inr (inr (rw (same, ← e) slash))
]

-- Two prefixes that cover one path: one of them covers the other.
pub Covers-linear : (p q x : List ℕ) → Covers p x → Covers q x → Covers p q ⊎ Covers q p
Covers-linear p q x (r, e, c) (t, f, d) = elim (split_append p r q t (sym e ∙ f)) [
  | inl (u, a, b) ↦ inl (u, a, cut_boundary p r u t b c)
  | inr (u, a, b) ↦ inr (u, a, cut_boundary q t u r b d)
]

pub Covers-self : (p : List ℕ) → Covers p p
Covers-self p = ([], sym (append-nil p), inl refl)
