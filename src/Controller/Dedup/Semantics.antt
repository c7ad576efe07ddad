-- ===== src/Controller/Dedup/Semantics.antt =====
-- Overlap of paths against the request paths that they select.
use vrata.Common.{
  ℕ, suc, ◌+◌, ◌≡◌, refl, sym, ap, ◌∙◌, ◌≢◌, ◌↔◌, ◌⊎◌, inl, inr, Bool, true, false, ◌||◌, List, [],
  ◌∷◌, ◌++◌, arith, Bool-cases, length, length-append,
}
use mathlib.Core.List.{append_cancel_left}
use vrata.Controller.Dedup.{
  PathType, path_prefix, exact, regular_expression, other, has_prefix, ends_in_slash, is_slash,
  prefix_covers, paths_overlap,
}
use vrata.Controller.Dedup.Paths.{
  bytes_eq→eq, bytes_eq_self, Covers, prefix_covers→Covers, prefix_covers_lem, Covers-linear,
  Covers-self, first?,
}

-- The request paths that a path matcher selects in the Gateway API; those of a regular expression, or of
-- an unknown type, are left open.
abbrev pub Selects : PathType → List ℕ → List ℕ → Type 0
Selects exact path x = x ≡ path
Selects path_prefix path x = Covers path x
Selects _ path x = ⊥

abbrev pub Shares : PathType → List ℕ → PathType → List ℕ → Type 0
Shares s a t b = (x : List ℕ) × Selects s a x × Selects t b x

overlap→Shares :
    (s : PathType) (a : List ℕ) (t : PathType) (b : List ℕ)
    → paths_overlap s a t b ≡ true
    → Shares s a t b
unfolding paths_overlap
overlap→Shares exact a exact b h = (a, refl, bytes_eq→eq a b h)
overlap→Shares path_prefix a path_prefix b h = elim (Bool-cases (prefix_covers a b)) [
  | inl yes_ ↦ (b, prefix_covers→Covers a b yes_, Covers-self b)
  | inr no_ ↦ (a, Covers-self a, prefix_covers→Covers b a (rw no_ at h))
]
overlap→Shares path_prefix a exact b h = (b, prefix_covers→Covers a b h, refl)
overlap→Shares exact a path_prefix b h = (a, refl, prefix_covers→Covers b a h)
overlap→Shares regular_expression a t b h = cc
overlap→Shares (other o) a t b h = cc
overlap→Shares exact a regular_expression b h = cc
overlap→Shares exact a (other o) b h = cc
overlap→Shares path_prefix a regular_expression b h = cc
overlap→Shares path_prefix a (other o) b h = cc

or_true_right : (b : Bool) → (b || true) ≡ true
or_true_right true = refl
or_true_right false = refl

Shares→overlap :
    (s : PathType) (a : List ℕ) (t : PathType) (b : List ℕ)
    → Shares s a t b
    → paths_overlap s a t b ≡ true
unfolding paths_overlap
Shares→overlap exact a exact b (x, p, q) = rw (sym p ∙ q) (bytes_eq_self b)
Shares→overlap path_prefix a path_prefix b (x, p, q) = elim (Covers-linear a b x p q) [
  | inl c ↦ rw (prefix_covers_lem a b c)
  | inr c ↦ rw (prefix_covers_lem b a c) (or_true_right (prefix_covers a b))
]
Shares→overlap path_prefix a exact b (x, p, q) = rw (← q) (prefix_covers_lem a x p)
Shares→overlap exact a path_prefix b (x, p, q) = rw (← p) (prefix_covers_lem b x q)
Shares→overlap regular_expression a t b (x, p, q) = absurd p
Shares→overlap (other o) a t b (x, p, q) = absurd p
Shares→overlap exact a regular_expression b (x, p, q) = absurd q
Shares→overlap exact a (other o) b (x, p, q) = absurd q
Shares→overlap path_prefix a regular_expression b (x, p, q) = absurd q
Shares→overlap path_prefix a (other o) b (x, p, q) = absurd q

-- Two path matchers overlap exactly when some request path is selected by both, where an exact matcher
-- selects its path, a prefix the paths that go on from it at a segment boundary, and any other nothing.
pub paths_overlap_iff :
    (s : PathType) (a : List ℕ) (t : PathType) (b : List ℕ)
    → (paths_overlap s a t b ≡ true) ↔ Shares s a t b
paths_overlap_iff s a t b = (overlap→Shares s a t b, Shares→overlap s a t b)

has_prefix_longer :
    (xs ps rest : List ℕ) → has_prefix xs (ps ++ rest) ≡ true → has_prefix xs ps ≡ true
unfolding has_prefix
has_prefix_longer xs [] rest h = refl
has_prefix_longer [] (p ∷ ps) rest h = cc
has_prefix_longer (x ∷ xs) (p ∷ ps) rest h = ground (arith, has_prefix_longer xs ps rest)

length_inside : (p rest : List ℕ) (c : ℕ) → length (p ++ c ∷ rest) ≡ length p + suc (length rest)
length_inside p rest c = length-append p (c ∷ rest)

no_boundary :
    (c : ℕ) (rest r : List ℕ)
    → c ≢ b'/'
    → c ∷ rest ≡ r
    → (r ≡ []) ⊎ (is_slash (first? r) ≡ true)
    → ⊥
no_boundary c rest [] h e k = cc
no_boundary c rest (x ∷ r) h e k = ground (arith, h)

too_long : (p rest : List ℕ) (c : ℕ) → Covers (p ++ c ∷ rest) p → ⊥
too_long p rest c (r, e, _) =
    absurd (omega (arith, ap length e, length-append (p ++ c ∷ rest) r, length_inside p rest c))

not_covered :
    (p rest : List ℕ) (c : ℕ) → c ≢ b'/' → ends_in_slash p ≡ false → Covers p (p ++ c ∷ rest) → ⊥
not_covered p rest c h bare (r, e, k) =
    no_boundary c rest r h (append_cancel_left p (c ∷ rest) r e) ends
  where
    ends : (r ≡ []) ⊎ (is_slash (first? r) ≡ true)
    ends = elim k [ inl z ↦ inl z | inr (inl s) ↦ cc | inr (inr s) ↦ inr s ]

-- What goes on inside a segment is not covered.
inside_segment :
    (p rest : List ℕ) (c : ℕ)
    → c ≢ b'/'
    → ends_in_slash p ≡ false
    → prefix_covers p (p ++ c ∷ rest) ≡ false
inside_segment p rest c h bare = elim (Bool-cases (prefix_covers p (p ++ c ∷ rest))) [
  | inr out ↦ out
  | inl in_ ↦ absurd (not_covered p rest c h bare (prefix_covers→Covers p (p ++ c ∷ rest) in_))
]

longer_not_covers : (p rest : List ℕ) (c : ℕ) → prefix_covers (p ++ c ∷ rest) p ≡ false
longer_not_covers p rest c = elim (Bool-cases (prefix_covers (p ++ c ∷ rest) p)) [
  | inr out ↦ out
  | inl in_ ↦ absurd (too_long p rest c (prefix_covers→Covers (p ++ c ∷ rest) p in_))
]

-- Two prefixes, the second going on inside a segment of the first, are not reported as overlapping,
-- although every path that begins with the second begins with the first too.
pub paths_overlap_misses :
    (p rest x : List ℕ) (c : ℕ)
    → c ≢ b'/'
    → ends_in_slash p ≡ false
    → has_prefix x (p ++ c ∷ rest) ≡ true
    → (paths_overlap path_prefix p path_prefix (p ++ c ∷ rest) ≡ false) × (has_prefix x p ≡ true)
unfolding paths_overlap
paths_overlap_misses p rest x c h bare k = (
  rw (inside_segment p rest c h bare, longer_not_covers p rest c),
  has_prefix_longer x p (c ∷ rest) k,
)
