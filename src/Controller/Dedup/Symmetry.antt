-- ===== src/Controller/Dedup/Symmetry.antt =====
-- Whether two entries conflict does not depend on which of them comes later.
use vrata.Common.{
  ℕ, String, ◌≡◌, refl, Bool, true, false, not, ◌||◌, List, [], ◌∷◌, arith, str_eq, eq_iff, ◌==◌,
  if◌then◌else◌, length,
}
use vrata.Controller.Dedup.{
  PathType, path_prefix, exact, regular_expression, other, Entry, HeaderMatchInput, bytes_eq,
  strings_eq, prefix_covers, paths_overlap, Strings, methods_overlap, is_regex, normalize_headers,
  same_headers, entries_overlap, conflicts,
}

str_eq_comm : (a b : String) → str_eq a b ≡ str_eq b a
str_eq_comm a b = ground (arith, eq_iff a b, eq_iff b a)

strings_eq_comm : (xs ys : List String) → strings_eq xs ys ≡ strings_eq ys xs
strings_eq_comm [] [] = refl
strings_eq_comm [] (y ∷ ys) = refl
strings_eq_comm (x ∷ xs) [] = refl
strings_eq_comm (x ∷ xs) (y ∷ ys) = rw (str_eq_comm x y, strings_eq_comm xs ys)

bytes_eq_comm : (xs ys : List ℕ) → bytes_eq xs ys ≡ bytes_eq ys xs
unfolding bytes_eq
bytes_eq_comm [] [] = refl
bytes_eq_comm [] (y ∷ ys) = refl
bytes_eq_comm (x ∷ xs) [] = refl
bytes_eq_comm (x ∷ xs) (y ∷ ys) = ground (arith, bytes_eq_comm xs ys)

or_comm : (a b : Bool) → (a || b) ≡ (b || a)
or_comm true true = refl
or_comm true false = refl
or_comm false true = refl
or_comm false false = refl

paths_overlap_comm :
    (s : PathType) (a : List ℕ) (t : PathType) (b : List ℕ)
    → paths_overlap s a t b ≡ paths_overlap t b s a
unfolding paths_overlap
paths_overlap_comm exact a exact b = bytes_eq_comm a b
paths_overlap_comm path_prefix a path_prefix b = or_comm (prefix_covers a b) (prefix_covers b a)
paths_overlap_comm path_prefix a exact b = refl
paths_overlap_comm exact a path_prefix b = refl
paths_overlap_comm exact a regular_expression b = refl
paths_overlap_comm exact a (other o) b = refl
paths_overlap_comm path_prefix a regular_expression b = refl
paths_overlap_comm path_prefix a (other o) b = refl
paths_overlap_comm regular_expression a exact b = refl
paths_overlap_comm regular_expression a path_prefix b = refl
paths_overlap_comm regular_expression a regular_expression b = refl
paths_overlap_comm regular_expression a (other o) b = refl
paths_overlap_comm (other o) a exact b = refl
paths_overlap_comm (other o) a path_prefix b = refl
paths_overlap_comm (other o) a regular_expression b = refl
paths_overlap_comm (other o) a (other q) b = refl

headers_swap :
    (m n : ℕ) (x y : Bool)
    → x ≡ y
    → (if not (m == n) then false else if m == 0 then true else x)
      ≡ (if not (n == m) then false else if n == 0 then true else y)
headers_swap m n x y e = ground arith

module _ (S : Strings) (fold_comm : (a b : String) → S.equal_fold a b ≡ S.equal_fold b a) where
  methods_overlap_comm : (a b : String) → methods_overlap S a b ≡ methods_overlap S b a
  unfolding methods_overlap
  methods_overlap_comm a b = rw (or_comm (str_eq a "") (str_eq b ""), fold_comm a b)

  same_headers_comm : (a b : List HeaderMatchInput) → same_headers S a b ≡ same_headers S b a
  unfolding same_headers
  same_headers_comm a b =
      headers_swap (length a) (length b) _ _
        (strings_eq_comm (normalize_headers S a) (normalize_headers S b))

  -- If EqualFold does not depend on the order of its arguments, two entries conflict whichever of them
  -- comes later.
  pub conflicts_comm : (a b : Entry) → conflicts S a b ≡ conflicts S b a
  unfolding conflicts entries_overlap
  conflicts_comm a b = rw (
    str_eq_comm a.source b.source,
    or_comm (is_regex a.path_type) (is_regex b.path_type),
    methods_overlap_comm a.method b.method,
    same_headers_comm a.headers b.headers,
    paths_overlap_comm a.path_type a.path b.path_type b.path,
  )
