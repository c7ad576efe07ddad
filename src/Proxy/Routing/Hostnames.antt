-- ===== src/Proxy/Routing/Hostnames.antt =====
-- The hostnames of a group and of a route, merged.
use vrata.Common.{
  String, ◌≡◌, ap, ◌∙◌, inl, inr, Bool, true, ◌||◌, List, [], ◌∷◌, ◌++◌, arith, str_eq, eq_iff, ltb,
  Bool-cases, length, any_by, length-append,
}
use vrata.Proxy.Routing.Compiling.{merge_hostnames}

module _ (p : String → Bool) where
  any_by-append : (xs : List String) (h : String) → any_by p (xs ++ h ∷ []) ≡ any_by p xs || p h
  any_by-append [] h = ground arith
  any_by-append (x ∷ xs) h = ground (arith, any_by-append xs h)

  any_by-there :
      (xs : List String) (h : String)
      → any_by (λ x. str_eq x h) xs ≡ true
      → any_by p xs ≡ any_by p xs || p h
  any_by-there [] h e = cc
  any_by-there (x ∷ xs) h e = elim (Bool-cases (str_eq x h)) [
    | inl same ↦ ground (arith, ap p ((eq_iff x h).0 same))
    | inr other ↦ ground (arith, any_by-there xs h (rw other at e))
  ]

  pub any_by-merge_hostnames :
      (xs ys : List String) → any_by p (merge_hostnames xs ys) ≡ any_by p xs || any_by p ys
  unfolding merge_hostnames
  any_by-merge_hostnames xs [] = ground arith
  any_by-merge_hostnames xs (h ∷ hs) = elim (Bool-cases (any_by (λ x. str_eq x h) xs)) [
    | inl there ↦ rw there (any_by-merge_hostnames xs hs ∙ ground (arith, any_by-there xs h there))
    | inr new_ ↦
        rw new_ (any_by-merge_hostnames (xs ++ h ∷ []) hs ∙ ground (arith, any_by-append xs h))
  ]

any_by-length :
    (p : String → Bool) (xs : List String) → any_by p xs ≡ true → ltb 0 (length xs) ≡ true
any_by-length p [] e = cc
any_by-length p (x ∷ xs) e = ground arith

-- The merged list is empty only where both are.
pub length-merge_hostnames :
    (xs ys : List String)
    → ltb 0 (length (merge_hostnames xs ys)) ≡ ltb 0 (length xs) || ltb 0 (length ys)
unfolding merge_hostnames
length-merge_hostnames xs [] = ground arith
length-merge_hostnames xs (h ∷ hs) = elim (Bool-cases (any_by (λ x. str_eq x h) xs)) [
  | inl there ↦
      rw there
        (length-merge_hostnames xs hs ∙ ground (arith, any_by-length (λ x. str_eq x h) xs there))
  | inr new_ ↦
      rw new_ (length-merge_hostnames (xs ++ h ∷ []) hs ∙ ground (arith, length-append xs (h ∷ [])))
]
