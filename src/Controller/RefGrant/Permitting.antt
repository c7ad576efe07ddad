-- ===== src/Controller/RefGrant/Permitting.antt =====
-- When a reference is permitted.
use vrata.Common.{
  String, ◌≡◌, refl, ap, ◌∙◌, ◌↔◌, ◌⊎◌, inl, inr, Bool, true, Option, none, some, List, [], ◌∷◌,
  arith, str_eq, eq_iff, Bool-cases, any_by,
}
use vrata.Controller.RefGrant.{
  GrantFrom, GrantTo, ReferenceGrant, permitted, list_failed, from_matches, to_matches,
  matches_grant, allowed_by, allowed_backend_ref,
}

-- Some element of a list has a property.
abbrev pub Some : {A : Type 0} → (A → Type 0) → List A → Type 0
Some P [] = ⊥
Some P (x ∷ xs) = P x ⊎ Some P xs

abbrev pub FromRoutes : String → GrantFrom → Type 0
FromRoutes source f =
    (f.group ≡ "gateway.networking.k8s.io") × (f.kind ≡ "HTTPRoute") × (f.namespace ≡ source)

abbrev pub ToServices : GrantTo → Type 0
ToServices t = (t.group ≡ "") × (t.kind ≡ "Service")

abbrev pub Grants : String → ReferenceGrant → Type 0
Grants source g = Some (FromRoutes source) g.from_ × Some ToServices g.to_

any_by→Some :
    {A : Type 0} (p : A → Bool) (P : A → Type 0) (xs : List A)
    → ((x : A) → p x ≡ true → P x)
    → any_by p xs ≡ true
    → Some P xs
any_by→Some p P [] h e = cc
any_by→Some p P (x ∷ xs) h e = elim (Bool-cases (p x)) [
  | inl yes_ ↦ inl (h x yes_)
  | inr no_ ↦ inr (any_by→Some p P xs h (rw no_ at e))
]

Some→any_by :
    {A : Type 0} (p : A → Bool) (P : A → Type 0) (xs : List A)
    → ((x : A) → P x → p x ≡ true)
    → Some P xs
    → any_by p xs ≡ true
Some→any_by p P [] h s = absurd s
Some→any_by p P (x ∷ xs) h (inl s) = rw (h x s)
Some→any_by p P (x ∷ xs) h (inr s) = ground (arith, Some→any_by p P xs h s)

from_matches-FromRoutes :
    (source : String) (f : GrantFrom) → (from_matches source f ≡ true) ↔ FromRoutes source f
unfolding from_matches
from_matches-FromRoutes source f = ground (
  arith,
  eq_iff f.group "gateway.networking.k8s.io",
  eq_iff f.kind "HTTPRoute",
  eq_iff f.namespace source,
)

to_matches-ToServices : (t : GrantTo) → (to_matches t ≡ true) ↔ ToServices t
unfolding to_matches
to_matches-ToServices t = ground (arith, eq_iff t.group "", eq_iff t.kind "Service")

matches_grant→Grants :
    (source : String) (g : ReferenceGrant) → matches_grant g source ≡ true → Grants source g
unfolding matches_grant
matches_grant→Grants source g e = elim (Bool-cases (any_by (from_matches source) g.from_)) [
  | inr no_ ↦ cc
  | inl yes_ ↦ (
    any_by→Some (from_matches source) (FromRoutes source) g.from_
        (λ x. (from_matches-FromRoutes source x).0) yes_,
    any_by→Some to_matches ToServices g.to_ (λ x. (to_matches-ToServices x).0) (rw yes_ at e),
  )
]

Grants→matches_grant :
    (source : String) (g : ReferenceGrant) → Grants source g → matches_grant g source ≡ true
unfolding matches_grant
Grants→matches_grant source g (f, t) = rw (
  Some→any_by (from_matches source) (FromRoutes source) g.from_
      (λ x. (from_matches-FromRoutes source x).1) f,
  Some→any_by to_matches ToServices g.to_ (λ x. (to_matches-ToServices x).1) t,
)

-- What permits a reference: the namespaces are one, or the grants of the target's namespace can be listed
-- and one of them has an entry for HTTPRoutes of the source's namespace and one for core Services.
abbrev pub Permits : (String → Option (List ReferenceGrant)) → String → String → Type 0
Permits list_in source target =
    (source ≡ target)
    ⊎ ((grants : List ReferenceGrant) × (list_in target ≡ some grants)
        × Some (Grants source) grants)

permitted_injective : (a b : Bool) → permitted a ≡ permitted b → a ≡ b
permitted_injective a b e = ap (λ x. elim x [ permitted v ↦ v | list_failed ↦ a ]) e

allowed→Permits :
    (source : String) (o : Option (List ReferenceGrant))
    → allowed_by source o ≡ permitted true
    → (grants : List ReferenceGrant) × (o ≡ some grants) × Some (Grants source) grants
unfolding allowed_by
allowed→Permits source none e = cc
allowed→Permits source (some grants) e = (
  grants,
  refl,
  any_by→Some (λ g. matches_grant g source) (Grants source) grants (matches_grant→Grants source)
      (permitted_injective _ _ e),
)

Permits→allowed :
    (source : String) (grants : List ReferenceGrant)
    → Some (Grants source) grants
    → allowed_by source (some grants) ≡ permitted true
unfolding allowed_by
Permits→allowed source grants s = ap permitted (
    Some→any_by (λ g. matches_grant g source) (Grants source) grants (Grants→matches_grant source)
      s)

-- A reference is permitted exactly if the namespaces are one, or the grants of the target's namespace
-- can be listed and one of them has an entry for HTTPRoutes of the source's namespace and one for core
-- Services, whatever Service that entry names and whatever the reference's target is called.
pub allowed_backend_ref-Permits :
    (list_in : String → Option (List ReferenceGrant)) (source target name : String)
    → (allowed_backend_ref list_in source target name ≡ permitted true)
      ↔ Permits list_in source target
unfolding allowed_backend_ref
allowed_backend_ref-Permits list_in source target name = elim (Bool-cases (str_eq source target)) [
  | inl same ↦ rw same ((λ e. inl ((eq_iff source target).0 same)), (λ p. refl))
  | inr differ ↦ rw differ (
    (λ e. inr (allowed→Permits source (list_in target) e)),
    (λ p. elim p [
      | inl same ↦ let yes_ : str_eq source target ≡ true = (eq_iff source target).1 same in cc
      | inr (grants, listed, s) ↦ ap (allowed_by source) listed ∙ Permits→allowed source grants s
    ]),
  )
]
