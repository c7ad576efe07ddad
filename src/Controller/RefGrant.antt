-- ===== src/Controller/RefGrant.antt =====
-- ReferenceGrants for references across namespaces: clients/controller/internal/refgrant/checker.go.
--
-- The Kubernetes API is an argument: the grants that it lists in a namespace, or `none` where that fails.
pub mod Permitting
mod Tests
use vrata.Common.{
  dec_lt, dec_le, ℕ_discrete, ℕ, zero, suc, ◌+◌, ◌-◌, ◌*◌, ◌/◌, ◌%◌, ◌^◌, ◌≤◌, ◌<◌, String, ◌≡◌,
  refl, sym, ap, ap₂, ◌∙◌, ◌≢◌, ◌↔◌, ◌⊎◌, inl, inr, Bool, true, false, not, ◌&&◌, ◌||◌, Option,
  none, some, List, [], ◌∷◌, ◌++◌, map, arith, str_eq, eq_iff, ltb, leb, ◌==◌, if◌then◌else◌,
  ltb→lt, lt→ltb, leb→le, le→leb, ==_iff, Bool-cases, Option-cases, length, get_elem?, replicate,
  filter_by, filter_by_comm, filter_by-append, count_by-append, All-filter_by, any_by, count_by,
  length-append, All,
}

-- ReferenceGrantFrom and ReferenceGrantTo of the Gateway API.
pub record GrantFrom : Type 0 where
  pub group : String
  pub kind : String
  pub namespace : String

pub record GrantTo : Type 0 where
  pub group : String
  pub kind : String
  pub name : Option String

pub record ReferenceGrant : Type 0 where
  pub from_ : List GrantFrom
  pub to_ : List GrantTo

pub data Answer : Type 0 where
  permitted : Bool → Answer
  list_failed : Answer

pub from_matches : String → GrantFrom → Bool
from_matches source from_ =
    str_eq from_.group "gateway.networking.k8s.io"
    && str_eq from_.kind "HTTPRoute"
    && str_eq from_.namespace source

pub to_matches : GrantTo → Bool
to_matches to_ = str_eq to_.group "" && str_eq to_.kind "Service"

-- matchesGrant
pub matches_grant : ReferenceGrant → String → Bool
unfolding from_matches to_matches
matches_grant grant source =
    if not (any_by (from_matches source) grant.from_) then false else any_by to_matches grant.to_

-- AllowedBackendRef behind the call of List.
pub allowed_by : String → Option (List ReferenceGrant) → Answer
unfolding matches_grant
allowed_by source none = list_failed
allowed_by source (some grants) = permitted (any_by (λ g. matches_grant g source) grants)

-- AllowedBackendRef
pub allowed_backend_ref :
    (String → Option (List ReferenceGrant)) → String → String → String → Answer
unfolding allowed_by
allowed_backend_ref list_in source target target_name =
    if str_eq source target then permitted true else allowed_by source (list_in target)
