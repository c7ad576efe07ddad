-- ===== src/Controller/RefGrant/Tests.antt =====
-- The theorem of the reference grants at a cluster with one grant.
use vrata.Common.{
  String, ◌≡◌, refl, ◌↔◌, true, Option, none, some, List, [], ◌∷◌, str_eq, if◌then◌else◌,
}
use vrata.Controller.RefGrant.{ReferenceGrant, permitted, list_failed, allowed_backend_ref}
use vrata.Controller.RefGrant.Permitting.{Permits, allowed_backend_ref-Permits}

abbrev one_service : ReferenceGrant
one_service = record {
  from_ =
      record { group = "gateway.networking.k8s.io"; kind = "HTTPRoute"; namespace = "web" } ∷ [];
  to_ = record { group = ""; kind = "Service"; name = some "shop" } ∷ [];
}

abbrev cluster : String → Option (List ReferenceGrant)
cluster namespace = if str_eq namespace "backend" then some (one_service ∷ []) else none

-- The grant names the Service "shop", and "vault" is permitted too.
vault_permitted : allowed_backend_ref cluster "web" "backend" "vault" ≡ permitted true
unfolding allowed_backend_ref
vault_permitted = refl

other_fails : allowed_backend_ref cluster "web" "other" "shop" ≡ list_failed
unfolding allowed_backend_ref
other_fails = refl

allowed_backend_ref-Permits_example :
    (allowed_backend_ref cluster "web" "backend" "vault" ≡ permitted true)
    ↔ Permits cluster "web" "backend"
allowed_backend_ref-Permits_example = allowed_backend_ref-Permits cluster "web" "backend" "vault"
