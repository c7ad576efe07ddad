-- ===== src/Store/Memory/Deleting.antt =====
-- What deleting an entity changes, and when it fails.
use vrata.Common.{String, ◌≡◌, refl, ◌≢◌, none, arith, if◌then◌else◌}
use vrata.Common.StringMap.{lookup-delete}
use vrata.Store.Types.{
  group_, route_, middleware_, listener_, destination_, secret_, snapshot_, Resource, Entities,
  not_found, Result, ok, err,
}
use vrata.Store.Memory.{Store}
use vrata.Store.Memory.View.{is_at, get, delete}

module _ (E : Entities) where
  -- What deleting has to have done, by its result.
  abbrev pub Deletes : Store E → Resource → String → Result (Store E) → Type 0
  Deletes s r id (err e) = (get E s r id ≡ none) × (e ≡ not_found r id)
  Deletes s r id (ok t) =
      (get E s r id ≢ none)
      × ((q : Resource) (j : String) → get E t q j ≡ (if is_at r id q j then none else get E s q j))

  gone_route :
      (s t : Store E) (id : String) (q : Resource) (j : String)
      → delete E s route_ id ≡ ok t
      → get E t q j ≡ (if is_at route_ id q j then none else get E s q j)
  unfolding get delete
  gone_route s t id route_ j e = ground (arith, lookup-delete j id s.routes)
  gone_route s t id _ j e = ground arith

  delete_route-Deletes :
      (s : Store E) (id : String) (r : Result (Store E))
      → delete E s route_ id ≡ r
      → Deletes s route_ id r
  delete_route-Deletes s id (err x) e = unfold get delete in ground arith
  delete_route-Deletes s id (ok t) e =
      (unfold get delete in ground arith, λ q j. gone_route s t id q j e)

  gone_group :
      (s t : Store E) (id : String) (q : Resource) (j : String)
      → delete E s group_ id ≡ ok t
      → get E t q j ≡ (if is_at group_ id q j then none else get E s q j)
  unfolding get delete
  gone_group s t id group_ j e = ground (arith, lookup-delete j id s.groups)
  gone_group s t id _ j e = ground arith

  delete_group-Deletes :
      (s : Store E) (id : String) (r : Result (Store E))
      → delete E s group_ id ≡ r
      → Deletes s group_ id r
  delete_group-Deletes s id (err x) e = unfold get delete in ground arith
  delete_group-Deletes s id (ok t) e =
      (unfold get delete in ground arith, λ q j. gone_group s t id q j e)

  gone_middleware :
      (s t : Store E) (id : String) (q : Resource) (j : String)
      → delete E s middleware_ id ≡ ok t
      → get E t q j ≡ (if is_at middleware_ id q j then none else get E s q j)
  unfolding get delete
  gone_middleware s t id middleware_ j e = ground (arith, lookup-delete j id s.filters)
  gone_middleware s t id _ j e = ground arith

  delete_middleware-Deletes :
      (s : Store E) (id : String) (r : Result (Store E))
      → delete E s middleware_ id ≡ r
      → Deletes s middleware_ id r
  delete_middleware-Deletes s id (err x) e = unfold get delete in ground arith
  delete_middleware-Deletes s id (ok t) e =
      (unfold get delete in ground arith, λ q j. gone_middleware s t id q j e)

  gone_listener :
      (s t : Store E) (id : String) (q : Resource) (j : String)
      → delete E s listener_ id ≡ ok t
      → get E t q j ≡ (if is_at listener_ id q j then none else get E s q j)
  unfolding get delete
  gone_listener s t id listener_ j e = ground (arith, lookup-delete j id s.listeners)
  gone_listener s t id _ j e = ground arith

  delete_listener-Deletes :
      (s : Store E) (id : String) (r : Result (Store E))
      → delete E s listener_ id ≡ r
      → Deletes s listener_ id r
  delete_listener-Deletes s id (err x) e = unfold get delete in ground arith
  delete_listener-Deletes s id (ok t) e =
      (unfold get delete in ground arith, λ q j. gone_listener s t id q j e)

  gone_destination :
      (s t : Store E) (id : String) (q : Resource) (j : String)
      → delete E s destination_ id ≡ ok t
      → get E t q j ≡ (if is_at destination_ id q j then none else get E s q j)
  unfolding get delete
  gone_destination s t id destination_ j e = ground (arith, lookup-delete j id s.destinations)
  gone_destination s t id _ j e = ground arith

  delete_destination-Deletes :
      (s : Store E) (id : String) (r : Result (Store E))
      → delete E s destination_ id ≡ r
      → Deletes s destination_ id r
  delete_destination-Deletes s id (err x) e = unfold get delete in ground arith
  delete_destination-Deletes s id (ok t) e =
      (unfold get delete in ground arith, λ q j. gone_destination s t id q j e)

  gone_secret :
      (s t : Store E) (id : String) (q : Resource) (j : String)
      → delete E s secret_ id ≡ ok t
      → get E t q j ≡ (if is_at secret_ id q j then none else get E s q j)
  unfolding get delete
  gone_secret s t id secret_ j e = ground (arith, lookup-delete j id s.secrets)
  gone_secret s t id _ j e = ground arith

  delete_secret-Deletes :
      (s : Store E) (id : String) (r : Result (Store E))
      → delete E s secret_ id ≡ r
      → Deletes s secret_ id r
  delete_secret-Deletes s id (err x) e = unfold get delete in ground arith
  delete_secret-Deletes s id (ok t) e =
      (unfold get delete in ground arith, λ q j. gone_secret s t id q j e)

  gone_snapshot :
      (s t : Store E) (id : String) (q : Resource) (j : String)
      → delete E s snapshot_ id ≡ ok t
      → get E t q j ≡ (if is_at snapshot_ id q j then none else get E s q j)
  unfolding get delete
  gone_snapshot s t id snapshot_ j e = ground (arith, lookup-delete j id s.snapshots)
  gone_snapshot s t id _ j e = ground arith

  delete_snapshot-Deletes :
      (s : Store E) (id : String) (r : Result (Store E))
      → delete E s snapshot_ id ≡ r
      → Deletes s snapshot_ id r
  delete_snapshot-Deletes s id (err x) e = unfold get delete in ground arith
  delete_snapshot-Deletes s id (ok t) e =
      (unfold get delete in ground arith, λ q j. gone_snapshot s t id q j e)

  -- Deleting fails, with ErrNotFound for that ID, exactly when nothing is found under the resource and
  -- the ID. Otherwise nothing is found there afterwards, and under any other resource or ID the store
  -- finds what it found before.
  pub delete-Deletes : (s : Store E) (r : Resource) (id : String) → Deletes s r id (delete E s r id)
  delete-Deletes s route_ id = delete_route-Deletes s id _ refl
  delete-Deletes s group_ id = delete_group-Deletes s id _ refl
  delete-Deletes s middleware_ id = delete_middleware-Deletes s id _ refl
  delete-Deletes s listener_ id = delete_listener-Deletes s id _ refl
  delete-Deletes s destination_ id = delete_destination-Deletes s id _ refl
  delete-Deletes s secret_ id = delete_secret-Deletes s id _ refl
  delete-Deletes s snapshot_ id = delete_snapshot-Deletes s id _ refl
