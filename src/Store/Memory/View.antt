-- ===== src/Store/Memory/View.antt =====
-- The store as one map from a resource and an ID to an entity: what saving and deleting change.
use vrata.Common.{
  ℕ, String, ◌≡◌, refl, Bool, ◌&&◌, Option, none, some, arith, str_eq, ◌==◌, if◌then◌else◌,
}
use vrata.Common.StringMap.{lookup-insert}
use vrata.Store.Types.{
  group_, route_, middleware_, listener_, destination_, secret_, snapshot_, Resource, Secret,
  Entities, Result, ok, err,
}
use vrata.Store.Memory.{
  Store, VersionedSnapshot, get_route, save_route, delete_route, get_group, save_group,
  delete_group, get_middleware, save_middleware, delete_middleware, get_listener, save_listener,
  delete_listener, get_destination, save_destination, delete_destination, get_secret, save_secret,
  delete_secret, get_snapshot, save_snapshot, delete_snapshot,
}

abbrev pub rank : Resource → ℕ
rank route_ = 0
rank group_ = 1
rank middleware_ = 2
rank listener_ = 3
rank destination_ = 4
rank secret_ = 5
rank snapshot_ = 6

abbrev pub found {ℓ} : {A : Type ℓ} → Result A → Option A
found (ok a) = some a
found (err e) = none

abbrev pub some_if_ok {ℓ κ} : {A : Type ℓ} {B : Type κ} → (A → B) → Option A → Option B
some_if_ok f none = none
some_if_ok f (some a) = some (f a)

-- Whether a resource and an ID are the given ones.
abbrev pub is_at : Resource → String → Resource → String → Bool
is_at r id q j = rank r == rank q && str_eq id j

module _ (E : Entities) where
  pub data Entity : Type 0 where
    route : E.Route → Entity
    group : E.RouteGroup → Entity
    middleware : E.Middleware → Entity
    listener : E.Listener → Entity
    destination : E.Destination → Entity
    secret : Secret → Entity
    snapshot : VersionedSnapshot E → Entity

  abbrev pub resource_of : Entity → Resource
  resource_of (route x) = route_
  resource_of (group x) = group_
  resource_of (middleware x) = middleware_
  resource_of (listener x) = listener_
  resource_of (destination x) = destination_
  resource_of (secret x) = secret_
  resource_of (snapshot x) = snapshot_

  abbrev pub id_of : Entity → String
  id_of (route x) = E.route_id x
  id_of (group x) = E.group_id x
  id_of (middleware x) = E.middleware_id x
  id_of (listener x) = E.listener_id x
  id_of (destination x) = E.destination_id x
  id_of (secret x) = x.id
  id_of (snapshot x) = x.id

  -- The operations by the resource that they are about.
  unfoldable pub save : Store E → Entity → Store E
  unfolding save_route save_group save_middleware save_listener save_destination save_secret
      save_snapshot
  save s (route x) = save_route E s x
  save s (group x) = save_group E s x
  save s (middleware x) = save_middleware E s x
  save s (listener x) = save_listener E s x
  save s (destination x) = save_destination E s x
  save s (secret x) = save_secret E s x
  save s (snapshot x) = save_snapshot E s x

  unfoldable pub get : Store E → Resource → String → Option Entity
  unfolding get_route get_group get_middleware get_listener get_destination get_secret get_snapshot
  get s route_ id = some_if_ok route (found (get_route E s id))
  get s group_ id = some_if_ok group (found (get_group E s id))
  get s middleware_ id = some_if_ok middleware (found (get_middleware E s id))
  get s listener_ id = some_if_ok listener (found (get_listener E s id))
  get s destination_ id = some_if_ok destination (found (get_destination E s id))
  get s secret_ id = some_if_ok secret (found (get_secret E s id))
  get s snapshot_ id = some_if_ok snapshot (found (get_snapshot E s id))

  unfoldable pub delete : Store E → Resource → String → Result (Store E)
  unfolding delete_route delete_group delete_middleware delete_listener delete_destination
      delete_secret delete_snapshot
  delete s route_ id = delete_route E s id
  delete s group_ id = delete_group E s id
  delete s middleware_ id = delete_middleware E s id
  delete s listener_ id = delete_listener E s id
  delete s destination_ id = delete_destination E s id
  delete s secret_ id = delete_secret E s id
  delete s snapshot_ id = delete_snapshot E s id

  saved_route :
      (s : Store E) (x : E.Route) (q : Resource) (j : String)
      → get (save s (route x)) q j
        ≡ (if is_at route_ (E.route_id x) q j then some (route x) else get s q j)
  unfolding get save
  saved_route s x route_ j = ground (arith, lookup-insert j (E.route_id x) x s.routes)
  saved_route s x _ j = refl

  saved_group :
      (s : Store E) (x : E.RouteGroup) (q : Resource) (j : String)
      → get (save s (group x)) q j
        ≡ (if is_at group_ (E.group_id x) q j then some (group x) else get s q j)
  unfolding get save
  saved_group s x group_ j = ground (arith, lookup-insert j (E.group_id x) x s.groups)
  saved_group s x _ j = refl

  saved_middleware :
      (s : Store E) (x : E.Middleware) (q : Resource) (j : String)
      → get (save s (middleware x)) q j
        ≡ (if is_at middleware_ (E.middleware_id x) q j then some (middleware x) else get s q j)
  unfolding get save
  saved_middleware s x middleware_ j =
      ground (arith, lookup-insert j (E.middleware_id x) x s.filters)
  saved_middleware s x _ j = refl

  saved_listener :
      (s : Store E) (x : E.Listener) (q : Resource) (j : String)
      → get (save s (listener x)) q j
        ≡ (if is_at listener_ (E.listener_id x) q j then some (listener x) else get s q j)
  unfolding get save
  saved_listener s x listener_ j = ground (arith, lookup-insert j (E.listener_id x) x s.listeners)
  saved_listener s x _ j = refl

  saved_destination :
      (s : Store E) (x : E.Destination) (q : Resource) (j : String)
      → get (save s (destination x)) q j
        ≡ (if is_at destination_ (E.destination_id x) q j then some (destination x) else get s q j)
  unfolding get save
  saved_destination s x destination_ j =
      ground (arith, lookup-insert j (E.destination_id x) x s.destinations)
  saved_destination s x _ j = refl

  saved_secret :
      (s : Store E) (x : Secret) (q : Resource) (j : String)
      → get (save s (secret x)) q j
        ≡ (if is_at secret_ (x.id) q j then some (secret x) else get s q j)
  unfolding get save
  saved_secret s x secret_ j = ground (arith, lookup-insert j (x.id) x s.secrets)
  saved_secret s x _ j = refl

  saved_snapshot :
      (s : Store E) (x : VersionedSnapshot E) (q : Resource) (j : String)
      → get (save s (snapshot x)) q j
        ≡ (if is_at snapshot_ (x.id) q j then some (snapshot x) else get s q j)
  unfolding get save
  saved_snapshot s x snapshot_ j = ground (arith, lookup-insert j (x.id) x s.snapshots)
  saved_snapshot s x _ j = refl

  -- After an entity is saved it is found under its resource and ID, and under any other resource or ID
  -- the store finds what it found before.
  pub get-save :
      (s : Store E) (e : Entity) (q : Resource) (j : String)
      → get (save s e) q j ≡ (if is_at (resource_of e) (id_of e) q j then some e else get s q j)
  get-save s (route x) q j = saved_route s x q j
  get-save s (group x) q j = saved_group s x q j
  get-save s (middleware x) q j = saved_middleware s x q j
  get-save s (listener x) q j = saved_listener s x q j
  get-save s (destination x) q j = saved_destination s x q j
  get-save s (secret x) q j = saved_secret s x q j
  get-save s (snapshot x) q j = saved_snapshot s x q j
