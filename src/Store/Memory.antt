-- ===== src/Store/Memory.antt =====
-- The in-memory store: server/internal/store/memory/memory.go, with the events of
-- server/internal/store/store.go and the secrets and snapshots of server/internal/model.
--
-- The store reads nothing of a route, group, middleware, listener or destination but its ID, so
-- their types are the parameter `Entities`. A map is an association list, whose order stands for
-- Go's order of iteration. A subscriber is its channel's buffer of at most 32 events, oldest first.
pub mod View
pub mod Deleting
pub mod Active
pub mod Events
mod Tests
use vrata.Common.{
  ℕ, zero, suc, ◌+◌, String, Option, none, some, List, [], ◌∷◌, ◌++◌, map, str_eq, if◌then◌else◌,
}
use vrata.Common.StringMap.{lookup, insert, delete}
use vrata.Store.Types.{
  EventType, created, updated, deleted, Resource, group_, route_, middleware_, listener_,
  destination_, secret_, snapshot_, StoreEvent, Secret, SecretSummary, SnapshotSummary, Entities,
  Error, not_found, no_active_snapshot, Result, ok, err, or_not_found, is_some, buffer_size,
  deliver, deliver_all,
}

module _ (E : Entities) where
  open E use {
    Route, route_id, RouteGroup, group_id, Middleware, middleware_id, Listener, listener_id,
    Destination, destination_id,
  }

  pub record Snapshot : Type 0 where
    pub route_list : List Route
    pub group_list : List RouteGroup
    pub middleware_list : List Middleware
    pub listener_list : List Listener
    pub destination_list : List Destination

  pub record VersionedSnapshot : Type 0 where
    pub id : String
    pub name : String
    pub created_at : ℕ
    pub snapshot : Snapshot

  pub record Store : Type 0 where
    pub routes : List (String × Route)
    pub groups : List (String × RouteGroup)
    pub filters : List (String × Middleware)
    pub listeners : List (String × Listener)
    pub destinations : List (String × Destination)
    pub secrets : List (String × Secret)
    pub snapshots : List (String × VersionedSnapshot)
    pub active_snap : String
    pub subs : List (List StoreEvent)

  -- New
  unfoldable pub new : Store
  new = record {
    routes = [];
    groups = [];
    filters = [];
    listeners = [];
    destinations = [];
    secrets = [];
    snapshots = [];
    active_snap = "";
    subs = [];
  }

  -- publish
  unfoldable pub publish : EventType → Resource → String → Store → Store
  publish t r id s = record s {
    subs = deliver_all (record { type = t; resource = r; id = id }) s.subs;
  }

  -- Subscribe, up to the goroutine that removes the channel again.
  pub subscribe : Store → Store
  subscribe s = record s { subs = s.subs ++ [] ∷ [] }

  -- A subscriber reads one event from its channel, the one at index `i`.
  abbrev take_first : ℕ → List (List StoreEvent) → List (List StoreEvent)
  take_first i [] = []
  take_first zero ([] ∷ chs) = [] ∷ chs
  take_first zero ((ev ∷ ch) ∷ chs) = ch ∷ chs
  take_first (suc i) (ch ∷ chs) = ch ∷ take_first i chs

  pub receive : ℕ → Store → Store
  receive i s = record s { subs = take_first i s.subs }

  -- The goroutine of Subscribe: the channel at index `i` is removed.
  abbrev without : ℕ → List (List StoreEvent) → List (List StoreEvent)
  without i [] = []
  without zero (ch ∷ chs) = chs
  without (suc i) (ch ∷ chs) = ch ∷ without i chs

  pub unsubscribe : ℕ → Store → Store
  unsubscribe i s = record s { subs = without i s.subs }

  unfoldable pub list_routes : Store → List Route
  list_routes s = map (λ p. p.1) s.routes

  unfoldable pub get_route : Store → String → Result Route
  get_route s id = or_not_found (lookup id s.routes) route_ id

  unfoldable pub save_route : Store → Route → Store
  unfolding publish
  save_route s x =
      publish created route_ (route_id x) (record s { routes = insert (route_id x) x s.routes })

  unfoldable pub delete_route : Store → String → Result Store
  unfolding publish
  delete_route s id =
      if is_some (lookup id s.routes)
      then ok (publish deleted route_ id (record s { routes = delete id s.routes }))
      else err (not_found route_ id)

  unfoldable pub list_groups : Store → List RouteGroup
  list_groups s = map (λ p. p.1) s.groups

  unfoldable pub get_group : Store → String → Result RouteGroup
  get_group s id = or_not_found (lookup id s.groups) group_ id

  unfoldable pub save_group : Store → RouteGroup → Store
  unfolding publish
  save_group s x =
      publish created group_ (group_id x) (record s { groups = insert (group_id x) x s.groups })

  unfoldable pub delete_group : Store → String → Result Store
  unfolding publish
  delete_group s id =
      if is_some (lookup id s.groups)
      then ok (publish deleted group_ id (record s { groups = delete id s.groups }))
      else err (not_found group_ id)

  unfoldable pub list_middlewares : Store → List Middleware
  list_middlewares s = map (λ p. p.1) s.filters

  unfoldable pub get_middleware : Store → String → Result Middleware
  get_middleware s id = or_not_found (lookup id s.filters) middleware_ id

  unfoldable pub save_middleware : Store → Middleware → Store
  unfolding publish
  save_middleware s x =
      publish created middleware_ (middleware_id x)
        (record s { filters = insert (middleware_id x) x s.filters })

  unfoldable pub delete_middleware : Store → String → Result Store
  unfolding publish
  delete_middleware s id =
      if is_some (lookup id s.filters)
      then ok (publish deleted middleware_ id (record s { filters = delete id s.filters }))
      else err (not_found middleware_ id)

  unfoldable pub list_listeners : Store → List Listener
  list_listeners s = map (λ p. p.1) s.listeners

  unfoldable pub get_listener : Store → String → Result Listener
  get_listener s id = or_not_found (lookup id s.listeners) listener_ id

  unfoldable pub save_listener : Store → Listener → Store
  unfolding publish
  save_listener s x =
      publish created listener_ (listener_id x)
        (record s { listeners = insert (listener_id x) x s.listeners })

  unfoldable pub delete_listener : Store → String → Result Store
  unfolding publish
  delete_listener s id =
      if is_some (lookup id s.listeners)
      then ok (publish deleted listener_ id (record s { listeners = delete id s.listeners }))
      else err (not_found listener_ id)

  unfoldable pub list_destinations : Store → List Destination
  list_destinations s = map (λ p. p.1) s.destinations

  unfoldable pub get_destination : Store → String → Result Destination
  get_destination s id = or_not_found (lookup id s.destinations) destination_ id

  unfoldable pub save_destination : Store → Destination → Store
  unfolding publish
  save_destination s x =
      publish created destination_ (destination_id x)
        (record s { destinations = insert (destination_id x) x s.destinations })

  unfoldable pub delete_destination : Store → String → Result Store
  unfolding publish
  delete_destination s id =
      if is_some (lookup id s.destinations)
      then ok
          (publish deleted destination_ id (record s { destinations = delete id s.destinations }))
      else err (not_found destination_ id)

  unfoldable pub list_secrets : Store → List SecretSummary
  list_secrets s = map (λ p. record { id = p.1.id; name = p.1.name }) s.secrets

  unfoldable pub get_secret : Store → String → Result Secret
  get_secret s id = or_not_found (lookup id s.secrets) secret_ id

  unfoldable pub save_secret : Store → Secret → Store
  unfolding publish
  save_secret s x =
      publish (if is_some (lookup x.id s.secrets) then updated else created) secret_ x.id
        (record s { secrets = insert x.id x s.secrets })

  unfoldable pub delete_secret : Store → String → Result Store
  unfolding publish
  delete_secret s id =
      if is_some (lookup id s.secrets)
      then ok (publish deleted secret_ id (record s { secrets = delete id s.secrets }))
      else err (not_found secret_ id)

  abbrev summary : String → VersionedSnapshot → SnapshotSummary
  summary active vs = record {
    id = vs.id;
    name = vs.name;
    created_at = vs.created_at;
    active = str_eq vs.id active;
  }

  unfoldable pub list_snapshots : Store → List SnapshotSummary
  list_snapshots s = map (λ p. summary s.active_snap p.1) s.snapshots

  unfoldable pub get_snapshot : Store → String → Result VersionedSnapshot
  get_snapshot s id = or_not_found (lookup id s.snapshots) snapshot_ id

  unfoldable pub save_snapshot : Store → VersionedSnapshot → Store
  unfolding publish
  save_snapshot s x =
      publish created snapshot_ x.id (record s { snapshots = insert x.id x s.snapshots })

  unfoldable pub delete_snapshot : Store → String → Result Store
  unfolding publish
  delete_snapshot s id =
      if is_some (lookup id s.snapshots)
      then ok (
          publish deleted snapshot_ id (record s {
            snapshots = delete id s.snapshots;
            active_snap = if str_eq s.active_snap id then "" else s.active_snap;
          }))
      else err (not_found snapshot_ id)

  unfoldable pub activate_snapshot : Store → String → Result Store
  unfolding publish
  activate_snapshot s id =
      if is_some (lookup id s.snapshots)
      then ok (publish updated snapshot_ id (record s { active_snap = id }))
      else err (not_found snapshot_ id)

  abbrev pub or_no_active {ℓ} : {A : Type ℓ} → Option A → Result A
  or_no_active none = err no_active_snapshot
  or_no_active (some a) = ok a

  unfoldable pub get_active_snapshot : Store → Result VersionedSnapshot
  get_active_snapshot s =
      if str_eq s.active_snap ""
      then err no_active_snapshot
      else or_no_active (lookup s.active_snap s.snapshots)
