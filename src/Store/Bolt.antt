-- ===== src/Store/Bolt.antt =====
-- The persistent store: server/internal/store/bolt/bolt.go, on the platform of Store.Platform.
--
-- A transaction that fails leaves the store as it was, and every failure but ErrNotFound and
-- ErrNoActiveSnapshot is `failed`. Opening the file and closing it are left out. Subscribing is as in
-- the in-memory store. Secrets, snapshots and the replicated commands stand in the children.
pub mod Tests
pub mod Sealed
pub mod Buckets
pub mod Commands
pub mod Mode
pub mod Dumping
pub mod Refining
use vrata.Common.{
  dec_lt, dec_le, ℕ_discrete, ℕ, zero, suc, ◌+◌, ◌-◌, ◌*◌, ◌/◌, ◌%◌, ◌^◌, ◌≤◌, ◌<◌, String, ◌≡◌,
  refl, sym, ap, ap₂, ◌∙◌, ◌≢◌, ◌↔◌, ◌⊎◌, inl, inr, Bool, true, false, not, ◌&&◌, ◌||◌, Option,
  none, some, List, [], ◌∷◌, ◌++◌, map, arith, str_eq, eq_iff, ltb, leb, ◌==◌, if◌then◌else◌,
  ltb→lt, lt→ltb, leb→le, le→leb, ==_iff, Bool-cases, Option-cases, length, get_elem?, replicate,
  filter_by, filter_by_comm, filter_by-append, count_by-append, All-filter_by, any_by, count_by,
  length-append, All,
}
use vrata.Store.Types.{
  EventType, created, updated, deleted, Resource, group_, route_, middleware_, listener_,
  destination_, secret_, snapshot_, StoreEvent, Secret, Entities, Error, not_found,
  no_active_snapshot, deliver_all,
}
use vrata.Store.Encrypt.{Bytes, Aead}
use vrata.Store.Platform.{Json, Bbolt, Platform}

pub data Answer {ℓ} (A : Type ℓ) : Type ℓ where
  done : A → Answer A
  refused : Error → Answer A
  failed : Answer A

abbrev pub or_failed {ℓ} : {A : Type ℓ} → Option A → Answer A
or_failed none = failed
or_failed (some a) = done a

abbrev pub and_then {ℓ κ} : {A : Type ℓ} {B : Type κ} → Answer A → (A → B) → Answer B
and_then (done a) f = done (f a)
and_then (refused e) f = refused e
and_then failed f = failed

abbrev pub cons_decoded {ℓ} : {A : Type ℓ} → Option A → Option (List A) → Option (List A)
cons_decoded none xs = none
cons_decoded (some x) none = none
cons_decoded (some x) (some xs) = some (x ∷ xs)

-- The walk of ForEach that decodes each value; one that cannot be decoded fails the whole.
abbrev pub decode_all {ℓ} :
    {A : Type ℓ} → (Bytes → Option A) → List (String × Bytes) → Option (List A)
decode_all decode [] = some []
decode_all decode ((k, v) ∷ kvs) = cons_decoded (decode v) (decode_all decode kvs)

module _ (p : Platform) where
  open p use {entities, bbolt}
  open entities use {
    Route, route_id, RouteGroup, group_id, Middleware, middleware_id, Listener, listener_id,
    Destination, destination_id,
  }
  open bbolt use {Bucket, get, put, remove, pairs}

  pub record Store : Type 0 where
    pub routes : Bucket
    pub groups : Bucket
    pub middlewares : Bucket
    pub listeners : Bucket
    pub destinations : Bucket
    pub secrets : Bucket
    pub snapshots : Bucket
    pub meta : Bucket
    pub subs : List (List StoreEvent)

  -- New on an empty file, with the buckets that it creates.
  unfoldable pub new : Store
  new = record {
    routes = bbolt.empty;
    groups = bbolt.empty;
    middlewares = bbolt.empty;
    listeners = bbolt.empty;
    destinations = bbolt.empty;
    secrets = bbolt.empty;
    snapshots = bbolt.empty;
    meta = bbolt.empty;
    subs = [];
  }

  -- publish
  unfoldable pub publish : EventType → Resource → String → Store → Store
  publish t r id s = record s {
    subs = deliver_all (record { type = t; resource = r; id = id }) s.subs;
  }

  abbrev pub decoded {ℓ} :
      {A : Type ℓ} → (Bytes → Option A) → Resource → String → Option Bytes → Answer A
  decoded decode r id none = refused (not_found r id)
  decoded decode r id (some v) = or_failed (decode v)

  -- The transaction of a Get.
  unfoldable pub find {ℓ} :
      {A : Type ℓ} → (Bytes → Option A) → Bucket → Resource → String → Answer A
  find decode b r id = decoded decode r id (get b id)

  abbrev pub put_encoded : Bucket → String → Option Bytes → Option Bucket
  put_encoded b id none = none
  put_encoded b id (some v) = put b id v

  abbrev pub removed : Bucket → Resource → String → Option Bytes → Answer Bucket
  removed b r id none = refused (not_found r id)
  removed b r id (some v) = or_failed (remove b id)

  -- The transaction of a Delete.
  unfoldable pub take_out : Bucket → Resource → String → Answer Bucket
  take_out b r id = removed b r id (get b id)

  unfoldable pub list_routes : Store → Answer (List Route)
  list_routes s = or_failed (decode_all p.route_json.unmarshal (pairs s.routes))

  unfoldable pub get_route : Store → String → Answer Route
  unfolding find
  get_route s id = find p.route_json.unmarshal s.routes route_ id

  unfoldable pub save_route : Store → Route → Answer Store
  unfolding publish
  save_route s x =
      and_then (or_failed (put_encoded s.routes (route_id x) (p.route_json.marshal x)))
        (λ b. publish created route_ (route_id x) (record s { routes = b }))

  unfoldable pub delete_route : Store → String → Answer Store
  unfolding publish take_out
  delete_route s id =
      and_then (take_out s.routes route_ id)
        (λ b. publish deleted route_ id (record s { routes = b }))

  unfoldable pub list_groups : Store → Answer (List RouteGroup)
  list_groups s = or_failed (decode_all p.group_json.unmarshal (pairs s.groups))

  unfoldable pub get_group : Store → String → Answer RouteGroup
  unfolding find
  get_group s id = find p.group_json.unmarshal s.groups group_ id

  unfoldable pub save_group : Store → RouteGroup → Answer Store
  unfolding publish
  save_group s x =
      and_then (or_failed (put_encoded s.groups (group_id x) (p.group_json.marshal x)))
        (λ b. publish created group_ (group_id x) (record s { groups = b }))

  unfoldable pub delete_group : Store → String → Answer Store
  unfolding publish take_out
  delete_group s id =
      and_then (take_out s.groups group_ id)
        (λ b. publish deleted group_ id (record s { groups = b }))

  unfoldable pub list_middlewares : Store → Answer (List Middleware)
  list_middlewares s = or_failed (decode_all p.middleware_json.unmarshal (pairs s.middlewares))

  unfoldable pub get_middleware : Store → String → Answer Middleware
  unfolding find
  get_middleware s id = find p.middleware_json.unmarshal s.middlewares middleware_ id

  unfoldable pub save_middleware : Store → Middleware → Answer Store
  unfolding publish
  save_middleware s x =
      and_then
        (or_failed (put_encoded s.middlewares (middleware_id x) (p.middleware_json.marshal x)))
        (λ b. publish created middleware_ (middleware_id x) (record s { middlewares = b }))

  unfoldable pub delete_middleware : Store → String → Answer Store
  unfolding publish take_out
  delete_middleware s id =
      and_then (take_out s.middlewares middleware_ id)
        (λ b. publish deleted middleware_ id (record s { middlewares = b }))

  unfoldable pub list_listeners : Store → Answer (List Listener)
  list_listeners s = or_failed (decode_all p.listener_json.unmarshal (pairs s.listeners))

  unfoldable pub get_listener : Store → String → Answer Listener
  unfolding find
  get_listener s id = find p.listener_json.unmarshal s.listeners listener_ id

  unfoldable pub save_listener : Store → Listener → Answer Store
  unfolding publish
  save_listener s x =
      and_then (or_failed (put_encoded s.listeners (listener_id x) (p.listener_json.marshal x)))
        (λ b. publish created listener_ (listener_id x) (record s { listeners = b }))

  unfoldable pub delete_listener : Store → String → Answer Store
  unfolding publish take_out
  delete_listener s id =
      and_then (take_out s.listeners listener_ id)
        (λ b. publish deleted listener_ id (record s { listeners = b }))

  unfoldable pub list_destinations : Store → Answer (List Destination)
  list_destinations s = or_failed (decode_all p.destination_json.unmarshal (pairs s.destinations))

  unfoldable pub get_destination : Store → String → Answer Destination
  unfolding find
  get_destination s id = find p.destination_json.unmarshal s.destinations destination_ id

  unfoldable pub save_destination : Store → Destination → Answer Store
  unfolding publish
  save_destination s x =
      and_then
        (or_failed (put_encoded s.destinations (destination_id x) (p.destination_json.marshal x)))
        (λ b. publish created destination_ (destination_id x) (record s { destinations = b }))

  unfoldable pub delete_destination : Store → String → Answer Store
  unfolding publish take_out
  delete_destination s id =
      and_then (take_out s.destinations destination_ id)
        (λ b. publish deleted destination_ id (record s { destinations = b }))
