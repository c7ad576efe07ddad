-- ===== src/Store/Bolt/Refining/Writes.antt =====
-- Each write to the persistent store follows the same write to the in-memory store.
use vrata.Common.{String, ◌≡◌, refl, Option, none, some, if◌then◌else◌}
use vrata.Common.StringMap.{lookup, insert, delete}
use vrata.Store.Types.{
  created, deleted, Resource, group_, route_, middleware_, listener_, destination_, not_found, ok,
  err, is_some,
}
use vrata.Store.Memory
use vrata.Store.Encrypt.{Bytes}
use vrata.Store.Platform.{Platform, Documented}
use vrata.Store.Bolt.{
  or_failed, and_then, Store, put_encoded, removed, take_out, save_route, delete_route, save_group,
  delete_group, save_middleware, delete_middleware, save_listener, delete_listener,
  save_destination, delete_destination,
}
use vrata.Store.Bolt.Buckets.{Holds-put, Holds-remove, Holds-is_some}
use vrata.Store.Bolt.Refining.{
  Refines, Follows, Refines-routes, Refines-groups, Refines-middlewares, Refines-listeners,
  Refines-destinations,
}

module _ (p : Platform) where
  open p use {entities, bbolt}

  -- A bucket that is put back, and a store made of it.
  pub Follows-or_failed :
      {B : Type 0} (o : Option B) (k : B → Store p) (m : Memory.Store entities)
      → ((c : B) → o ≡ some c → Refines p m (k c))
      → Follows p (and_then (or_failed o) k) (ok m)
  Follows-or_failed none k m h = tt
  Follows-or_failed (some c) k m h = h c refl

  pub Follows-put :
      (b : bbolt.Bucket) (id : String) (o : Option Bytes) (k : bbolt.Bucket → Store p)
      (m : Memory.Store entities)
      → ((c : bbolt.Bucket) (v : Bytes)
          → o ≡ some v
          → bbolt.put b id v ≡ some c
          → Refines p m (k c))
      → Follows p (and_then (or_failed (put_encoded p b id o)) k) (ok m)
  Follows-put b id none k m h = tt
  Follows-put b id (some v) k m h = Follows-or_failed (bbolt.put b id v) k m (λ c e. h c v refl e)

  pub Follows-take :
      {A : Type 0} (b : bbolt.Bucket) (r : Resource) (id : String) (entry : Option A)
      (k : bbolt.Bucket → Store p) (m : Memory.Store entities)
      → is_some (bbolt.get b id) ≡ is_some entry
      → ((c : bbolt.Bucket) → bbolt.remove b id ≡ some c → Refines p m (k c))
      → Follows p
          (and_then (take_out p b r id) k)
          (if is_some entry then ok m else err (not_found r id))
  unfolding take_out
  Follows-take {A} b r id entry k m same h = taken (bbolt.get b id) entry same
    where
      taken :
          (old : Option Bytes) (entry : Option A)
          → is_some old ≡ is_some entry
          → Follows p
              (and_then (removed p b r id old) k)
              (if is_some entry then ok m else err (not_found r id))
      taken none none e = refl
      taken none (some x) e = cc
      taken (some v) none e = cc
      taken (some v) (some x) e = Follows-or_failed (bbolt.remove b id) k m h

  pub Follows-save_route :
      (m : Memory.Store entities) (s : Store p) (x : entities.Route)
      → Documented p
      → Refines p m s
      → Follows p (save_route p s x) (ok (Memory.save_route entities m x))
  unfolding save_route Memory.save_route
  Follows-save_route m s x laws h =
      let id = entities.route_id x in
      Follows-put s.routes id (p.route_json.marshal x) _ _ (λ c v e stored.
        Refines-routes p created id m s c (insert id x m.routes)
          (Holds-put p p.route_json.unmarshal route_ s.routes c m.routes id v x laws.bbolt_lem
            stored (laws.route_lem.unmarshal-marshal x v e) (h.each route_))
          h)

  pub Follows-delete_route :
      (m : Memory.Store entities) (s : Store p) (id : String)
      → Documented p
      → Refines p m s
      → Follows p (delete_route p s id) (Memory.delete_route entities m id)
  unfolding delete_route Memory.delete_route
  Follows-delete_route m s id laws h =
      Follows-take s.routes route_ id (lookup id m.routes) _ _
        (Holds-is_some p p.route_json.unmarshal route_ s.routes m.routes id (h.each route_))
        (λ c gone.
          Refines-routes p deleted id m s c (delete id m.routes)
            (Holds-remove p p.route_json.unmarshal route_ s.routes c m.routes id laws.bbolt_lem gone
              (h.each route_))
            h)

  pub Follows-save_group :
      (m : Memory.Store entities) (s : Store p) (x : entities.RouteGroup)
      → Documented p
      → Refines p m s
      → Follows p (save_group p s x) (ok (Memory.save_group entities m x))
  unfolding save_group Memory.save_group
  Follows-save_group m s x laws h =
      let id = entities.group_id x in
      Follows-put s.groups id (p.group_json.marshal x) _ _ (λ c v e stored.
        Refines-groups p created id m s c (insert id x m.groups)
          (Holds-put p p.group_json.unmarshal group_ s.groups c m.groups id v x laws.bbolt_lem
            stored (laws.group_lem.unmarshal-marshal x v e) (h.each group_))
          h)

  pub Follows-delete_group :
      (m : Memory.Store entities) (s : Store p) (id : String)
      → Documented p
      → Refines p m s
      → Follows p (delete_group p s id) (Memory.delete_group entities m id)
  unfolding delete_group Memory.delete_group
  Follows-delete_group m s id laws h =
      Follows-take s.groups group_ id (lookup id m.groups) _ _
        (Holds-is_some p p.group_json.unmarshal group_ s.groups m.groups id (h.each group_))
        (λ c gone.
          Refines-groups p deleted id m s c (delete id m.groups)
            (Holds-remove p p.group_json.unmarshal group_ s.groups c m.groups id laws.bbolt_lem gone
              (h.each group_))
            h)

  pub Follows-save_middleware :
      (m : Memory.Store entities) (s : Store p) (x : entities.Middleware)
      → Documented p
      → Refines p m s
      → Follows p (save_middleware p s x) (ok (Memory.save_middleware entities m x))
  unfolding save_middleware Memory.save_middleware
  Follows-save_middleware m s x laws h =
      let id = entities.middleware_id x in
      Follows-put s.middlewares id (p.middleware_json.marshal x) _ _ (λ c v e stored.
        Refines-middlewares p created id m s c (insert id x m.filters)
          (Holds-put p p.middleware_json.unmarshal middleware_ s.middlewares c m.filters id v x
            laws.bbolt_lem stored (laws.middleware_lem.unmarshal-marshal x v e)
            (h.each middleware_))
          h)

  pub Follows-delete_middleware :
      (m : Memory.Store entities) (s : Store p) (id : String)
      → Documented p
      → Refines p m s
      → Follows p (delete_middleware p s id) (Memory.delete_middleware entities m id)
  unfolding delete_middleware Memory.delete_middleware
  Follows-delete_middleware m s id laws h =
      Follows-take s.middlewares middleware_ id (lookup id m.filters) _ _
        (Holds-is_some p p.middleware_json.unmarshal middleware_ s.middlewares m.filters id
          (h.each middleware_))
        (λ c gone.
          Refines-middlewares p deleted id m s c (delete id m.filters)
            (Holds-remove p p.middleware_json.unmarshal middleware_ s.middlewares c m.filters id
              laws.bbolt_lem gone (h.each middleware_))
            h)

  pub Follows-save_listener :
      (m : Memory.Store entities) (s : Store p) (x : entities.Listener)
      → Documented p
      → Refines p m s
      → Follows p (save_listener p s x) (ok (Memory.save_listener entities m x))
  unfolding save_listener Memory.save_listener
  Follows-save_listener m s x laws h =
      let id = entities.listener_id x in
      Follows-put s.listeners id (p.listener_json.marshal x) _ _ (λ c v e stored.
        Refines-listeners p created id m s c (insert id x m.listeners)
          (Holds-put p p.listener_json.unmarshal listener_ s.listeners c m.listeners id v x
            laws.bbolt_lem stored (laws.listener_lem.unmarshal-marshal x v e) (h.each listener_))
          h)

  pub Follows-delete_listener :
      (m : Memory.Store entities) (s : Store p) (id : String)
      → Documented p
      → Refines p m s
      → Follows p (delete_listener p s id) (Memory.delete_listener entities m id)
  unfolding delete_listener Memory.delete_listener
  Follows-delete_listener m s id laws h =
      Follows-take s.listeners listener_ id (lookup id m.listeners) _ _
        (Holds-is_some p p.listener_json.unmarshal listener_ s.listeners m.listeners id
          (h.each listener_))
        (λ c gone.
          Refines-listeners p deleted id m s c (delete id m.listeners)
            (Holds-remove p p.listener_json.unmarshal listener_ s.listeners c m.listeners id
              laws.bbolt_lem gone (h.each listener_))
            h)

  pub Follows-save_destination :
      (m : Memory.Store entities) (s : Store p) (x : entities.Destination)
      → Documented p
      → Refines p m s
      → Follows p (save_destination p s x) (ok (Memory.save_destination entities m x))
  unfolding save_destination Memory.save_destination
  Follows-save_destination m s x laws h =
      let id = entities.destination_id x in
      Follows-put s.destinations id (p.destination_json.marshal x) _ _ (λ c v e stored.
        Refines-destinations p created id m s c (insert id x m.destinations)
          (Holds-put p p.destination_json.unmarshal destination_ s.destinations c m.destinations id
            v x laws.bbolt_lem stored (laws.destination_lem.unmarshal-marshal x v e)
            (h.each destination_))
          h)

  pub Follows-delete_destination :
      (m : Memory.Store entities) (s : Store p) (id : String)
      → Documented p
      → Refines p m s
      → Follows p (delete_destination p s id) (Memory.delete_destination entities m id)
  unfolding delete_destination Memory.delete_destination
  Follows-delete_destination m s id laws h =
      Follows-take s.destinations destination_ id (lookup id m.destinations) _ _
        (Holds-is_some p p.destination_json.unmarshal destination_ s.destinations m.destinations id
          (h.each destination_))
        (λ c gone.
          Refines-destinations p deleted id m s c (delete id m.destinations)
            (Holds-remove p p.destination_json.unmarshal destination_ s.destinations c
              m.destinations id laws.bbolt_lem gone (h.each destination_))
            h)
