-- ===== src/Store/Bolt/Refining.antt =====
-- The persistent store beside the in-memory one: when the two agree, and that they keep agreeing where
-- a bucket and a map are replaced and an event is published.
pub mod Snapshots
pub mod Writes
pub mod Sealed
pub mod Histories
pub mod Reading
use vrata.Common.{String, ◌≡◌, ap, Option, none, some, List, str_eq, if◌then◌else◌}
use vrata.Common.StringMap.{lookup}
use vrata.Store.Types.{
  EventType, Resource, group_, route_, middleware_, listener_, destination_, secret_, snapshot_,
  Result, ok, err, deliver_all,
}
use vrata.Store.Memory
use vrata.Store.Platform.{Platform}
use vrata.Store.Bolt.{Answer, done, refused, failed, Store, publish}
use vrata.Store.Bolt.Sealed.{decode_sealed, active_id}
use vrata.Store.Bolt.Buckets.{Holds}

-- The active snapshot's ID, of which the in-memory store keeps a blank one where none is active.
abbrev pub unless_blank : String → Option String
unless_blank id = if str_eq id "" then none else some id

module _ (p : Platform) where
  open p use {entities, cipher, secret_json, snapshot_json}

  -- What the stores hold of a resource.
  abbrev pub Agrees : Memory.Store entities → Store p → Resource → Type 0
  Agrees m s route_ = Holds p p.route_json.unmarshal route_ s.routes m.routes
  Agrees m s group_ = Holds p p.group_json.unmarshal group_ s.groups m.groups
  Agrees m s middleware_ = Holds p p.middleware_json.unmarshal middleware_ s.middlewares m.filters
  Agrees m s listener_ = Holds p p.listener_json.unmarshal listener_ s.listeners m.listeners
  Agrees m s destination_ =
      Holds p p.destination_json.unmarshal destination_ s.destinations m.destinations
  Agrees m s secret_ = Holds p (decode_sealed cipher secret_json) secret_ s.secrets m.secrets
  Agrees m s snapshot_ =
      Holds p (decode_sealed cipher snapshot_json) snapshot_ s.snapshots m.snapshots

  -- Every Get of the persistent store answers as one of the in-memory store, the same snapshot is
  -- active, and the subscribers have been told the same.
  pub record Refines (m : Memory.Store entities) (s : Store p) : Type 0 where
    pub each : (r : Resource) → Agrees m s r
    pub active : active_id p s ≡ unless_blank m.active_snap
    pub blank : lookup "" m.snapshots ≡ none
    pub told : s.subs ≡ m.subs

  -- A write that fails promises nothing, one that is refused is refused for the same reason, and one
  -- that is done leaves stores that agree.
  abbrev pub Follows : Answer (Store p) → Result (Memory.Store entities) → Type 0
  Follows (done s) (ok m) = Refines m s
  Follows (done s) (err e) = ⊥
  Follows (refused e) q = q ≡ err e
  Follows failed q = Unit

  each_routes :
      (m : Memory.Store entities) (s : Store p) (b : p.bbolt.Bucket)
      (xs : List (String × entities.Route))
      → Holds p p.route_json.unmarshal route_ b xs
      → ((q : Resource) → Agrees m s q)
      → (q : Resource) → Agrees (record m { routes = xs }) (record s { routes = b }) q
  each_routes m s b xs h a route_ = h
  each_routes m s b xs h a q = a q

  pub Refines-routes :
      (t : EventType) (id : String) (m : Memory.Store entities) (s : Store p) (b : p.bbolt.Bucket)
      (xs : List (String × entities.Route))
      → Holds p p.route_json.unmarshal route_ b xs
      → Refines m s
      → Refines
          (Memory.publish entities t route_ id (record m { routes = xs }))
          (publish p t route_ id (record s { routes = b }))
  unfolding Memory.publish publish
  Refines-routes t id m s b xs h a = record {
    each = each_routes m s b xs h a.each;
    active = a.active;
    blank = a.blank;
    told = ap (deliver_all _) a.told;
  }

  each_groups :
      (m : Memory.Store entities) (s : Store p) (b : p.bbolt.Bucket)
      (xs : List (String × entities.RouteGroup))
      → Holds p p.group_json.unmarshal group_ b xs
      → ((q : Resource) → Agrees m s q)
      → (q : Resource) → Agrees (record m { groups = xs }) (record s { groups = b }) q
  each_groups m s b xs h a group_ = h
  each_groups m s b xs h a q = a q

  pub Refines-groups :
      (t : EventType) (id : String) (m : Memory.Store entities) (s : Store p) (b : p.bbolt.Bucket)
      (xs : List (String × entities.RouteGroup))
      → Holds p p.group_json.unmarshal group_ b xs
      → Refines m s
      → Refines
          (Memory.publish entities t group_ id (record m { groups = xs }))
          (publish p t group_ id (record s { groups = b }))
  unfolding Memory.publish publish
  Refines-groups t id m s b xs h a = record {
    each = each_groups m s b xs h a.each;
    active = a.active;
    blank = a.blank;
    told = ap (deliver_all _) a.told;
  }

  each_middlewares :
      (m : Memory.Store entities) (s : Store p) (b : p.bbolt.Bucket)
      (xs : List (String × entities.Middleware))
      → Holds p p.middleware_json.unmarshal middleware_ b xs
      → ((q : Resource) → Agrees m s q)
      → (q : Resource) → Agrees (record m { filters = xs }) (record s { middlewares = b }) q
  each_middlewares m s b xs h a middleware_ = h
  each_middlewares m s b xs h a q = a q

  pub Refines-middlewares :
      (t : EventType) (id : String) (m : Memory.Store entities) (s : Store p) (b : p.bbolt.Bucket)
      (xs : List (String × entities.Middleware))
      → Holds p p.middleware_json.unmarshal middleware_ b xs
      → Refines m s
      → Refines
          (Memory.publish entities t middleware_ id (record m { filters = xs }))
          (publish p t middleware_ id (record s { middlewares = b }))
  unfolding Memory.publish publish
  Refines-middlewares t id m s b xs h a = record {
    each = each_middlewares m s b xs h a.each;
    active = a.active;
    blank = a.blank;
    told = ap (deliver_all _) a.told;
  }

  each_listeners :
      (m : Memory.Store entities) (s : Store p) (b : p.bbolt.Bucket)
      (xs : List (String × entities.Listener))
      → Holds p p.listener_json.unmarshal listener_ b xs
      → ((q : Resource) → Agrees m s q)
      → (q : Resource) → Agrees (record m { listeners = xs }) (record s { listeners = b }) q
  each_listeners m s b xs h a listener_ = h
  each_listeners m s b xs h a q = a q

  pub Refines-listeners :
      (t : EventType) (id : String) (m : Memory.Store entities) (s : Store p) (b : p.bbolt.Bucket)
      (xs : List (String × entities.Listener))
      → Holds p p.listener_json.unmarshal listener_ b xs
      → Refines m s
      → Refines
          (Memory.publish entities t listener_ id (record m { listeners = xs }))
          (publish p t listener_ id (record s { listeners = b }))
  unfolding Memory.publish publish
  Refines-listeners t id m s b xs h a = record {
    each = each_listeners m s b xs h a.each;
    active = a.active;
    blank = a.blank;
    told = ap (deliver_all _) a.told;
  }

  each_destinations :
      (m : Memory.Store entities) (s : Store p) (b : p.bbolt.Bucket)
      (xs : List (String × entities.Destination))
      → Holds p p.destination_json.unmarshal destination_ b xs
      → ((q : Resource) → Agrees m s q)
      → (q : Resource) → Agrees (record m { destinations = xs }) (record s { destinations = b }) q
  each_destinations m s b xs h a destination_ = h
  each_destinations m s b xs h a q = a q

  pub Refines-destinations :
      (t : EventType) (id : String) (m : Memory.Store entities) (s : Store p) (b : p.bbolt.Bucket)
      (xs : List (String × entities.Destination))
      → Holds p p.destination_json.unmarshal destination_ b xs
      → Refines m s
      → Refines
          (Memory.publish entities t destination_ id (record m { destinations = xs }))
          (publish p t destination_ id (record s { destinations = b }))
  unfolding Memory.publish publish
  Refines-destinations t id m s b xs h a = record {
    each = each_destinations m s b xs h a.each;
    active = a.active;
    blank = a.blank;
    told = ap (deliver_all _) a.told;
  }
