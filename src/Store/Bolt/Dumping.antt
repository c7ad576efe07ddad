-- ===== src/Store/Bolt/Dumping.antt =====
-- Dump and Restore of server/internal/store/bolt/bolt.go.
--
-- The JSON encoding of the dump is an argument. So is what Restore's ForEach leaves of a bucket when it
-- deletes each key that it visits, of which bbolt's documentation promises nothing.
pub mod Failing
pub mod Restoring
use vrata.Common.{
  dec_lt, dec_le, ℕ_discrete, ℕ, zero, suc, ◌+◌, ◌-◌, ◌*◌, ◌/◌, ◌%◌, ◌^◌, ◌≤◌, ◌<◌, String, ◌≡◌,
  refl, sym, ap, ap₂, ◌∙◌, ◌≢◌, ◌↔◌, ◌⊎◌, inl, inr, Bool, true, false, not, ◌&&◌, ◌||◌, Option,
  none, some, List, [], ◌∷◌, ◌++◌, map, arith, str_eq, eq_iff, ltb, leb, ◌==◌, if◌then◌else◌,
  ltb→lt, lt→ltb, leb→le, le→leb, ==_iff, Bool-cases, Option-cases, length, get_elem?, replicate,
  filter_by, filter_by_comm, filter_by-append, count_by-append, All-filter_by, any_by, count_by,
  length-append, All, bind, bind-some, unwrap,
}
use vrata.Common.StringMap.{lookup}
use vrata.Store.Types.{
  EventType, created, updated, deleted, Resource, group_, route_, middleware_, listener_,
  destination_, secret_, snapshot_, StoreEvent, Secret, SecretSummary, SnapshotSummary, Entities,
  Error, not_found, no_active_snapshot, Result, ok, err, or_not_found, is_some, buffer_size,
  deliver, deliver_all,
}
use vrata.Store.Encrypt.{Bytes}
use vrata.Store.Platform.{Json, Bbolt, Platform, ReadsBack, IsMap, Opens, Documented}
use vrata.Store.Bolt.{
  Answer, done, refused, failed, or_failed, and_then, cons_decoded, decode_all, Store, new, publish,
  decoded, find, put_encoded, removed, take_out, list_routes, get_route, save_route, delete_route,
  list_groups, get_group, save_group, delete_group, list_middlewares, get_middleware,
  save_middleware, delete_middleware, list_listeners, get_listener, save_listener, delete_listener,
  list_destinations, get_destination, save_destination, delete_destination,
}
use vrata.Store.Bolt.Sealed.{
  encrypt_value, decrypt_value, encode_sealed, decode_sealed, active_key, list_secrets, get_secret,
  save_secret, delete_secret, id_in, active_id, is_active, or_blank, list_snapshots, get_snapshot,
  save_snapshot, clear_active, with_meta, join, delete_snapshot, activated, activate_snapshot,
  read_active, value_at, get_active_snapshot,
}

-- map[string]map[string]json.RawMessage
abbrev pub Dump : Type 0
Dump = List (String × List (String × Bytes))

module _ (p : Platform) (dump_json : Json Dump) where
  open p use {bbolt, bytes_of}
  open bbolt use {Bucket, get, put, pairs}

  abbrev pub dumped : Store p → Dump
  dumped s =
      ("routes", pairs s.routes)
      ∷ ("groups", pairs s.groups)
      ∷ ("middlewares", pairs s.middlewares)
      ∷ ("listeners", pairs s.listeners)
      ∷ ("destinations", pairs s.destinations)
      ∷ ("secrets", pairs s.secrets)
      ∷ ("snapshots", pairs s.snapshots)
      ∷ ("meta", pairs s.meta)
      ∷ []

  unfoldable pub dump : Store p → Option Bytes
  dump s = dump_json.marshal (dumped s)

  module _ (clear : Bucket → Bucket) where
    -- The writes of one bucket, in any order, as Go goes through a map.
    unfoldable pub put_all : Bucket → List (String × Bytes) → Option Bucket
    put_all b [] = some b
    put_all b ((k, v) ∷ kvs) = bind (put_all b kvs) (λ c. put c k v)

    -- A bucket that the store does not read is created and left out here.
    unfoldable pub restore_bucket : Store p → String → List (String × Bytes) → Option (Store p)
    unfolding put_all
    restore_bucket s name kvs =
        if str_eq name "routes"
        then bind (put_all (clear s.routes) kvs) (λ b. some (record s { routes = b }))
        else if str_eq name "groups"
        then bind (put_all (clear s.groups) kvs) (λ b. some (record s { groups = b }))
        else if str_eq name "middlewares"
        then bind (put_all (clear s.middlewares) kvs) (λ b. some (record s { middlewares = b }))
        else if str_eq name "listeners"
        then bind (put_all (clear s.listeners) kvs) (λ b. some (record s { listeners = b }))
        else if str_eq name "destinations"
        then bind (put_all (clear s.destinations) kvs) (λ b. some (record s { destinations = b }))
        else if str_eq name "secrets"
        then bind (put_all (clear s.secrets) kvs) (λ b. some (record s { secrets = b }))
        else if str_eq name "snapshots"
        then bind (put_all (clear s.snapshots) kvs) (λ b. some (record s { snapshots = b }))
        else if str_eq name "meta"
        then bind (put_all (clear s.meta) kvs) (λ b. some (record s { meta = b }))
        else some s

    unfoldable pub restore_all : Store p → Dump → Option (Store p)
    unfolding restore_bucket
    restore_all s [] = some s
    restore_all s ((name, kvs) ∷ d) = bind (restore_bucket s name kvs) (λ t. restore_all t d)

    unfoldable pub restore : Store p → Bytes → Option (Store p)
    unfolding restore_all
    restore s entry = bind (dump_json.unmarshal entry) (restore_all s)
