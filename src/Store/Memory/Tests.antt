-- ===== src/Store/Memory/Tests.antt =====
-- The theorems of the in-memory store at a store of named entities.
use vrata.Common.{
  String, ◌≡◌, refl, ◌≢◌, ◌⊎◌, some, List, [], ◌∷◌, ◌++◌, map, arith, if◌then◌else◌, get_elem?,
}
use vrata.Common.StringMap.{lookup, insert}
use vrata.Store.Types.{Entities, Secret, route_, created, updated, ok, err, no_active_snapshot}
use vrata.Store.Memory.{
  Store, Snapshot, VersionedSnapshot, new, subscribe, get_snapshot, get_active_snapshot,
}
use vrata.Store.Memory.View.{route, secret, snapshot, save, get, delete, is_at, get-save}
use vrata.Store.Memory.Deleting.{Deletes, delete-Deletes}
use vrata.Store.Memory.Events.{
  Op, saves, deletes, activates, step, run, event_of, announce, events, subs-step, subs-run,
}
use vrata.Store.Memory.Active.{get_active_snapshot-run}

abbrev names : Entities
names = record {
  Route = String;
  route_id = λ n. n;
  RouteGroup = String;
  group_id = λ n. n;
  Middleware = String;
  middleware_id = λ n. n;
  Listener = String;
  listener_id = λ n. n;
  Destination = String;
  destination_id = λ n. n;
}

abbrev empty_config : Snapshot names
empty_config = record {
  route_list = [];
  group_list = [];
  middleware_list = [];
  listener_list = [];
  destination_list = [];
}

abbrev v1 : VersionedSnapshot names
v1 = record { id = "v1"; name = "first"; created_at = 1; snapshot = empty_config }

abbrev key : Secret
key = record { id = "key"; name = "signing key"; value = "s3cret" }

abbrev writes : List (Op names)
writes =
    saves (route "r")
    ∷ saves (secret key)
    ∷ saves (secret key)
    ∷ deletes route_ "x"
    ∷ saves (snapshot v1)
    ∷ activates "v1"
    ∷ []

abbrev watched : Store names
unfolding subscribe new
watched = subscribe names (new names)

writes_announced :
    map (λ ev. ev.type) (events names watched writes)
    ≡ created ∷ created ∷ updated ∷ created ∷ updated ∷ []
unfolding watched step save get delete lookup insert
writes_announced = refl

get-save_example :
    get names (save names (new names) (route "r")) route_ "r"
    ≡ (if is_at route_ "r" route_ "r" then some (route "r") else get names (new names) route_ "r")
get-save_example = get-save names (new names) (route "r") route_ "r"

delete-Deletes_example :
    Deletes names
      (run names watched writes)
      route_
      "r"
      (delete names (run names watched writes) route_ "r")
delete-Deletes_example = delete-Deletes names (run names watched writes) route_ "r"

subs-step_example :
    (step names watched (saves (secret key))).subs
    ≡ announce names (event_of names watched (saves (secret key))) watched.subs
subs-step_example = subs-step names watched (saves (secret key))

subs-run_example :
    get_elem? (run names watched writes).subs 0 ≡ some ([] ++ events names watched writes)
unfolding watched
subs-run_example = subs-run names watched writes 0 [] refl (omega arith)

get_active_snapshot-run_example :
    let s = run names (new names) writes in
    ((s.active_snap ≡ "") × (get_active_snapshot names s ≡ err no_active_snapshot))
    ⊎ ((s.active_snap ≢ "")
        × ((vs : VersionedSnapshot names) × (get_active_snapshot names s ≡ ok vs)
            × (get_snapshot names s s.active_snap ≡ ok vs)
            × (vs.id ≡ s.active_snap)))
get_active_snapshot-run_example = get_active_snapshot-run names writes
