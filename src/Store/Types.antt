-- ===== src/Store/Types.antt =====
-- What the stores share: the events of server/internal/store/store.go, the secrets and snapshot
-- summaries of server/internal/model, the entities that a store keeps by their ID, and a channel's
-- buffer.
use vrata.Common.{
  ℕ, String, Bool, true, false, Option, none, some, List, [], ◌∷◌, ◌++◌, map, ltb, if◌then◌else◌,
  length,
}

pub data EventType : Type 0 where
  created updated deleted : EventType

pub data Resource : Type 0 where
  group_ route_ middleware_ listener_ destination_ secret_ snapshot_ : Resource

pub record StoreEvent : Type 0 where
  pub type : EventType
  pub resource : Resource
  pub id : String

pub record Secret : Type 0 where
  pub id : String
  pub name : String
  pub value : String

pub record SecretSummary : Type 0 where
  pub id : String
  pub name : String

pub record SnapshotSummary : Type 0 where
  pub id : String
  pub name : String
  pub created_at : ℕ
  pub active : Bool

pub record Entities : Type 1 where
  pub Route : Type 0
  pub route_id : Route → String
  pub RouteGroup : Type 0
  pub group_id : RouteGroup → String
  pub Middleware : Type 0
  pub middleware_id : Middleware → String
  pub Listener : Type 0
  pub listener_id : Listener → String
  pub Destination : Type 0
  pub destination_id : Destination → String

-- model.ErrNotFound, wrapped with the ID, and model.ErrNoActiveSnapshot.
pub data Error : Type 0 where
  not_found : Resource → String → Error
  no_active_snapshot : Error

pub data Result {ℓ} (A : Type ℓ) : Type ℓ where
  ok : A → Result A
  err : Error → Result A

abbrev pub or_not_found {ℓ} : {A : Type ℓ} → Option A → Resource → String → Result A
or_not_found none r id = err (not_found r id)
or_not_found (some a) r id = ok a

abbrev pub is_some {ℓ} : {A : Type ℓ} → Option A → Bool
is_some none = false
is_some (some a) = true

abbrev pub buffer_size : ℕ
buffer_size = 32

-- The select of publish on one channel: a full buffer drops the event.
unfoldable pub deliver : StoreEvent → List StoreEvent → List StoreEvent
deliver ev ch = if ltb (length ch) buffer_size then ch ++ ev ∷ [] else ch

abbrev pub deliver_all : StoreEvent → List (List StoreEvent) → List (List StoreEvent)
deliver_all ev = map (deliver ev)
