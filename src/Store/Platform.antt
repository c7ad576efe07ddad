-- ===== src/Store/Platform.antt =====
-- What the persistent store rests on: bbolt (go.etcd.io/bbolt), encoding/json and the conversions
-- between strings and bytes. They are the parameter `Platform`; `Documented` says what is used of
-- their documentation.
use vrata.Common.{String, ◌≡◌, Option, none, some, List, str_eq, if◌then◌else◌}
use vrata.Store.Types.{Secret, Entities}
use vrata.Store.Memory.{VersionedSnapshot}
use vrata.Store.Encrypt.{Bytes, Aead}

-- json.Marshal and json.Unmarshal at one type.
pub record Json (A : Type 0) : Type 0 where
  pub marshal : A → Option Bytes
  pub unmarshal : Bytes → Option A

-- A bucket inside a transaction. `put` and `remove` give `none` where the call, or the commit of the
-- transaction, fails.
pub record Bbolt : Type 1 where
  pub Bucket : Type 0
  pub empty : Bucket
  pub get : Bucket → String → Option Bytes
  pub put : Bucket → String → Bytes → Option Bucket
  pub remove : Bucket → String → Option Bucket
  -- The pairs that ForEach visits.
  pub pairs : Bucket → List (String × Bytes)

pub record Platform : Type 1 where
  pub entities : Entities
  pub route_json : Json entities.Route
  pub group_json : Json entities.RouteGroup
  pub middleware_json : Json entities.Middleware
  pub listener_json : Json entities.Listener
  pub destination_json : Json entities.Destination
  pub secret_json : Json Secret
  pub snapshot_json : Json (VersionedSnapshot entities)
  pub bbolt : Bbolt
  -- The cipher that the store is opened with, if any.
  pub cipher : Option Aead
  -- string(b) and []byte(s)
  pub text_of : Bytes → String
  pub bytes_of : String → Bytes

-- What json.Marshal writes, json.Unmarshal reads back.
pub record ReadsBack {A : Type 0} (j : Json A) : Type 0 where
  pub unmarshal-marshal : (x : A) (b : Bytes) → j.marshal x ≡ some b → j.unmarshal b ≡ some x

-- A bucket is a map, which holds nothing under the blank key.
pub record IsMap (v : Bbolt) : Type 0 where
  pub get-empty : (k : String) → v.get v.empty k ≡ none
  pub put_blank : (b : v.Bucket) (x : Bytes) → v.put b "" x ≡ none
  pub get-put :
      (b c : v.Bucket) (k j : String) (x : Bytes)
      → v.put b k x ≡ some c
      → v.get c j ≡ (if str_eq k j then some x else v.get b j)
  pub get-remove :
      (b c : v.Bucket) (k j : String)
      → v.remove b k ≡ some c
      → v.get c j ≡ (if str_eq k j then none else v.get b j)

-- With no cipher there is nothing to open.
abbrev pub Opens : Option Aead → Type 0
Opens none = Unit
Opens (some a) = (nonce plain : Bytes) → a.open_with nonce (a.seal_with nonce plain) ≡ some plain

pub record Documented (p : Platform) : Type 0 where
  pub route_lem : ReadsBack p.route_json
  pub group_lem : ReadsBack p.group_json
  pub middleware_lem : ReadsBack p.middleware_json
  pub listener_lem : ReadsBack p.listener_json
  pub destination_lem : ReadsBack p.destination_json
  pub secret_lem : ReadsBack p.secret_json
  pub snapshot_lem : ReadsBack p.snapshot_json
  pub bbolt_lem : IsMap p.bbolt
  pub cipher_lem : Opens p.cipher
  pub text_of-bytes_of : (s : String) → p.text_of (p.bytes_of s) ≡ s
