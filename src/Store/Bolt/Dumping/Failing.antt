-- ===== src/Store/Bolt/Dumping/Failing.antt =====
-- When a dump fails.
use vrata.Common.{
  String, ◌≡◌, refl, sym, ap, ◌∙◌, inl, inr, Bool, true, false, not, Option, none, some, List, [],
  ◌∷◌, arith, str_eq, if◌then◌else◌, Bool-cases, any_by,
}
use vrata.Common.StringMap.{lookup}
use vrata.Store.Types.{updated, snapshot_}
use vrata.Store.Encrypt.{Bytes}
use vrata.Store.Platform.{Json, Bbolt, Platform, Documented}
use vrata.Store.Bolt.{done, refused, failed, or_failed, and_then, Store, publish}
use vrata.Store.Bolt.Sealed.{active_key, activated, activate_snapshot}
use vrata.Store.Bolt.Dumping.{Dump, dumped, dump}

-- Whether a dump has a value that is not the text of a JSON value.
abbrev pub has_invalid : (Bytes → Bool) → Dump → Bool
has_invalid valid d = any_by (λ b. any_by (λ kv. not (valid kv.1)) b.1) d

-- json.Marshal fails on a json.RawMessage that json.Valid does not accept.
pub record Rejects (j : Json Dump) (valid : Bytes → Bool) : Type 0 where
  pub rejected : (d : Dump) → has_invalid valid d ≡ true → j.marshal d ≡ none

-- ForEach visits every key with its value, and nothing else.
pub record Visits (v : Bbolt) : Type 0 where
  pub visited : (b : v.Bucket) (k : String) → lookup k (v.pairs b) ≡ v.get b k

module _ (p : Platform) (dump_json : Json Dump) where
  open p use {bbolt, bytes_of}

  any_by-lookup :
      (valid : Bytes → Bool) (k : String) (v : Bytes) (kvs : List (String × Bytes))
      → lookup k kvs ≡ some v
      → valid v ≡ false
      → any_by (λ kv. not (valid kv.1)) kvs ≡ true
  unfolding lookup
  any_by-lookup valid k v [] e bad = cc
  any_by-lookup valid k v ((j, w) ∷ kvs) e bad = elim (Bool-cases (str_eq j k)) [
    | inl same ↦
        ap (λ b. if not b then true else any_by (λ kv. not (valid kv.1)) kvs)
          (ap (λ o. elim o [ none ↦ valid w | some x ↦ valid x ]) (rw same at e) ∙ bad)
    | inr other ↦ either (not (valid w)) (any_by-lookup valid k v kvs (rw other at e) bad)
  ]
    where
      either : (b : Bool) {c : Bool} → c ≡ true → (if b then true else c) ≡ true
      either true h = refl
      either false h = h

  -- The meta bucket that an activation leaves.
  abbrev Activates : Store p → Store p → String → Type 0
  Activates s t id =
      (n : bbolt.Bucket) × (bbolt.put s.meta active_key (bytes_of id) ≡ some n) × (t.meta ≡ n)

  put_active :
      (s t : Store p) (id : String) (o : Option bbolt.Bucket)
      → bbolt.put s.meta active_key (bytes_of id) ≡ o
      → and_then
          (and_then (or_failed o) (λ n. record s { meta = n }))
          (publish p updated snapshot_ id)
        ≡ done t
      → Activates s t id
  unfolding publish
  put_active s t id none f e = cc
  put_active s t id (some n) f e =
      (n, f, sym (ap (λ a. elim a [ done u ↦ u.meta | refused x ↦ n | failed ↦ n ]) e))

  activated-Activates :
      (s t : Store p) (id : String) (old : Option Bytes)
      → and_then (activated p s id old) (publish p updated snapshot_ id) ≡ done t
      → Activates s t id
  activated-Activates s t id none e = cc
  activated-Activates s t id (some v) e =
      put_active s t id (bbolt.put s.meta active_key (bytes_of id)) refl e

  -- If an activation succeeds, and the ID of the snapshot is not by chance the text of a JSON value,
  -- then Dump fails on the store that it leaves, provided that json.Marshal rejects a json.RawMessage
  -- that is not JSON and that ForEach visits every key.
  pub dump-activate_snapshot :
      (valid : Bytes → Bool) (s t : Store p) (id : String)
      → Documented p
      → Visits bbolt
      → Rejects dump_json valid
      → valid (bytes_of id) ≡ false
      → activate_snapshot p s id ≡ done t
      → dump p dump_json t ≡ none
  unfolding dump activate_snapshot publish
  dump-activate_snapshot valid s t id laws visits rejects bad e =
      let (n, stored, same) = activated-Activates s t id (bbolt.get s.snapshots id) e in
      let there : bbolt.get n active_key ≡ some (bytes_of id) =
        laws.bbolt_lem.get-put s.meta n active_key active_key (bytes_of id) stored in
      let invalid : any_by (λ kv. not (valid kv.1)) (bbolt.pairs t.meta) ≡ true =
        any_by-lookup valid active_key (bytes_of id) (bbolt.pairs t.meta)
          (ap (λ b. lookup active_key (bbolt.pairs b)) same ∙ visits.visited n active_key ∙ there)
          bad in
      rejects.rejected (dumped p dump_json t) (ground (arith, invalid))
