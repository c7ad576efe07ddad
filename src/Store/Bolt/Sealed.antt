-- ===== src/Store/Bolt/Sealed.antt =====
-- Secrets and snapshots in the persistent store (server/internal/store/bolt/bolt.go), whose values are
-- encrypted if there is a cipher, and the active snapshot.
--
-- `draw` is what the random source gives for the nonce.
use vrata.Common.{
  ℕ, String, Bool, false, not, Option, none, some, List, str_eq, if◌then◌else◌, bind,
}
use vrata.Store.Types.{
  created, updated, deleted, secret_, snapshot_, Secret, SecretSummary, SnapshotSummary, not_found,
  no_active_snapshot, is_some,
}
use vrata.Store.Memory.{VersionedSnapshot}
use vrata.Store.Encrypt.{Bytes, Aead, seal, open_}
use vrata.Store.Platform.{Json, Platform}
use vrata.Store.Bolt.{
  Answer, done, refused, failed, or_failed, and_then, decode_all, Store, publish, find, put_encoded,
  take_out,
}

-- encryptValue
unfoldable pub encrypt_value : Option Aead → Option (ℕ → ℕ) → Bytes → Option Bytes
encrypt_value none draw plain = some plain
encrypt_value (some cipher) draw plain = seal cipher draw plain

-- decryptValue
unfoldable pub decrypt_value : Option Aead → Bytes → Option Bytes
decrypt_value none text = some text
decrypt_value (some cipher) text = open_ cipher text

-- json.Marshal and then encryptValue; decryptValue and then json.Unmarshal.
unfoldable pub encode_sealed :
    {A : Type 0} → Option Aead → Json A → Option (ℕ → ℕ) → A → Option Bytes
encode_sealed cipher j draw x = bind (j.marshal x) (encrypt_value cipher draw)

unfoldable pub decode_sealed : {A : Type 0} → Option Aead → Json A → Bytes → Option A
decode_sealed cipher j v = bind (decrypt_value cipher v) j.unmarshal

abbrev pub active_key : String
active_key = "active_snapshot_id"

module _ (p : Platform) where
  open p use {entities, bbolt, cipher, text_of, bytes_of, secret_json, snapshot_json}
  open bbolt use {Bucket, get, put, remove, pairs}

  unfoldable pub list_secrets : Store p → Answer (List SecretSummary)
  list_secrets s = or_failed (
      decode_all
        (λ v.
          bind (decode_sealed cipher secret_json v)
            (λ x. some (record { id = x.id; name = x.name })))
        (pairs s.secrets))

  unfoldable pub get_secret : Store p → String → Answer Secret
  unfolding find
  get_secret s id = find p (decode_sealed cipher secret_json) s.secrets secret_ id

  unfoldable pub save_secret : Store p → Option (ℕ → ℕ) → Secret → Answer (Store p)
  unfolding publish
  save_secret s draw x =
      let is_new = not (is_some (get s.secrets x.id)) in
      and_then (or_failed (put_encoded p s.secrets x.id (encode_sealed cipher secret_json draw x)))
        (λ b.
          publish p (if is_new then created else updated) secret_ x.id (record s { secrets = b }))

  unfoldable pub delete_secret : Store p → String → Answer (Store p)
  unfolding publish take_out
  delete_secret s id =
      and_then (take_out p s.secrets secret_ id)
        (λ b. publish p deleted secret_ id (record s { secrets = b }))

  abbrev pub id_in : Option Bytes → Option String
  id_in none = none
  id_in (some v) = some (text_of v)

  -- string(meta.Get(metaActiveSnapshot)), `none` where the key is absent.
  abbrev pub active_id : Store p → Option String
  active_id s = id_in (get s.meta active_key)

  abbrev pub is_active : Option String → String → Bool
  is_active none id = false
  is_active (some active) id = str_eq active id

  abbrev pub or_blank : Option String → String
  or_blank none = ""
  or_blank (some id) = id

  unfoldable pub list_snapshots : Store p → Answer (List SnapshotSummary)
  list_snapshots s = or_failed (
      decode_all
        (λ v. bind (decode_sealed cipher snapshot_json v) (λ x. some (record {
          id = x.id;
          name = x.name;
          created_at = x.created_at;
          active = str_eq x.id (or_blank (active_id s));
        })))
        (pairs s.snapshots))

  unfoldable pub get_snapshot : Store p → String → Answer (VersionedSnapshot entities)
  unfolding find
  get_snapshot s id = find p (decode_sealed cipher snapshot_json) s.snapshots snapshot_ id

  unfoldable pub save_snapshot :
      Store p → Option (ℕ → ℕ) → VersionedSnapshot entities → Answer (Store p)
  unfolding publish
  save_snapshot s draw x =
      and_then
        (or_failed (put_encoded p s.snapshots x.id (encode_sealed cipher snapshot_json draw x)))
        (λ b. publish p created snapshot_ x.id (record s { snapshots = b }))

  -- The meta bucket of DeleteSnapshot, where the active snapshot is the deleted one.
  unfoldable pub clear_active : Store p → String → Option Bucket
  clear_active s id = if is_active (active_id s) id then remove s.meta active_key else some s.meta

  abbrev pub with_meta : Option Bucket → Bucket → Answer (Bucket × Bucket)
  with_meta none b = failed
  with_meta (some m) b = done (b, m)

  abbrev pub join {ℓ} : {A : Type ℓ} → Answer (Answer A) → Answer A
  join (done a) = a
  join (refused e) = refused e
  join failed = failed

  unfoldable pub delete_snapshot : Store p → String → Answer (Store p)
  unfolding publish take_out clear_active
  delete_snapshot s id =
      and_then
        (join (and_then (take_out p s.snapshots snapshot_ id) (with_meta (clear_active s id))))
        (λ bm. publish p deleted snapshot_ id (record s { snapshots = bm.0; meta = bm.1 }))

  abbrev pub activated : Store p → String → Option Bytes → Answer (Store p)
  activated s id none = refused (not_found snapshot_ id)
  activated s id (some v) =
      and_then (or_failed (put s.meta active_key (bytes_of id))) (λ m. record s { meta = m })

  unfoldable pub activate_snapshot : Store p → String → Answer (Store p)
  unfolding publish
  activate_snapshot s id =
      and_then (activated s id (get s.snapshots id)) (publish p updated snapshot_ id)

  abbrev pub read_active : Option Bytes → Answer (VersionedSnapshot entities)
  read_active none = refused no_active_snapshot
  read_active (some v) = or_failed (decode_sealed cipher snapshot_json v)

  -- b.Get(activeID), where the meta bucket has one.
  abbrev pub value_at : Store p → Option String → Option Bytes
  value_at s none = none
  value_at s (some id) = get s.snapshots id

  unfoldable pub get_active_snapshot : Store p → Answer (VersionedSnapshot entities)
  get_active_snapshot s = read_active (value_at s (active_id s))
