-- ===== src/Store/Bolt/Refining/Sealed.antt =====
-- The writes to the encrypted buckets follow those to the in-memory store.
use vrata.Common.{
  ℕ, String, ◌≡◌, refl, sym, ap, ◌∙◌, inl, inr, Bool, true, false, not, Option, none, some, str_eq,
  eq_iff, if◌then◌else◌, Bool-cases,
}
use vrata.Common.StringMap.{lookup, insert, delete}
use vrata.Store.Types.{
  created, updated, deleted, secret_, snapshot_, Secret, not_found, ok, err, is_some,
}
use vrata.Store.Memory
use vrata.Store.Encrypt.{Bytes}
use vrata.Store.Platform.{Platform, Documented}
use vrata.Store.Bolt.{or_failed, and_then, Store, publish, removed}
use vrata.Store.Bolt.Sealed.{
  encode_sealed, decode_sealed, active_key, save_secret, delete_secret, save_snapshot, clear_active,
  with_meta, join, delete_snapshot, activated, activate_snapshot,
}
use vrata.Store.Bolt.Buckets.{Holds-put, Holds-remove, Holds-is_some}
use vrata.Store.Bolt.Refining.{unless_blank, Refines, Follows}
use vrata.Store.Bolt.Refining.Snapshots.{
  decode_sealed-encode_sealed, Refines-secrets, Refines-snapshots, blank-insert, blank-delete,
  active_id-clear_active, active_id-put,
}
use vrata.Store.Bolt.Refining.Writes.{Follows-put, Follows-take}

module _ (p : Platform) where
  open p use {entities, bbolt, cipher, bytes_of, secret_json, snapshot_json}

  same_type :
      (old : Bool) → (if not old then created else updated) ≡ (if old then updated else created)
  same_type true = refl
  same_type false = refl

  pub Follows-save_secret :
      (m : Memory.Store entities) (s : Store p) (draw : Option (ℕ → ℕ)) (x : Secret)
      → Documented p
      → Refines p m s
      → Follows p (save_secret p s draw x) (ok (Memory.save_secret entities m x))
  unfolding save_secret Memory.save_secret
  Follows-save_secret m s draw x laws h =
      rw
        (
          Holds-is_some p (decode_sealed cipher secret_json) secret_ s.secrets m.secrets x.id
              (h.each secret_),
          same_type (is_some (lookup x.id m.secrets)),
        )
        (Follows-put p s.secrets x.id (encode_sealed cipher secret_json draw x) _ _ (λ c v e stored.
          Refines-secrets p _ x.id m s c (insert x.id x m.secrets)
            (Holds-put p (decode_sealed cipher secret_json) secret_ s.secrets c m.secrets x.id v x
              laws.bbolt_lem stored
              (decode_sealed-encode_sealed cipher secret_json draw x v laws.cipher_lem
                laws.secret_lem e)
              (h.each secret_))
            h))

  pub Follows-delete_secret :
      (m : Memory.Store entities) (s : Store p) (id : String)
      → Documented p
      → Refines p m s
      → Follows p (delete_secret p s id) (Memory.delete_secret entities m id)
  unfolding delete_secret Memory.delete_secret
  Follows-delete_secret m s id laws h =
      Follows-take p s.secrets secret_ id (lookup id m.secrets) _ _
        (Holds-is_some p (decode_sealed cipher secret_json) secret_ s.secrets m.secrets id
          (h.each secret_))
        (λ c gone.
          Refines-secrets p deleted id m s c (delete id m.secrets)
            (Holds-remove p (decode_sealed cipher secret_json) secret_ s.secrets c m.secrets id
              laws.bbolt_lem gone (h.each secret_))
            h)

  pub Follows-save_snapshot :
      (m : Memory.Store entities) (s : Store p) (draw : Option (ℕ → ℕ))
      (x : Memory.VersionedSnapshot entities)
      → Documented p
      → Refines p m s
      → Follows p (save_snapshot p s draw x) (ok (Memory.save_snapshot entities m x))
  unfolding save_snapshot Memory.save_snapshot
  Follows-save_snapshot m s draw x laws h =
      Follows-put p s.snapshots x.id (encode_sealed cipher snapshot_json draw x) _ _
        (λ c v e stored.
          Refines-snapshots p created x.id m s c s.meta (insert x.id x m.snapshots) m.active_snap
            (Holds-put p (decode_sealed cipher snapshot_json) snapshot_ s.snapshots c m.snapshots
              x.id v x laws.bbolt_lem stored
              (decode_sealed-encode_sealed cipher snapshot_json draw x v laws.cipher_lem
                laws.snapshot_lem e)
              (h.each snapshot_))
            h.active
            (blank-insert p s.snapshots c x.id v x m.snapshots laws.bbolt_lem stored h.blank) h)

  present :
      (m : Memory.Store entities) (s : Store p) (id : String)
      → Refines p m s
      → is_some (bbolt.get s.snapshots id) ≡ is_some (lookup id m.snapshots)
  present m s id h =
      Holds-is_some p (decode_sealed cipher snapshot_json) snapshot_ s.snapshots m.snapshots id
        (h.each snapshot_)

  Follows-join :
      (b meta : Option bbolt.Bucket) (k : bbolt.Bucket × bbolt.Bucket → Store p)
      (m : Memory.Store entities)
      → ((c n : bbolt.Bucket) → b ≡ some c → meta ≡ some n → Refines p m (k (c, n)))
      → Follows p (and_then (join p (and_then (or_failed b) (with_meta p meta))) k) (ok m)
  Follows-join none meta k m h = tt
  Follows-join (some c) none k m h = tt
  Follows-join (some c) (some n) k m h = h c n refl refl

  pub Follows-delete_snapshot :
      (m : Memory.Store entities) (s : Store p) (id : String)
      → Documented p
      → Refines p m s
      → Follows p (delete_snapshot p s id) (Memory.delete_snapshot entities m id)
  unfolding delete_snapshot Memory.delete_snapshot
  Follows-delete_snapshot m s id laws h =
      taken (bbolt.get s.snapshots id) (lookup id m.snapshots) (present m s id h)
    where
      left : Memory.Store entities
      left = record m {
        snapshots = delete id m.snapshots;
        active_snap = if str_eq m.active_snap id then "" else m.active_snap;
      }

      without : bbolt.Bucket × bbolt.Bucket → Store p
      without bm = publish p deleted snapshot_ id (record s { snapshots = bm.0; meta = bm.1 })

      taken :
          (old : Option Bytes) (entry : Option (Memory.VersionedSnapshot entities))
          → is_some old ≡ is_some entry
          → Follows p
              (and_then
                (join p (
                  and_then
                    (removed p s.snapshots snapshot_ id old)
                    (with_meta p (clear_active p s id))))
                without)
              (if is_some entry
                then ok (Memory.publish entities deleted snapshot_ id left)
                else err (not_found snapshot_ id))
      taken none none e = refl
      taken none (some x) e = cc
      taken (some v) none e = cc
      taken (some v) (some x) e =
          Follows-join (bbolt.remove s.snapshots id) (clear_active p s id) without _
            (λ c n gone cleared.
              Refines-snapshots p deleted id m s c n _ _
                (Holds-remove p (decode_sealed cipher snapshot_json) snapshot_ s.snapshots c
                  m.snapshots id laws.bbolt_lem gone (h.each snapshot_))
                (active_id-clear_active p m s id n laws.bbolt_lem h.active cleared)
                (blank-delete p id m.snapshots h.blank) h)

  Follows-activated :
      (id : String) (o : Option bbolt.Bucket) (s : Store p) (m : Memory.Store entities)
      → ((n : bbolt.Bucket)
          → o ≡ some n
          → Refines p m (publish p updated snapshot_ id (record s { meta = n })))
      → Follows p
          (and_then
            (and_then (or_failed o) (λ n. record s { meta = n }))
            (publish p updated snapshot_ id))
          (ok m)
  Follows-activated id none s m h = tt
  Follows-activated id (some n) s m h = h n refl

  -- A snapshot that is there has an ID that is not blank.
  not_blank :
      (m : Memory.Store entities) (s : Store p) (id : String)
      (x : Memory.VersionedSnapshot entities)
      → Refines p m s
      → lookup id m.snapshots ≡ some x
      → unless_blank id ≡ some id
  not_blank m s id x h f = elim (Bool-cases (str_eq id "")) [
    | inl same ↦ absurd (cc (f, h.blank, ap (λ i. lookup i m.snapshots) ((eq_iff id "").0 same)))
    | inr other ↦ rw other refl
  ]

  pub Follows-activate_snapshot :
      (m : Memory.Store entities) (s : Store p) (id : String)
      → Documented p
      → Refines p m s
      → Follows p (activate_snapshot p s id) (Memory.activate_snapshot entities m id)
  unfolding activate_snapshot Memory.activate_snapshot
  Follows-activate_snapshot m s id laws h =
      pointed (bbolt.get s.snapshots id) (lookup id m.snapshots) (present m s id h) refl
    where
      pointed :
          (old : Option Bytes) (entry : Option (Memory.VersionedSnapshot entities))
          → is_some old ≡ is_some entry
          → lookup id m.snapshots ≡ entry
          → Follows p (and_then (activated p s id old) (publish p updated snapshot_ id)) (
              if is_some entry
              then ok (Memory.publish entities updated snapshot_ id (record m { active_snap = id }))
              else err (not_found snapshot_ id))
      pointed none none e f = refl
      pointed none (some x) e f = cc
      pointed (some v) none e f = cc
      pointed (some v) (some x) e f =
          Follows-activated id (bbolt.put s.meta active_key (bytes_of id)) s _ (λ n stored.
            Refines-snapshots p updated id m s s.snapshots n m.snapshots id (h.each snapshot_)
              (active_id-put p s id n laws stored ∙ sym (not_blank m s id x h f)) h.blank h)
