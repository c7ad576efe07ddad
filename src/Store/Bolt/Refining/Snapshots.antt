-- ===== src/Store/Bolt/Refining/Snapshots.antt =====
-- Secrets, snapshots and the active snapshot: what the two stores agree on after a write.
use vrata.Common.{
  ℕ, String, ◌≡◌, refl, sym, ap, ◌∙◌, inl, inr, true, false, Option, none, some, List, arith,
  str_eq, eq_iff, if◌then◌else◌, Bool-cases, Option-cases, bind, unwrap,
}
use vrata.Common.StringMap.{lookup, insert, delete, lookup-insert, lookup-delete}
use vrata.Store.Types.{EventType, Resource, secret_, snapshot_, Secret, deliver_all}
use vrata.Store.Memory
use vrata.Store.Encrypt.{Bytes, Aead}
use vrata.Store.Encrypt.Opening.{open-seal}
use vrata.Store.Platform.{Platform, Json, Documented, ReadsBack, IsMap, Opens}
use vrata.Store.Bolt.{Store, publish}
use vrata.Store.Bolt.Sealed.{
  encrypt_value, decrypt_value, encode_sealed, decode_sealed, active_id, id_in, active_key,
  is_active, clear_active,
}
use vrata.Store.Bolt.Buckets.{Holds}
use vrata.Store.Bolt.Refining.{Agrees, Refines, unless_blank}

-- What is encoded and encrypted is decrypted and decoded.
pub decode_sealed-encode_sealed :
    {A : Type 0} (cipher : Option Aead) (j : Json A) (draw : Option (ℕ → ℕ)) (x : A) (v : Bytes)
    → Opens cipher
    → ReadsBack j
    → encode_sealed cipher j draw x ≡ some v
    → decode_sealed cipher j v ≡ some x
unfolding encode_sealed decode_sealed encrypt_value decrypt_value
decode_sealed-encode_sealed cipher j draw x v opens reads e = elim (Option-cases (j.marshal x)) [
  | inl none_ ↦ cc (e, ap (λ o. bind o (encrypt_value cipher draw)) none_)
  | inr (plain, f) ↦
      ap (λ o. bind o j.unmarshal)
        (back cipher plain opens (sym (ap (λ o. bind o (encrypt_value cipher draw)) f) ∙ e))
      ∙ reads.unmarshal-marshal x plain f
]
  where
    back :
        (c : Option Aead) (plain : Bytes)
        → Opens c
        → encrypt_value c draw plain ≡ some v
        → decrypt_value c v ≡ some plain
    back none plain opens e = sym e
    back (some a) plain opens e = open-seal a draw plain v (λ nonce. opens nonce plain) e

module _ (p : Platform) where
  open p use {entities, bbolt, cipher, bytes_of, secret_json, snapshot_json}

  each_secrets :
      (m : Memory.Store entities) (s : Store p) (b : bbolt.Bucket) (xs : List (String × Secret))
      → Holds p (decode_sealed cipher secret_json) secret_ b xs
      → ((q : Resource) → Agrees p m s q)
      → (q : Resource) → Agrees p (record m { secrets = xs }) (record s { secrets = b }) q
  each_secrets m s b xs h a secret_ = h
  each_secrets m s b xs h a q = a q

  pub Refines-secrets :
      (t : EventType) (id : String) (m : Memory.Store entities) (s : Store p) (b : bbolt.Bucket)
      (xs : List (String × Secret))
      → Holds p (decode_sealed cipher secret_json) secret_ b xs
      → Refines p m s
      → Refines p
          (Memory.publish entities t secret_ id (record m { secrets = xs }))
          (publish p t secret_ id (record s { secrets = b }))
  unfolding Memory.publish publish
  Refines-secrets t id m s b xs h a = record {
    each = each_secrets m s b xs h a.each;
    active = a.active;
    blank = a.blank;
    told = ap (deliver_all _) a.told;
  }

  each_snapshots :
      (m : Memory.Store entities) (s : Store p) (b meta : bbolt.Bucket)
      (xs : List (String × Memory.VersionedSnapshot entities)) (a : String)
      → Holds p (decode_sealed cipher snapshot_json) snapshot_ b xs
      → ((q : Resource) → Agrees p m s q)
      → (q : Resource)
      → Agrees p
          (record m { snapshots = xs; active_snap = a })
          (record s { snapshots = b; meta = meta })
          q
  each_snapshots m s b meta xs a h agrees snapshot_ = h
  each_snapshots m s b meta xs a h agrees q = agrees q

  abbrev pub with_active : Store p → bbolt.Bucket → Store p
  with_active s meta = record s { meta = meta }

  pub Refines-snapshots :
      (t : EventType) (id : String) (m : Memory.Store entities) (s : Store p)
      (b meta : bbolt.Bucket) (xs : List (String × Memory.VersionedSnapshot entities)) (a : String)
      → Holds p (decode_sealed cipher snapshot_json) snapshot_ b xs
      → active_id p (with_active s meta) ≡ unless_blank a
      → lookup "" xs ≡ none
      → Refines p m s
      → Refines p
          (Memory.publish entities t snapshot_ id (record m { snapshots = xs; active_snap = a }))
          (publish p t snapshot_ id (record s { snapshots = b; meta = meta }))
  unfolding Memory.publish publish
  Refines-snapshots t id m s b meta xs a h active blank r = record {
    each = each_snapshots m s b meta xs a h r.each;
    active = active;
    blank = blank;
    told = ap (deliver_all _) r.told;
  }

  -- Of the blank ID there is no snapshot, since no value can be put under it.
  pub blank-insert :
      (b c : bbolt.Bucket) (k : String) (v : Bytes) (x : Memory.VersionedSnapshot entities)
      (xs : List (String × Memory.VersionedSnapshot entities))
      → IsMap bbolt
      → bbolt.put b k v ≡ some c
      → lookup "" xs ≡ none
      → lookup "" (insert k x xs) ≡ none
  blank-insert b c k v x xs laws stored h = elim (Bool-cases (str_eq k "")) [
    | inl same ↦
        absurd (cc (stored, laws.put_blank b v, ap (λ i. bbolt.put b i v) ((eq_iff k "").0 same)))
    | inr other ↦ lookup-insert "" k x xs ∙ rw other h
  ]

  pub blank-delete :
      (k : String) (xs : List (String × Memory.VersionedSnapshot entities))
      → lookup "" xs ≡ none
      → lookup "" (delete k xs) ≡ none
  blank-delete k xs h = ground (arith, lookup-delete "" k xs)

  gone_blank :
      (a id : String)
      → is_active p (unless_blank a) id ≡ true
      → unless_blank (if str_eq a id then "" else a) ≡ none
  gone_blank a id h = elim (Bool-cases (str_eq a id)) [
    | inl e ↦ rw e refl
    | inr e ↦ absurd (ground (arith, e, h))
  ]

  kept_active :
      (a id : String)
      → is_active p (unless_blank a) id ≡ false
      → unless_blank (if str_eq a id then "" else a) ≡ unless_blank a
  kept_active a id h = ground (arith, eq_iff a "")

  -- A snapshot's deletion clears the active one in both stores, or in neither.
  pub active_id-clear_active :
      (m : Memory.Store entities) (s : Store p) (id : String) (meta : bbolt.Bucket)
      → IsMap bbolt
      → active_id p s ≡ unless_blank m.active_snap
      → clear_active p s id ≡ some meta
      → active_id p (with_active s meta)
        ≡ unless_blank (if str_eq m.active_snap id then "" else m.active_snap)
  unfolding clear_active
  active_id-clear_active m s id meta laws active cleared =
      elim (Bool-cases (is_active p (active_id p s) id)) [
        | inl gone ↦
            ap (id_in p) (laws.get-remove s.meta meta active_key active_key (rw gone at cleared))
            ∙ sym (gone_blank m.active_snap id (rw active at gone))
        | inr kept ↦
            ap (λ b. active_id p (with_active s b)) (sym (unwrap _ _ (rw kept at cleared)))
            ∙ active
            ∙ sym (kept_active m.active_snap id (rw active at kept))
      ]

  -- An activation makes the same snapshot active in both.
  pub active_id-put :
      (s : Store p) (id : String) (meta : bbolt.Bucket)
      → Documented p
      → bbolt.put s.meta active_key (bytes_of id) ≡ some meta
      → active_id p (with_active s meta) ≡ some id
  active_id-put s id meta laws stored =
      ap (id_in p) (laws.bbolt_lem.get-put s.meta meta active_key active_key (bytes_of id) stored)
      ∙ ap some (laws.text_of-bytes_of id)
