-- ===== src/Store/Bolt/Refining/Reading.antt =====
-- The reads of the persistent store beside those of the in-memory store.
use vrata.Common.{
  String, ◌≡◌, refl, ap, ◌∙◌, inl, inr, Option, none, some, str_eq, if◌then◌else◌, Bool-cases,
}
use vrata.Common.StringMap.{lookup}
use vrata.Store.Types.{
  Resource, group_, route_, middleware_, listener_, destination_, secret_, snapshot_, Error,
  no_active_snapshot, err, or_not_found,
}
use vrata.Store.Memory
use vrata.Store.Encrypt.{Bytes}
use vrata.Store.Platform.{Platform, Documented}
use vrata.Store.Bolt.{refused, or_failed, Store, new, decoded, find}
use vrata.Store.Bolt.Sealed.{
  decode_sealed, active_key, id_in, read_active, value_at, get_active_snapshot,
}
use vrata.Store.Bolt.Buckets.{answer_of}
use vrata.Store.Bolt.Refining.{unless_blank, Agrees, Refines}

module _ (p : Platform) where
  open p use {entities}

  -- In stores that agree, the persistent one answers GetActiveSnapshot as the in-memory one does.
  pub get_active_snapshot-Refines :
      (m : Memory.Store entities) (s : Store p)
      → Refines p m s
      → get_active_snapshot p s ≡ answer_of (Memory.get_active_snapshot entities m)
  unfolding get_active_snapshot Memory.get_active_snapshot find
  get_active_snapshot-Refines m s h =
      ap (λ o. read_active p (value_at p s o)) h.active ∙ pointed m.active_snap
    where
      no_refusal :
          {x : Error} (o : Option (Memory.VersionedSnapshot entities)) → or_failed o ≡ refused x → ⊥
      no_refusal none e = cc
      no_refusal (some y) e = cc

      read :
          (a : String) (old : Option Bytes) (entry : Option (Memory.VersionedSnapshot entities))
          → decoded p (decode_sealed p.cipher p.snapshot_json) snapshot_ a old
            ≡ answer_of (or_not_found entry snapshot_ a)
          → read_active p old ≡ answer_of (Memory.or_no_active entities entry)
      read a none none e = refl
      read a none (some x) e = cc
      read a (some v) none e = absurd (no_refusal (decode_sealed p.cipher p.snapshot_json v) e)
      read a (some v) (some x) e = e

      pointed :
          (a : String)
          → read_active p (value_at p s (unless_blank a))
            ≡ answer_of (
                if str_eq a ""
                then err no_active_snapshot
                else Memory.or_no_active entities (lookup a m.snapshots))
      pointed a = elim (Bool-cases (str_eq a "")) [
        | inl blank ↦ rw blank refl
        | inr other ↦
            rw other
              (read a (p.bbolt.get s.snapshots a) (lookup a m.snapshots) (h.each snapshot_ a))
      ]

  -- The stores agree when they are new.
  pub new-Refines : Documented p → Refines p (Memory.new entities) (new p)
  unfolding Memory.new new find lookup
  new-Refines laws = record {
    each = nothing;
    active = ap (id_in p) (laws.bbolt_lem.get-empty active_key);
    blank = refl;
    told = refl;
  }
    where
      nothing : (r : Resource) → Agrees p (Memory.new entities) (new p) r
      nothing route_ = λ id. ap (decoded p _ route_ id) (laws.bbolt_lem.get-empty id)
      nothing group_ = λ id. ap (decoded p _ group_ id) (laws.bbolt_lem.get-empty id)
      nothing middleware_ = λ id. ap (decoded p _ middleware_ id) (laws.bbolt_lem.get-empty id)
      nothing listener_ = λ id. ap (decoded p _ listener_ id) (laws.bbolt_lem.get-empty id)
      nothing destination_ = λ id. ap (decoded p _ destination_ id) (laws.bbolt_lem.get-empty id)
      nothing secret_ = λ id. ap (decoded p _ secret_ id) (laws.bbolt_lem.get-empty id)
      nothing snapshot_ = λ id. ap (decoded p _ snapshot_ id) (laws.bbolt_lem.get-empty id)
