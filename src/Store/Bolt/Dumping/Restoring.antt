-- ===== src/Store/Bolt/Dumping/Restoring.antt =====
-- What a store holds that is restored from a dump.
use mathlib.Core.Path.{subst}
use vrata.Common.{
  String, ◌≡◌, refl, sym, ap, ◌∙◌, Bool, true, false, not, ◌&&◌, ◌||◌, Option, none, some, List, [],
  ◌∷◌, str_eq, if◌then◌else◌, any_by, bind, bind-some,
}
use vrata.Common.StringMap.{lookup}
use vrata.Store.Encrypt.{Bytes}
use vrata.Store.Platform.{Json, Platform, IsMap}
use vrata.Store.Bolt.{Store}
use vrata.Store.Bolt.Dumping.{Dump, dumped, dump, put_all, restore_bucket, restore_all, restore}
use vrata.Store.Bolt.Dumping.Failing.{Visits}

abbrev pub or_else {ℓ} : {A : Type ℓ} → Option A → Option A → Option A
or_else none o = o
or_else (some a) o = some a

-- The keys of a map are distinct.
abbrev pub is_map {ℓ} : {A : Type ℓ} → List (String × A) → Bool
is_map [] = true
is_map ((k, v) ∷ kvs) = not (any_by (λ kv. str_eq kv.0 k) kvs) && is_map kvs

-- A map of maps whose values are all JSON in the form that json.Marshal writes, compact and with `<`,
-- `>` and `&` escaped.
abbrev pub is_dump : (Bytes → Bool) → Dump → Bool
is_dump compact d =
    is_map d && not (any_by (λ b. not (is_map b.1) || any_by (λ kv. not (compact kv.1)) b.1) d)

-- Such a map is what json.Unmarshal reads from the bytes that json.Marshal writes of it. Other values
-- come back changed: Marshal compacts and escapes them. The list of a map stands for it in any order.
pub record ReadsDumps (j : Json Dump) (compact : Bytes → Bool) : Type 0 where
  pub read_back :
      (d : Dump) (entry : Bytes)
      → is_dump compact d ≡ true
      → j.marshal d ≡ some entry
      → j.unmarshal entry ≡ some d

module _ (p : Platform) (dump_json : Json Dump) (clear : p.bbolt.Bucket → p.bbolt.Bucket) where
  open p use {bbolt}
  open bbolt use {Bucket, get, pairs}

  get-put_all :
      (b c : Bucket) (kvs : List (String × Bytes)) (k : String)
      → IsMap bbolt
      → put_all p dump_json clear b kvs ≡ some c
      → get c k ≡ or_else (lookup k kvs) (get b k)
  unfolding put_all lookup
  get-put_all b c [] k laws e = ap (λ o. elim o [ none ↦ get b k | some x ↦ get x k ]) (sym e)
  get-put_all b c ((j, v) ∷ kvs) k laws e =
      let (d, before, put_last) =
        bind-some (put_all p dump_json clear b kvs) (λ d. bbolt.put d j v) c e in
      laws.get-put d c j k v put_last
      ∙ first_or (str_eq j k) v _ _ _ (get-put_all b d kvs k laws before)
    where
      first_or :
          (same : Bool) (v : Bytes) (x y z : Option Bytes)
          → x ≡ or_else y z
          → (if same then some v else x) ≡ or_else (if same then some v else y) z
      first_or true v x y z h = refl
      first_or false v x y z h = h

  -- A bucket has the values that the dumped one has, and otherwise what clearing leaves.
  abbrev pub Restored : Bucket → Bucket → Bucket → Type 0
  Restored from old new_ = (k : String) → get new_ k ≡ or_else (get from k) (get (clear old) k)

  pub record RestoredStore (s t u : Store p) : Type 0 where
    pub routes : Restored s.routes t.routes u.routes
    pub groups : Restored s.groups t.groups u.groups
    pub middlewares : Restored s.middlewares t.middlewares u.middlewares
    pub listeners : Restored s.listeners t.listeners u.listeners
    pub destinations : Restored s.destinations t.destinations u.destinations
    pub secrets : Restored s.secrets t.secrets u.secrets
    pub snapshots : Restored s.snapshots t.snapshots u.snapshots
    pub meta : Restored s.meta t.meta u.meta
    pub subs : u.subs ≡ t.subs

  put_all-Restored :
      (from old new_ : Bucket)
      → IsMap bbolt
      → Visits bbolt
      → put_all p dump_json clear (clear old) (pairs from) ≡ some new_
      → Restored from old new_
  put_all-Restored from old new_ laws visits e k =
      get-put_all (clear old) new_ (pairs from) k laws e
      ∙ ap (λ o. or_else o (get (clear old) k)) (visits.visited from k)

  one_bucket :
      (o : Option Bucket) (k : Bucket → Store p) (f : Store p → Option (Store p)) (u : Store p)
      → bind (bind o (λ b. some (k b))) f ≡ some u
      → (b : Bucket) × (o ≡ some b) × (f (k b) ≡ some u)
  one_bucket none k f u e = cc
  one_bucket (some b) k f u e = (b, refl, e)

  all_buckets :
      (s t u : Store p)
      → IsMap bbolt
      → Visits bbolt
      → restore_all p dump_json clear t (dumped p dump_json s) ≡ some u
      → RestoredStore s t u
  unfolding restore_all restore_bucket
  all_buckets s t u laws visits e =
      let (b1, h1, e1) = one_bucket _ _ _ u e in
      let (b2, h2, e2) = one_bucket _ _ _ u e1 in
      let (b3, h3, e3) = one_bucket _ _ _ u e2 in
      let (b4, h4, e4) = one_bucket _ _ _ u e3 in
      let (b5, h5, e5) = one_bucket _ _ _ u e4 in
      let (b6, h6, e6) = one_bucket _ _ _ u e5 in
      let (b7, h7, e7) = one_bucket _ _ _ u e6 in
      let (b8, h8, e8) = one_bucket _ _ _ u e7 in
      subst (RestoredStore s t) (ap (λ o. elim o [ none ↦ u | some x ↦ x ]) e8) (record {
        routes = put_all-Restored s.routes t.routes b1 laws visits h1;
        groups = put_all-Restored s.groups t.groups b2 laws visits h2;
        middlewares = put_all-Restored s.middlewares t.middlewares b3 laws visits h3;
        listeners = put_all-Restored s.listeners t.listeners b4 laws visits h4;
        destinations = put_all-Restored s.destinations t.destinations b5 laws visits h5;
        secrets = put_all-Restored s.secrets t.secrets b6 laws visits h6;
        snapshots = put_all-Restored s.snapshots t.snapshots b7 laws visits h7;
        meta = put_all-Restored s.meta t.meta b8 laws visits h8;
        subs = refl;
      })

  -- If buckets are maps, ForEach visits their values, under distinct keys, and each value is JSON in the
  -- form that json.Marshal itself writes, then a store that Restore makes of a dump holds in every bucket
  -- the values of the dumped store. Under other keys it holds what Restore's clearing leaves of the old
  -- bucket, and its subscribers are told nothing.
  pub restore-dump :
      (compact : Bytes → Bool) (s t u : Store p) (entry : Bytes)
      → IsMap bbolt
      → Visits bbolt
      → ReadsDumps dump_json compact
      → is_dump compact (dumped p dump_json s) ≡ true
      → dump p dump_json s ≡ some entry
      → restore p dump_json clear t entry ≡ some u
      → RestoredStore s t u
  unfolding dump restore
  restore-dump compact s t u entry laws visits reads maps e f = all_buckets s t u laws visits (
      ap (λ o. bind o (restore_all p dump_json clear t))
        (sym (reads.read_back (dumped p dump_json s) entry maps e))
      ∙ f)
