-- ===== src/Store/Bolt/Buckets.antt =====
-- A bucket whose values decode to the entries of a map: reading, writing and deleting.
use vrata.Common.{
  String, ◌≡◌, refl, sym, ap, ◌∙◌, ◌⊎◌, inl, inr, Bool, true, false, Option, none, some, List,
  str_eq, if◌then◌else◌, Option-cases,
}
use vrata.Common.StringMap.{lookup, insert, delete, lookup-insert, lookup-delete}
use vrata.Store.Types.{Resource, not_found, Result, ok, err, or_not_found, is_some}
use vrata.Store.Encrypt.{Bytes}
use vrata.Store.Platform.{Platform, IsMap}
use vrata.Store.Bolt.{
  Answer, done, refused, failed, or_failed, decoded, find, put_encoded, take_out, removed,
}

abbrev pub answer_of {ℓ} : {A : Type ℓ} → Result A → Answer A
answer_of (ok a) = done a
answer_of (err e) = refused e

module _ (p : Platform) {A : Type 0} (decode : Bytes → Option A) (r : Resource) where
  -- Every Get on the bucket answers as one on the map does.
  abbrev pub Holds : p.bbolt.Bucket → List (String × A) → Type 0
  Holds b m = (id : String) → find p decode b r id ≡ answer_of (or_not_found (lookup id m) r id)

  put_holds :
      (c : Bool) (x : A) (v : Bytes) (id : String) (old : Option Bytes) (entry : Option A)
      → decode v ≡ some x
      → decoded p decode r id old ≡ answer_of (or_not_found entry r id)
      → decoded p decode r id (if c then some v else old)
        ≡ answer_of (or_not_found (if c then some x else entry) r id)
  put_holds true x v id old entry reads h = rw reads refl
  put_holds false x v id old entry reads h = h

  pub Holds-put :
      (b c : p.bbolt.Bucket) (m : List (String × A)) (k : String) (v : Bytes) (x : A)
      → IsMap p.bbolt
      → p.bbolt.put b k v ≡ some c
      → decode v ≡ some x
      → Holds b m
      → Holds c (insert k x m)
  unfolding find
  Holds-put b c m k v x laws stored reads h id =
      ap (decoded p decode r id) (laws.get-put b c k id v stored)
      ∙ put_holds (str_eq k id) x v id (p.bbolt.get b id) (lookup id m) reads (h id)
      ∙ ap (λ o. answer_of (or_not_found o r id)) (sym (lookup-insert id k x m))

  remove_holds :
      (c : Bool) (id : String) (old : Option Bytes) (entry : Option A)
      → decoded p decode r id old ≡ answer_of (or_not_found entry r id)
      → decoded p decode r id (if c then none else old)
        ≡ answer_of (or_not_found (if c then none else entry) r id)
  remove_holds true id old entry h = refl
  remove_holds false id old entry h = h

  pub Holds-remove :
      (b c : p.bbolt.Bucket) (m : List (String × A)) (k : String)
      → IsMap p.bbolt
      → p.bbolt.remove b k ≡ some c
      → Holds b m
      → Holds c (delete k m)
  unfolding find
  Holds-remove b c m k laws gone h id =
      ap (decoded p decode r id) (laws.get-remove b c k id gone)
      ∙ remove_holds (str_eq k id) id (p.bbolt.get b id) (lookup id m) (h id)
      ∙ ap (λ o. answer_of (or_not_found o r id)) (sym (lookup-delete id k m))

  same_presence :
      (id : String) (old : Option Bytes) (entry : Option A)
      → decoded p decode r id old ≡ answer_of (or_not_found entry r id)
      → is_some old ≡ is_some entry
  same_presence id none none h = refl
  same_presence id none (some x) h = cc
  same_presence id (some v) none h = absurd (no_refusal (decode v) h)
    where
      no_refusal : (o : Option A) → or_failed o ≡ refused (not_found r id) → ⊥
      no_refusal none e = cc
      no_refusal (some x) e = cc
  same_presence id (some v) (some x) h = refl

  -- The bucket has a value exactly where the map has an entry.
  pub Holds-is_some :
      (b : p.bbolt.Bucket) (m : List (String × A)) (id : String)
      → Holds b m
      → is_some (p.bbolt.get b id) ≡ is_some (lookup id m)
  unfolding find
  Holds-is_some b m id h = same_presence id (p.bbolt.get b id) (lookup id m) (h id)

-- A value was encoded and put, or nothing was.
pub put_encoded-some :
    (p : Platform) (b : p.bbolt.Bucket) (id : String) (o : Option Bytes)
    → (put_encoded p b id o ≡ none)
      ⊎ ((c : p.bbolt.Bucket) × (v : Bytes) × (o ≡ some v)
          × (p.bbolt.put b id v ≡ some c)
          × (put_encoded p b id o ≡ some c))
put_encoded-some p b id none = inl refl
put_encoded-some p b id (some v) = elim (Option-cases (p.bbolt.put b id v)) [
  | inl e ↦ inl e
  | inr (c, e) ↦ inr (c, v, refl, e, e)
]

-- A value was there and was removed, or the removal failed, or none was there.
pub take_out-cases :
    (p : Platform) (b : p.bbolt.Bucket) (r : Resource) (id : String)
    → ((p.bbolt.get b id ≡ none) × (take_out p b r id ≡ refused (not_found r id)))
      ⊎ (take_out p b r id ≡ failed)
      ⊎ ((c : p.bbolt.Bucket) × (is_some (p.bbolt.get b id) ≡ true)
          × (p.bbolt.remove b id ≡ some c)
          × (take_out p b r id ≡ done c))
unfolding take_out
take_out-cases p b r id = elim (Option-cases (p.bbolt.get b id)) [
  | inl e ↦ inl (e, ap (removed p b r id) e)
  | inr (v, e) ↦ elim (Option-cases (p.bbolt.remove b id)) [
    | inl f ↦ inr (inl (ap (removed p b r id) e ∙ ap or_failed f))
    | inr (c, f) ↦ inr (inr (c, ap is_some e, f, ap (removed p b r id) e ∙ ap or_failed f))
  ]
]
