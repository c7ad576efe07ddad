-- ===== src/Store/Bolt/Tests.antt =====
-- A platform on which the theorems of the persistent store are run: buckets are association lists, and
-- the encodings and the cipher are of the shape that is read back.
pub mod Encodings
pub mod Runs
mod Dumps
use vrata.Common.{
  dec_lt, dec_le, ℕ_discrete, ℕ, zero, suc, ◌+◌, ◌-◌, ◌*◌, ◌/◌, ◌%◌, ◌^◌, ◌≤◌, ◌<◌, String, ◌≡◌,
  refl, sym, ap, ap₂, ◌∙◌, ◌≢◌, ◌↔◌, ◌⊎◌, inl, inr, Bool, true, false, not, ◌&&◌, ◌||◌, Option,
  none, some, List, [], ◌∷◌, ◌++◌, map, arith, str_eq, eq_iff, ltb, leb, ◌==◌, if◌then◌else◌,
  ltb→lt, lt→ltb, leb→le, le→leb, ==_iff, Bool-cases, Option-cases, length, get_elem?, replicate,
  filter_by, filter_by_comm, filter_by-append, count_by-append, All-filter_by, any_by, count_by,
  length-append, All,
}
use vrata.Common.StringMap.{lookup, insert, delete, lookup-insert, lookup-delete}
use vrata.Store.Types.{Secret, Entities}
use vrata.Store.Memory.{Snapshot, VersionedSnapshot}
use vrata.Store.Encrypt.{Bytes, Aead}
use vrata.Store.Platform.{Json, Bbolt, Platform, ReadsBack, IsMap, Opens, Documented}
use vrata.Store.Bolt.Tests.Encodings.{put_text, take_text, take_text-put_text}

abbrev pub names : Entities
names = record {
  Route = String;
  route_id = λ n. n;
  RouteGroup = String;
  group_id = λ n. n;
  Middleware = String;
  middleware_id = λ n. n;
  Listener = String;
  listener_id = λ n. n;
  Destination = String;
  destination_id = λ n. n;
}

abbrev text_or_blank : Option (String × Bytes) → String
text_or_blank none = ""
text_or_blank (some (s, rest)) = s

abbrev pub text_of : Bytes → String
text_of b = text_or_blank (take_text b)

abbrev pub bytes_of : String → Bytes
bytes_of s = put_text s []

text_of-bytes_of : (s : String) → text_of (bytes_of s) ≡ s
text_of-bytes_of s = ap text_or_blank (take_text-put_text s [])

abbrev pub name_json : Json String
name_json = record { marshal = λ s. some (bytes_of s); unmarshal = λ b. some (text_of b) }

-- Three texts one behind the other.
abbrev pub put_three : String → String → String → Bytes → Bytes
put_three a b c rest = put_text a (put_text b (put_text c rest))

abbrev pub third {ℓ} :
    {A : Type ℓ}
    → (String → String → String → Bytes → Option A)
    → String
    → String
    → Option (String × Bytes)
    → Option A
third f a b none = none
third f a b (some (c, rest)) = f a b c rest

abbrev pub second {ℓ} :
    {A : Type ℓ}
    → (String → String → String → Bytes → Option A)
    → String
    → Option (String × Bytes)
    → Option A
second f a none = none
second f a (some (b, rest)) = third f a b (take_text rest)

abbrev pub first {ℓ} :
    {A : Type ℓ}
    → (String → String → String → Bytes → Option A)
    → Option (String × Bytes)
    → Option A
first f none = none
first f (some (a, rest)) = second f a (take_text rest)

pub first-put_three :
    {A : Type 0} (f : String → String → String → Bytes → Option A) (a b c : String) (rest : Bytes)
    → first f (take_text (put_three a b c rest)) ≡ f a b c rest
first-put_three f a b c rest =
    ap (first f) (take_text-put_text a (put_text b (put_text c rest)))
    ∙ ap (second f a) (take_text-put_text b (put_text c rest))
    ∙ ap (third f a b) (take_text-put_text c rest)

abbrev pub secret_json : Json Secret
secret_json = record {
  marshal = λ x. some (put_three x.id x.name x.value []);
  unmarshal = λ b. first (λ i n v _. some (record { id = i; name = n; value = v })) (take_text b);
}

abbrev pub empty_config : Snapshot names
empty_config = record {
  route_list = [];
  group_list = [];
  middleware_list = [];
  listener_list = [];
  destination_list = [];
}

-- Only a snapshot of an empty configuration is encoded.
abbrev unless_any {ℓ} : {A : Type 0} {B : Type ℓ} → List A → Option B → Option B
unless_any [] o = o
unless_any (x ∷ xs) o = none

unless_any-some :
    {A : Type 0} {B : Type 0} (xs : List A) (o : Option B) (b : B)
    → unless_any xs o ≡ some b
    → (xs ≡ []) × (o ≡ some b)
unless_any-some [] o b e = (refl, e)
unless_any-some (x ∷ xs) o b e = cc

abbrev encode_empty : Snapshot names → Bytes → Option Bytes
encode_empty c b = unless_any c.route_list (
    unless_any c.group_list (
      unless_any c.middleware_list
        (unless_any c.listener_list (unless_any c.destination_list (some b)))))

encode_empty-some :
    (c : Snapshot names) (b d : Bytes) → encode_empty c b ≡ some d → (c ≡ empty_config) × (b ≡ d)
encode_empty-some c b d e =
    let (r, e1) = unless_any-some c.route_list _ d e in
    let (g, e2) = unless_any-some c.group_list _ d e1 in
    let (m, e3) = unless_any-some c.middleware_list _ d e2 in
    let (l, e4) = unless_any-some c.listener_list _ d e3 in
    let (n, e5) = unless_any-some c.destination_list _ d e4 in
    (
      λ i. record {
        route_list = r i;
        group_list = g i;
        middleware_list = m i;
        listener_list = l i;
        destination_list = n i;
      },
      ap (λ o. elim o [ none ↦ b | some x ↦ x ]) e5,
    )

abbrev snapshot_of : String → String → String → Bytes → Option (VersionedSnapshot names)
snapshot_of i n t [] = none
snapshot_of i n t (at ∷ rest) =
    some (record { id = i; name = n; created_at = at; snapshot = empty_config })

abbrev pub snapshot_json : Json (VersionedSnapshot names)
snapshot_json = record {
  marshal = λ x. encode_empty x.snapshot (put_three x.id x.name "" (x.created_at ∷ []));
  unmarshal = λ b. first snapshot_of (take_text b);
}

snapshot_json-ReadsBack : ReadsBack snapshot_json
snapshot_json-ReadsBack = record {
  unmarshal-marshal = λ x b e.
      let (c, d) = encode_empty-some x.snapshot _ b e in
      ap (λ t. first snapshot_of (take_text t)) (sym d)
      ∙ first-put_three snapshot_of x.id x.name "" (x.created_at ∷ [])
      ∙ (λ i.
          some
            (record { id = x.id; name = x.name; created_at = x.created_at; snapshot = sym c i }));
}

abbrev pub unwrapped {ℓ} : {A : Type ℓ} → A → Option A → A
unwrapped a none = a
unwrapped a (some x) = x

name_json-ReadsBack : ReadsBack name_json
name_json-ReadsBack = record {
  unmarshal-marshal =
      λ x b e. ap (λ t. some (text_of t)) (sym (ap (unwrapped b) e)) ∙ ap some (text_of-bytes_of x);
}

secret_json-ReadsBack : ReadsBack secret_json
secret_json-ReadsBack = record {
  unmarshal-marshal = λ x b e.
      ap secret_json.unmarshal (sym (ap (unwrapped b) e))
      ∙ first-put_three (λ i n v _. some (record { id = i; name = n; value = v })) x.id x.name
          x.value [];
}

-- The bytes one higher, behind a nonce of two.
abbrev lower : ℕ → ℕ
lower zero = zero
lower (suc n) = n

lowered : (b : Bytes) → map lower (map suc b) ≡ b
lowered [] = refl
lowered (x ∷ b) = ap (λ t. x ∷ t) (lowered b)

abbrev pub aead : Aead
aead = record {
  nonce_size = 2;
  seal_with = λ nonce plain. map suc plain;
  open_with = λ nonce sealed. some (map lower sealed);
}

abbrev put_in : List (String × Bytes) → String → Bytes → Option (List (String × Bytes))
put_in b k v = if str_eq k "" then none else some (insert k v b)

abbrev buckets : Bbolt
buckets = record {
  Bucket = List (String × Bytes);
  empty = [];
  get = λ b k. lookup k b;
  put = put_in;
  remove = λ b k. some (delete k b);
  pairs = λ b. b;
}

buckets-IsMap : IsMap buckets
unfolding lookup
buckets-IsMap = record {
  get-empty = λ k. refl;
  put_blank = λ b x. refl;
  get-put = λ b c k j x e. put_back b c k j x e;
  get-remove = λ b c k j e. ap (lookup j) (sym (ap (unwrapped b) e)) ∙ lookup-delete j k b;
}
  where
    put_back :
        (b c : List (String × Bytes)) (k j : String) (x : Bytes)
        → put_in b k x ≡ some c
        → lookup j c ≡ (if str_eq k j then some x else lookup j b)
    put_back b c k j x e = elim (Bool-cases (str_eq k "")) [
      | inl blank ↦ cc (rw blank at e)
      | inr other ↦ ap (lookup j) (sym (ap (unwrapped b) (rw other at e))) ∙ lookup-insert j k x b
    ]

abbrev pub platform : Platform
platform = record {
  entities = names;
  route_json = name_json;
  group_json = name_json;
  middleware_json = name_json;
  listener_json = name_json;
  destination_json = name_json;
  secret_json = secret_json;
  snapshot_json = snapshot_json;
  bbolt = buckets;
  cipher = some aead;
  text_of = text_of;
  bytes_of = bytes_of;
}

pub platform-Documented : Documented platform
platform-Documented = record {
  route_lem = name_json-ReadsBack;
  group_lem = name_json-ReadsBack;
  middleware_lem = name_json-ReadsBack;
  listener_lem = name_json-ReadsBack;
  destination_lem = name_json-ReadsBack;
  secret_lem = secret_json-ReadsBack;
  snapshot_lem = snapshot_json-ReadsBack;
  bbolt_lem = buckets-IsMap;
  cipher_lem = λ nonce plain. ap some (lowered plain);
  text_of-bytes_of = text_of-bytes_of;
}
