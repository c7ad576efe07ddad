-- ===== src/Store/Bolt/Tests/Dumps.antt =====
-- An encoding of dumps for the platform of the tests, and the theorems of dumps on it.
use vrata.Common.{
  ℕ, zero, suc, String, ◌≡◌, refl, sym, ap, ◌∙◌, inl, inr, Bool, false, not, Option, none, some,
  List, [], ◌∷◌, ◌==◌, if◌then◌else◌, Bool-cases, length, any_by, bind,
}
use vrata.Common.StringMap.{lookup, insert}
use vrata.Store.Encrypt.{Bytes, seal}
use vrata.Store.Platform.{Json}
use vrata.Store.Bolt.{Answer, done, refused, failed, Store, new}
use vrata.Store.Bolt.Sealed.{encrypt_value, encode_sealed, save_snapshot, activate_snapshot}
use vrata.Store.Bolt.Dumping.{Dump, dump, restore}
use vrata.Store.Bolt.Dumping.Failing.{has_invalid, Rejects, Visits, dump-activate_snapshot}
use vrata.Store.Bolt.Dumping.Restoring.{RestoredStore, ReadsDumps, restore-dump}
use vrata.Store.Bolt.Tests.{platform, platform-Documented, unwrapped}
use vrata.Store.Bolt.Tests.Runs.{v1, nonces}
use vrata.Store.Bolt.Tests.Encodings.{put_text, take_text, take_text-put_text}

abbrev then_one {ℓ} : {A : Type ℓ} → A → Option (List A × Bytes) → Option (List A × Bytes)
then_one x none = none
then_one x (some (xs, rest)) = some (x ∷ xs, rest)

-- Several encodings one behind the other.
module _ {A : Type 0} (put_one : A → Bytes → Bytes) (take_one : Bytes → Option (A × Bytes)) where
  unfoldable put_many : List A → Bytes → Bytes
  put_many [] rest = rest
  put_many (x ∷ xs) rest = put_one x (put_many xs rest)

  unfoldable take_many : ℕ → Bytes → Option (List A × Bytes)
  take_many zero b = some ([], b)
  take_many (suc n) b = bind (take_one b) (λ r. then_one r.0 (take_many n r.1))

  take_many-put_many :
      ((x : A) (rest : Bytes) → take_one (put_one x rest) ≡ some (x, rest))
      → (xs : List A) (rest : Bytes) → take_many (length xs) (put_many xs rest) ≡ some (xs, rest)
  unfolding put_many take_many
  take_many-put_many law [] rest = refl
  take_many-put_many law (x ∷ xs) rest =
      ap (λ o. bind o (λ r. then_one r.0 (take_many (length xs) r.1))) (law x (put_many xs rest))
      ∙ ap (then_one x) (take_many-put_many law xs rest)

  -- Behind their number.
  unfoldable put_list : List A → Bytes → Bytes
  unfolding put_many
  put_list xs rest = length xs ∷ put_many xs rest

  unfoldable take_list : Bytes → Option (List A × Bytes)
  unfolding take_many
  take_list [] = none
  take_list (n ∷ b) = take_many n b

  take_list-put_list :
      ((x : A) (rest : Bytes) → take_one (put_one x rest) ≡ some (x, rest))
      → (xs : List A) (rest : Bytes) → take_list (put_list xs rest) ≡ some (xs, rest)
  unfolding put_list take_list
  take_list-put_list law xs rest = take_many-put_many law xs rest

-- A text with something behind it.
module _ {A : Type 0} (put_one : A → Bytes → Bytes) (take_one : Bytes → Option (A × Bytes)) where
  abbrev put_named : String × A → Bytes → Bytes
  put_named x rest = put_text x.0 (put_one x.1 rest)

  abbrev named : String → Option (A × Bytes) → Option ((String × A) × Bytes)
  named k none = none
  named k (some (a, rest)) = some ((k, a), rest)

  abbrev take_named : Bytes → Option ((String × A) × Bytes)
  take_named b = bind (take_text b) (λ r. named r.0 (take_one r.1))

  take_named-put_named :
      ((x : A) (rest : Bytes) → take_one (put_one x rest) ≡ some (x, rest))
      → (x : String × A) (rest : Bytes) → take_named (put_named x rest) ≡ some (x, rest)
  take_named-put_named law x rest =
      ap (λ o. bind o (λ r. named r.0 (take_one r.1))) (take_text-put_text x.0 (put_one x.1 rest))
      ∙ ap (named x.0) (law x.1 rest)

abbrev take_number : Bytes → Option (ℕ × Bytes)
take_number [] = none
take_number (n ∷ rest) = some (n, rest)

abbrev put_number : ℕ → Bytes → Bytes
put_number n rest = n ∷ rest

abbrev put_value : Bytes → Bytes → Bytes
put_value = put_list put_number take_number

abbrev take_value : Bytes → Option (Bytes × Bytes)
take_value = take_list put_number take_number

abbrev put_bucket : List (String × Bytes) → Bytes → Bytes
put_bucket = put_list (put_named put_value take_value) (take_named put_value take_value)

abbrev take_bucket : Bytes → Option (List (String × Bytes) × Bytes)
take_bucket = take_list (put_named put_value take_value) (take_named put_value take_value)

abbrev put_dump : Dump → Bytes → Bytes
put_dump = put_list (put_named put_bucket take_bucket) (take_named put_bucket take_bucket)

abbrev take_dump : Bytes → Option (Dump × Bytes)
take_dump = take_list (put_named put_bucket take_bucket) (take_named put_bucket take_bucket)

take_dump-put_dump : (d : Dump) (rest : Bytes) → take_dump (put_dump d rest) ≡ some (d, rest)
take_dump-put_dump = take_list-put_list _ _ (
    take_named-put_named _ _ (
      take_list-put_list _ _
        (take_named-put_named _ _ (take_list-put_list put_number take_number (λ n rest. refl)))))

-- A value is taken for JSON unless it starts like "v1".
abbrev valid : Bytes → Bool
valid [] = false
valid (x ∷ b) = not (x == 119)

abbrev whole : Option (Dump × Bytes) → Option Dump
whole none = none
whole (some (d, rest)) = some d

abbrev dump_json : Json Dump
dump_json = record {
  marshal = λ d. if has_invalid valid d then none else some (put_dump d []);
  unmarshal = λ b. whole (take_dump b);
}

-- No byte of a compact value is a blank.
abbrev compact : Bytes → Bool
compact b = not (any_by (λ x. x == 32) b)

dump_json-ReadsDumps : ReadsDumps dump_json compact
dump_json-ReadsDumps = record {
  read_back = λ d b maps e. elim (Bool-cases (has_invalid valid d)) [
    | inl bad ↦ cc (rw bad at e)
    | inr good ↦
        ap (λ t. whole (take_dump t)) (sym (ap (unwrapped b) (rw good at e)))
        ∙ ap whole (take_dump-put_dump d [])
  ];
}

dump_json-Rejects : Rejects dump_json valid
dump_json-Rejects = record { rejected = λ d bad. rw bad refl }

platform-Visits : Visits platform.bbolt
platform-Visits = record { visited = λ b k. refl }

abbrev stored_of : Answer (Store platform) → Store platform
stored_of (done s) = s
stored_of (refused e) = new platform
stored_of failed = new platform

abbrev with_snapshot : Store platform
unfolding new save_snapshot
with_snapshot = stored_of (save_snapshot platform (new platform) nonces v1)

abbrev activated_v1 : Store platform
unfolding activate_snapshot
activated_v1 = stored_of (activate_snapshot platform with_snapshot "v1")

dump-activate_snapshot_example : dump platform dump_json activated_v1 ≡ none
unfolding lookup put_text activate_snapshot with_snapshot encode_sealed encrypt_value seal insert
dump-activate_snapshot_example =
    dump-activate_snapshot platform dump_json valid with_snapshot activated_v1 "v1"
      platform-Documented platform-Visits dump_json-Rejects refl refl

abbrev dumped_bytes : Bytes
unfolding dump put_list put_many put_text with_snapshot
dumped_bytes = elim (dump platform dump_json with_snapshot) [ none ↦ [] | some b ↦ b ]

abbrev restored : Store platform
unfolding restore take_list take_many take_text dumped_bytes
restored = elim (restore platform dump_json (λ b. b) (new platform) dumped_bytes) [
  | none ↦ new platform
  | some u ↦ u
]

restore-dump_example :
    RestoredStore platform dump_json (λ b. b) with_snapshot (new platform) restored
unfolding dump dumped_bytes restore restored with_snapshot encode_sealed encrypt_value seal insert
    lookup put_text take_text put_list put_many take_list take_many new
restore-dump_example =
    restore-dump platform dump_json (λ b. b) compact with_snapshot (new platform) restored
      dumped_bytes platform-Documented.bbolt_lem platform-Visits dump_json-ReadsDumps refl refl refl
