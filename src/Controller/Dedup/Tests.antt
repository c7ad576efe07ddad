-- ===== src/Controller/Dedup/Tests.antt =====
-- The theorems of the overlap detector at concrete routes.
use vrata.Common.{
  ℕ, String, ◌≡◌, refl, ◌↔◌, true, false, List, [], ◌∷◌, ◌++◌, arith, str_eq, eq_iff,
}
use vrata.Controller.Dedup.{
  PathType, path_prefix, exact, HttpRouteInput, MatchInput, Entry, Strings, has_prefix,
  ends_in_slash, paths_overlap, find_overlaps, check,
}
use vrata.Controller.Dedup.Semantics.{Shares, paths_overlap_iff, paths_overlap_misses}
use vrata.Controller.Dedup.Detecting.{entries_of, register_all, flat, check_lem}

-- "/api" and "/apikeys"
abbrev api : List ℕ
api = b'/' ∷ b'a' ∷ b'p' ∷ b'i' ∷ []

abbrev apikeys : List ℕ
apikeys = api ++ b'k' ∷ b'e' ∷ b'y' ∷ b's' ∷ []

abbrev plain : Strings
plain = record { equal_fold = str_eq; to_lower = λ s. s; sort = λ xs. xs }

plain_comm : (a b : String) → str_eq a b ≡ str_eq b a
plain_comm a b = ground (arith, eq_iff a b, eq_iff b a)

abbrev at : PathType → List ℕ → MatchInput
at t p = record { path_type = t; path_value = p; method = "GET"; headers = [] }

abbrev shop : HttpRouteInput
shop = record {
  name = "shop";
  namespace = "web";
  hostnames = "a.test" ∷ "b.test" ∷ [];
  rules = (at path_prefix api ∷ []) ∷ [] ∷ [];
}

abbrev keys : HttpRouteInput
keys = record {
  name = "keys";
  namespace = "web";
  hostnames = "b.test" ∷ [];
  rules = (at exact api ∷ at path_prefix apikeys ∷ []) ∷ [];
}

abbrev one : String → Entry
one source = record {
  path = api;
  path_type = path_prefix;
  hostname = "a.test";
  headers = [];
  method = "GET";
  source = source;
}

paths_overlap_iff_example :
    (paths_overlap path_prefix api exact apikeys ≡ true) ↔ Shares path_prefix api exact apikeys
paths_overlap_iff_example = paths_overlap_iff path_prefix api exact apikeys

paths_overlap_misses_example :
    (paths_overlap path_prefix api path_prefix apikeys ≡ false) × (has_prefix apikeys api ≡ true)
unfolding has_prefix ends_in_slash
paths_overlap_misses_example =
    paths_overlap_misses api (b'e' ∷ b'y' ∷ b's' ∷ []) apikeys b'k' (ground arith) refl refl

check_lem_example : check plain (check plain [] shop).0 keys ≡ (
  register_all (check plain [] shop).0 (entries_of keys),
  flat (find_overlaps plain (check plain [] shop).0) (entries_of keys),
)
check_lem_example = check_lem plain (check plain [] shop).0 keys
