-- ===== src/Controller/Dedup.antt =====
-- Overlap detection between HTTPRoutes: clients/controller/internal/dedup/detector.go, with the inputs
-- of clients/controller/internal/mapper/mapper.go that it reads.
--
-- A path is the list of its bytes. strings.EqualFold, strings.ToLower and sort.Strings are the
-- arguments `equal_fold`, `to_lower` and `sort`. Logging, and with it formatEntry, is left out.
pub mod Paths
pub mod Semantics
pub mod Symmetry
pub mod Detecting
mod Tests
use vrata.Common.{
  ℕ, ◌+◌, ◌*◌, String, Bool, true, false, not, ◌&&◌, ◌||◌, Option, none, some, List, [], ◌∷◌, ◌++◌,
  map, str_eq, ltb, ◌==◌, if◌then◌else◌, length, get_elem?, filter_by,
}
use Prim.Native.String.{◌++◌ as append}
use vrata.Common.StringMap.{lookup, insert, delete}

pub data PathType : Type 0 where
  path_prefix exact regular_expression : PathType
  other : String → PathType

pub record HeaderMatchInput : Type 0 where
  pub name : String
  pub value : String
  pub type : String

pub record MatchInput : Type 0 where
  pub path_type : PathType
  pub path_value : List ℕ
  pub method : String
  pub headers : List HeaderMatchInput

-- A rule is the list of its matches.
pub record HttpRouteInput : Type 0 where
  pub name : String
  pub namespace : String
  pub hostnames : List String
  pub rules : List (List MatchInput)

pub record Entry : Type 0 where
  pub path : List ℕ
  pub path_type : PathType
  pub hostname : String
  pub headers : List HeaderMatchInput
  pub method : String
  pub source : String

pub record Overlap : Type 0 where
  pub incoming : Entry
  pub existing : Entry

-- Detector.byHost
abbrev pub Detector : Type 0
Detector = List (String × List Entry)

pub bytes_eq : List ℕ → List ℕ → Bool
bytes_eq [] [] = true
bytes_eq (x ∷ xs) (y ∷ ys) = x == y && bytes_eq xs ys
bytes_eq _ _ = false

-- strings.HasPrefix
pub has_prefix : List ℕ → List ℕ → Bool
has_prefix xs [] = true
has_prefix [] (p ∷ ps) = false
has_prefix (x ∷ xs) (p ∷ ps) = x == p && has_prefix xs ps

-- strings.HasSuffix(prefix, "/")
pub ends_in_slash : List ℕ → Bool
ends_in_slash [] = false
ends_in_slash (x ∷ []) = x == b'/'
ends_in_slash (x ∷ y ∷ ys) = ends_in_slash (y ∷ ys)

abbrev pub is_slash : Option ℕ → Bool
is_slash none = false
is_slash (some c) = c == b'/'

pub prefix_covers : List ℕ → List ℕ → Bool
prefix_covers prefix path =
    if bytes_eq prefix path
    then true
    else if not (has_prefix path prefix)
    then false
    else if ends_in_slash prefix
    then true
    else ltb (length prefix) (length path) && is_slash (get_elem? path (length prefix))

pub paths_overlap : PathType → List ℕ → PathType → List ℕ → Bool
paths_overlap exact a exact b = bytes_eq a b
paths_overlap path_prefix a path_prefix b = prefix_covers a b || prefix_covers b a
paths_overlap path_prefix a exact b = prefix_covers a b
paths_overlap exact a path_prefix b = prefix_covers b a
paths_overlap _ a _ b = false

abbrev pub is_regex : PathType → Bool
is_regex regular_expression = true
is_regex _ = false

abbrev pub strings_eq : List String → List String → Bool
strings_eq [] [] = true
strings_eq (x ∷ xs) (y ∷ ys) = str_eq x y && strings_eq xs ys
strings_eq _ _ = false

abbrev pub or_empty : Option (List Entry) → List Entry
or_empty none = []
or_empty (some es) = es

-- d.byHost[host]
abbrev pub entries_at : Detector → String → List Entry
entries_at d host = or_empty (lookup host d)

-- d.byHost[hostname] = append(d.byHost[hostname], entry)
abbrev pub register : Detector → Entry → Detector
register d e = insert e.hostname (entries_at d e.hostname ++ e ∷ []) d

abbrev pub or_default_match : List MatchInput → List MatchInput
or_default_match [] =
    record { path_type = path_prefix; path_value = b'/' ∷ []; method = ""; headers = [] } ∷ []
or_default_match (m ∷ ms) = m ∷ ms

abbrev pub or_any_host : List String → List String
or_any_host [] = "*" ∷ []
or_any_host (h ∷ hs) = h ∷ hs

abbrev pub source_of : String → String → String
source_of namespace name = append namespace (append "/" name)

-- Remove: the loop over the hostnames.
pub remove_source : String → Detector → Detector
remove_source source [] = []
remove_source source ((h, es) ∷ d) =
    let kept = filter_by (λ e. not (str_eq e.source source)) es in
    let rest = remove_source source d in elim kept [ [] ↦ rest | e ∷ more ↦ (h, e ∷ more) ∷ rest ]

pub remove : Detector → String → String → Detector
unfolding remove_source
remove d namespace name = remove_source (source_of namespace name) d

pub reset : Detector → Detector
reset d = []

-- What the detector uses of the package strings and of sort.
pub record Strings : Type 0 where
  pub equal_fold : String → String → Bool
  pub to_lower : String → String
  pub sort : List String → List String

module _ (S : Strings) where
  open S use {equal_fold, to_lower, sort}

  pub methods_overlap : String → String → Bool
  methods_overlap a b = if str_eq a "" || str_eq b "" then true else equal_fold a b

  abbrev pub canonical : HeaderMatchInput → String
  canonical h =
      append (if str_eq h.type "" then "Exact" else h.type)
        (append ":" (append (to_lower h.name) (append "=" h.value)))

  pub normalize_headers : List HeaderMatchInput → List String
  normalize_headers headers = sort (map canonical headers)

  pub same_headers : List HeaderMatchInput → List HeaderMatchInput → Bool
  unfolding normalize_headers
  same_headers a b =
      if not (length a == length b)
      then false
      else if length a == 0
      then true
      else strings_eq (normalize_headers a) (normalize_headers b)

  pub entries_overlap : Entry → Entry → Bool
  unfolding methods_overlap same_headers paths_overlap
  entries_overlap a b =
      if not (methods_overlap a.method b.method)
      then false
      else if not (same_headers a.headers b.headers)
      then false
      else paths_overlap a.path_type a.path b.path_type b.path

  -- Whether the loop of findOverlaps reports an existing entry.
  pub conflicts : Entry → Entry → Bool
  unfolding entries_overlap
  conflicts new_entry e =
      if str_eq e.source new_entry.source
      then false
      else if is_regex e.path_type || is_regex new_entry.path_type
      then false
      else entries_overlap e new_entry

  pub find_overlaps : Detector → Entry → List Overlap
  unfolding conflicts
  find_overlaps d new_entry =
      map (λ e. record { incoming = new_entry; existing = e })
        (filter_by (conflicts new_entry) (entries_at d new_entry.hostname))

  -- The loop over the hostnames of one match.
  pub check_hosts : String → MatchInput → List String → Detector → Detector × List Overlap
  check_hosts source m [] d = (d, [])
  check_hosts source m (h ∷ hs) d =
      let entry : Entry = record {
        path = m.path_value;
        path_type = m.path_type;
        hostname = h;
        headers = m.headers;
        method = m.method;
        source = source;
      } in
      let (d', later) = check_hosts source m hs (register d entry) in
      (d', find_overlaps d entry ++ later)

  -- The loop over the matches of one rule; regular expressions are skipped.
  pub check_matches : String → List String → List MatchInput → Detector → Detector × List Overlap
  unfolding check_hosts
  check_matches source hosts [] d = (d, [])
  check_matches source hosts (m ∷ ms) d =
      let (d₁, found) = (if is_regex m.path_type then (d, []) else check_hosts source m hosts d) in
      let (d₂, later) = check_matches source hosts ms d₁ in (d₂, found ++ later)

  pub check_rules :
      String → List String → List (List MatchInput) → Detector → Detector × List Overlap
  unfolding check_matches
  check_rules source hosts [] d = (d, [])
  check_rules source hosts (r ∷ rs) d =
      let (d₁, found) = check_matches source hosts (or_default_match r) d in
      let (d₂, later) = check_rules source hosts rs d₁ in (d₂, found ++ later)

  pub check : Detector → HttpRouteInput → Detector × List Overlap
  unfolding check_rules
  check d input =
      check_rules (source_of input.namespace input.name) (or_any_host input.hostnames) input.rules d
