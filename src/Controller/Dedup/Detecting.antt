-- ===== src/Controller/Dedup/Detecting.antt =====
-- What Check reports and registers, and what Remove takes back.
use vrata.Common.{
  String, ◌≡◌, refl, sym, ap, ap₂, ◌∙◌, Bool, true, false, some, List, [], ◌∷◌, ◌++◌, map, str_eq,
  eq_iff, if◌then◌else◌, filter_by, filter_by-append, All,
}
use mathlib.Core.List.{append-nil, append_assoc}
use Prim.Native.String.{◌++◌ as append}
use vrata.Common.StringMap.{lookup, lookup-insert}
use vrata.Controller.Dedup.{
  MatchInput, HttpRouteInput, Entry, Overlap, Detector, Strings, is_regex, or_empty, entries_at,
  conflicts, find_overlaps, register, check_hosts, check_matches, check_rules, or_default_match,
  or_any_host, check,
}

abbrev pub entry_of : String → MatchInput → String → Entry
entry_of source m h = record {
  path = m.path_value;
  path_type = m.path_type;
  hostname = h;
  headers = m.headers;
  method = m.method;
  source = source;
}

abbrev pub flat {ℓ} : {A B : Type ℓ} → (A → List B) → List A → List B
flat f [] = []
flat f (x ∷ xs) = f x ++ flat f xs

-- The entries that one HTTPRoute stands for: one for each match that is no regular expression and each
-- hostname.
abbrev pub host_entries : String → List String → MatchInput → List Entry
host_entries source hosts m = if is_regex m.path_type then [] else map (entry_of source m) hosts

abbrev pub rule_entries : String → List String → List MatchInput → List Entry
rule_entries source hosts r = flat (host_entries source hosts) (or_default_match r)

abbrev pub source_of_input : HttpRouteInput → String
source_of_input input = append input.namespace (append "/" input.name)

abbrev pub entries_of : HttpRouteInput → List Entry
entries_of input =
    flat (rule_entries (source_of_input input) (or_any_host input.hostnames)) input.rules

abbrev pub register_all : Detector → List Entry → Detector
register_all d [] = d
register_all d (e ∷ es) = register_all (register d e) es

entries_at-register :
    (d : Detector) (e : Entry) (h : String)
    → entries_at (register d e) h
      ≡ (if str_eq e.hostname h then entries_at d h ++ e ∷ [] else entries_at d h)
entries_at-register d e h =
    ap or_empty (lookup-insert h e.hostname (entries_at d e.hostname ++ e ∷ []) d)
    ∙ or_empty_if (str_eq e.hostname h) (λ same. (eq_iff e.hostname h).0 same)
  where
    or_empty_if :
        (b : Bool)
        → (b ≡ true → e.hostname ≡ h)
        → or_empty (if b then some (entries_at d e.hostname ++ e ∷ []) else lookup h d)
          ≡ (if b then entries_at d h ++ e ∷ [] else entries_at d h)
    or_empty_if true same = ap (λ k. entries_at d k ++ e ∷ []) (same refl)
    or_empty_if false same = refl

append_if :
    (b : Bool) (xs : List Entry) (e : Entry) (p : Entry → Bool)
    → p e ≡ false
    → filter_by p (if b then xs ++ e ∷ [] else xs) ≡ filter_by p xs
append_if true xs e p h = rw (filter_by-append p xs (e ∷ []), h) (append-nil _)
append_if false xs e p h = refl

flat-append :
    {A B : Type 0} (f : A → List B) (xs ys : List A) → flat f (xs ++ ys) ≡ flat f xs ++ flat f ys
flat-append f [] ys = refl
flat-append f (x ∷ xs) ys =
    rw (flat-append f xs ys) (sym (append_assoc (f x) (flat f xs) (flat f ys)))

register_all-append :
    (d : Detector) (es fs : List Entry)
    → register_all d (es ++ fs) ≡ register_all (register_all d es) fs
register_all-append d [] fs = refl
register_all-append d (e ∷ es) fs = register_all-append (register d e) es fs

abbrev FromSource : String → List Entry → Type 0
FromSource source = All (λ e. e.source ≡ source)

from_hosts :
    (source : String) (m : MatchInput) (hs : List String)
    → FromSource source (map (entry_of source m) hs)
from_hosts source m [] = tt
from_hosts source m (h ∷ hs) = (refl, from_hosts source m hs)

FromSource-append :
    (source : String) (es fs : List Entry)
    → FromSource source es
    → FromSource source fs
    → FromSource source (es ++ fs)
FromSource-append source [] fs h k = k
FromSource-append source (e ∷ es) fs (m, h) k = (m, FromSource-append source es fs h k)

from_match :
    (source : String) (hosts : List String) (m : MatchInput)
    → FromSource source (host_entries source hosts m)
from_match source hosts m = split (is_regex m.path_type)
  where
    split : (b : Bool) → FromSource source (if b then [] else map (entry_of source m) hosts)
    split true = tt
    split false = from_hosts source m hosts

from_matches :
    (source : String) (hosts : List String) (ms : List MatchInput)
    → FromSource source (flat (host_entries source hosts) ms)
from_matches source hosts [] = tt
from_matches source hosts (m ∷ ms) =
    FromSource-append source (host_entries source hosts m) (flat (host_entries source hosts) ms)
      (from_match source hosts m) (from_matches source hosts ms)

from_rules :
    (source : String) (hosts : List String) (rs : List (List MatchInput))
    → FromSource source (flat (rule_entries source hosts) rs)
from_rules source hosts [] = tt
from_rules source hosts (r ∷ rs) =
    FromSource-append source (rule_entries source hosts r) (flat (rule_entries source hosts) rs)
      (from_matches source hosts (or_default_match r)) (from_rules source hosts rs)

module _ (S : Strings) where
  -- An entry of the same source never conflicts, so that registering it changes no report.
  find_overlaps-register :
      (d : Detector) (e n : Entry)
      → e.source ≡ n.source
      → find_overlaps S (register d e) n ≡ find_overlaps S d n
  unfolding find_overlaps
  find_overlaps-register d e n h = rw (entries_at-register d e n.hostname) (
      ap (map _) (
        append_if (str_eq e.hostname n.hostname) (entries_at d n.hostname) e (conflicts S n)
          (own_passes e n h)))
    where
      own_passes : (a b : Entry) → a.source ≡ b.source → conflicts S b a ≡ false
      own_passes a b k = rw ((eq_iff a.source b.source).1 k)

  flat-register :
      (source : String) (d : Detector) (e : Entry) (ns : List Entry)
      → e.source ≡ source
      → FromSource source ns
      → flat (find_overlaps S (register d e)) ns ≡ flat (find_overlaps S d) ns
  flat-register source d e [] h k = refl
  flat-register source d e (n ∷ ns) h (m, k) =
      ap₂ ◌++◌ (find_overlaps-register d e n (h ∙ sym m)) (flat-register source d e ns h k)

  flat-register_all :
      (source : String) (d : Detector) (es ns : List Entry)
      → FromSource source es
      → FromSource source ns
      → flat (find_overlaps S (register_all d es)) ns ≡ flat (find_overlaps S d) ns
  flat-register_all source d [] ns h k = refl
  flat-register_all source d (e ∷ es) ns (m, h) k =
      flat-register_all source (register d e) es ns h k ∙ flat-register source d e ns m k

  -- What a run of the loops has to come to for the entries that it goes over.
  abbrev Reports : Detector → List Entry → Detector × List Overlap → Type 0
  Reports d es r = r ≡ (register_all d es, flat (find_overlaps S d) es)

  check_hosts-Reports :
      (source : String) (m : MatchInput) (hs : List String) (d : Detector)
      → Reports d (map (entry_of source m) hs) (check_hosts S source m hs d)
  unfolding check_hosts
  check_hosts-Reports source m [] d = refl
  check_hosts-Reports source m (h ∷ hs) d =
      rw (check_hosts-Reports source m hs (register d (entry_of source m h))) (
        ap
          (λ later. (
            register_all (register d (entry_of source m h)) (map (entry_of source m) hs),
            find_overlaps S d (entry_of source m h) ++ later,
          ))
          (flat-register source d (entry_of source m h) (map (entry_of source m) hs) refl
            (from_hosts source m hs)))

  -- A later loop over entries of the same source reports what it would have reported first.
  then_Reports :
      (source : String) (d : Detector) (es fs : List Entry) (r : Detector × List Overlap)
      → FromSource source es
      → FromSource source fs
      → Reports (register_all d es) fs r
      → Reports d (es ++ fs) (r.0, flat (find_overlaps S d) es ++ r.1)
  then_Reports source d es fs r h k e =
      ap₂ (λ x y. (x, y)) (ap (λ p. p.0) e ∙ sym (register_all-append d es fs))
        (ap (λ p. flat (find_overlaps S d) es ++ p.1) e
          ∙ (ap (◌++◌ (flat (find_overlaps S d) es)) (flat-register_all source d es fs h k)
              ∙ sym (flat-append (find_overlaps S d) es fs)))

  check_match-Reports :
      (source : String) (hosts : List String) (m : MatchInput) (d : Detector)
      → Reports d
          (host_entries source hosts m)
          (if is_regex m.path_type then (d, []) else check_hosts S source m hosts d)
  check_match-Reports source hosts m d = split (is_regex m.path_type)
    where
      split :
          (b : Bool)
          → Reports d
              (if b then [] else map (entry_of source m) hosts)
              (if b then (d, []) else check_hosts S source m hosts d)
      split true = refl
      split false = check_hosts-Reports source m hosts d

  check_matches-Reports :
      (source : String) (hosts : List String) (ms : List MatchInput) (d : Detector)
      → Reports d (flat (host_entries source hosts) ms) (check_matches S source hosts ms d)
  unfolding check_matches
  check_matches-Reports source hosts [] d = refl
  check_matches-Reports source hosts (m ∷ ms) d = rw (check_match-Reports source hosts m d) (
      then_Reports source d (host_entries source hosts m) (flat (host_entries source hosts) ms) _
        (from_match source hosts m) (from_matches source hosts ms)
        (check_matches-Reports source hosts ms (register_all d (host_entries source hosts m))))

  check_rules-Reports :
      (source : String) (hosts : List String) (rs : List (List MatchInput)) (d : Detector)
      → Reports d (flat (rule_entries source hosts) rs) (check_rules S source hosts rs d)
  unfolding check_rules
  check_rules-Reports source hosts [] d = refl
  check_rules-Reports source hosts (r ∷ rs) d =
      rw (check_matches-Reports source hosts (or_default_match r) d) (
        then_Reports source d (rule_entries source hosts r) (flat (rule_entries source hosts) rs) _
          (from_matches source hosts (or_default_match r)) (from_rules source hosts rs)
          (check_rules-Reports source hosts rs (register_all d (rule_entries source hosts r))))

  -- Check registers the entries of an HTTPRoute in their order, and reports for each of them its overlaps
  -- with what was registered before the call: what it registers on the way changes no report.
  pub check_lem :
      (d : Detector) (input : HttpRouteInput)
      → check S d input
        ≡ (register_all d (entries_of input), flat (find_overlaps S d) (entries_of input))
  unfolding check
  check_lem d input =
      check_rules-Reports (source_of_input input) (or_any_host input.hostnames) input.rules d
