-- ===== src/Resolve.antt =====
-- The substitution of secrets in a serialized snapshot: server/internal/resolve/resolve.go.
--
-- The text is given as the parts that the regular expression secretPattern cuts it into. The store, the
-- environment and the files are arguments. Texts are lists of bytes.
pub mod Escaping
pub mod Substituting
mod Tests
use vrata.Common.{
  dec_lt, dec_le, ℕ_discrete, ℕ, zero, suc, ◌+◌, ◌-◌, ◌*◌, ◌/◌, ◌%◌, ◌^◌, ◌≤◌, ◌<◌, String, ◌≡◌,
  refl, sym, ap, ap₂, ◌∙◌, ◌≢◌, ◌↔◌, ◌⊎◌, inl, inr, Bool, true, false, not, ◌&&◌, ◌||◌, Option,
  none, some, List, [], ◌∷◌, ◌++◌, map, arith, str_eq, eq_iff, ltb, leb, ◌==◌, if◌then◌else◌,
  ltb→lt, lt→ltb, leb→le, le→leb, ==_iff, Bool-cases, Option-cases, length, get_elem?, replicate,
  filter_by, filter_by_comm, filter_by-append, count_by-append, All-filter_by, any_by, count_by,
  length-append, All,
}

abbrev pub Text : Type 0
Text = List ℕ

pub data Source : Type 0 where
  value env file : Source

-- What stands between two patterns, or a pattern with its source and reference.
pub data Part : Type 0 where
  literal : Text → Part
  pattern_ : Source → Text → Text → Part

-- Store.GetSecret, os.Getenv and os.ReadFile.
pub record Lookup : Type 0 where
  pub get_secret : Text → Option Text
  pub getenv : Text → Text
  pub read_file : Text → Option Text

-- strings.ReplaceAll of one byte.
unfoldable pub replace_all : ℕ → Text → Text → Text
replace_all c by [] = []
replace_all c by (x ∷ s) = let rest = replace_all c by s in if x == c then by ++ rest else x ∷ rest

-- escapeJSON: the backslash, the quote, and the newline, return and tab.
unfoldable pub escape_json : Text → Text
unfolding replace_all
escape_json s = replace_all 9 (92 ∷ 116 ∷ []) (
    replace_all 13 (92 ∷ 114 ∷ []) (
      replace_all 10 (92 ∷ 110 ∷ [])
        (replace_all 34 (92 ∷ 34 ∷ []) (replace_all 92 (92 ∷ 92 ∷ []) s))))

abbrev pub unless_empty : Text → Option Text
unless_empty [] = none
unless_empty (x ∷ s) = some (x ∷ s)

-- The value of a reference, `none` where an error is reported.
unfoldable pub value_of : Lookup → Source → Text → Option Text
value_of l value ref = l.get_secret ref
value_of l env ref = unless_empty (l.getenv ref)
value_of l file ref = l.read_file ref

-- What the function that is given to ReplaceAllFunc returns, and the errors after it.
abbrev pub replaced :
    Text → Source → Text → Option Text → List (Source × Text) → Text × List (Source × Text)
unfolding escape_json
replaced match source ref none errs = (match, errs ++ (source, ref) ∷ [])
replaced match source ref (some v) errs = (escape_json v, errs)

-- The walk over the parts, with the errors so far.
unfoldable pub replace_parts :
    Lookup → List Part → List (Source × Text) → Text × List (Source × Text)
unfolding value_of replaced
replace_parts l [] errs = ([], errs)
replace_parts l (literal t ∷ ps) errs =
    let (rest, more) = replace_parts l ps errs in (t ++ rest, more)
replace_parts l (pattern_ source ref match ∷ ps) errs =
    let (t, now) = replaced match source ref (value_of l source ref) errs in
    let (rest, more) = replace_parts l ps now in (t ++ rest, more)

pub data Outcome : Type 0 where
  resolved : Text → Outcome
  unresolved : List (Source × Text) → Outcome

abbrev pub outcome : Text → List (Source × Text) → Outcome
outcome t [] = resolved t
outcome t (x ∷ errs) = unresolved (x ∷ errs)

unfoldable pub resolve_secrets : Lookup → List Part → Outcome
unfolding replace_parts
resolve_secrets l ps = let (t, errs) = replace_parts l ps [] in outcome t errs
