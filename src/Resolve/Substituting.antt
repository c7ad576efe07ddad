-- ===== src/Resolve/Substituting.antt =====
-- What a document reads as, with its references substituted.
use mathlib.Core.List.{append-nil, append_assoc}
use vrata.Common.{
  ◌≡◌, refl, sym, ap, ◌∙◌, ◌≢◌, inl, inr, Bool, true, false, not, ◌&&◌, Option, none, some, List,
  [], ◌∷◌, ◌++◌, map, arith, Option-cases, any_by, All, bind,
}
use vrata.Resolve.{
  Text, Source, Part, literal, pattern_, Lookup, escape_json, value_of, replaced, replace_parts,
  Outcome, resolved, unresolved, outcome, resolve_secrets,
}
use vrata.Resolve.Escaping.{
  Token, State, outside, inside, escape, code, byte, Reading, prepend, read, read-append,
  other_control, read-escape_json,
}

abbrev pub unless_found : Source → Text → Option Text → List (Source × Text)
unless_found source ref none = (source, ref) ∷ []
unless_found source ref (some v) = []

-- The references that are not resolved, in their order.
unfoldable pub failing : Lookup → List Part → List (Source × Text)
unfolding value_of
failing l [] = []
failing l (literal t ∷ ps) = failing l ps
failing l (pattern_ source ref match ∷ ps) =
    unless_found source ref (value_of l source ref) ++ failing l ps

-- What the literals read as, from a state, with the bytes of the values in place of the references.
unfoldable pub substituted : Lookup → State → List Part → Reading
unfolding value_of read
substituted l q [] = some (q, [])
substituted l q (literal t ∷ ps) = bind (read q t) (λ r. prepend r.1 (substituted l r.0 ps))
substituted l q (pattern_ source ref match ∷ ps) =
    bind (value_of l source ref) (λ v. prepend (map byte v) (substituted l q ps))

abbrev is_inside : State → Bool
is_inside outside = false
is_inside inside = true
is_inside escape = false
is_inside (code n) = false

-- The literals are what a document has between the patterns, and each pattern stands inside a string.
unfoldable pub is_document : State → List Part → Bool
unfolding read
is_document q [] = true
is_document q (literal t ∷ ps) = elim (read q t) [ none ↦ false | some r ↦ is_document r.0 ps ]
is_document q (pattern_ source ref match ∷ ps) = is_inside q && is_document inside ps

abbrev is_clean : Option Text → Bool
is_clean none = true
is_clean (some v) = not (any_by other_control v)

-- The value of a reference, if it has one, has no control byte but newline, return and tab.
abbrev pub has_clean_value : Lookup → Part → Bool
unfolding value_of
has_clean_value l (literal t) = true
has_clean_value l (pattern_ source ref match) = is_clean (value_of l source ref)

-- A text is read without an error, and as the substituted document.
abbrev pub ReadsAs : Lookup → List Part → Text → Type 0
ReadsAs l ps t =
    (r : State × List Token) × (read outside t ≡ some r) × (substituted l outside ps ≡ some r)

-- What is promised of an outcome.
abbrev pub Resolves : Lookup → List Part → Outcome → Type 0
Resolves l ps (resolved t) = (failing l ps ≡ []) × ReadsAs l ps t
Resolves l ps (unresolved errs) = (errs ≢ []) × (errs ≡ failing l ps)

replace_parts-failing :
    (l : Lookup) (ps : List Part) (errs : List (Source × Text))
    → (replace_parts l ps errs).1 ≡ errs ++ failing l ps
unfolding replace_parts failing replaced
replace_parts-failing l [] errs = sym (append-nil errs)
replace_parts-failing l (literal t ∷ ps) errs = replace_parts-failing l ps errs
replace_parts-failing l (pattern_ source ref match ∷ ps) errs =
    elim (Option-cases (value_of l source ref)) [
      | inl none_ ↦ rw none_ (
          replace_parts-failing l ps (errs ++ (source, ref) ∷ [])
          ∙ append_assoc errs ((source, ref) ∷ []) (failing l ps))
      | inr (v, some_) ↦ rw some_ (replace_parts-failing l ps errs)
    ]

append_empty : {A : Type 0} (xs ys : List A) → xs ++ ys ≡ [] → (xs ≡ []) × (ys ≡ [])
append_empty [] ys e = (refl, e)
append_empty (x ∷ xs) ys e = cc

no_failure :
    (l : Lookup) (source : Source) (ref : Text) (o : Option Text)
    → unless_found source ref o ≡ []
    → (v : Text) × (o ≡ some v)
no_failure l source ref none e = cc
no_failure l source ref (some v) e = (v, refl)

read-value :
    (l : Lookup) (source : Source) (ref match v : Text) (ps : List Part) (rest : Text)
    → value_of l source ref ≡ some v
    → has_clean_value l (pattern_ source ref match) ≡ true
    → read inside rest ≡ substituted l inside ps
    → read inside (escape_json v ++ rest)
      ≡ bind (value_of l source ref) (λ w. prepend (map byte w) (substituted l inside ps))
unfolding has_clean_value
read-value l source ref match v ps rest found clean ih =
    let plain : any_by other_control v ≡ false = ground (arith, rw found at clean) in
    let reads : read inside (escape_json v) ≡ some (inside, map byte v) =
      read-escape_json v ∙ rw plain refl in
    read-append inside (escape_json v) rest ∙ rw (found, reads) (ap (prepend (map byte v)) ih)

read-literal :
    (l : Lookup) (ps : List Part) (rest : Text) (o : Reading)
    → elim o [ none ↦ false | some r ↦ is_document r.0 ps ] ≡ true
    → ((q : State) → is_document q ps ≡ true → read q rest ≡ substituted l q ps)
    → bind o (λ r. prepend r.1 (read r.0 rest)) ≡ bind o (λ r. prepend r.1 (substituted l r.0 ps))
read-literal l ps rest none d ih = refl
read-literal l ps rest (some (q, ts)) d ih = ap (prepend ts) (ih q d)

read-replace_parts :
    (l : Lookup) (ps : List Part) (q : State) (errs : List (Source × Text))
    → All (λ p. has_clean_value l p ≡ true) ps
    → failing l ps ≡ []
    → is_document q ps ≡ true
    → read q (replace_parts l ps errs).0 ≡ substituted l q ps
unfolding replace_parts failing replaced substituted read is_document
read-replace_parts l [] q errs c f d = refl
read-replace_parts l (literal t ∷ ps) q errs (c, cs) f d =
    read-append q t (replace_parts l ps errs).0
    ∙ read-literal l ps (replace_parts l ps errs).0 (read q t) d
        (λ r. read-replace_parts l ps r errs cs f)
read-replace_parts l (pattern_ source ref match ∷ ps) inside errs (clean, cs) f d =
    let (now, later) = append_empty _ (failing l ps) f in
    let (v, found) = no_failure l source ref (value_of l source ref) now in
    ap
      (λ o. read inside (
        (replaced match source ref o errs).0
        ++ (replace_parts l ps (replaced match source ref o errs).1).0))
      found
    ∙ read-value l source ref match v ps (replace_parts l ps errs).0 found clean
        (read-replace_parts l ps inside errs cs later d)
read-replace_parts l (pattern_ source ref match ∷ ps) outside errs c f d = cc
read-replace_parts l (pattern_ source ref match ∷ ps) escape errs c f d = cc
read-replace_parts l (pattern_ source ref match ∷ ps) (code n) errs c f d = cc

literal-substituted :
    (l : Lookup) (ps : List Part) (o : Reading)
    → elim o [ none ↦ false | some r ↦ is_document r.0 ps ] ≡ true
    → ((q : State)
        → is_document q ps ≡ true
        → (r : State × List Token) × (substituted l q ps ≡ some r))
    → (r : State × List Token) × (bind o (λ x. prepend x.1 (substituted l x.0 ps)) ≡ some r)
literal-substituted l ps none d ih = cc
literal-substituted l ps (some (q, ts)) d ih =
    let (r, e) = ih q d in ((r.0, ts ++ r.1), ap (prepend ts) e)

document-substituted :
    (l : Lookup) (ps : List Part) (q : State)
    → failing l ps ≡ []
    → is_document q ps ≡ true
    → (r : State × List Token) × (substituted l q ps ≡ some r)
unfolding failing substituted is_document
document-substituted l [] q f d = ((q, []), refl)
document-substituted l (literal t ∷ ps) q f d =
    literal-substituted l ps (read q t) d (λ x. document-substituted l ps x f)
document-substituted l (pattern_ source ref match ∷ ps) inside f d =
    let (now, later) = append_empty _ (failing l ps) f in
    let (v, found) = no_failure l source ref (value_of l source ref) now in
    let (r, e) = document-substituted l ps inside later d in
    (
      (r.0, map byte v ++ r.1),
      ap (λ o. bind o (λ w. prepend (map byte w) (substituted l inside ps))) found
          ∙ ap (prepend (map byte v)) e,
    )
document-substituted l (pattern_ source ref match ∷ ps) outside f d = cc
document-substituted l (pattern_ source ref match ∷ ps) escape f d = cc
document-substituted l (pattern_ source ref match ∷ ps) (code n) f d = cc

-- If the literal parts are what a document has between the patterns, with each pattern inside a string of
-- it, and the values have no control byte but newline, return and tab, then Secrets either returns a text
-- that is read without an error, and as the document with the bytes of the values in place of their
-- references, all of which are resolved, or reports exactly the references that are not, in their order.
pub resolve_secrets-Resolves :
    (l : Lookup) (ps : List Part)
    → is_document outside ps ≡ true
    → All (λ p. has_clean_value l p ≡ true) ps
    → Resolves l ps (resolve_secrets l ps)
unfolding resolve_secrets
resolve_secrets-Resolves l ps document clean =
    at_outcome (replace_parts l ps []).0 (replace_parts l ps []).1 (replace_parts-failing l ps [])
      (λ f.
        let (r, e) = document-substituted l ps outside f document in
        (r, read-replace_parts l ps outside [] clean f document ∙ e, e))
  where
    at_outcome :
        (t : Text) (errs : List (Source × Text))
        → errs ≡ failing l ps
        → (failing l ps ≡ [] → ReadsAs l ps t)
        → Resolves l ps (outcome t errs)
    at_outcome t [] e r = (sym e, r (sym e))
    at_outcome t (x ∷ errs) e r = (λ h. cc, e)
