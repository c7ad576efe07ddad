-- ===== src/Proxy/Routing.antt =====
-- The routing table: server/internal/proxy/router.go and table.go, the matching rules of
-- server/internal/model/group.go, and BufferBody of server/internal/proxy/celeval/cel.go.
--
-- Regular expressions, CEL, strings.ToUpper and the test for JSON are the argument `Engine`. A header or
-- a query is the function that its Get is. Left out are a route's handler, the pools, the metrics and
-- the cleanup of a replaced table. Reading a body does not fail.
pub mod Compiling
pub mod Hostnames
pub mod Matching
pub mod Table
pub mod Serving
pub mod First
mod Tests
use Prim.Native.String.{[] as end, ◌∷◌ as ◌followed_by◌, ◌++◌ as ◌then◌}
use Prim.Native.Char.{Char, code}
use text.Mathlib.Text.{starts_with}
use vrata.Common.{
  dec_lt, dec_le, ℕ_discrete, ℕ, zero, suc, ◌+◌, ◌-◌, ◌*◌, ◌/◌, ◌%◌, ◌^◌, ◌≤◌, ◌<◌, String, ◌≡◌,
  refl, sym, ap, ap₂, ◌∙◌, ◌≢◌, ◌↔◌, ◌⊎◌, inl, inr, Bool, true, false, not, ◌&&◌, ◌||◌, Option,
  none, some, List, [], ◌∷◌, ◌++◌, map, arith, str_eq, eq_iff, ltb, leb, ◌==◌, if◌then◌else◌,
  ltb→lt, lt→ltb, leb→le, le→leb, ==_iff, Bool-cases, Option-cases, length, get_elem?, replicate,
  filter_by, filter_by_comm, filter_by-append, count_by-append, All-filter_by, any_by, count_by,
  length-append, All,
}

pub record BodyData : Type 0 where
  pub raw : List ℕ
  -- The raw text where it is JSON.
  pub json : Option (List ℕ)

pub record Request : Type 0 where
  pub host : String
  pub path : String
  pub method : String
  pub header : String → String
  pub query : String → String
  pub body : Option (List ℕ)
  -- What BufferBody has put into the context.
  pub buffered : Option BodyData

pub record Engine : Type 1 where
  pub Regex : Type 0
  pub compile_regex : String → Option Regex
  pub match_string : Regex → String → Bool
  pub quote_meta : String → String
  pub Program : Type 0
  pub compile_cel : String → Option Program
  pub needs_body : Program → Bool
  pub eval : Program → Request → Bool
  pub to_upper : String → String
  pub is_json : List ℕ → Bool

-- HeaderMatcher and QueryParamMatcher
pub record Matcher : Type 0 where
  pub name : String
  pub value : String
  pub regex : Bool

pub record MatchRule : Type 0 where
  pub path : String
  pub path_prefix : String
  pub path_regex : String
  pub methods : List String
  pub headers : List Matcher
  pub query_params : List Matcher
  pub hostnames : List String
  pub grpc : Bool
  pub cel : String

pub record Route : Type 0 where
  pub id : String
  pub name : String
  pub match : MatchRule

pub record RouteGroup : Type 0 where
  pub id : String
  pub name : String
  pub route_ids : List String
  pub path_prefix : String
  pub path_regex : String
  pub hostnames : List String
  pub headers : List Matcher

-- The host without its port.
unfoldable pub before_colon : String → String
before_colon end = end
before_colon (c followed_by s) =
    let rest = before_colon s in if code c == 58 then end else c followed_by rest

abbrev pub take {ℓ} : {A : Type ℓ} → ℕ → List A → List A
take zero xs = []
take (suc n) [] = []
take (suc n) (x ∷ xs) = x ∷ take n xs

-- All elements pass.
abbrev pub all_by {ℓ} : {A : Type ℓ} → (A → Bool) → List A → Bool
all_by p [] = true
all_by p (x ∷ xs) = p x && all_by p xs

module _ (e : Engine) where
  open e use {Regex, Program}

  -- compiledHeaderMatcher and compiledQueryParamMatcher
  pub record CompiledMatcher : Type 0 where
    pub name : String
    pub value : String
    pub regex : Option Regex

  pub record CompiledRoute : Type 0 where
    pub model : Route
    pub group : Option RouteGroup
    pub path_regex : Option Regex
    pub path_prefix : String
    pub path_exact : String
    pub methods : Option (List String)
    pub headers : List CompiledMatcher
    pub query_params : List CompiledMatcher
    pub grpc_only : Bool
    pub hostnames : List String
    pub cel_program : Option Program

  unfoldable pub hostname_ok : CompiledRoute → Request → Bool
  unfolding before_colon
  hostname_ok cr req =
      if ltb 0 (length cr.hostnames)
      then any_by (λ h. str_eq h "*" || str_eq h (before_colon req.host)) cr.hostnames
      else true

  abbrev pub path_ok_by : Option Regex → String → String → String → Bool
  path_ok_by (some re) exact prefix path = e.match_string re path
  path_ok_by none exact prefix path =
      if not (str_eq exact "")
      then str_eq path exact
      else if not (str_eq prefix "")
      then starts_with path prefix
      else true

  abbrev pub method_ok_in : Option (List String) → String → Bool
  method_ok_in none method = true
  method_ok_in (some ms) method = any_by (λ m. str_eq m method) ms

  abbrev pub value_ok : Option Regex → String → String → Bool
  value_ok (some re) value val = e.match_string re val
  value_ok none value val = str_eq val value

  abbrev pub matcher_ok : (String → String) → CompiledMatcher → Bool
  matcher_ok get m =
      let val = get m.name in
      if str_eq val ""
      then false
      else if not (str_eq m.value "")
      then value_ok m.regex m.value val
      else true

  -- The checks of match before the CEL expression.
  unfoldable pub passes : CompiledRoute → Request → Bool
  unfolding hostname_ok
  passes cr req =
      hostname_ok cr req
      && path_ok_by cr.path_regex cr.path_exact cr.path_prefix req.path
      && method_ok_in cr.methods req.method
      && (if cr.grpc_only then starts_with (req.header "Content-Type") "application/grpc" else true)
      && all_by (matcher_ok req.header) cr.headers
      && all_by (matcher_ok req.query) cr.query_params

  -- What BufferBody reads of a body.
  abbrev pub body_data : ℕ → String → List ℕ → BodyData
  body_data max_size content_type body =
      if ltb max_size (length body)
      then record { raw = take max_size body; json = none }
      else record {
        raw = body;
        json =
            if starts_with content_type "application/json"
            then (if e.is_json body then some body else none)
            else none;
      }

  -- The request that BufferBody is given, as it leaves it, and the one that it returns.
  abbrev pub buffer_read : ℕ → Request → Option (List ℕ) → Request × Request
  buffer_read max_size r none = (r, record r { buffered = some (record { raw = []; json = none }) })
  buffer_read max_size r (some body) =
      let data_ = body_data max_size (r.header "Content-Type") body in
      (
        record r { body = some data_.raw },
        record r { body = some data_.raw; buffered = some data_ },
      )

  abbrev pub buffer_unless : ℕ → Request → Option BodyData → Request × Request
  buffer_unless max_size r (some data_) = (r, r)
  buffer_unless max_size r none = buffer_read max_size r r.body

  unfoldable pub buffer_body : ℕ → Request → Request × Request
  buffer_body max_size r = buffer_unless max_size r r.buffered

  -- Whether a route matches, the request that match returns, and the caller's request as it leaves it.
  pub record Match : Type 0 where
    pub matched : Bool
    pub returned : Request
    pub left : Request

  unfoldable pub match_cel : ℕ → Option Program → Request → Match
  unfolding buffer_body
  match_cel max_size none req = record { matched = true; returned = req; left = req }
  match_cel max_size (some prg) req =
      let (left, buffered) = if e.needs_body prg then buffer_body max_size req else (req, req) in
      record { matched = e.eval prg buffered; returned = buffered; left = left }

  unfoldable pub match_ : ℕ → CompiledRoute → Request → Match
  unfolding passes match_cel
  match_ max_size cr req =
      if passes cr req
      then match_cel max_size cr.cel_program req
      else record { matched = false; returned = req; left = req }

  -- The route that ServeHTTP hands the request to, and the request; `none` is the answer 404.
  unfoldable pub serve : ℕ → List CompiledRoute → Request → Option (CompiledRoute × Request)
  unfolding match_
  serve max_size [] req = none
  serve max_size (cr ∷ crs) req =
      let m = match_ max_size cr req in
      let rest = serve max_size crs m.left in if m.matched then some (cr, m.returned) else rest
