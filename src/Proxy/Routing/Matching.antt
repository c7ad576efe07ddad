-- ===== src/Proxy/Routing/Matching.antt =====
-- A compiled route lets pass the requests that its route and its group ask for.
use Prim.Native.String.{[] as end, ◌∷◌ as ◌followed_by◌, ◌++◌ as ◌then◌}
use Prim.Native.String.append
use text.Mathlib.TextLemmas.{cons≢nil}
use text.Mathlib.Text.{starts_with}
use vrata.Common.{
  String, ◌≡◌, refl, sym, ap, ap₂, ◌∙◌, inl, inr, Bool, true, false, ◌&&◌, ◌||◌, Option, none, some,
  List, [], ◌∷◌, ◌++◌, map, arith, str_eq, eq_iff, ltb, if◌then◌else◌, Bool-cases, length, any_by,
  bind-some, unwrap,
}
use vrata.Proxy.Routing.{
  Request, Engine, Matcher, MatchRule, Route, RouteGroup, before_colon, all_by, CompiledMatcher,
  CompiledRoute, hostname_ok, path_ok_by, method_ok_in, matcher_ok, passes,
}
use vrata.Proxy.Routing.Hostnames.{any_by-merge_hostnames, length-merge_hostnames}
use vrata.Proxy.Routing.Compiling.{
  given, group_regex, group_prefix, group_headers, group_hostnames, merge_hostnames, CompiledPath,
  regex_path, group_pattern, compile_path, compile_methods, compile_matcher, compile_matchers,
  compile_program, compile_route,
}

module _ (e : Engine) where
  open e use {compile_regex, match_string, to_upper}

  -- Whether a text matches a pattern, which has to be a regular expression.
  abbrev pub pattern_ok : String → String → Bool
  pattern_ok pattern text = elim (compile_regex pattern) [
    | none ↦ false
    | some re ↦ match_string re text
  ]

  -- What a route and its group ask of the path.
  unfoldable pub asks_path : Option RouteGroup → MatchRule → String → Bool
  unfolding group_pattern
  asks_path g m path =
      if given (group_regex g)
      then pattern_ok ("^" then group_pattern e (group_regex g) m) path
      else if given m.path
      then str_eq path (group_prefix g then m.path)
      else if given m.path_prefix
      then starts_with path (group_prefix g then m.path_prefix)
      else if given m.path_regex
      then pattern_ok ("^" then (group_prefix g then m.path_regex)) path
      else starts_with path (if given (group_prefix g) then group_prefix g else "/")

  -- The host is listed by the group or the route, or neither lists any.
  abbrev pub asks_host : List String → List String → String → Bool
  asks_host group own host =
      if ltb 0 (length group) || ltb 0 (length own)
      then any_by (λ h. str_eq h "*" || str_eq h host) group
        || any_by (λ h. str_eq h "*" || str_eq h host) own
      else true

  abbrev pub asks_method : List String → String → Bool
  asks_method [] method = true
  asks_method (m ∷ ms) method = any_by (λ x. str_eq (to_upper x) method) (m ∷ ms)

  -- A value is there; if one is asked for it is that, or matches it as a regular expression.
  abbrev pub asks_value : (String → String) → Matcher → Bool
  asks_value get m =
      given (get m.name)
      && (if given m.value
          then (if m.regex then pattern_ok m.value (get m.name) else str_eq (get m.name) m.value)
          else true)

  unfoldable pub asks : Route → Option RouteGroup → Request → Bool
  unfolding before_colon asks_path
  asks r g req =
      asks_host (group_hostnames g) r.match.hostnames (before_colon req.host)
      && asks_path g r.match req.path
      && asks_method r.match.methods req.method
      && (if r.match.grpc then starts_with (req.header "Content-Type") "application/grpc" else true)
      && all_by (asks_value req.header) (r.match.headers ++ group_headers g)
      && all_by (asks_value req.query) r.match.query_params

  asks_host-merge_hostnames :
      (group own : List String) (host : String)
      → (if ltb 0 (length (merge_hostnames group own))
          then any_by (λ h. str_eq h "*" || str_eq h host) (merge_hostnames group own)
          else true)
        ≡ asks_host group own host
  asks_host-merge_hostnames group own host =
      rw
        (
          length-merge_hostnames group own,
          any_by-merge_hostnames (λ h. str_eq h "*" || str_eq h host) group own,
        )
        refl

  regex_path-pattern_ok :
      (pattern path : String) (p : CompiledPath e)
      → regex_path e pattern ≡ some p
      → path_ok_by e p.regex p.exact p.prefix path ≡ pattern_ok ("^" then pattern) path
  regex_path-pattern_ok pattern path p h =
      let (re, h1, k) = bind-some (compile_regex ("^" then pattern)) _ p h in
      ap (λ q. path_ok_by e q.regex q.exact q.prefix path) (sym (unwrap _ p k))
      ∙ sym (ap (λ o. elim o [ none ↦ false | some x ↦ match_string x path ]) h1)

  given-then : (a b : String) → given b ≡ true → given (a then b) ≡ true
  given-then end b h = ap given (append.nil b) ∙ h
  given-then (c followed_by a) b h =
      ap given (append.cons c a b) ∙ given-cons (c followed_by (a then b)) refl
    where
      given-cons : (s : String) → s ≡ c followed_by (a then b) → given s ≡ true
      given-cons s same = elim (Bool-cases (str_eq s "")) [
        | inl blank ↦ absurd (cons≢nil (sym same ∙ (eq_iff s "").0 blank))
        | inr other ↦ rw other refl
      ]

  -- A path of one of the two kinds without a regular expression.
  exact_path : (x path : String) → given x ≡ true → path_ok_by e none x "" path ≡ str_eq path x
  exact_path x path h = rw h refl

  prefix_path :
      (x path : String) → given x ≡ true → path_ok_by e none "" x path ≡ starts_with path x
  prefix_path x path h = rw h refl

  made :
      (q p : CompiledPath e) (path : String)
      → some q ≡ some p
      → path_ok_by e p.regex p.exact p.prefix path ≡ path_ok_by e q.regex q.exact q.prefix path
  made q p path h = ap (λ x. path_ok_by e x.regex x.exact x.prefix path) (sym (unwrap q p h))

  prefix_or_root : (prefix : String) → given (if given prefix then prefix else "/") ≡ true
  prefix_or_root prefix = elim (Bool-cases (given prefix)) [ inl h ↦ rw h h | inr h ↦ rw h refl ]

  compile_path-asks_path :
      (g : Option RouteGroup) (m : MatchRule) (path : String) (p : CompiledPath e)
      → compile_path e (group_regex g) (group_prefix g) m ≡ some p
      → path_ok_by e p.regex p.exact p.prefix path ≡ asks_path g m path
  unfolding compile_path asks_path
  compile_path-asks_path g m path p h = elim (Bool-cases (given (group_regex g))) [
    | inl a ↦ rw a (regex_path-pattern_ok _ path p (rw a at h))
    | inr a ↦ elim (Bool-cases (given m.path)) [
      | inl b ↦
          rw (a, b)
            (made _ p path (rw (a, b) at h)
              ∙ exact_path (group_prefix g then m.path) path (given-then (group_prefix g) m.path b))
      | inr b ↦ elim (Bool-cases (given m.path_prefix)) [
        | inl c ↦
            rw (a, b, c)
              (made _ p path (rw (a, b, c) at h)
                ∙ prefix_path (group_prefix g then m.path_prefix) path
                    (given-then (group_prefix g) m.path_prefix c))
        | inr c ↦ elim (Bool-cases (given m.path_regex)) [
          | inl d ↦ rw (a, b, c, d) (regex_path-pattern_ok _ path p (rw (a, b, c, d) at h))
          | inr d ↦
              rw (a, b, c, d)
                (made _ p path (rw (a, b, c, d) at h)
                  ∙ prefix_path _ path (prefix_or_root (group_prefix g)))
        ]
      ]
    ]
  ]

  any_by-map :
      (ms : List String) (method : String)
      → any_by (λ m. str_eq m method) (map to_upper ms)
        ≡ any_by (λ m. str_eq (to_upper m) method) ms
  any_by-map [] method = refl
  any_by-map (m ∷ ms) method =
      ap (λ b. if str_eq (to_upper m) method then true else b) (any_by-map ms method)

  compile_methods-asks_method :
      (ms : List String) (method : String)
      → method_ok_in e (compile_methods e ms) method ≡ asks_method ms method
  compile_methods-asks_method [] method = refl
  compile_methods-asks_method (m ∷ ms) method = any_by-map (m ∷ ms) method

  compile_matcher-asks_value :
      (get : String → String) (m : Matcher) (c : CompiledMatcher e)
      → compile_matcher e m ≡ some c
      → matcher_ok e get c ≡ asks_value get m
  compile_matcher-asks_value get m c h = elim (Bool-cases (m.regex && given m.value)) [
    | inl both ↦
        let (re, h1, k) = bind-some (compile_regex m.value) _ c (rw both at h) in
        let pattern : pattern_ok m.value (get m.name) ≡ match_string re (get m.name) =
          ap (λ o. elim o [ none ↦ false | some x ↦ match_string x (get m.name) ]) h1 in
        ap (matcher_ok e get) (sym (unwrap _ c k)) ∙ ground (arith, pattern, both)
    | inr plain ↦ ap (matcher_ok e get) (sym (unwrap _ c (rw plain at h))) ∙ ground (arith, plain)
  ]

  compile_matchers-asks_value :
      (get : String → String) (ms : List Matcher) (cs : List (CompiledMatcher e))
      → compile_matchers e ms ≡ some cs
      → all_by (matcher_ok e get) cs ≡ all_by (asks_value get) ms
  unfolding compile_matchers
  compile_matchers-asks_value get [] cs h = ap (all_by (matcher_ok e get)) (sym (unwrap [] cs h))
  compile_matchers-asks_value get (m ∷ ms) cs h =
      let (c, h1, k) = bind-some (compile_matcher e m) _ cs h in
      let (rest, h2, l) = bind-some (compile_matchers e ms) _ cs k in
      ap (all_by (matcher_ok e get)) (sym (unwrap (c ∷ rest) cs l))
      ∙ ap₂ (λ a b. a && b) (compile_matcher-asks_value get m c h1)
          (compile_matchers-asks_value get ms rest h2)

  -- If a route compiles, then the compiled route lets a request pass, up to the CEL expression, exactly
  -- if it asks for it: the group or the route lists the host, without its port, or lists "*", or neither
  -- lists any host; the path is the group's prefix or pattern with the route's path behind it; the content
  -- type of a request for a gRPC route starts with application/grpc; and the method, the headers of both
  -- and the query match.
  pub passes-compile_route :
      (r : Route) (g : Option RouteGroup) (cr : CompiledRoute e) (req : Request)
      → compile_route e r g ≡ some cr
      → passes e cr req ≡ asks r g req
  unfolding compile_route passes hostname_ok asks
  passes-compile_route r g cr req h =
      let (p, h1, k1) =
        bind-some (compile_path e (group_regex g) (group_prefix g) r.match) _ cr h in
      let (hs, h2, k2) =
        bind-some (compile_matchers e (r.match.headers ++ group_headers g)) _ cr k1 in
      let (qs, h3, k3) = bind-some (compile_matchers e r.match.query_params) _ cr k2 in
      let (prg, h4, k4) = bind-some (compile_program e r.match.cel) _ cr k3 in
      ap (λ c. passes e c req) (sym (unwrap _ cr k4))
      ∙ rw
          (
            asks_host-merge_hostnames (group_hostnames g) r.match.hostnames (before_colon req.host),
            compile_path-asks_path g r.match req.path p h1,
            compile_methods-asks_method r.match.methods req.method,
            compile_matchers-asks_value req.header (r.match.headers ++ group_headers g) hs h2,
            compile_matchers-asks_value req.query r.match.query_params qs h3,
          )
          refl
