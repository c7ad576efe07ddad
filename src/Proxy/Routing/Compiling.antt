-- ===== src/Proxy/Routing/Compiling.antt =====
-- The compilation of routes: compileRoute of server/internal/proxy/table.go, and the order in which
-- BuildTable compiles them.
use Prim.Native.String.{◌++◌ as ◌then◌}
use vrata.Common.{
  String, Bool, not, ◌&&◌, Option, none, some, List, [], ◌∷◌, ◌++◌, map, str_eq, if◌then◌else◌,
  any_by, bind,
}
use vrata.Common.StringMap.{lookup, insert}
use vrata.Proxy.Routing.{
  Engine, Matcher, MatchRule, Route, RouteGroup, CompiledMatcher, CompiledRoute,
}

abbrev pub given : String → Bool
given s = not (str_eq s "")

abbrev pub group_regex : Option RouteGroup → String
group_regex none = ""
group_regex (some g) = g.path_regex

abbrev pub group_prefix : Option RouteGroup → String
group_prefix none = ""
group_prefix (some g) = g.path_prefix

abbrev pub group_headers : Option RouteGroup → List Matcher
group_headers none = []
group_headers (some g) = g.headers

abbrev pub group_hostnames : Option RouteGroup → List String
group_hostnames none = []
group_hostnames (some g) = g.hostnames

-- The hostnames of a route that are not there yet are appended.
unfoldable pub merge_hostnames : List String → List String → List String
merge_hostnames merged [] = merged
merge_hostnames merged (h ∷ hs) =
    merge_hostnames (if any_by (λ x. str_eq x h) merged then merged else merged ++ h ∷ []) hs

-- routeByID
unfoldable pub route_by_id : List Route → List (String × Route) → List (String × Route)
route_by_id [] m = m
route_by_id (r ∷ rs) m = route_by_id rs (insert r.id r m)

module _ (e : Engine) where
  open e use {Regex, Program, compile_regex, quote_meta}

  -- The path of a compiled route: pathRegex, pathPrefix and pathExact.
  pub record CompiledPath : Type 0 where
    pub regex : Option Regex
    pub prefix : String
    pub exact : String

  abbrev pub regex_path : String → Option CompiledPath
  regex_path pattern =
      bind (compile_regex ("^" then pattern))
        (λ re. some (record { regex = some re; prefix = ""; exact = "" }))

  abbrev pub composed : String → String → String
  composed outer inner = "(?:" then (outer then (")(?:" then (inner then ")")))

  -- The pattern of a route in a group with a regular expression.
  unfoldable pub group_pattern : String → MatchRule → String
  group_pattern group m =
      if given m.path_regex
      then composed group m.path_regex
      else if given m.path
      then composed group (quote_meta m.path)
      else if given m.path_prefix
      then composed group (quote_meta m.path_prefix)
      else group

  unfoldable pub compile_path : String → String → MatchRule → Option CompiledPath
  unfolding group_pattern
  compile_path group prefix m =
      if given group
      then regex_path (group_pattern group m)
      else if given m.path
      then some (record { regex = none; prefix = ""; exact = prefix then m.path })
      else if given m.path_prefix
      then some (record { regex = none; prefix = prefix then m.path_prefix; exact = "" })
      else if given m.path_regex
      then regex_path (prefix then m.path_regex)
      else some (record { regex = none; prefix = if given prefix then prefix else "/"; exact = "" })

  abbrev pub compile_methods : List String → Option (List String)
  compile_methods [] = none
  compile_methods (m ∷ ms) = some (map e.to_upper (m ∷ ms))

  abbrev pub compile_matcher : Matcher → Option (CompiledMatcher e)
  compile_matcher m =
      if m.regex && given m.value
      then bind (compile_regex m.value)
          (λ re. some (record { name = m.name; value = m.value; regex = some re }))
      else some (record { name = m.name; value = m.value; regex = none })

  unfoldable pub compile_matchers : List Matcher → Option (List (CompiledMatcher e))
  compile_matchers [] = some []
  compile_matchers (m ∷ ms) =
      let rest = compile_matchers ms in
      bind (compile_matcher m) (λ c. bind rest (λ cs. some (c ∷ cs)))

  abbrev pub compile_program : String → Option (Option Program)
  compile_program cel =
      if given cel then bind (e.compile_cel cel) (λ prg. some (some prg)) else some none

  unfoldable pub compile_route : Route → Option RouteGroup → Option (CompiledRoute e)
  unfolding compile_path compile_matchers merge_hostnames
  compile_route r g = bind (compile_path (group_regex g) (group_prefix g) r.match) (λ path.
      bind (compile_matchers (r.match.headers ++ group_headers g)) (λ headers.
        bind (compile_matchers r.match.query_params) (λ query_params.
          bind (compile_program r.match.cel) (λ program. some (record {
            model = r;
            group = g;
            path_regex = path.regex;
            path_prefix = path.prefix;
            path_exact = path.exact;
            methods = compile_methods r.match.methods;
            headers = headers;
            query_params = query_params;
            grpc_only = r.match.grpc;
            hostnames = merge_hostnames (group_hostnames g) r.match.hostnames;
            cel_program = program;
          })))))

  -- The compiled routes so far, and the IDs of the routes in groups.
  abbrev pub Building : Type 0
  Building = List (CompiledRoute e) × List String

  abbrev pub append_compiled :
      Option (CompiledRoute e) → List (CompiledRoute e) → List (CompiledRoute e)
  append_compiled none crs = crs
  append_compiled (some cr) crs = crs ++ cr ∷ []

  unfoldable pub compile_member : RouteGroup → String → Option Route → Building → Building
  unfolding compile_route
  compile_member g id none b = b
  compile_member g id (some r) b = (append_compiled (compile_route r (some g)) b.0, id ∷ b.1)

  unfoldable pub compile_members :
      List (String × Route) → RouteGroup → List String → Building → Building
  unfolding compile_member
  compile_members m g [] b = b
  compile_members m g (id ∷ ids) b = compile_members m g ids (compile_member g id (lookup id m) b)

  unfoldable pub compile_groups : List (String × Route) → List RouteGroup → Building → Building
  unfolding compile_members
  compile_groups m [] b = b
  compile_groups m (g ∷ gs) b = compile_groups m gs (compile_members m g g.route_ids b)

  unfoldable pub compile_standalone :
      List String → List Route → List (CompiledRoute e) → List (CompiledRoute e)
  unfolding compile_route
  compile_standalone grouped [] crs = crs
  compile_standalone grouped (r ∷ rs) crs = compile_standalone grouped rs (
      if any_by (λ id. str_eq id r.id) grouped
      then crs
      else append_compiled (compile_route r none) crs)

  -- The routes of the table that BuildTable makes.
  unfoldable pub build_table : List Route → List RouteGroup → List (CompiledRoute e)
  unfolding route_by_id compile_groups compile_standalone
  build_table routes groups =
      let (crs, grouped) = compile_groups (route_by_id routes []) groups ([], []) in
      compile_standalone grouped routes crs
