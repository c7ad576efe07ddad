-- ===== src/Proxy/Routing/Tests.antt =====
-- The theorems of routing on a table of two routes.
use Prim.Native.String.{◌++◌ as ◌then◌}
use vrata.Common.{
  String, ◌≡◌, refl, Bool, true, false, Option, none, some, [], ◌∷◌, str_eq, if◌then◌else◌,
}
use vrata.Proxy.Routing.{
  Request, Engine, MatchRule, Route, RouteGroup, before_colon, CompiledRoute, passes, serve,
}
use vrata.Proxy.Routing.Compiling.{
  merge_hostnames, compile_path, compile_matchers, compile_route, build_table,
}
use vrata.Proxy.Routing.Matching.{asks_path, asks, passes-compile_route}
use vrata.Proxy.Routing.Table.{with_id, members, grouped, candidates}
use vrata.Proxy.Routing.First.{IgnoresBody, takes, serve-build_table}

-- A regular expression is a text that a path has to be, and a program is its answer.
abbrev engine : Engine
engine = record {
  Regex = String;
  compile_regex = λ s. if str_eq s "^(" then none else some s;
  match_string = λ re s. str_eq ("^" then s) re;
  quote_meta = λ s. s;
  Program = Bool;
  compile_cel = λ s. if str_eq s "true" then some true else none;
  needs_body = λ prg. false;
  eval = λ prg req. prg;
  to_upper = λ s. if str_eq s "get" then "GET" else s;
  is_json = λ b. false;
}

abbrev any_rule : MatchRule
any_rule = record {
  path = "";
  path_prefix = "";
  path_regex = "";
  methods = [];
  headers = [];
  query_params = [];
  hostnames = [];
  grpc = false;
  cel = "";
}

abbrev users : Route
users = record {
  id = "users";
  name = "users";
  match = record any_rule {
    path = "/users";
    methods = "get" ∷ [];
    headers = record { name = "X-Key"; value = ""; regex = false } ∷ [];
    cel = "true";
  };
}

abbrev fallback : Route
fallback = record { id = "fallback"; name = "fallback"; match = any_rule }

abbrev api : RouteGroup
api = record {
  id = "api";
  name = "api";
  route_ids = "users" ∷ "gone" ∷ [];
  path_prefix = "/api";
  path_regex = "";
  hostnames = "example.org" ∷ [];
  headers = [];
}

abbrev request : Request
request = record {
  host = "example.org:8080";
  path = "/api/users";
  method = "GET";
  header = λ name. if str_eq name "X-Key" then "k" else "";
  query = λ name. "";
  body = none;
  buffered = none;
}

abbrev compiled_or_fallback : Option (CompiledRoute engine) → CompiledRoute engine
compiled_or_fallback none = record {
  model = fallback;
  group = none;
  path_regex = none;
  path_prefix = "/";
  path_exact = "";
  methods = none;
  headers = [];
  query_params = [];
  grpc_only = false;
  hostnames = [];
  cel_program = none;
}
compiled_or_fallback (some cr) = cr

abbrev compiled_users : CompiledRoute engine
unfolding compile_route
compiled_users = compiled_or_fallback (compile_route engine users (some api))

passes-compile_route_example : passes engine compiled_users request ≡ true
unfolding asks asks_path before_colon compile_route compile_path compile_matchers compiled_users
passes-compile_route_example =
    passes-compile_route engine users (some api) compiled_users request refl

quiet : (r : Route) → IgnoresBody engine r
quiet r prg f = refl

serve-build_table_example :
    serve engine 10 (build_table engine (fallback ∷ users ∷ []) (api ∷ [])) request
    ≡ some (compiled_users, request)
unfolding takes asks asks_path before_colon compile_route compile_path compile_matchers
    compiled_users candidates grouped members with_id merge_hostnames
serve-build_table_example =
    serve-build_table engine 10 (fallback ∷ users ∷ []) (api ∷ []) request
      (quiet fallback, (quiet users, tt))
