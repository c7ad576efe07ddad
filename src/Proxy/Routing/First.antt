-- ===== src/Proxy/Routing/First.antt =====
-- A request is handed to the first candidate that compiles and asks for it.
use vrata.Common.{
  ℕ, String, ◌≡◌, refl, sym, ap, ◌∙◌, inl, inr, Bool, true, false, not, ◌&&◌, Option, none, some,
  List, [], ◌∷◌, ◌++◌, map, str_eq, if◌then◌else◌, Bool-cases, Option-cases, All-filter_by, All,
  bind, bind-some, unwrap,
}
use vrata.Proxy.Routing.{
  Request, Engine, Route, RouteGroup, CompiledRoute, passes, Match, match_cel, match_, serve,
}
use vrata.Proxy.Routing.Compiling.{
  given, group_regex, group_prefix, group_headers, compile_path, compile_matchers, compile_program,
  compile_route, build_table,
}
use vrata.Proxy.Routing.Matching.{asks, passes-compile_route}
use vrata.Proxy.Routing.Table.{
  Candidate, is_some, list_of, with_id, as_member, members, grouped, listed, candidates, compiled,
}
use vrata.Proxy.Routing.Serving.{build_table-candidates}

abbrev pub first_by {ℓ} : {A : Type ℓ} → (A → Bool) → List A → Option A
first_by p [] = none
first_by p (x ∷ xs) = if p x then some x else first_by p xs

module _ {A B : Type 0} (P : A → Type 0) (Q : B → Type 0) where
  All-append : (xs ys : List A) → All P xs → All P ys → All P (xs ++ ys)
  All-append [] ys a b = b
  All-append (x ∷ xs) ys (a, as_) b = (a, All-append xs ys as_ b)

  All-map : (f : B → A) → ((x : B) → Q x → P (f x)) → (xs : List B) → All Q xs → All P (map f xs)
  All-map f h [] a = tt
  All-map f h (x ∷ xs) (a, as_) = (h x a, All-map f h xs as_)

-- What holds of all routes holds of all candidates.
module _ (P : Route → Type 0) where
  abbrev AllRoutes : List Candidate → Type 0
  AllRoutes = All (λ c. P c.0)

  with_id-All : (rs : List Route) (id : String) → All P rs → All P (list_of (with_id id rs))
  unfolding with_id
  with_id-All [] id a = tt
  with_id-All (r ∷ rs) id (a, as_) = choose (with_id id rs) (str_eq r.id id) (with_id-All rs id as_)
    where
      choose :
          (later : Option Route) (c : Bool)
          → All P (list_of later)
          → All P (list_of (if is_some later then later else if c then some r else none))
      choose none true h = (a, tt)
      choose none false h = tt
      choose (some x) c h = h

  as_member-All :
      (g : RouteGroup) (o : Option Route) → All P (list_of o) → AllRoutes (as_member g o)
  as_member-All g none h = tt
  as_member-All g (some r) h = h

  members-All :
      (rs : List Route) (g : RouteGroup) (ids : List String)
      → All P rs
      → AllRoutes (members rs g ids)
  unfolding members
  members-All rs g [] a = tt
  members-All rs g (id ∷ ids) a =
      All-append (λ c. P c.0) P (as_member g (with_id id rs)) (members rs g ids)
        (as_member-All g (with_id id rs) (with_id-All rs id a)) (members-All rs g ids a)

  grouped-All : (rs : List Route) (gs : List RouteGroup) → All P rs → AllRoutes (grouped rs gs)
  unfolding grouped
  grouped-All rs [] a = tt
  grouped-All rs (g ∷ gs) a =
      All-append (λ c. P c.0) P (members rs g g.route_ids) (grouped rs gs)
        (members-All rs g g.route_ids a) (grouped-All rs gs a)

  candidates-All :
      (rs : List Route) (gs : List RouteGroup) → All P rs → AllRoutes (candidates rs gs)
  unfolding candidates
  candidates-All rs gs a =
      All-append (λ c. P c.0) P (grouped rs gs) _ (grouped-All rs gs a)
        (All-map (λ c. P c.0) P (λ r. (r, none)) (λ r h. h) _
          (All-filter_by (λ r. not (listed gs r.id)) P rs a))

module _ (e : Engine) where
  -- The CEL expression of a route, if there is one, does not read the body.
  abbrev pub IgnoresBody : Route → Type 0
  IgnoresBody r =
      (prg : e.Program) → e.compile_cel r.match.cel ≡ some prg → e.needs_body prg ≡ false

  abbrev pub asks_cel : String → Request → Bool
  asks_cel cel req =
      if given cel
      then elim (e.compile_cel cel) [ none ↦ false | some prg ↦ e.eval prg req ]
      else true

  -- A candidate compiles, and its route, its group and its CEL expression ask for the request.
  unfoldable pub takes : Request → Candidate → Bool
  unfolding asks compile_route
  takes req c =
      is_some (compile_route e c.0 c.1) && (asks e c.0 c.1 req && asks_cel c.0.match.cel req)

  found : Bool → Request → Match e
  found b req = record { matched = b; returned = req; left = req }

  unread :
      (max_size : ℕ) (prg : e.Program) (req : Request)
      → e.needs_body prg ≡ false
      → match_cel e max_size (some prg) req ≡ found (e.eval prg req) req
  unfolding match_cel found
  unread max_size prg req h = rw h refl

  match_cel-asks_cel :
      (max_size : ℕ) (r : Route) (o : Option e.Program) (req : Request)
      → IgnoresBody r
      → compile_program e r.match.cel ≡ some o
      → match_cel e max_size o req ≡ found (asks_cel r.match.cel req) req
  unfolding match_cel found
  match_cel-asks_cel max_size r o req quiet h = elim (Bool-cases (given r.match.cel)) [
    | inl there ↦
        let (prg, f, k) = bind-some (e.compile_cel r.match.cel) _ o (rw there at h) in
        let asked : asks_cel r.match.cel req ≡ e.eval prg req =
          rw there (ap (λ q. elim q [ none ↦ false | some x ↦ e.eval x req ]) f) in
        ap (λ x. match_cel e max_size x req) (sym (unwrap _ o k))
        ∙ unread max_size prg req (quiet prg f)
        ∙ ap (λ b. found b req) (sym asked)
    | inr no_ ↦ ap (λ x. match_cel e max_size x req) (sym (unwrap _ o (rw no_ at h))) ∙ rw no_ refl
  ]

  match_-asks :
      (max_size : ℕ) (r : Route) (g : Option RouteGroup) (cr : CompiledRoute e) (req : Request)
      → IgnoresBody r
      → compile_route e r g ≡ some cr
      → match_ e max_size cr req ≡ found (asks e r g req && asks_cel r.match.cel req) req
  unfolding match_ found compile_route
  match_-asks max_size r g cr req quiet h =
      let (path, h1, k1) =
        bind-some (compile_path e (group_regex g) (group_prefix g) r.match) _ cr h in
      let (hs, h2, k2) =
        bind-some (compile_matchers e (r.match.headers ++ group_headers g)) _ cr k1 in
      let (qs, h3, k3) = bind-some (compile_matchers e r.match.query_params) _ cr k2 in
      let (o, h4, k4) = bind-some (compile_program e r.match.cel) _ cr k3 in
      ap (λ x. if passes e cr req then match_cel e max_size x req else found false req)
        (sym (ap (λ c. c.cel_program) (unwrap _ cr k4)))
      ∙ rw (passes-compile_route e r g cr req h, match_cel-asks_cel max_size r o req quiet h4)
          (both (asks e r g req) (asks_cel r.match.cel req))
    where
      both : (a b : Bool) → (if a then found b req else found false req) ≡ found (a && b) req
      both true b = refl
      both false b = refl

  serve-compiled :
      (max_size : ℕ) (cs : List Candidate) (req : Request)
      → All (λ c. IgnoresBody c.0) cs
      → serve e max_size (compiled e cs) req
        ≡ bind
            (first_by (takes req) cs)
            (λ c. bind (compile_route e c.0 c.1) (λ cr. some (cr, req)))
  unfolding serve compiled takes found
  serve-compiled max_size [] req a = refl
  serve-compiled max_size (c ∷ cs) req (a, as_) = elim (Option-cases (compile_route e c.0 c.1)) [
    | inl fails ↦ rw fails (serve-compiled max_size cs req as_)
    | inr (cr, f) ↦
        let asked = asks e c.0 c.1 req && asks_cel c.0.match.cel req in
        elim (Bool-cases asked) [
          | inl there ↦
              rw (f, match_-asks max_size c.0 c.1 cr req a f, there)
                (sym (ap (λ o. bind o (λ x. some (x, req))) f))
          | inr no_ ↦
              rw (f, match_-asks max_size c.0 c.1 cr req a f, no_)
                (serve-compiled max_size cs req as_)
        ]
  ]

  -- If no CEL expression reads the body, then on the table that BuildTable makes of routes and groups a
  -- request is handed to the first of the candidates that compiles and asks for it, unchanged, or to
  -- none: the candidates are the members of the groups in their order, and then the routes that no group
  -- lists. The kind and the length of their paths do not count.
  pub serve-build_table :
      (max_size : ℕ) (routes : List Route) (groups : List RouteGroup) (req : Request)
      → All IgnoresBody routes
      → serve e max_size (build_table e routes groups) req
        ≡ bind
            (first_by (takes req) (candidates routes groups))
            (λ c. bind (compile_route e c.0 c.1) (λ cr. some (cr, req)))
  serve-build_table max_size routes groups req a =
      ap (λ t. serve e max_size t req) (build_table-candidates e routes groups)
      ∙ serve-compiled max_size (candidates routes groups) req
          (candidates-All IgnoresBody routes groups a)
