-- ===== src/Proxy/Routing/Serving.antt =====
-- The table that is built holds the candidates that compile, in their order.
use vrata.Common.{
  String, ◌≡◌, refl, sym, ap, ap₂, ◌∙◌, inl, inr, Bool, true, not, ◌&&◌, ◌||◌, Option, none, some,
  List, [], ◌∷◌, ◌++◌, map, arith, str_eq, eq_iff, if◌then◌else◌, Bool-cases, filter_by, any_by,
  All,
}
use vrata.Common.StringMap.{lookup}
use vrata.Proxy.Routing.{Engine, Route, RouteGroup}
use vrata.Proxy.Routing.Compiling.{
  route_by_id, Building, compile_member, compile_members, compile_groups, build_table,
}
use vrata.Proxy.Routing.Table.{
  is_some, with_id, grouped, listed, candidates, lookup-routes, compiled, compiled-append,
  compiled-compile_groups, compiled-compile_standalone,
}

abbrev has_id : String → List String → Bool
has_id k ids = any_by (λ x. str_eq x k) ids

module _ (e : Engine) (m : List (String × Route)) (k : String) where
  has_id-compile_member :
      (g : RouteGroup) (id : String) (o : Option Route) (b : Building e)
      → lookup id m ≡ o
      → has_id k (compile_member e g id o b).1
        ≡ (has_id k b.1 || (str_eq id k && is_some (lookup k m)))
  unfolding compile_member
  has_id-compile_member g id none b f = elim (Bool-cases (str_eq id k)) [
    | inl same ↦ ground (arith, ap (λ x. is_some (lookup x m)) ((eq_iff id k).0 same), ap is_some f)
    | inr other ↦ ground (arith, other)
  ]
  has_id-compile_member g id (some r) b f = elim (Bool-cases (str_eq id k)) [
    | inl same ↦ ground (arith, ap (λ x. is_some (lookup x m)) ((eq_iff id k).0 same), ap is_some f)
    | inr other ↦ ground (arith, other)
  ]

  has_id-compile_members :
      (g : RouteGroup) (ids : List String) (b : Building e)
      → has_id k (compile_members e m g ids b).1
        ≡ (has_id k b.1 || (has_id k ids && is_some (lookup k m)))
  unfolding compile_members
  has_id-compile_members g [] b = ground arith
  has_id-compile_members g (id ∷ ids) b =
      has_id-compile_members g ids (compile_member e g id (lookup id m) b)
      ∙ ground (arith, has_id-compile_member g id (lookup id m) b refl)

  has_id-compile_groups :
      (gs : List RouteGroup) (b : Building e)
      → has_id k (compile_groups e m gs b).1
        ≡ (has_id k b.1 || (listed gs k && is_some (lookup k m)))
  unfolding compile_groups
  has_id-compile_groups [] b = ground arith
  has_id-compile_groups (g ∷ gs) b =
      has_id-compile_groups gs (compile_members e m g g.route_ids b)
      ∙ ground (arith, has_id-compile_members g g.route_ids b)

-- Every route of the second list is found by its ID in the first.
abbrev AllFound : List Route → List Route → Type 0
AllFound routes = All (λ r. is_some (with_id r.id routes) ≡ true)

AllFound-cons : (r : Route) (routes rs : List Route) → AllFound routes rs → AllFound (r ∷ routes) rs
unfolding with_id
AllFound-cons r routes [] a = tt
AllFound-cons r routes (x ∷ rs) (a, as_) = (rw a a, AllFound-cons r routes rs as_)

found_itself :
    (r : Route) (later : Option Route)
    → is_some (if is_some later then later else if str_eq r.id r.id then some r else none) ≡ true
found_itself r none = rw ((eq_iff r.id r.id).1 refl) refl
found_itself r (some x) = refl

all_AllFound : (routes : List Route) → AllFound routes routes
unfolding with_id
all_AllFound [] = tt
all_AllFound (r ∷ rs) = (found_itself r (with_id r.id rs), AllFound-cons r rs rs (all_AllFound rs))

filter_by-same :
    (p q : Route → Bool) (rs : List Route)
    → All (λ r. p r ≡ q r) rs
    → filter_by p rs ≡ filter_by q rs
filter_by-same p q [] a = refl
filter_by-same p q (r ∷ rs) (a, as_) = rw (a, filter_by-same p q rs as_) refl

module _ (e : Engine) where
  alone_iff :
      (routes rs : List Route) (groups : List RouteGroup)
      → AllFound routes rs
      → All
          (λ r.
            not (has_id r.id (compile_groups e (route_by_id routes []) groups ([], [])).1)
            ≡ not (listed groups r.id))
          rs
  alone_iff routes [] groups a = tt
  alone_iff routes (r ∷ rs) groups (a, as_) = (
    ap not (
        has_id-compile_groups e (route_by_id routes []) r.id groups ([], [])
        ∙ rw (lookup-routes routes r.id, a) (ground arith)),
    alone_iff routes rs groups as_,
  )

  -- The table has the candidates that compile, in their order.
  pub build_table-candidates :
      (routes : List Route) (groups : List RouteGroup)
      → build_table e routes groups ≡ compiled e (candidates routes groups)
  unfolding build_table candidates
  build_table-candidates routes groups =
      compiled-compile_standalone e _ routes _
      ∙ ap₂ (λ xs rs. xs ++ compiled e (map (λ r. (r, none)) rs))
          (compiled-compile_groups e routes groups ([], []))
          (filter_by-same _ _ routes (alone_iff routes routes groups (all_AllFound routes)))
      ∙ sym (compiled-append e (grouped routes groups) _)
