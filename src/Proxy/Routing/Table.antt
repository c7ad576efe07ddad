-- ===== src/Proxy/Routing/Table.antt =====
-- The routes of a table, in their order, and the one that a request is handed to.
use mathlib.Core.List.{append-nil, append_assoc}
use vrata.Common.{
  String, ◌≡◌, refl, sym, ap, ◌∙◌, inl, inr, Bool, true, false, not, Option, none, some, List, [],
  ◌∷◌, ◌++◌, map, str_eq, if◌then◌else◌, Bool-cases, filter_by, any_by,
}
use vrata.Common.StringMap.{lookup, insert, lookup-insert}
use vrata.Proxy.Routing.{Engine, Route, RouteGroup, CompiledRoute}
use vrata.Proxy.Routing.Compiling.{
  compile_route, route_by_id, Building, append_compiled, compile_member, compile_members,
  compile_groups, compile_standalone,
}

-- A route, with the group that it is compiled for.
abbrev pub Candidate : Type 0
Candidate = Route × Option RouteGroup

abbrev pub is_some {ℓ} : {A : Type ℓ} → Option A → Bool
is_some none = false
is_some (some a) = true

abbrev pub list_of {ℓ} : {A : Type ℓ} → Option A → List A
list_of none = []
list_of (some a) = a ∷ []

-- The last route with an ID.
unfoldable pub with_id : String → List Route → Option Route
with_id id [] = none
with_id id (r ∷ rs) =
    let later = with_id id rs in
    if is_some later then later else if str_eq r.id id then some r else none

abbrev pub as_member : RouteGroup → Option Route → List Candidate
as_member g none = []
as_member g (some r) = (r, some g) ∷ []

unfoldable pub members : List Route → RouteGroup → List String → List Candidate
unfolding with_id
members routes g [] = []
members routes g (id ∷ ids) = as_member g (with_id id routes) ++ members routes g ids

unfoldable pub grouped : List Route → List RouteGroup → List Candidate
unfolding members
grouped routes [] = []
grouped routes (g ∷ gs) = members routes g g.route_ids ++ grouped routes gs

-- Whether some group lists an ID.
abbrev pub listed : List RouteGroup → String → Bool
listed gs id = any_by (λ g. any_by (λ x. str_eq x id) g.route_ids) gs

-- The members of the groups first, and then the routes that no group lists.
unfoldable pub candidates : List Route → List RouteGroup → List Candidate
unfolding grouped
candidates routes groups =
    grouped routes groups ++ map (λ r. (r, none)) (filter_by (λ r. not (listed groups r.id)) routes)

found_last :
    (later : Option Route) (o : Option Route) (r : Route) (c : Bool)
    → (if is_some later then later else if c then some r else o) ≡ (
        if is_some (if is_some later then later else if c then some r else none)
        then (if is_some later then later else if c then some r else none)
        else o)
found_last none o r true = refl
found_last none o r false = refl
found_last (some x) o r c = refl

lookup-route_by_id :
    (rs : List Route) (m : List (String × Route)) (id : String)
    → lookup id (route_by_id rs m)
      ≡ (if is_some (with_id id rs) then with_id id rs else lookup id m)
unfolding route_by_id with_id
lookup-route_by_id [] m id = refl
lookup-route_by_id (r ∷ rs) m id =
    lookup-route_by_id rs (insert r.id r m) id
    ∙ ap (λ o. if is_some (with_id id rs) then with_id id rs else o) (lookup-insert id r.id r m)
    ∙ found_last (with_id id rs) (lookup id m) r (str_eq r.id id)

or_none : (o : Option Route) → (if is_some o then o else none) ≡ o
or_none none = refl
or_none (some r) = refl

-- routeByID has the last route with each ID.
pub lookup-routes : (rs : List Route) (id : String) → lookup id (route_by_id rs []) ≡ with_id id rs
unfolding lookup
lookup-routes rs id = lookup-route_by_id rs [] id ∙ or_none (with_id id rs)

module _ (e : Engine) where
  unfoldable pub compiled : List Candidate → List (CompiledRoute e)
  unfolding compile_route
  compiled [] = []
  compiled (c ∷ cs) = list_of (compile_route e c.0 c.1) ++ compiled cs

  pub compiled-append : (xs ys : List Candidate) → compiled (xs ++ ys) ≡ compiled xs ++ compiled ys
  unfolding compiled
  compiled-append [] ys = refl
  compiled-append (x ∷ xs) ys =
      ap (λ t. list_of (compile_route e x.0 x.1) ++ t) (compiled-append xs ys)
      ∙ sym (append_assoc (list_of (compile_route e x.0 x.1)) (compiled xs) (compiled ys))

  append_compiled_lem :
      (o : Option (CompiledRoute e)) (crs : List (CompiledRoute e))
      → append_compiled e o crs ≡ crs ++ list_of o
  append_compiled_lem none crs = sym (append-nil crs)
  append_compiled_lem (some cr) crs = refl

  compiled-compile_members :
      (routes : List Route) (g : RouteGroup) (ids : List String) (b : Building e)
      → (compile_members e (route_by_id routes []) g ids b).0
        ≡ b.0 ++ compiled (members routes g ids)
  unfolding compile_members compile_member compiled members
  compiled-compile_members routes g [] b = sym (append-nil b.0)
  compiled-compile_members routes g (id ∷ ids) b =
      compiled-compile_members routes g ids
        (compile_member e g id (lookup id (route_by_id routes [])) b)
      ∙ one (lookup id (route_by_id routes [])) (with_id id routes) (lookup-routes routes id)
    where
      member :
          (q : Option Route)
          → (compile_member e g id q b).0 ++ compiled (members routes g ids)
            ≡ b.0 ++ compiled (as_member g q ++ members routes g ids)
      member none = refl
      member (some r) =
          ap (λ t. t ++ compiled (members routes g ids))
            (append_compiled_lem (compile_route e r (some g)) b.0)
          ∙ append_assoc b.0 (list_of (compile_route e r (some g)))
              (compiled (members routes g ids))

      one :
          (o q : Option Route)
          → o ≡ q
          → (compile_member e g id o b).0 ++ compiled (members routes g ids)
            ≡ b.0 ++ compiled (as_member g q ++ members routes g ids)
      one o q same =
          ap (λ x. (compile_member e g id x b).0 ++ compiled (members routes g ids)) same ∙ member q

  pub compiled-compile_groups :
      (routes : List Route) (gs : List RouteGroup) (b : Building e)
      → (compile_groups e (route_by_id routes []) gs b).0 ≡ b.0 ++ compiled (grouped routes gs)
  unfolding compile_groups compiled grouped
  compiled-compile_groups routes [] b = sym (append-nil b.0)
  compiled-compile_groups routes (g ∷ gs) b =
      compiled-compile_groups routes gs (compile_members e (route_by_id routes []) g g.route_ids b)
      ∙ ap (λ t. t ++ compiled (grouped routes gs))
          (compiled-compile_members routes g g.route_ids b)
      ∙ append_assoc b.0 (compiled (members routes g g.route_ids)) (compiled (grouped routes gs))
      ∙ ap (λ t. b.0 ++ t)
          (sym (compiled-append (members routes g g.route_ids) (grouped routes gs)))

  pub compiled-compile_standalone :
      (ids : List String) (rs : List Route) (crs : List (CompiledRoute e))
      → compile_standalone e ids rs crs
        ≡ crs
          ++ compiled
              (map (λ r. (r, none)) (filter_by (λ r. not (any_by (λ id. str_eq id r.id) ids)) rs))
  unfolding compile_standalone compiled
  compiled-compile_standalone ids [] crs = sym (append-nil crs)
  compiled-compile_standalone ids (r ∷ rs) crs =
      elim (Bool-cases (any_by (λ id. str_eq id r.id) ids)) [
        | inl there ↦ rw there (compiled-compile_standalone ids rs crs)
        | inr alone ↦ rw alone (
            compiled-compile_standalone ids rs (append_compiled e (compile_route e r none) crs)
            ∙ ap (λ t. t ++ alone_rest) (append_compiled_lem (compile_route e r none) crs)
            ∙ append_assoc crs (list_of (compile_route e r none)) alone_rest)
      ]
    where
      alone_rest : List (CompiledRoute e)
      alone_rest =
          compiled
            (map (λ r. (r, none)) (filter_by (λ r. not (any_by (λ id. str_eq id r.id) ids)) rs))
