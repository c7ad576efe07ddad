-- ===== src/Store/Memory/Events.antt =====
-- Histories of the store, and the events that its subscribers read.
use vrata.Common.{
  ℕ, zero, suc, ◌+◌, ◌≤◌, ◌<◌, String, ◌≡◌, refl, sym, ap, ◌∙◌, inl, inr, Bool, true, Option, none,
  some, List, [], ◌∷◌, ◌++◌, arith, if◌then◌else◌, Option-cases, length, get_elem?, length-append,
}
use mathlib.Core.List.{append-nil, append_assoc}
use vrata.Common.StringMap.{lookup}
use vrata.Store.Types.{
  EventType, created, updated, deleted, StoreEvent, Resource, group_, route_, middleware_,
  listener_, destination_, secret_, snapshot_, Entities, Result, ok, err, is_some, deliver,
  deliver_all,
}
use vrata.Store.Memory.{Store, activate_snapshot}
use vrata.Store.Memory.View.{
  Entity, route, group, middleware, listener, destination, secret, snapshot, resource_of, id_of,
  save, get, delete,
}

module _ (E : Entities) where
  -- The calls that write to the store.
  pub data Op : Type 0 where
    saves : Entity E → Op
    deletes : Resource → String → Op
    activates : String → Op

  abbrev pub after : Store E → Result (Store E) → Store E
  after s (ok t) = t
  after s (err e) = s

  -- A call that fails leaves the store as it was.
  unfoldable pub step : Store E → Op → Store E
  unfolding activate_snapshot
  step s (saves e) = save E s e
  step s (deletes r id) = after s (delete E s r id)
  step s (activates id) = after s (activate_snapshot E s id)

  unfoldable pub run : Store E → List Op → Store E
  run s [] = s
  run s (o ∷ os) = run (step s o) os

  -- The event that a call is to cause: none if it fails. Saving is announced as an update only for a
  -- secret that is there.
  abbrev pub save_type : Resource → Bool → EventType
  save_type secret_ true = updated
  save_type _ _ = created

  abbrev pub event_of : Store E → Op → Option StoreEvent
  event_of s (saves e) = some (record {
    type = save_type (resource_of E e) (is_some (get E s (resource_of E e) (id_of E e)));
    resource = resource_of E e;
    id = id_of E e;
  })
  event_of s (deletes r id) =
      if is_some (get E s r id)
      then some (record { type = deleted; resource = r; id = id })
      else none
  event_of s (activates id) =
      if is_some (get E s snapshot_ id)
      then some (record { type = updated; resource = snapshot_; id = id })
      else none

  abbrev pub announce : Option StoreEvent → List (List StoreEvent) → List (List StoreEvent)
  announce none subs = subs
  announce (some ev) subs = deliver_all ev subs

  deletes_route :
      (s : Store E) (id : String)
      → (step s (deletes route_ id)).subs ≡ announce (event_of s (deletes route_ id)) s.subs
  unfolding step get delete
  deletes_route s id = elim (Option-cases (lookup id s.routes)) [ inl e ↦ rw e | inr (x, e) ↦ rw e ]

  deletes_group :
      (s : Store E) (id : String)
      → (step s (deletes group_ id)).subs ≡ announce (event_of s (deletes group_ id)) s.subs
  unfolding step get delete
  deletes_group s id = elim (Option-cases (lookup id s.groups)) [ inl e ↦ rw e | inr (x, e) ↦ rw e ]

  deletes_middleware :
      (s : Store E) (id : String)
      → (step s (deletes middleware_ id)).subs
        ≡ announce (event_of s (deletes middleware_ id)) s.subs
  unfolding step get delete
  deletes_middleware s id = elim (Option-cases (lookup id s.filters)) [
    | inl e ↦ rw e
    | inr (x, e) ↦ rw e
  ]

  deletes_listener :
      (s : Store E) (id : String)
      → (step s (deletes listener_ id)).subs ≡ announce (event_of s (deletes listener_ id)) s.subs
  unfolding step get delete
  deletes_listener s id = elim (Option-cases (lookup id s.listeners)) [
    | inl e ↦ rw e
    | inr (x, e) ↦ rw e
  ]

  deletes_destination :
      (s : Store E) (id : String)
      → (step s (deletes destination_ id)).subs
        ≡ announce (event_of s (deletes destination_ id)) s.subs
  unfolding step get delete
  deletes_destination s id = elim (Option-cases (lookup id s.destinations)) [
    | inl e ↦ rw e
    | inr (x, e) ↦ rw e
  ]

  deletes_secret :
      (s : Store E) (id : String)
      → (step s (deletes secret_ id)).subs ≡ announce (event_of s (deletes secret_ id)) s.subs
  unfolding step get delete
  deletes_secret s id = elim (Option-cases (lookup id s.secrets)) [
    | inl e ↦ rw e
    | inr (x, e) ↦ rw e
  ]

  deletes_snapshot :
      (s : Store E) (id : String)
      → (step s (deletes snapshot_ id)).subs ≡ announce (event_of s (deletes snapshot_ id)) s.subs
  unfolding step get delete
  deletes_snapshot s id = elim (Option-cases (lookup id s.snapshots)) [
    | inl e ↦ rw e
    | inr (x, e) ↦ rw e
  ]

  -- Each write delivers one event to every subscriber, or none if it fails: a created event for a save,
  -- but an updated one for a secret that was there; a deleted event for a delete that finds its target;
  -- an updated event for an activation that finds its snapshot.
  pub subs-step : (s : Store E) (o : Op) → (step s o).subs ≡ announce (event_of s o) s.subs
  unfolding step save get
  subs-step s (saves (route x)) = refl
  subs-step s (saves (group x)) = refl
  subs-step s (saves (middleware x)) = refl
  subs-step s (saves (listener x)) = refl
  subs-step s (saves (destination x)) = refl
  subs-step s (saves (secret x)) = elim (Option-cases (lookup x.id s.secrets)) [
    | inl e ↦ rw e
    | inr (y, e) ↦ rw e
  ]
  subs-step s (saves (snapshot x)) = refl
  subs-step s (deletes route_ id) = deletes_route s id
  subs-step s (deletes group_ id) = deletes_group s id
  subs-step s (deletes middleware_ id) = deletes_middleware s id
  subs-step s (deletes listener_ id) = deletes_listener s id
  subs-step s (deletes destination_ id) = deletes_destination s id
  subs-step s (deletes secret_ id) = deletes_secret s id
  subs-step s (deletes snapshot_ id) = deletes_snapshot s id
  subs-step s (activates id) = elim (Option-cases (lookup id s.snapshots)) [
    | inl e ↦ rw e
    | inr (x, e) ↦ rw e
  ]

  -- The events that a history causes, in its order.
  abbrev pub cons_some : Option StoreEvent → List StoreEvent → List StoreEvent
  cons_some none evs = evs
  cons_some (some ev) evs = ev ∷ evs

  abbrev pub events : Store E → List Op → List StoreEvent
  events s [] = []
  events s (o ∷ os) = cons_some (event_of s o) (events (step s o) os)

  get_elem?-deliver_all :
      (ev : StoreEvent) (subs : List (List StoreEvent)) (i : ℕ) (ch : List StoreEvent)
      → get_elem? subs i ≡ some ch
      → length ch < 32
      → get_elem? (deliver_all ev subs) i ≡ some (ch ++ ev ∷ [])
  unfolding deliver
  get_elem?-deliver_all ev [] i ch g h = cc
  get_elem?-deliver_all ev (c ∷ cs) zero ch g h = ground arith
  get_elem?-deliver_all ev (c ∷ cs) (suc i) ch g h = get_elem?-deliver_all ev cs i ch g h

  get_elem?-announce :
      (ev : Option StoreEvent) (subs : List (List StoreEvent)) (i : ℕ) (ch : List StoreEvent)
      → get_elem? subs i ≡ some ch
      → length ch < 32
      → get_elem? (announce ev subs) i ≡ some (ch ++ cons_some ev [])
  get_elem?-announce none subs i ch g h = g ∙ ap some (sym (append-nil ch))
  get_elem?-announce (some ev) subs i ch g h = get_elem?-deliver_all ev subs i ch g h

  append-cons_some :
      (ch : List StoreEvent) (ev : Option StoreEvent) (rest : List StoreEvent)
      → (ch ++ cons_some ev []) ++ rest ≡ ch ++ cons_some ev rest
  append-cons_some ch none rest = rw (append-nil ch)
  append-cons_some ch (some ev) rest = append_assoc ch (ev ∷ []) rest

  length-cons_some :
      (ch : List StoreEvent) (ev : Option StoreEvent)
      → length (ch ++ cons_some ev []) ≤ length ch + 1
  length-cons_some ch none = omega (arith, length-append ch [])
  length-cons_some ch (some ev) = omega (arith, length-append ch (ev ∷ []))

  -- A subscriber that has room for as many events as there are writes finds behind what its buffer held
  -- the events of all of them, in their order.
  pub subs-run :
      (s : Store E) (os : List Op) (i : ℕ) (ch : List StoreEvent)
      → get_elem? s.subs i ≡ some ch
      → length ch + length os ≤ 32
      → get_elem? (run s os).subs i ≡ some (ch ++ events s os)
  unfolding run
  subs-run s [] i ch g h = g ∙ ap some (sym (append-nil ch))
  subs-run s (o ∷ os) i ch g h =
      subs-run (step s o) os i (ch ++ cons_some (event_of s o) [])
        (ap (λ subs. get_elem? subs i) (subs-step s o)
          ∙ get_elem?-announce (event_of s o) s.subs i ch g (omega arith))
        (omega (arith, length-cons_some ch (event_of s o)))
      ∙ ap some (append-cons_some ch (event_of s o) (events (step s o) os))
