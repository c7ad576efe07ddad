-- ===== src/Store/Memory/Active.antt =====
-- The active snapshot: what GetActiveSnapshot returns after any history.
use vrata.Common.{
  String, ◌≡◌, refl, ◌∙◌, ◌≢◌, ◌⊎◌, inl, inr, Bool, true, false, none, some, List, [], ◌∷◌, arith,
  str_eq, eq_iff, if◌then◌else◌, Bool-cases, Option-cases,
}
use vrata.Common.StringMap.{lookup, lookup-insert, lookup-delete, delete as remove}
use vrata.Store.Types.{
  Entities, group_, route_, middleware_, listener_, destination_, secret_, snapshot_, ok, err,
  no_active_snapshot,
}
use vrata.Store.Memory.{Store, VersionedSnapshot, new, get_snapshot, get_active_snapshot}
use vrata.Store.Memory.View.{
  route, group, middleware, listener, destination, secret, snapshot, save, delete,
}
use vrata.Store.Memory.Events.{Op, saves, deletes, activates, step, run}

module _ (E : Entities) where
  -- A snapshot stands under its own ID, and the active ID is that of a snapshot, or empty.
  pub record HasActive (s : Store E) : Type 0 where
    pub keyed :
        (id : String) (vs : VersionedSnapshot E) → lookup id s.snapshots ≡ some vs → vs.id ≡ id
    pub present : (s.active_snap ≢ "") → lookup s.active_snap s.snapshots ≢ none

  new-HasActive : HasActive (new E)
  unfolding new lookup
  new-HasActive = record { keyed = λ id vs e. cc; present = λ ne. absurd (ne refl) }

  saved-HasActive :
      (s : Store E) (x : VersionedSnapshot E)
      → HasActive s
      → HasActive (step E s (saves (snapshot x)))
  unfolding step save
  saved-HasActive s x h = record {
    keyed = λ id vs e.
        ground (arith, lookup-insert id x.id x s.snapshots, eq_iff x.id id, h.keyed id vs);
    present = λ ne e. ground (arith, lookup-insert s.active_snap x.id x s.snapshots, h.present ne);
  }

  -- Where another ID is active than the one deleted, it stays; otherwise none is.
  still_present :
      (s : Store E) (id active : String) (b : Bool)
      → str_eq s.active_snap id ≡ b
      → active ≡ (if b then "" else s.active_snap)
      → HasActive s
      → active ≢ ""
      → lookup active (remove id s.snapshots) ≢ none
  still_present s id active true b e h ne gone = absurd (ne e)
  still_present s id active false b e h ne gone =
      h.present (λ z. ne (e ∙ z))
        (ground
          (arith, lookup-delete active id s.snapshots, eq_iff s.active_snap id, eq_iff id active))

  deleted-HasActive :
      (s : Store E) (id : String) → HasActive s → HasActive (step E s (deletes snapshot_ id))
  unfolding step delete
  deleted-HasActive s id h = elim (Option-cases (lookup id s.snapshots)) [
    | inl e ↦ rw e h
    | inr (x, e) ↦ rw e (record {
      keyed = λ j vs f. ground (arith, lookup-delete j id s.snapshots, h.keyed j vs);
      present = still_present s id _ _ refl refl h;
    })
  ]

  activated-HasActive :
      (s : Store E) (id : String) → HasActive s → HasActive (step E s (activates id))
  unfolding step
  activated-HasActive s id h = elim (Option-cases (lookup id s.snapshots)) [
    | inl e ↦ rw e h
    | inr (x, e) ↦ rw e (record { keyed = h.keyed; present = λ ne gone. cc })
  ]

  deleted_route-HasActive :
      (s : Store E) (id : String) → HasActive s → HasActive (step E s (deletes route_ id))
  unfolding step delete
  deleted_route-HasActive s id h = elim (Option-cases (lookup id s.routes)) [
    | inl e ↦ rw e h
    | inr (x, e) ↦ rw e (record { keyed = h.keyed; present = h.present })
  ]

  deleted_group-HasActive :
      (s : Store E) (id : String) → HasActive s → HasActive (step E s (deletes group_ id))
  unfolding step delete
  deleted_group-HasActive s id h = elim (Option-cases (lookup id s.groups)) [
    | inl e ↦ rw e h
    | inr (x, e) ↦ rw e (record { keyed = h.keyed; present = h.present })
  ]

  deleted_middleware-HasActive :
      (s : Store E) (id : String) → HasActive s → HasActive (step E s (deletes middleware_ id))
  unfolding step delete
  deleted_middleware-HasActive s id h = elim (Option-cases (lookup id s.filters)) [
    | inl e ↦ rw e h
    | inr (x, e) ↦ rw e (record { keyed = h.keyed; present = h.present })
  ]

  deleted_listener-HasActive :
      (s : Store E) (id : String) → HasActive s → HasActive (step E s (deletes listener_ id))
  unfolding step delete
  deleted_listener-HasActive s id h = elim (Option-cases (lookup id s.listeners)) [
    | inl e ↦ rw e h
    | inr (x, e) ↦ rw e (record { keyed = h.keyed; present = h.present })
  ]

  deleted_destination-HasActive :
      (s : Store E) (id : String) → HasActive s → HasActive (step E s (deletes destination_ id))
  unfolding step delete
  deleted_destination-HasActive s id h = elim (Option-cases (lookup id s.destinations)) [
    | inl e ↦ rw e h
    | inr (x, e) ↦ rw e (record { keyed = h.keyed; present = h.present })
  ]

  deleted_secret-HasActive :
      (s : Store E) (id : String) → HasActive s → HasActive (step E s (deletes secret_ id))
  unfolding step delete
  deleted_secret-HasActive s id h = elim (Option-cases (lookup id s.secrets)) [
    | inl e ↦ rw e h
    | inr (x, e) ↦ rw e (record { keyed = h.keyed; present = h.present })
  ]

  step-HasActive : (s : Store E) (o : Op E) → HasActive s → HasActive (step E s o)
  unfolding step save
  step-HasActive s (saves (route x)) h = record { keyed = h.keyed; present = h.present }
  step-HasActive s (saves (group x)) h = record { keyed = h.keyed; present = h.present }
  step-HasActive s (saves (middleware x)) h = record { keyed = h.keyed; present = h.present }
  step-HasActive s (saves (listener x)) h = record { keyed = h.keyed; present = h.present }
  step-HasActive s (saves (destination x)) h = record { keyed = h.keyed; present = h.present }
  step-HasActive s (saves (secret x)) h = record { keyed = h.keyed; present = h.present }
  step-HasActive s (saves (snapshot x)) h = saved-HasActive s x h
  step-HasActive s (deletes route_ id) h = deleted_route-HasActive s id h
  step-HasActive s (deletes group_ id) h = deleted_group-HasActive s id h
  step-HasActive s (deletes middleware_ id) h = deleted_middleware-HasActive s id h
  step-HasActive s (deletes listener_ id) h = deleted_listener-HasActive s id h
  step-HasActive s (deletes destination_ id) h = deleted_destination-HasActive s id h
  step-HasActive s (deletes secret_ id) h = deleted_secret-HasActive s id h
  step-HasActive s (deletes snapshot_ id) h = deleted-HasActive s id h
  step-HasActive s (activates id) h = activated-HasActive s id h

  run-HasActive : (s : Store E) (os : List (Op E)) → HasActive s → HasActive (run E s os)
  unfolding run
  run-HasActive s [] h = h
  run-HasActive s (o ∷ os) h = run-HasActive (step E s o) os (step-HasActive s o h)

  active_of :
      (s : Store E)
      → HasActive s
      → s.active_snap ≢ ""
      → (vs : VersionedSnapshot E) × (get_active_snapshot E s ≡ ok vs)
        × (get_snapshot E s s.active_snap ≡ ok vs)
        × (vs.id ≡ s.active_snap)
  unfolding get_active_snapshot get_snapshot
  active_of s h ne = elim (Option-cases (lookup s.active_snap s.snapshots)) [
    | inl e ↦ absurd (h.present ne e)
    | inr (vs, e) ↦ (vs, ground (arith, eq_iff s.active_snap ""), rw e, h.keyed s.active_snap vs e)
  ]

  none_active :
      (s : Store E) → s.active_snap ≡ "" → get_active_snapshot E s ≡ err no_active_snapshot
  unfolding get_active_snapshot
  none_active s e = ground (arith, eq_iff s.active_snap "")

  -- After any writes to a new store, GetActiveSnapshot fails exactly where no ID is active, and
  -- otherwise returns the snapshot that GetSnapshot finds under the active ID, which bears that ID.
  pub get_active_snapshot-run :
      (os : List (Op E))
      → let s = run E (new E) os in
        ((s.active_snap ≡ "") × (get_active_snapshot E s ≡ err no_active_snapshot))
        ⊎ ((s.active_snap ≢ "")
            × ((vs : VersionedSnapshot E) × (get_active_snapshot E s ≡ ok vs)
                × (get_snapshot E s s.active_snap ≡ ok vs)
                × (vs.id ≡ s.active_snap)))
  get_active_snapshot-run os = elim (Bool-cases (str_eq active "")) [
    | inl e ↦ inl ((eq_iff active "").0 e, none_active s ((eq_iff active "").0 e))
    | inr e ↦ inr (named e, active_of s (run-HasActive (new E) os new-HasActive) (named e))
  ]
    where
      s : Store E
      s = run E (new E) os

      active : String
      active = s.active_snap

      named : str_eq active "" ≡ false → active ≢ ""
      named e z = cc ((eq_iff active "").1 z)
