-- ===== src/Store/Bolt/Refining/Histories.antt =====
-- Histories of writes to the persistent store, and those that they are of the in-memory store.
use vrata.Common.{ℕ, String, ◌≡◌, refl, sym, ap, ◌∙◌, Option, List, [], ◌∷◌}
use mathlib.Core.Path.{subst}
use vrata.Store.Types.{
  Resource, group_, route_, middleware_, listener_, destination_, secret_, snapshot_, Result, ok,
  err,
}
use vrata.Store.Memory
use vrata.Store.Memory.View.{
  Entity, route, group, middleware, listener, destination, secret, snapshot, save, delete,
}
use vrata.Store.Memory.Events.{Op, saves, deletes, activates, after}
use vrata.Store.Memory.Events
use vrata.Store.Platform.{Platform, Documented}
use vrata.Store.Bolt.{
  Answer, done, refused, failed, Store, save_route, delete_route, save_group, delete_group,
  save_middleware, delete_middleware, save_listener, delete_listener, save_destination,
  delete_destination,
}
use vrata.Store.Bolt.Sealed.{
  save_secret, delete_secret, save_snapshot, delete_snapshot, activate_snapshot,
}
use vrata.Store.Bolt.Refining.{Refines, Follows}
use vrata.Store.Bolt.Refining.Writes.{
  Follows-save_route, Follows-delete_route, Follows-save_group, Follows-delete_group,
  Follows-save_middleware, Follows-delete_middleware, Follows-save_listener,
  Follows-delete_listener, Follows-save_destination, Follows-delete_destination,
}
use vrata.Store.Bolt.Refining.Sealed.{
  Follows-save_secret, Follows-delete_secret, Follows-save_snapshot, Follows-delete_snapshot,
  Follows-activate_snapshot,
}

module _ (p : Platform) where
  open p use {entities}

  -- A write, with what the random source gives it.
  abbrev pub Call : Type 0
  Call = Op entities × Option (ℕ → ℕ)

  unfoldable pub call : Store p → Call → Answer (Store p)
  unfolding save_route save_group save_middleware save_listener save_destination save_secret
      save_snapshot delete_route delete_group delete_middleware delete_listener delete_destination
      delete_secret delete_snapshot activate_snapshot
  call s (saves (route x), draw) = save_route p s x
  call s (saves (group x), draw) = save_group p s x
  call s (saves (middleware x), draw) = save_middleware p s x
  call s (saves (listener x), draw) = save_listener p s x
  call s (saves (destination x), draw) = save_destination p s x
  call s (saves (secret x), draw) = save_secret p s draw x
  call s (saves (snapshot x), draw) = save_snapshot p s draw x
  call s (deletes route_ id, draw) = delete_route p s id
  call s (deletes group_ id, draw) = delete_group p s id
  call s (deletes middleware_ id, draw) = delete_middleware p s id
  call s (deletes listener_ id, draw) = delete_listener p s id
  call s (deletes destination_ id, draw) = delete_destination p s id
  call s (deletes secret_ id, draw) = delete_secret p s id
  call s (deletes snapshot_ id, draw) = delete_snapshot p s id
  call s (activates id, draw) = activate_snapshot p s id

  -- The same write to the in-memory store.
  abbrev pub plain_call : Memory.Store entities → Op entities → Result (Memory.Store entities)
  plain_call m (saves e) = ok (save entities m e)
  plain_call m (deletes r id) = delete entities m r id
  plain_call m (activates id) = Memory.activate_snapshot entities m id

  abbrev pub left : Store p → Answer (Store p) → Store p
  left s (done t) = t
  left s (refused e) = s
  left s failed = s

  unfoldable pub run : Store p → List Call → Store p
  unfolding call
  run s [] = s
  run s (c ∷ cs) = run (left s (call s c)) cs

  -- The writes of a history that did not fail.
  abbrev pub unless_failed :
      Answer (Store p) → Op entities → List (Op entities) → List (Op entities)
  unless_failed (done s) o os = o ∷ os
  unless_failed (refused e) o os = o ∷ os
  unless_failed failed o os = os

  unfoldable pub accepted : Store p → List Call → List (Op entities)
  unfolding call
  accepted s [] = []
  accepted s ((o, draw) ∷ cs) =
      let answer = call s (o, draw) in unless_failed answer o (accepted (left s answer) cs)

  Follows-save :
      (m : Memory.Store entities) (s : Store p) (e : Entity entities) (draw : Option (ℕ → ℕ))
      → Documented p
      → Refines p m s
      → Follows p (call s (saves e, draw)) (ok (save entities m e))
  unfolding call save
  Follows-save m s (route x) draw laws h = Follows-save_route p m s x laws h
  Follows-save m s (group x) draw laws h = Follows-save_group p m s x laws h
  Follows-save m s (middleware x) draw laws h = Follows-save_middleware p m s x laws h
  Follows-save m s (listener x) draw laws h = Follows-save_listener p m s x laws h
  Follows-save m s (destination x) draw laws h = Follows-save_destination p m s x laws h
  Follows-save m s (secret x) draw laws h = Follows-save_secret p m s draw x laws h
  Follows-save m s (snapshot x) draw laws h = Follows-save_snapshot p m s draw x laws h

  Follows-delete :
      (m : Memory.Store entities) (s : Store p) (r : Resource) (id : String) (draw : Option (ℕ → ℕ))
      → Documented p
      → Refines p m s
      → Follows p (call s (deletes r id, draw)) (delete entities m r id)
  unfolding call delete
  Follows-delete m s route_ id draw laws h = Follows-delete_route p m s id laws h
  Follows-delete m s group_ id draw laws h = Follows-delete_group p m s id laws h
  Follows-delete m s middleware_ id draw laws h = Follows-delete_middleware p m s id laws h
  Follows-delete m s listener_ id draw laws h = Follows-delete_listener p m s id laws h
  Follows-delete m s destination_ id draw laws h = Follows-delete_destination p m s id laws h
  Follows-delete m s secret_ id draw laws h = Follows-delete_secret p m s id laws h
  Follows-delete m s snapshot_ id draw laws h = Follows-delete_snapshot p m s id laws h

  -- If the platform is as documented, then a write to stores that agree fails in the persistent store,
  -- or is refused in both for the same reason, or is done in both and leaves stores that agree.
  pub call-Follows :
      (m : Memory.Store entities) (s : Store p) (o : Op entities) (draw : Option (ℕ → ℕ))
      → Documented p
      → Refines p m s
      → Follows p (call s (o, draw)) (plain_call m o)
  unfolding call
  call-Follows m s (saves e) draw laws h = Follows-save m s e draw laws h
  call-Follows m s (deletes r id) draw laws h = Follows-delete m s r id draw laws h
  call-Follows m s (activates id) draw laws h = Follows-activate_snapshot p m s id laws h

  step-after :
      (m : Memory.Store entities) (o : Op entities)
      → Events.step entities m o ≡ after entities m (plain_call m o)
  unfolding Events.step
  step-after m (saves e) = refl
  step-after m (deletes r id) = refl
  step-after m (activates id) = refl

  next :
      (m : Memory.Store entities) (s : Store p) (o : Op entities) (cs : List Call)
      (answer : Answer (Store p)) (q : Result (Memory.Store entities))
      → plain_call m o ≡ q
      → Follows p answer q
      → Refines p m s
      → ((n : Memory.Store entities) (t : Store p)
          → Refines p n t
          → Refines p (Events.run entities n (accepted t cs)) (run t cs))
      → Refines p
          (Events.run entities m (unless_failed answer o (accepted (left s answer) cs)))
          (run (left s answer) cs)
  unfolding Events.run
  next m s o cs failed q e f h rest = rest m s h
  next m s o cs (refused x) q e f h rest =
      subst (λ n. Refines p (Events.run entities n (accepted s cs)) (run s cs))
        (sym (step-after m o ∙ ap (after entities m) (e ∙ f))) (rest m s h)
  next m s o cs (done t) (err x) e f h rest = absurd f
  next m s o cs (done t) (ok n) e f h rest =
      subst (λ n. Refines p (Events.run entities n (accepted t cs)) (run t cs))
        (sym (step-after m o ∙ ap (after entities m) e)) (rest n t f)

  -- If bbolt, the encodings and the cipher are as documented, then after any history of writes a
  -- persistent store that agreed with an in-memory store agrees with what that store becomes by the
  -- writes that did not fail: every Get answers alike, the same snapshot is active, and the
  -- subscribers have been told the same.
  pub run-Refines :
      (m : Memory.Store entities) (s : Store p) (cs : List Call)
      → Documented p
      → Refines p m s
      → Refines p (Events.run entities m (accepted s cs)) (run s cs)
  unfolding run accepted Events.run
  run-Refines m s [] laws h = h
  run-Refines m s ((o, draw) ∷ cs) laws h =
      next m s o cs (call s (o, draw)) (plain_call m o) refl (call-Follows m s o draw laws h) h
        (λ n t. run-Refines n t cs laws)
