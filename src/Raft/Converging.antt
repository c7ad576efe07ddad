-- ===== src/Raft/Converging.antt =====
-- Two nodes that apply the same log answer alike.
use vrata.Common.{ℕ, suc, String, ◌≡◌, refl, sym, ap, ◌∙◌, Option, some, List, [], ◌∷◌}
use vrata.Store.Types.{
  Resource, route_, group_, middleware_, listener_, destination_, secret_, snapshot_,
}
use vrata.Store.Memory
use vrata.Store.Memory.Events
use vrata.Store.Memory.Events.{Op}
use vrata.Store.Encrypt.{Bytes}
use vrata.Store.Platform.{Platform, Json, Documented}
use vrata.Store.Bolt.{Store, get_route, get_group, get_middleware, get_listener, get_destination}
use vrata.Store.Bolt.Sealed.{get_secret, get_snapshot, get_active_snapshot}
use vrata.Store.Bolt.Commands.{Command}
use vrata.Store.Bolt.Refining.{Refines, Agrees}
use vrata.Store.Bolt.Refining.Histories.{Call, call, run, left, accepted, run-Refines}
use vrata.Store.Bolt.Refining.Reading.{get_active_snapshot-Refines}
use vrata.Raft.{encoded, fsm_apply}
use vrata.Raft.Replaying.{CarriesCommands, fsm_apply-encoded}

module _ (p : Platform) (command_json : Json Command) where
  open p use {entities}

  -- The log of a sequence of writes.
  abbrev pub Logs : List (Op entities) → List Bytes → Type 0
  Logs [] [] = Unit
  Logs [] (e ∷ es) = ⊥
  Logs (o ∷ os) [] = ⊥
  Logs (o ∷ os) (e ∷ es) = (encoded p command_json o ≡ some e) × Logs os es

  -- A node that applies a log, with what its own random source gives at each entry.
  unfoldable pub replay : Store p → List Bytes → (ℕ → Option (ℕ → ℕ)) → Store p
  unfolding fsm_apply
  replay s [] draws = s
  replay s (e ∷ es) draws =
      replay (left p s (fsm_apply p command_json s (draws 0) e)) es (λ n. draws (suc n))

  abbrev pub calls : List (Op entities) → (ℕ → Option (ℕ → ℕ)) → List (Call p)
  calls [] draws = []
  calls (o ∷ os) draws = (o, draws 0) ∷ calls os (λ n. draws (suc n))

  replay-calls :
      (os : List (Op entities)) (es : List Bytes) (draws : ℕ → Option (ℕ → ℕ)) (s : Store p)
      → Documented p
      → CarriesCommands p command_json
      → Logs os es
      → replay s es draws ≡ run p s (calls os draws)
  unfolding replay run
  replay-calls [] [] draws s laws carries h = refl
  replay-calls [] (e ∷ es) draws s laws carries h = absurd h
  replay-calls (o ∷ os) [] draws s laws carries h = absurd h
  replay-calls (o ∷ os) (e ∷ es) draws s laws carries (h, hs) =
      ap (λ a. replay (left p s a) es (λ n. draws (suc n)))
        (fsm_apply-encoded p command_json o e s (draws 0) laws carries h)
      ∙ replay-calls os es (λ n. draws (suc n)) (left p s (call p s (o, draws 0))) laws carries hs

  -- The Gets of a resource answer alike.
  abbrev pub SameGet : Store p → Store p → Resource → Type 0
  SameGet s t route_ = (id : String) → get_route p s id ≡ get_route p t id
  SameGet s t group_ = (id : String) → get_group p s id ≡ get_group p t id
  SameGet s t middleware_ = (id : String) → get_middleware p s id ≡ get_middleware p t id
  SameGet s t listener_ = (id : String) → get_listener p s id ≡ get_listener p t id
  SameGet s t destination_ = (id : String) → get_destination p s id ≡ get_destination p t id
  SameGet s t secret_ = (id : String) → get_secret p s id ≡ get_secret p t id
  SameGet s t snapshot_ = (id : String) → get_snapshot p s id ≡ get_snapshot p t id

  same_get :
      (m : Memory.Store entities) (s t : Store p) (r : Resource)
      → Agrees p m s r
      → Agrees p m t r
      → SameGet s t r
  unfolding get_route get_group get_middleware get_listener get_destination get_secret get_snapshot
  same_get m s t route_ a b = λ id. a id ∙ sym (b id)
  same_get m s t group_ a b = λ id. a id ∙ sym (b id)
  same_get m s t middleware_ a b = λ id. a id ∙ sym (b id)
  same_get m s t listener_ a b = λ id. a id ∙ sym (b id)
  same_get m s t destination_ a b = λ id. a id ∙ sym (b id)
  same_get m s t secret_ a b = λ id. a id ∙ sym (b id)
  same_get m s t snapshot_ a b = λ id. a id ∙ sym (b id)

  -- Two nodes answer every Get, and GetActiveSnapshot, alike.
  pub record SameAnswers (s t : Store p) : Type 0 where
    pub gets : (r : Resource) → SameGet s t r
    pub active : get_active_snapshot p s ≡ get_active_snapshot p t

  both_refine :
      (m : Memory.Store entities) (s t : Store p) → Refines p m s → Refines p m t → SameAnswers s t
  both_refine m s t h k = record {
    gets = λ r. same_get m s t r (h.each r) (k.each r);
    active = get_active_snapshot-Refines p m s h ∙ sym (get_active_snapshot-Refines p m t k);
  }

  -- If the platform and the encoding of commands are as documented, then two nodes that agree with one
  -- in-memory store and apply one log, each with a random source of its own, answer every Get alike
  -- afterwards, provided that the same entries of it did not fail on both.
  pub replay-SameAnswers :
      (m : Memory.Store entities) (s t : Store p) (os : List (Op entities)) (es : List Bytes)
      (draws others : ℕ → Option (ℕ → ℕ))
      → Documented p
      → CarriesCommands p command_json
      → Refines p m s
      → Refines p m t
      → Logs os es
      → accepted p s (calls os draws) ≡ accepted p t (calls os others)
      → SameAnswers (replay s es draws) (replay t es others)
  replay-SameAnswers m s t os es draws others laws carries h k logs same =
      rw
        (
          replay-calls os es draws s laws carries logs,
          replay-calls os es others t laws carries logs,
        )
        (both_refine (Events.run entities m (accepted p s (calls os draws))) _ _
          (run-Refines p m s (calls os draws) laws h)
          (rw same (run-Refines p m t (calls os others) laws k)))
