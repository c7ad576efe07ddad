-- ===== src/Raft/Replaying.antt =====
-- What the nodes of a cluster become by applying the same log.
use vrata.Common.{
  ℕ, String, ◌≡◌, refl, sym, ap, ◌∙◌, inl, inr, Option, some, [], Option-cases, bind,
}
use vrata.Store.Types.{
  Resource, route_, group_, middleware_, listener_, destination_, secret_, snapshot_,
}
use vrata.Store.Memory.View.{
  Entity, route, group, middleware, listener, destination, secret, snapshot,
}
use vrata.Store.Memory.Events.{Op, saves, deletes, activates}
use vrata.Store.Encrypt.{Bytes}
use vrata.Store.Platform.{Platform, Json, ReadsBack, Documented}
use vrata.Store.Bolt.{Answer, Store}
use vrata.Store.Bolt.Commands.{Command, apply_command, when_decoded}
use vrata.Store.Bolt.Refining.Histories.{call}
use vrata.Raft.{encode_save, encode_bare, encoded, when_command, fsm_apply}

-- A command is read back whose payload is absent, or is what json.Marshal wrote.
pub record Carries {A : Type 0} (c : Json Command) (j : Json A) : Type 0 where
  pub carried :
      (type id : String) (v : A) (raw entry : Bytes)
      → j.marshal v ≡ some raw
      → c.marshal (record { type = type; id = id; payload = raw }) ≡ some entry
      → c.unmarshal entry ≡ some (record { type = type; id = id; payload = raw })

pub record CarriesCommands (p : Platform) (c : Json Command) : Type 0 where
  pub route_part : Carries c p.route_json
  pub group_part : Carries c p.group_json
  pub middleware_part : Carries c p.middleware_json
  pub listener_part : Carries c p.listener_json
  pub destination_part : Carries c p.destination_json
  pub secret_part : Carries c p.secret_json
  pub snapshot_part : Carries c p.snapshot_json
  pub bare_part :
      (type id : String) (entry : Bytes)
      → c.marshal (record { type = type; id = id; payload = [] }) ≡ some entry
      → c.unmarshal entry ≡ some (record { type = type; id = id; payload = [] })

module _ (p : Platform) (command_json : Json Command) where
  open p use {entities}

  -- A save's entry is applied by decoding the value that was saved.
  applied_save :
      {A : Type 0} (j : Json A) (type id : String) (v : A) (entry : Bytes) (s : Store p)
      (draw : Option (ℕ → ℕ)) (save : A → Answer (Store p))
      → Carries command_json j
      → ReadsBack j
      → encode_save p command_json j type id v ≡ some entry
      → ((raw : Bytes) → apply_command p s draw type id raw ≡ when_decoded p (j.unmarshal raw) save)
      → fsm_apply p command_json s draw entry ≡ save v
  unfolding encode_save fsm_apply
  applied_save j type id v entry s draw save carries reads e dispatch =
      elim (Option-cases (j.marshal v)) [
        | inl none_ ↦ absurd (
            cc (
              e,
              ap
                  (λ o.
                    bind o (λ raw.
                      command_json.marshal (record { type = type; id = id; payload = raw })))
                  none_,
            ))
        | inr (raw, f) ↦
            ap (when_command p command_json s draw) (
              carries.carried type id v raw entry f (
                sym (
                  ap
                    (λ o. bind o (λ raw.
                      command_json.marshal (record { type = type; id = id; payload = raw })))
                    f)
                ∙ e))
            ∙ dispatch raw
            ∙ ap (λ o. when_decoded p o save) (reads.unmarshal-marshal v raw f)
      ]

  applied_bare :
      (type id : String) (entry : Bytes) (s : Store p) (draw : Option (ℕ → ℕ))
      → CarriesCommands p command_json
      → encode_bare p command_json type id ≡ some entry
      → fsm_apply p command_json s draw entry ≡ apply_command p s draw type id []
  unfolding encode_bare fsm_apply
  applied_bare type id entry s draw carries e =
      ap (when_command p command_json s draw) (carries.bare_part type id entry e)

  applied_saves :
      (v : Entity entities) (entry : Bytes) (s : Store p) (draw : Option (ℕ → ℕ))
      → Documented p
      → CarriesCommands p command_json
      → encoded p command_json (saves v) ≡ some entry
      → fsm_apply p command_json s draw entry ≡ call p s (saves v, draw)
  unfolding encoded call apply_command
  applied_saves (route v) entry s draw laws carries e =
      applied_save p.route_json "SaveRoute" _ v entry s draw _ carries.route_part laws.route_lem e
        (λ raw. refl)
  applied_saves (group v) entry s draw laws carries e =
      applied_save p.group_json "SaveGroup" _ v entry s draw _ carries.group_part laws.group_lem e
        (λ raw. refl)
  applied_saves (middleware v) entry s draw laws carries e =
      applied_save p.middleware_json "SaveMiddleware" _ v entry s draw _ carries.middleware_part
        laws.middleware_lem e (λ raw. refl)
  applied_saves (listener v) entry s draw laws carries e =
      applied_save p.listener_json "SaveListener" _ v entry s draw _ carries.listener_part
        laws.listener_lem e (λ raw. refl)
  applied_saves (destination v) entry s draw laws carries e =
      applied_save p.destination_json "SaveDestination" _ v entry s draw _ carries.destination_part
        laws.destination_lem e (λ raw. refl)
  applied_saves (secret v) entry s draw laws carries e =
      applied_save p.secret_json "SaveSecret" _ v entry s draw _ carries.secret_part laws.secret_lem
        e (λ raw. refl)
  applied_saves (snapshot v) entry s draw laws carries e =
      applied_save p.snapshot_json "SaveSnapshot" _ v entry s draw _ carries.snapshot_part
        laws.snapshot_lem e (λ raw. refl)

  applied_deletes :
      (r : Resource) (id : String) (entry : Bytes) (s : Store p) (draw : Option (ℕ → ℕ))
      → CarriesCommands p command_json
      → encoded p command_json (deletes r id) ≡ some entry
      → fsm_apply p command_json s draw entry ≡ call p s (deletes r id, draw)
  unfolding encoded call apply_command
  applied_deletes route_ id entry s draw carries e =
      applied_bare "DeleteRoute" id entry s draw carries e
  applied_deletes group_ id entry s draw carries e =
      applied_bare "DeleteGroup" id entry s draw carries e
  applied_deletes middleware_ id entry s draw carries e =
      applied_bare "DeleteMiddleware" id entry s draw carries e
  applied_deletes listener_ id entry s draw carries e =
      applied_bare "DeleteListener" id entry s draw carries e
  applied_deletes destination_ id entry s draw carries e =
      applied_bare "DeleteDestination" id entry s draw carries e
  applied_deletes secret_ id entry s draw carries e =
      applied_bare "DeleteSecret" id entry s draw carries e
  applied_deletes snapshot_ id entry s draw carries e =
      applied_bare "DeleteSnapshot" id entry s draw carries e

  applied_activates :
      (id : String) (entry : Bytes) (s : Store p) (draw : Option (ℕ → ℕ))
      → CarriesCommands p command_json
      → encoded p command_json (activates id) ≡ some entry
      → fsm_apply p command_json s draw entry ≡ call p s (activates id, draw)
  unfolding encoded call apply_command
  applied_activates id entry s draw carries e =
      applied_bare "ActivateSnapshot" id entry s draw carries e

  -- If the platform and the encoding of commands are as documented, then a node that applies the log
  -- entry of a write answers, and becomes, what the write itself makes of its persistent store.
  pub fsm_apply-encoded :
      (o : Op entities) (entry : Bytes) (s : Store p) (draw : Option (ℕ → ℕ))
      → Documented p
      → CarriesCommands p command_json
      → encoded p command_json o ≡ some entry
      → fsm_apply p command_json s draw entry ≡ call p s (o, draw)
  fsm_apply-encoded (saves v) entry s draw laws carries e =
      applied_saves v entry s draw laws carries e
  fsm_apply-encoded (deletes r id) entry s draw laws carries e =
      applied_deletes r id entry s draw carries e
  fsm_apply-encoded (activates id) entry s draw laws carries e =
      applied_activates id entry s draw carries e
