-- ===== src/Raft.antt =====
-- Replication: the commands that a write becomes and that every node applies
-- (server/internal/store/raftstore/raftstore.go, and server/internal/raft/fsm.go and node.go), on the
-- persistent store.
--
-- hashicorp/raft brings the committed entries to every node in one order: the log is a list that is
-- given. The JSON encoding of a command and net.SplitHostPort with net.JoinHostPort are arguments.
pub mod Replaying
pub mod Converging
mod Tests
use vrata.Common.{
  dec_lt, dec_le, ℕ_discrete, ℕ, zero, suc, ◌+◌, ◌-◌, ◌*◌, ◌/◌, ◌%◌, ◌^◌, ◌≤◌, ◌<◌, String, ◌≡◌,
  refl, sym, ap, ap₂, ◌∙◌, ◌≢◌, ◌↔◌, ◌⊎◌, inl, inr, Bool, true, false, not, ◌&&◌, ◌||◌, Option,
  none, some, List, [], ◌∷◌, ◌++◌, map, arith, str_eq, eq_iff, ltb, leb, ◌==◌, if◌then◌else◌,
  ltb→lt, lt→ltb, leb→le, le→leb, ==_iff, Bool-cases, Option-cases, length, get_elem?, replicate,
  filter_by, filter_by_comm, filter_by-append, count_by-append, All-filter_by, any_by, count_by,
  length-append, All, bind, bind-some, unwrap,
}
use vrata.Store.Types.{
  Resource, route_, group_, middleware_, listener_, destination_, secret_, snapshot_,
}
use vrata.Store.Memory.View.{
  Entity, route, group, middleware, listener, destination, secret, snapshot,
}
use vrata.Store.Memory.Events.{Op, saves, deletes, activates}
use vrata.Store.Encrypt.{Bytes}
use vrata.Store.Platform.{Platform, Json}
use vrata.Store.Bolt.{Answer, done, refused, failed, Store}
use vrata.Store.Bolt.Commands.{Command, apply_command}

-- What the node knows of the cluster: whether it leads, and the Raft address of the leader, blank if
-- there is none; and its own HTTP address.
pub record Node : Type 0 where
  pub is_leader : Bool
  pub leader_addr : String
  pub http_addr : String

-- net.SplitHostPort and net.JoinHostPort
pub record Net : Type 0 where
  pub split_host_port : String → Option (String × String)
  pub join_host_port : String → String → String

-- Where an encoded command goes: into the log of this node, to the leader at an HTTP address, or
-- nowhere.
pub data Submission : Type 0 where
  apply_raw : Bytes → Submission
  forward : String → Bytes → Submission
  no_leader : Submission
  not_encoded : Submission

abbrev pub joined : Net → Option (String × String) → Option (String × String) → String
joined net none own = ""
joined net (some leader) none = ""
joined net (some leader) (some own) = net.join_host_port leader.0 own.1

-- Node.LeaderHTTPAddr
unfoldable pub leader_http_addr : Net → Node → String
leader_http_addr net n =
    if str_eq n.leader_addr ""
    then ""
    else joined net (net.split_host_port n.leader_addr) (net.split_host_port n.http_addr)

unfoldable pub forward_to_leader : Net → Node → Bytes → Submission
unfolding leader_http_addr
forward_to_leader net n entry =
    let addr = leader_http_addr net n in if str_eq addr "" then no_leader else forward addr entry

-- Store.apply, on the encoded command.
unfoldable pub submit : Net → Node → Option Bytes → Submission
unfolding forward_to_leader
submit net n none = not_encoded
submit net n (some entry) = if n.is_leader then apply_raw entry else forward_to_leader net n entry

module _ (p : Platform) (command_json : Json Command) where
  open p use {entities}

  -- The encoding of Store.apply, of a save and of a command without payload.
  unfoldable pub encode_save : {A : Type 0} → Json A → String → String → A → Option Bytes
  encode_save j type id v =
      bind (j.marshal v)
        (λ raw. command_json.marshal (record { type = type; id = id; payload = raw }))

  unfoldable pub encode_bare : String → String → Option Bytes
  encode_bare type id = command_json.marshal (record { type = type; id = id; payload = [] })

  -- The encoded command of each write of the Raft-backed store.
  unfoldable pub encoded : Op entities → Option Bytes
  unfolding encode_save encode_bare
  encoded (saves (route v)) = encode_save p.route_json "SaveRoute" (entities.route_id v) v
  encoded (saves (group v)) = encode_save p.group_json "SaveGroup" (entities.group_id v) v
  encoded (saves (middleware v)) =
      encode_save p.middleware_json "SaveMiddleware" (entities.middleware_id v) v
  encoded (saves (listener v)) =
      encode_save p.listener_json "SaveListener" (entities.listener_id v) v
  encoded (saves (destination v)) =
      encode_save p.destination_json "SaveDestination" (entities.destination_id v) v
  encoded (saves (secret v)) = encode_save p.secret_json "SaveSecret" v.id v
  encoded (saves (snapshot v)) = encode_save p.snapshot_json "SaveSnapshot" v.id v
  encoded (deletes route_ id) = encode_bare "DeleteRoute" id
  encoded (deletes group_ id) = encode_bare "DeleteGroup" id
  encoded (deletes middleware_ id) = encode_bare "DeleteMiddleware" id
  encoded (deletes listener_ id) = encode_bare "DeleteListener" id
  encoded (deletes destination_ id) = encode_bare "DeleteDestination" id
  encoded (deletes secret_ id) = encode_bare "DeleteSecret" id
  encoded (deletes snapshot_ id) = encode_bare "DeleteSnapshot" id
  encoded (activates id) = encode_bare "ActivateSnapshot" id

  abbrev pub when_command : Store p → Option (ℕ → ℕ) → Option Command → Answer (Store p)
  when_command s draw none = failed
  when_command s draw (some cmd) = apply_command p s draw cmd.type cmd.id cmd.payload

  -- FSM.Apply
  unfoldable pub fsm_apply : Store p → Option (ℕ → ℕ) → Bytes → Answer (Store p)
  fsm_apply s draw entry = when_command s draw (command_json.unmarshal entry)
