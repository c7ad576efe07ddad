-- ===== src/Store/Bolt/Commands.antt =====
-- The replicated commands: ApplyCommand of server/internal/store/bolt/bolt.go, and Command with its
-- types of server/internal/raft/fsm.go.
use vrata.Common.{ℕ, String, Option, none, some, str_eq, if◌then◌else◌}
use vrata.Store.Encrypt.{Bytes}
use vrata.Store.Platform.{Platform}
use vrata.Store.Bolt.{
  Answer, failed, Store, save_route, delete_route, save_group, delete_group, save_middleware,
  delete_middleware, save_listener, delete_listener, save_destination, delete_destination,
}
use vrata.Store.Bolt.Sealed.{
  save_secret, delete_secret, save_snapshot, delete_snapshot, activate_snapshot,
}

-- An absent payload, json.RawMessage(nil), is the empty list.
pub record Command : Type 0 where
  pub type : String
  pub id : String
  pub payload : Bytes

module _ (p : Platform) where
  open p use {entities}

  abbrev pub when_decoded {ℓ} : {A : Type ℓ} → Option A → (A → Answer (Store p)) → Answer (Store p)
  when_decoded none f = failed
  when_decoded (some v) f = f v

  unfoldable pub apply_command :
      Store p → Option (ℕ → ℕ) → String → String → Bytes → Answer (Store p)
  unfolding save_route save_group save_middleware save_listener save_destination save_secret
      save_snapshot delete_route delete_group delete_middleware delete_listener delete_destination
      delete_secret delete_snapshot activate_snapshot
  apply_command s draw type id payload =
      if str_eq type "SaveRoute"
      then when_decoded (p.route_json.unmarshal payload) (save_route p s)
      else if str_eq type "DeleteRoute"
      then delete_route p s id
      else if str_eq type "SaveGroup"
      then when_decoded (p.group_json.unmarshal payload) (save_group p s)
      else if str_eq type "DeleteGroup"
      then delete_group p s id
      else if str_eq type "SaveMiddleware"
      then when_decoded (p.middleware_json.unmarshal payload) (save_middleware p s)
      else if str_eq type "DeleteMiddleware"
      then delete_middleware p s id
      else if str_eq type "SaveListener"
      then when_decoded (p.listener_json.unmarshal payload) (save_listener p s)
      else if str_eq type "DeleteListener"
      then delete_listener p s id
      else if str_eq type "SaveDestination"
      then when_decoded (p.destination_json.unmarshal payload) (save_destination p s)
      else if str_eq type "DeleteDestination"
      then delete_destination p s id
      else if str_eq type "SaveSecret"
      then when_decoded (p.secret_json.unmarshal payload) (save_secret p s draw)
      else if str_eq type "DeleteSecret"
      then delete_secret p s id
      else if str_eq type "SaveSnapshot"
      then when_decoded (p.snapshot_json.unmarshal payload) (save_snapshot p s draw)
      else if str_eq type "DeleteSnapshot"
      then delete_snapshot p s id
      else if str_eq type "ActivateSnapshot"
      then activate_snapshot p s id
      else failed
