-- ===== src/Raft/Tests.antt =====
-- The theorems of replication on the platform of the persistent store's tests.
use vrata.Common.{ℕ, ◌+◌, String, ◌≡◌, refl, sym, ap, ◌∙◌, Option, none, some, List, [], ◌∷◌, map}
use vrata.Store.Types.{route_}
use vrata.Common.StringMap.{lookup, insert}
use vrata.Store.Encrypt.{seal}
use vrata.Store.Bolt.Sealed.{encode_sealed, encrypt_value}
use vrata.Store.Bolt.Refining.Histories.{accepted}
use vrata.Store.Platform.{Json}
use vrata.Store.Bolt.{new}
use vrata.Store.Memory
use vrata.Store.Memory.Events.{Op, saves, deletes, activates}
use vrata.Store.Memory.View.{secret, snapshot}
use vrata.Store.Encrypt.{Bytes, seal}
use vrata.Store.Bolt.Commands.{Command}
use vrata.Store.Bolt.Refining.Histories.{call, accepted}
use vrata.Store.Bolt.Refining.Reading.{new-Refines}
use vrata.Store.Bolt.Tests.{
  names, platform, platform-Documented, put_three, first, first-put_three, unwrapped,
}
use vrata.Store.Bolt.Tests.Runs.{key, v1, nonces}
use vrata.Store.Bolt.Tests.Encodings.{take_text}
use vrata.Raft.{encode_save, encode_bare, encoded, fsm_apply}
use vrata.Raft.Replaying.{Carries, CarriesCommands, fsm_apply-encoded}
use vrata.Raft.Converging.{replay, SameAnswers, replay-SameAnswers}

abbrev command_of : String → String → String → Bytes → Option Command
command_of type id blank payload = some (record { type = type; id = id; payload = payload })

abbrev command_json : Json Command
command_json = record {
  marshal = λ c. some (put_three c.type c.id "" c.payload);
  unmarshal = λ b. first command_of (take_text b);
}

read_back :
    (type id : String) (raw entry : Bytes)
    → command_json.marshal (record { type = type; id = id; payload = raw }) ≡ some entry
    → command_json.unmarshal entry ≡ some (record { type = type; id = id; payload = raw })
read_back type id raw entry e =
    ap command_json.unmarshal (sym (ap (unwrapped entry) e))
    ∙ first-put_three command_of type id "" raw

all_Carries : {A : Type 0} (j : Json A) → Carries command_json j
all_Carries j = record { carried = λ type id v raw entry m e. read_back type id raw entry e }

platform-CarriesCommands : CarriesCommands platform command_json
platform-CarriesCommands = record {
  route_part = all_Carries platform.route_json;
  group_part = all_Carries platform.group_json;
  middleware_part = all_Carries platform.middleware_json;
  listener_part = all_Carries platform.listener_json;
  destination_part = all_Carries platform.destination_json;
  secret_part = all_Carries platform.secret_json;
  snapshot_part = all_Carries platform.snapshot_json;
  bare_part = λ type id entry e. read_back type id [] entry e;
}

abbrev entry_of : Op names → Bytes
unfolding encoded encode_save encode_bare
entry_of o = elim (encoded platform command_json o) [ none ↦ [] | some e ↦ e ]

abbrev writes : List (Op names)
writes = saves (secret key) ∷ saves (snapshot v1) ∷ deletes route_ "x" ∷ activates "v1" ∷ []

abbrev others : ℕ → Option (ℕ → ℕ)
others i = some (λ n. n + i)

fsm_apply-encoded_example :
    fsm_apply platform command_json (new platform) nonces (entry_of (saves (secret key)))
    ≡ call platform (new platform) (saves (secret key), nonces)
unfolding encoded
fsm_apply-encoded_example =
    fsm_apply-encoded platform command_json (saves (secret key)) (entry_of (saves (secret key)))
      (new platform) nonces platform-Documented platform-CarriesCommands refl

replay-SameAnswers_example :
    SameAnswers platform command_json
      (replay platform command_json (new platform) (map entry_of writes) (λ n. nonces))
      (replay platform command_json (new platform) (map entry_of writes) others)
unfolding encoded accepted encode_sealed encrypt_value seal lookup insert new
replay-SameAnswers_example =
    replay-SameAnswers platform command_json (Memory.new names) (new platform) (new platform) writes
      (map entry_of writes) (λ n. nonces) others platform-Documented platform-CarriesCommands
      (new-Refines platform platform-Documented) (new-Refines platform platform-Documented)
      (refl, (refl, (refl, (refl, tt)))) refl
