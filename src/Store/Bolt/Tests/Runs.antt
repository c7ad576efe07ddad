-- ===== src/Store/Bolt/Tests/Runs.antt =====
-- The theorems of the persistent store on the platform of the tests.
use vrata.Common.{ℕ, ◌+◌, true, Option, none, some, List, [], ◌∷◌, arith}
use vrata.Common.StringMap.{lookup, insert}
use vrata.Store.Types.{route_, Secret}
use vrata.Store.Memory
use vrata.Store.Memory.{VersionedSnapshot}
use vrata.Store.Memory.Events
use vrata.Store.Memory.Events.{saves, deletes, activates}
use vrata.Store.Memory.View.{route, secret, snapshot}
use vrata.Store.Encrypt.{seal}
use vrata.Store.Bolt.Mode.{check_encryption_mode}
use vrata.Store.Bolt.Mode.Keeping.{Keeps, check_encryption_mode-Keeps}
use vrata.Store.Bolt.Tests.Encodings.{put_text}
use vrata.Store.Bolt.{new}
use vrata.Store.Bolt.Sealed.{encrypt_value, encode_sealed}
use vrata.Store.Bolt.Refining.{Refines}
use vrata.Store.Bolt.Refining.Histories.{Call, run, accepted, run-Refines}
use vrata.Store.Bolt.Refining.Reading.{new-Refines}
use vrata.Store.Bolt.Tests.{names, platform, platform-Documented, empty_config}

abbrev pub key : Secret
key = record { id = "key"; name = "signing key"; value = "s3cret" }

abbrev pub v1 : VersionedSnapshot names
v1 = record { id = "v1"; name = "first"; created_at = 1; snapshot = empty_config }

abbrev pub nonces : Option (ℕ → ℕ)
nonces = some (λ n. n + 40)

-- The second write has no nonce and fails, and the fifth has no target.
abbrev history : List (Call platform)
history =
    (saves (secret key), nonces)
    ∷ (saves (secret key), none)
    ∷ (saves (route "r"), none)
    ∷ (saves (snapshot v1), nonces)
    ∷ (deletes route_ "x", none)
    ∷ (activates "v1", none)
    ∷ []

check_encryption_mode-Keeps_example :
    Keeps platform true (new platform) (check_encryption_mode platform true (new platform))
unfolding put_text
check_encryption_mode-Keeps_example =
    check_encryption_mode-Keeps platform true (new platform) platform-Documented (ground arith)

run-Refines_example :
    Refines platform
      (Events.run names (Memory.new names) (
        saves (secret key)
        ∷ saves (route "r")
        ∷ saves (snapshot v1)
        ∷ deletes route_ "x"
        ∷ activates "v1"
        ∷ []))
      (run platform (new platform) history)
unfolding accepted Events.run encode_sealed encrypt_value seal lookup insert new
run-Refines_example =
    run-Refines platform (Memory.new names) (new platform) history platform-Documented
      (new-Refines platform platform-Documented)
