-- ===== src/Proxy/Balancing/Tests.antt =====
-- The theorems of the balancers at a destination with three endpoints.
use vrata.Common.{
  ℕ, ◌+◌, ◌*◌, ◌≤◌, ◌<◌, String, ◌≡◌, refl, ◌≢◌, Bool, true, false, Option, none, some, List, [],
  ◌∷◌, arith, str_eq, eq_iff, count_by,
}
use vrata.Common.StringMap.{lookup}
use vrata.Model.{DestinationRef}
use vrata.Proxy.Balancing.{InFlight, build, pick_least, pick_round_robin}
use vrata.Proxy.Balancing.Rotating.{picks, picks-count_by}
use vrata.Proxy.Balancing.Least.{PicksLeast, pick_least-PicksLeast}
use vrata.Proxy.Balancing.Ring.{build-share}

abbrev ref : String → DestinationRef
ref id = record { destination_id = id; weight = 1 }

abbrev more : List DestinationRef
more = ref "b" ∷ ref "c" ∷ []

-- The endpoint of "c" is missing.
abbrev endpoints : List (String × ℕ)
endpoints = ("a", 10) ∷ ("b", 20) ∷ []

abbrev busy : InFlight
busy = ("a", 2) ∷ ("b", 1) ∷ ("c", 1) ∷ []

abbrev is_missing : Option ℕ → Bool
is_missing none = true
is_missing (some e) = false

abbrev is_a : String → Bool
is_a = str_eq "a"

three_turns : picks endpoints 4 0 (ref "a" ∷ more) ≡ some 20 ∷ none ∷ some 10 ∷ some 20 ∷ []
unfolding pick_round_robin lookup
three_turns = refl

least_busy : (pick_least endpoints busy (ref "a" ∷ more)).1 ≡ some 20
unfolding pick_least lookup
least_busy = refl

picks-count_by_example : count_by is_missing (picks endpoints 3 4 (ref "a" ∷ more)) ≡ 1
unfolding lookup
picks-count_by_example = picks-count_by endpoints is_missing (ref "a") more 4 (omega arith)

named : (s t : String) → str_eq s t ≡ false → s ≢ t
named s t differ e = ground (arith, eq_iff s t)

pick_least-PicksLeast_example :
    PicksLeast endpoints busy (ref "a" ∷ more) (pick_least endpoints busy (ref "a" ∷ more))
unfolding lookup
pick_least-PicksLeast_example =
    pick_least-PicksLeast endpoints busy (ref "a") more
      (λ e. named "a" "" refl e, (λ e. named "b" "" refl e, (λ e. named "c" "" refl e, tt)))
      (omega arith, (omega arith, (omega arith, tt)))

abbrev spread : String → ℕ → ℕ
spread id i = 7 * i

build-share_example :
    (vnodes : ℕ) × (count_by (λ e. is_a e.dest_id) (build spread (λ es. es) 16 (ref "a" ∷ more))
      ≡ 1 * vnodes)
    × (3 * vnodes ≤ 16)
    × (16 < 3 * vnodes + 3)
build-share_example =
    build-share spread (λ es. es) is_a 16 (ref "a") more (λ es. refl) (omega arith)
