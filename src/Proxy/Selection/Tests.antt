-- ===== src/Proxy/Selection/Tests.antt =====
-- The theorems of the weighted choice at concrete destinations.
use vrata.Common.{ℕ, String, ◌≡◌, refl, Bool, some, [], ◌∷◌, arith, str_eq}
use vrata.Common.Counting.{count_from}
use vrata.Common.StringMap.{lookup}
use vrata.Model.{DestinationRef}
use vrata.Proxy.Selection.{panics, choose, select_destination}
use vrata.Proxy.Selection.Shares.{is_chosen, choose-share, choose-overflow}

abbrev to : String → ℕ → DestinationRef
to id weight = record { destination_id = id; weight = weight }

abbrev is_blue : String → Bool
is_blue = str_eq "blue"

blue_pool :
    select_destination {P = ℕ} (to "blue" 1 ∷ to "green" 3 ∷ []) (("green", 7) ∷ []) 0 6
    ≡ some (some 7)
unfolding select_destination lookup
blue_pool = refl

choose-share_example :
    count_from
      (λ draw. is_chosen is_blue (choose (to "blue" 1 ∷ to "green" 3 ∷ to "blue" 2 ∷ []) 0 draw))
      0
      6
    ≡ 3
choose-share_example =
    choose-share (to "blue" 1) (to "green" 3) (to "blue" 2 ∷ []) is_blue 0 (omega arith)
      (omega arith)

choose-overflow_example : choose (to "blue" 2147483648 ∷ to "green" 2147483648 ∷ []) 0 5 ≡ panics
choose-overflow_example =
    choose-overflow (to "blue" 2147483648) (to "green" 2147483648) [] 0 5 (omega arith)
      (omega arith)
