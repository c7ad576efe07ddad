-- ===== src/Proxy/Selection.antt =====
-- The choice among weighted destinations: SelectDestination of server/internal/proxy/endpoint.go.
--
-- Weights are uint32. The values of rand.Intn and rand.Uint32 are arguments.
pub mod Shares
mod Tests
use vrata.Common.{
  dec_lt, dec_le, ℕ_discrete, ℕ, zero, suc, ◌+◌, ◌-◌, ◌*◌, ◌/◌, ◌%◌, ◌^◌, ◌≤◌, ◌<◌, String, ◌≡◌,
  refl, sym, ap, ap₂, ◌∙◌, ◌≢◌, ◌↔◌, ◌⊎◌, inl, inr, Bool, true, false, not, ◌&&◌, ◌||◌, Option,
  none, some, List, [], ◌∷◌, ◌++◌, map, arith, str_eq, eq_iff, ltb, leb, ◌==◌, if◌then◌else◌,
  ltb→lt, lt→ltb, leb→le, le→leb, ==_iff, Bool-cases, Option-cases, length, get_elem?, replicate,
  filter_by, filter_by_comm, filter_by-append, count_by-append, All-filter_by, any_by, count_by,
  length-append, All,
}
use vrata.Common.Words.{add32}
use vrata.Common.StringMap.{lookup}
use vrata.Model.{DestinationRef}

-- What the selection comes to: the ID that the code looks up in the pools, no ID, or the panic of a
-- remainder by 0 or of an index out of range.
pub data Choice : Type 0 where
  no_destination : Choice
  chosen : String → Choice
  panics : Choice

-- The sum of the weights on uint32, from `total` on.
pub total_weight : ℕ → List DestinationRef → ℕ
total_weight total [] = total
total_weight total (b ∷ bs) = total_weight (add32 total b.weight) bs

pub all_zero : List DestinationRef → Bool
all_zero dests = not (any_by (λ b. ltb 0 b.weight) dests)

-- dests[len(dests)-1].DestinationID, of `b ∷ bs`.
pub last_id : DestinationRef → List DestinationRef → String
last_id b [] = b.destination_id
last_id b (c ∷ bs) = last_id c bs

-- The loop over the cumulative weights, and the return behind it.
pub weighted_loop : String → ℕ → ℕ → List DestinationRef → String
weighted_loop last r cumulative [] = last
weighted_loop last r cumulative (b ∷ bs) =
    let later = weighted_loop last r (add32 cumulative b.weight) bs in
    if ltb r (add32 cumulative b.weight) then b.destination_id else later

abbrev pub chosen_at : Option DestinationRef → Choice
chosen_at none = panics
chosen_at (some b) = chosen b.destination_id

-- The draw and the loop, for weights of which some is positive.
pub weighted_choice : String → List DestinationRef → ℕ → ℕ → Choice
unfolding weighted_loop
weighted_choice last dests total draw =
    if total == 0 then panics else chosen (weighted_loop last (draw % total) 0 dests)

-- `draw_int` is what rand.Intn(len(dests)) gives, `draw` what rand.Uint32() gives.
pub choose : List DestinationRef → ℕ → ℕ → Choice
unfolding total_weight all_zero last_id weighted_choice
choose [] draw_int draw = no_destination
choose (b ∷ []) draw_int draw = chosen b.destination_id
choose (b ∷ c ∷ bs) draw_int draw =
    let dests = b ∷ c ∷ bs in
    if all_zero dests
    then chosen_at (get_elem? dests draw_int)
    else weighted_choice (last_id c bs) dests (total_weight 0 dests) draw

module _ {P : Type 0} where
  -- `none` is the panic, `some none` the nil of a pool that is missing.
  abbrev pub pool_of : List (String × P) → Choice → Option (Option P)
  pool_of pools (chosen id) = some (lookup id pools)
  pool_of pools no_destination = some none
  pool_of pools panics = none

  -- SelectDestination
  pub select_destination : List DestinationRef → List (String × P) → ℕ → ℕ → Option (Option P)
  unfolding choose
  select_destination dests pools draw_int draw = pool_of pools (choose dests draw_int draw)
