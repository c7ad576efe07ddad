-- ===== src/Proxy/Balancing.antt =====
-- The balancers among the endpoints of a destination: server/internal/proxy/balancer.go.
--
-- The endpoints are a map from IDs, whose missing entry is nil (`none`). Counters are uint64 and int64
-- patterns (Words). The numbers of rand.Intn and sort.Slice are arguments, and so is the checksum of an
-- ID and an index that Build prints into one text.
pub mod Rotating
pub mod Least
pub mod Ring
mod Tests
use vrata.Common.{
  dec_lt, dec_le, ℕ_discrete, ℕ, zero, suc, ◌+◌, ◌-◌, ◌*◌, ◌/◌, ◌%◌, ◌^◌, ◌≤◌, ◌<◌, String, ◌≡◌,
  refl, sym, ap, ap₂, ◌∙◌, ◌≢◌, ◌↔◌, ◌⊎◌, inl, inr, Bool, true, false, not, ◌&&◌, ◌||◌, Option,
  none, some, List, [], ◌∷◌, ◌++◌, map, arith, str_eq, eq_iff, ltb, leb, ◌==◌, if◌then◌else◌,
  ltb→lt, lt→ltb, leb→le, le→leb, ==_iff, Bool-cases, Option-cases, length, get_elem?, replicate,
  filter_by, filter_by_comm, filter_by-append, count_by-append, All-filter_by, any_by, count_by,
  length-append, All,
}
use vrata.Common.Words.{add64, minus_one64, slt64, sle64}
use vrata.Common.StringMap.{lookup, insert}
use vrata.Common.Search.{search, reaches}
use vrata.Model.{DestinationRef}

-- An int64 for the number of requests in flight to each ID.
abbrev pub InFlight : Type 0
InFlight = List (String × ℕ)

abbrev pub or_zero : Option ℕ → ℕ
or_zero none = 0
or_zero (some n) = n

-- lb.inflight[id]
abbrev pub in_flight : InFlight → String → ℕ
in_flight inflight id = or_zero (lookup id inflight)

-- The loop of LeastRequestBalancer.Pick: the best ID so far, and its number.
pub least_loop : InFlight → List DestinationRef → String → ℕ → String × ℕ
least_loop inflight [] best best_count = (best, best_count)
least_loop inflight (b ∷ bs) best best_count =
    let count = in_flight inflight b.destination_id in
    let better = slt64 count best_count in
    least_loop inflight bs (if better then b.destination_id else best)
      (if better then count else best_count)

-- LeastRequestBalancer.Done
pub done : InFlight → String → InFlight
done inflight id =
    let left = add64 (in_flight inflight id) minus_one64 in
    insert id (if slt64 left 0 then 0 else left) inflight

pub record RingEntry : Type 0 where
  pub hash : ℕ
  pub dest_id : String

abbrev pub entry_hash : RingEntry → ℕ
entry_hash e = e.hash

-- NewRingHashBalancer, as the size of the ring.
pub new_ring_hash : ℕ → ℕ → ℕ
new_ring_hash min_size max_size =
    let low = (if sle64 min_size 0 then 1024 else min_size) in
    let high = (if sle64 max_size 0 then 8388608 else max_size) in
    if slt64 high low then high else low

-- The virtual nodes of each of `n` destinations.
abbrev pub ring_vnodes : ℕ → ℕ → ℕ
ring_vnodes ring_size n = let each = ring_size / n in if ltb each 1 then 1 else each

module _ (hash_of : String → ℕ → ℕ) (sort : List RingEntry → List RingEntry) where
  -- The inner loop of Build from index `i` on, `n` rounds of it left.
  pub ring_entries : String → ℕ → ℕ → List RingEntry
  ring_entries id zero i = []
  ring_entries id (suc n) i =
      record { hash = hash_of id i; dest_id = id } ∷ ring_entries id n (i + 1)

  pub all_entries : ℕ → List DestinationRef → List RingEntry
  unfolding ring_entries
  all_entries vnodes [] = []
  all_entries vnodes (b ∷ bs) = ring_entries b.destination_id vnodes 0 ++ all_entries vnodes bs

  -- RingHashBalancer.Build
  pub build : ℕ → List DestinationRef → List RingEntry
  unfolding all_entries
  build ring_size [] = []
  build ring_size (b ∷ bs) = sort (all_entries (ring_vnodes ring_size (length (b ∷ bs))) (b ∷ bs))

module _ {E : Type 0} (endpoints : List (String × E)) where
  abbrev pub endpoint_of : Option DestinationRef → Option E
  endpoint_of none = none
  endpoint_of (some b) = lookup b.destination_id endpoints

  abbrev pub key_endpoint : Option (String × E) → Option E
  key_endpoint none = none
  key_endpoint (some (key, e)) = lookup key endpoints

  -- pickRandomEndpoint, for the keys in the order in which the map gives them.
  pub pick_random_endpoint : ℕ → Option E
  pick_random_endpoint draw = key_endpoint (get_elem? endpoints draw)

  -- RandomBalancer.Pick
  pub pick_random : List DestinationRef → ℕ → Option E
  pick_random dests draw = endpoint_of (get_elem? dests draw)

  -- RoundRobinBalancer.Pick on its counter.
  pub pick_round_robin : ℕ → List DestinationRef → ℕ × Option E
  pick_round_robin counter [] = (counter, none)
  pick_round_robin counter (b ∷ bs) =
      let next = add64 counter 1 in
      (next, endpoint_of (get_elem? (b ∷ bs) (next % length (b ∷ bs))))

  -- What LeastRequestBalancer.Pick does with the best ID.
  pub pick_best : InFlight → String → InFlight × Option E
  pick_best inflight best =
      if str_eq best ""
      then (inflight, none)
      else (insert best (add64 (in_flight inflight best) 1) inflight, lookup best endpoints)

  -- LeastRequestBalancer.Pick
  pub pick_least : InFlight → List DestinationRef → InFlight × Option E
  unfolding least_loop pick_best
  pick_least inflight dests = pick_best inflight (least_loop inflight dests "" (2 ^ 63 - 1)).0

  abbrev pub entry_endpoint : Option RingEntry → Option E
  entry_endpoint none = none
  entry_endpoint (some e) = lookup e.dest_id endpoints

  abbrev pub from_start : ℕ → ℕ → ℕ
  from_start n i = if leb n i then 0 else i

  -- RingHashBalancer.PickByHash; `draw` is the number for the ring that is empty.
  pub pick_by_hash : List RingEntry → ℕ → ℕ → Option E
  unfolding pick_random_endpoint
  pick_by_hash [] h draw = pick_random_endpoint draw
  pick_by_hash (e ∷ es) h draw =
      let ring = e ∷ es in
      let idx = search (length ring) (λ i. reaches entry_hash h (get_elem? ring i)) in
      entry_endpoint (get_elem? ring (from_start (length ring) idx))
