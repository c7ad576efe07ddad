-- ===== src/Proxy/Pinning/Tests.antt =====
-- The theorems of the pinning ring on a ring built with insertion sort and a toy checksum.
use vrata.Common.{
  ℕ, ◌+◌, ◌*◌, ◌%◌, ◌≤◌, String, ◌≡◌, refl, inl, inr, Bool, true, some, List, [], ◌∷◌, arith,
  str_eq, leb, if◌then◌else◌, leb→le, Bool-cases, filter_by, any_by, count_by, All,
}
use vrata.Common.Search.{Sorted, search}
use vrata.Model.{DestinationRef}
use vrata.Proxy.Pinning.{
  RingNode, node_hash, itoa, build_destination_ring, find_index, wrap_index, pick, pick_valid_loop,
  pick_valid,
}
use vrata.Proxy.Pinning.Build.{IsSort, count_by-build, pick_valid-build}
use vrata.Proxy.Pinning.Clockwise.{pick_valid-filter_by}

place_node : RingNode → List RingNode → List RingNode
place_node n [] = n ∷ []
place_node n (x ∷ xs) = if leb n.hash x.hash then n ∷ x ∷ xs else x ∷ place_node n xs

sort_nodes : List RingNode → List RingNode
sort_nodes [] = []
sort_nodes (x ∷ xs) = place_node x (sort_nodes xs)

All-place_node :
    (P : RingNode → Type 0) (n : RingNode) (xs : List RingNode)
    → P n
    → All P xs
    → All P (place_node n xs)
unfolding place_node
All-place_node P n [] p a = (p, tt)
All-place_node P n (x ∷ xs) p (q, a) = elim (Bool-cases (leb n.hash x.hash)) [
  | inl e ↦ rw e (p, (q, a))
  | inr e ↦ rw e (q, All-place_node P n xs p a)
]

All-le :
    (m n : ℕ) (xs : List RingNode) → m ≤ n → All (λ y. n ≤ y.hash) xs → All (λ y. m ≤ y.hash) xs
All-le m n [] h a = tt
All-le m n (x ∷ xs) h (b, a) = (omega arith, All-le m n xs h a)

place_node-Sorted :
    (n : RingNode) (xs : List RingNode) → Sorted node_hash xs → Sorted node_hash (place_node n xs)
unfolding place_node
place_node-Sorted n [] s = (tt, tt)
place_node-Sorted n (x ∷ xs) (a, s) = elim (Bool-cases (leb n.hash x.hash)) [
  | inl e ↦ rw e ((leb→le _ _ e, All-le n.hash x.hash xs (leb→le _ _ e) a), (a, s))
  | inr e ↦
      rw e (All-place_node (λ y. x.hash ≤ y.hash) n xs (ground arith) a, place_node-Sorted n xs s)
]

sort_nodes-Sorted : (xs : List RingNode) → Sorted node_hash (sort_nodes xs)
unfolding sort_nodes
sort_nodes-Sorted [] = tt
sort_nodes-Sorted (x ∷ xs) = place_node-Sorted x (sort_nodes xs) (sort_nodes-Sorted xs)

count_by-place_node :
    (p : RingNode → Bool) (n : RingNode) (xs : List RingNode)
    → count_by p (place_node n xs) ≡ (if p n then 1 else 0) + count_by p xs
unfolding place_node
count_by-place_node p n [] = refl
count_by-place_node p n (x ∷ xs) = ground (arith, count_by-place_node p n xs)

count_by-sort_nodes :
    (p : RingNode → Bool) (xs : List RingNode) → count_by p (sort_nodes xs) ≡ count_by p xs
unfolding sort_nodes
count_by-sort_nodes p [] = refl
count_by-sort_nodes p (x ∷ xs) =
    omega (arith, count_by-place_node p x (sort_nodes xs), count_by-sort_nodes p xs)

sort_nodes-IsSort : IsSort sort_nodes
sort_nodes-IsSort = record { sorted = sort_nodes-Sorted; kept = count_by-sort_nodes }

abbrev toy_checksum : List ℕ → ℕ
toy_checksum [] = 7
toy_checksum (c ∷ cs) = (toy_checksum cs * 31 + c) % 1000

abbrev blue_green : List DestinationRef
blue_green =
    record { destination_id = "blue"; weight = 1 }
    ∷ record { destination_id = "green"; weight = 0 }
    ∷ []

abbrev is_green : String → Bool
is_green id = str_eq id "green"

itoa_2048 : itoa 2048 ≡ b'2' ∷ b'0' ∷ b'4' ∷ b'8' ∷ []
unfolding itoa
itoa_2048 = refl

count_by-build_example :
    count_by (λ x. is_green x.dest_id) (build_destination_ring toy_checksum sort_nodes blue_green)
    ≡ 1
count_by-build_example =
    count_by-build toy_checksum sort_nodes sort_nodes-IsSort is_green blue_green

pick_valid-build_example :
    (id : String) × (pick_valid is_green
        (build_destination_ring toy_checksum sort_nodes blue_green)
        500
      ≡ some id)
    × (is_green id ≡ true)
    × (any_by (λ b. str_eq b.destination_id id) blue_green ≡ true)
pick_valid-build_example =
    pick_valid-build toy_checksum sort_nodes sort_nodes-IsSort is_green blue_green 500 refl

abbrev three : List RingNode
three =
    record { hash = 10; dest_id = "blue" }
    ∷ record { hash = 20; dest_id = "green" }
    ∷ record { hash = 30; dest_id = "blue" }
    ∷ []

three_wraps : pick three 31 ≡ some "blue"
unfolding pick find_index wrap_index search
three_wraps = refl

three_skips : pick_valid is_green three 21 ≡ some "green"
unfolding pick_valid pick_valid_loop find_index search
three_skips = refl

pick_valid-filter_by_example :
    pick_valid is_green three 21 ≡ pick (filter_by (λ n. is_green n.dest_id) three) 21
pick_valid-filter_by_example = pick_valid-filter_by is_green three 21 (omega arith)
