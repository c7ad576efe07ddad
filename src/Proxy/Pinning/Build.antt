-- ===== src/Proxy/Pinning/Build.antt =====
-- What a built ring holds, and that picking from it succeeds.
use vrata.Common.{
  dec_lt, ℕ, zero, suc, ◌+◌, ◌*◌, ◌<◌, String, ◌≡◌, refl, ◌∙◌, inl, inr, Bool, true, false, some,
  List, [], ◌∷◌, arith, str_eq, if◌then◌else◌, Bool-cases, count_by-append, any_by, count_by,
}
use Prim.Native.Nat.{max}
use text.Mathlib.TextPositions.{eq_refl}
use vrata.Common.Search.{Sorted}
use vrata.Model.{DestinationRef}
use vrata.Proxy.Pinning.{
  RingNode, node_hash, vnodes, dest_nodes, all_nodes, build_destination_ring, pick_valid,
}
use vrata.Proxy.Pinning.Clockwise.{
  first_of_valid, clockwise, pick_valid-clockwise, count_by-clockwise,
}

-- What is relied on of sort.Slice: it leaves the nodes in ascending order, and each as often as before.
pub record IsSort (sort : List RingNode → List RingNode) : Type 0 where
  pub sorted : (xs : List RingNode) → Sorted node_hash (sort xs)
  pub kept : (p : RingNode → Bool) (xs : List RingNode) → count_by p (sort xs) ≡ count_by p xs

-- The virtual nodes that the destinations passing `q` ask for: 100 for each unit of weight, at least 1.
abbrev pub share : (String → Bool) → List DestinationRef → ℕ
share q [] = 0
share q (b ∷ bs) = (if q b.destination_id then max 1 (b.weight * 100) else 0) + share q bs

vnodes-max : (b : DestinationRef) → vnodes b ≡ max 1 (b.weight * 100)
vnodes-max b = elim (dec_lt (b.weight * 100) 1) [ yes p ↦ ground arith | no p ↦ ground arith ]

share_of_any :
    (q : String → Bool) (bs : List DestinationRef)
    → any_by (λ b. q b.destination_id) bs ≡ true
    → 0 < share q bs
share_of_any q [] h = cc
share_of_any q (b ∷ bs) h = elim (Bool-cases (q b.destination_id)) [
  | inl e ↦ rw e (omega arith)
  | inr e ↦ omega (arith, share_of_any q bs (rw e at h))
]

any_of_share :
    (q : String → Bool) (bs : List DestinationRef)
    → 0 < share q bs
    → any_by (λ b. q b.destination_id) bs ≡ true
any_of_share q [] h = elim h [ ]
any_of_share q (b ∷ bs) h = elim (Bool-cases (q b.destination_id)) [
  | inl e ↦ rw e
  | inr e ↦ rw e (any_of_share q bs (omega (arith, (rw e at h))))
]

-- The first valid node, if there is one.
abbrev FirstFound : (String → Bool) → List RingNode → Type 0
FirstFound valid xs =
    (id : String) × (first_of_valid valid xs (some "") ≡ some id)
    × (valid id ≡ true)
    × (0 < count_by (λ x. str_eq x.dest_id id) xs)

found_later :
    (valid : String → Bool) (x : RingNode) (xs : List RingNode)
    → valid x.dest_id ≡ false
    → FirstFound valid xs
    → FirstFound valid (x ∷ xs)
found_later valid x xs e (id, f, v, p) = (id, rw e f, v, omega (arith, p))

first_found :
    (valid : String → Bool) (xs : List RingNode)
    → 0 < count_by (λ x. valid x.dest_id) xs
    → FirstFound valid xs
first_found valid [] h = elim h [ ]
first_found valid (x ∷ xs) h = elim (Bool-cases (valid x.dest_id)) [
  | inl e ↦ (x.dest_id, rw e, e, rw (eq_refl x.dest_id) (omega arith))
  | inr e ↦ found_later valid x xs e (first_found valid xs (omega (arith, (rw e at h))))
]

module _ (checksum : List ℕ → ℕ) (sort : List RingNode → List RingNode) (laws : IsSort sort) where
  count_by-dest_nodes :
      (q : String → Bool) (b : DestinationRef) (n i : ℕ)
      → count_by (λ x. q x.dest_id) (dest_nodes checksum sort b n i)
        ≡ (if q b.destination_id then n else 0)
  unfolding dest_nodes
  count_by-dest_nodes q b zero i = ground arith
  count_by-dest_nodes q b (suc n) i = ground (arith, count_by-dest_nodes q b n (i + 1))

  count_by-all_nodes :
      (q : String → Bool) (bs : List DestinationRef)
      → count_by (λ x. q x.dest_id) (all_nodes checksum sort bs) ≡ share q bs
  unfolding all_nodes
  count_by-all_nodes q [] = refl
  count_by-all_nodes q (b ∷ bs) = rw (
    count_by-append (λ (x : RingNode). q x.dest_id) (dest_nodes checksum sort b (vnodes b) 0)
        (all_nodes checksum sort bs),
    count_by-dest_nodes q b (vnodes b) 0,
    count_by-all_nodes q bs,
    vnodes-max b,
  )

  build-Sorted :
      (bs : List DestinationRef) → Sorted node_hash (build_destination_ring checksum sort bs)
  unfolding build_destination_ring
  build-Sorted [] = tt
  build-Sorted (b ∷ bs) = laws.sorted (all_nodes checksum sort (b ∷ bs))

  -- In the ring built from weighted destinations, any set of destinations owns as many virtual nodes
  -- as its members ask for: 100 for each unit of weight, and at least one each.
  pub count_by-build :
      (q : String → Bool) (bs : List DestinationRef)
      → count_by (λ x. q x.dest_id) (build_destination_ring checksum sort bs) ≡ share q bs
  unfolding build_destination_ring
  count_by-build q [] = refl
  count_by-build q (b ∷ bs) =
      laws.kept (λ x. q x.dest_id) (all_nodes checksum sort (b ∷ bs))
      ∙ count_by-all_nodes q (b ∷ bs)

  -- If some destination of the ring is valid, PickValid returns, for every key, a valid destination
  -- that is one of them.
  pub pick_valid-build :
      (valid : String → Bool) (bs : List DestinationRef) (key : ℕ)
      → any_by (λ b. valid b.destination_id) bs ≡ true
      → (id : String) × (pick_valid valid (build_destination_ring checksum sort bs) key ≡ some id)
        × (valid id ≡ true)
        × (any_by (λ b. str_eq b.destination_id id) bs ≡ true)
  pick_valid-build valid bs key h =
      let (id, e, v, p) = first_found valid (clockwise key ring) (omega (arith, same, some_node)) in
      (
        id,
        pick_valid-clockwise valid ring key sorted_ring ∙ e,
        v,
        any_of_share (λ s. str_eq s id) bs
            (omega (
              arith,
              count_by-build (λ s. str_eq s id) bs,
              count_by-clockwise (λ (x : RingNode). str_eq x.dest_id id) ring key sorted_ring,
            )),
      )
    where
      ring : List RingNode
      ring = build_destination_ring checksum sort bs

      sorted_ring : Sorted node_hash ring
      sorted_ring = build-Sorted bs

      some_node : 0 < count_by (λ (x : RingNode). valid x.dest_id) ring
      some_node = omega (arith, count_by-build valid bs, share_of_any valid bs h)

      same :
          count_by (λ (x : RingNode). valid x.dest_id) (clockwise key ring)
          ≡ count_by (λ x. valid x.dest_id) ring
      same = count_by-clockwise (λ (x : RingNode). valid x.dest_id) ring key sorted_ring
