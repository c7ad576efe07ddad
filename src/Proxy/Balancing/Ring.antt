-- ===== src/Proxy/Balancing/Ring.antt =====
-- The hash ring shares its nodes evenly.
use vrata.Common.{
  ℕ, zero, suc, ◌+◌, ◌*◌, ◌/◌, ◌≤◌, ◌<◌, String, ◌≡◌, ap, ◌∙◌, inl, inr, Bool, true, false, List,
  [], ◌∷◌, arith, ltb, if◌then◌else◌, ltb→lt, Bool-cases, length, count_by-append, count_by,
}
use native.Mathlib.Nat.{div-add-mod', mod-lt, add-mul, mul_comm}
use vrata.Model.{DestinationRef}
use vrata.Proxy.Balancing.{RingEntry, ring_vnodes, ring_entries, all_entries, build}

distribute : (v : Bool) (k n : ℕ) → (if v then k else 0) + n * k ≡ ((if v then 1 else 0) + n) * k
distribute true k n = grind (arith, add-mul 1 n k)
distribute false k n = grind (arith, add-mul 0 n k)

module _ (hash_of : String → ℕ → ℕ) (sort : List RingEntry → List RingEntry)
    (p : String → Bool) where
  count_by-ring_entries :
      (id : String) (n i : ℕ)
      → count_by (λ e. p e.dest_id) (ring_entries hash_of sort id n i) ≡ (if p id then n else 0)
  unfolding ring_entries
  count_by-ring_entries id zero i = ground arith
  count_by-ring_entries id (suc n) i = ground (arith, count_by-ring_entries id n (i + 1))

  count_by-all_entries :
      (vnodes : ℕ) (bs : List DestinationRef)
      → count_by (λ e. p e.dest_id) (all_entries hash_of sort vnodes bs)
        ≡ count_by (λ b. p b.destination_id) bs * vnodes
  unfolding all_entries
  count_by-all_entries vnodes [] = omega arith
  count_by-all_entries vnodes (b ∷ bs) =
      count_by-append (λ e. p e.dest_id) (ring_entries hash_of sort b.destination_id vnodes 0)
        (all_entries hash_of sort vnodes bs)
      ∙ rw (count_by-ring_entries b.destination_id vnodes 0, count_by-all_entries vnodes bs)
          (distribute (p b.destination_id) vnodes (count_by (λ b. p b.destination_id) bs))

quotient_vnodes : (ring_size n : ℕ) → 0 < ring_size / n → ring_vnodes ring_size n ≡ ring_size / n
quotient_vnodes ring_size n pos = ground arith

quotient_pos : (ring_size n : ℕ) → 0 < n → n ≤ ring_size → 0 < ring_size / n
quotient_pos ring_size n pos le = elim (Bool-cases (ltb 0 (ring_size / n))) [
  | inl yes_ ↦ ltb→lt 0 (ring_size / n) yes_
  | inr no_ ↦
      let gone : ring_size / n ≡ 0 = ground arith in
      absurd (grind (arith, div-add-mod' ring_size n, mod-lt ring_size pos, ap (λ q. q * n) gone))
]

-- The nodes of `n` destinations fill the ring, but for fewer than `n`.
fills :
    (ring_size n : ℕ)
    → 0 < n
    → n ≤ ring_size
    → (n * ring_vnodes ring_size n ≤ ring_size) × (ring_size < n * ring_vnodes ring_size n + n)
fills ring_size n pos le =
    rw (quotient_vnodes ring_size n (quotient_pos ring_size n pos le), mul_comm n (ring_size / n))
      (
        omega (arith, div-add-mod' ring_size n),
        omega (arith, div-add-mod' ring_size n, mod-lt ring_size pos),
      )

-- If sorting keeps the number of nodes of each set of IDs, and there are no more destinations than the
-- size of the ring, then Build gives each destination equally many nodes: as many as fill the ring but
-- for fewer nodes than there are destinations.
pub build-share :
    (hash_of : String → ℕ → ℕ) (sort : List RingEntry → List RingEntry) (p : String → Bool)
    (ring_size : ℕ) (b : DestinationRef) (bs : List DestinationRef)
    → ((es : List RingEntry)
        → count_by (λ e. p e.dest_id) (sort es) ≡ count_by (λ e. p e.dest_id) es)
    → length (b ∷ bs) ≤ ring_size
    → (vnodes : ℕ) × (count_by (λ e. p e.dest_id) (build hash_of sort ring_size (b ∷ bs))
        ≡ count_by (λ d. p d.destination_id) (b ∷ bs) * vnodes)
      × (length (b ∷ bs) * vnodes ≤ ring_size)
      × (ring_size < length (b ∷ bs) * vnodes + length (b ∷ bs))
unfolding build
build-share hash_of sort p ring_size b bs keeps le =
    let vnodes = ring_vnodes ring_size (length (b ∷ bs)) in
    let (under, over) = fills ring_size (length (b ∷ bs)) (omega arith) le in
    (
      vnodes,
      keeps (all_entries hash_of sort vnodes (b ∷ bs))
          ∙ count_by-all_entries hash_of sort p vnodes (b ∷ bs),
      under,
      over,
    )
