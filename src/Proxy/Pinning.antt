-- ===== src/Proxy/Pinning.antt =====
-- The weighted hash ring that pins clients to destinations: server/internal/proxy/pinning.go.
--
-- crc32.ChecksumIEEE is the argument `checksum`, on a text's bytes (its code points), and sort.Slice,
-- which leaves equal hashes in any order, is the argument `sort`. `none` is an index out of range.
pub mod Clockwise
pub mod Decimal
pub mod Build
mod Tests
use vrata.Common.{
  ℕ, zero, suc, ◌+◌, ◌*◌, ◌/◌, ◌%◌, String, Bool, Option, none, some, List, [], ◌∷◌, ◌++◌, map, ltb,
  leb, if◌then◌else◌, length, get_elem?,
}
use mathlib.Core.List.{reverse}
use mathlib.Core.Option
use Prim.Native.Char.{code}
use vrata.Common.Search.{search, reaches}
use vrata.Model.{DestinationRef}

pub record RingNode : Type 0 where
  pub hash : ℕ
  pub dest_id : String

abbrev pub vnode_multiplier : ℕ
vnode_multiplier = 100

abbrev pub codes : String → List ℕ
codes String.[] = []
codes (String.◌∷◌ c s) = code c ∷ codes s

-- The loop of itoa: the digits of `n`, the last first. `n` rounds are enough.
pub digits_back : ℕ → ℕ → List ℕ
digits_back zero n = []
digits_back (suc fuel) n =
    let rest = digits_back fuel (n / 10) in if ltb 0 n then (b'0' + n % 10) ∷ rest else []

pub itoa : ℕ → List ℕ
unfolding digits_back
itoa n = if ltb n 10 then (b'0' + n) ∷ [] else reverse (digits_back n n)

abbrev pub vnodes : DestinationRef → ℕ
vnodes b = let n = b.weight * vnode_multiplier in if ltb n 1 then 1 else n

module _ (checksum : List ℕ → ℕ) (sort : List RingNode → List RingNode) where
  -- The inner loop: the nodes of one destination from index `i` on, `n` of them left.
  pub dest_nodes : DestinationRef → ℕ → ℕ → List RingNode
  dest_nodes b zero i = []
  dest_nodes b (suc n) i =
      record {
        hash = checksum (codes b.destination_id ++ (b':' ∷ itoa i));
        dest_id = b.destination_id;
      }
      ∷ dest_nodes b n (i + 1)

  pub all_nodes : List DestinationRef → List RingNode
  all_nodes [] = []
  all_nodes (b ∷ bs) = dest_nodes b (vnodes b) 0 ++ all_nodes bs

  -- buildDestinationRing
  pub build_destination_ring : List DestinationRef → List RingNode
  unfolding dest_nodes all_nodes
  build_destination_ring [] = []
  build_destination_ring (b ∷ bs) = sort (all_nodes (b ∷ bs))

abbrev pub node_hash : RingNode → ℕ
node_hash n = n.hash

-- The index that sort.Search gives for a key.
pub find_index : List RingNode → ℕ → ℕ
find_index entries key = search (length entries) (λ i. reaches node_hash key (get_elem? entries i))

pub wrap_index : List RingNode → ℕ → ℕ
wrap_index entries i = if leb (length entries) i then 0 else i

-- Pick
pub pick : List RingNode → ℕ → Option String
pick [] key = some ""
pick (e ∷ es) key =
    Option.map (λ n. n.dest_id) (get_elem? (e ∷ es) (wrap_index (e ∷ es) (find_index (e ∷ es) key)))

-- The body of PickValid's loop at the entry read, given what the later rounds return.
pub visit : (String → Bool) → Option RingNode → Option String → Option String
visit valid none rest = none
visit valid (some n) rest = if valid n.dest_id then some n.dest_id else rest

-- The loop of PickValid, with the rounds that are left.
pub pick_valid_loop : (String → Bool) → List RingNode → ℕ → ℕ → Option String
unfolding wrap_index visit
pick_valid_loop valid entries zero i = some ""
pick_valid_loop valid entries (suc rounds) i =
    visit valid (get_elem? entries (wrap_index entries i))
      (pick_valid_loop valid entries rounds (wrap_index entries i + 1))

-- PickValid
pub pick_valid : (String → Bool) → List RingNode → ℕ → Option String
pick_valid valid [] key = some ""
pick_valid valid (e ∷ es) key =
    pick_valid_loop valid (e ∷ es) (length (e ∷ es)) (find_index (e ∷ es) key)
