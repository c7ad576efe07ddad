-- ===== src/Proxy/Pinning/Clockwise.antt =====
-- A pick goes clockwise round the ring, and leaving out destinations is picking on a smaller ring.
use vrata.Common.{
  ℕ, zero, suc, ◌+◌, ◌≤◌, ◌<◌, String, ◌≡◌, refl, sym, ap, ◌∙◌, Bool, true, false, Option, some,
  List, [], ◌∷◌, ◌++◌, arith, ltb, leb, if◌then◌else◌, length, get_elem?, filter_by, filter_by_comm,
  filter_by-append, count_by-append, All-filter_by, count_by, length-append, All,
}
use mathlib.Core.Option
use mathlib.Core.List.{append_assoc, append-nil}
use native.Mathlib.Nat.{zero-add, add-zero, suc-add}
use vrata.Common.Search.{Sorted, below, above, below-append-above, search-below}
use vrata.Proxy.Pinning.{
  RingNode, node_hash, find_index, wrap_index, pick, visit, pick_valid_loop, pick_valid,
}

-- The destination of the first node that passes, or the given answer.
abbrev pub first_of_valid : (String → Bool) → List RingNode → Option String → Option String
first_of_valid valid [] d = d
first_of_valid valid (n ∷ ns) d =
    if valid n.dest_id then some n.dest_id else first_of_valid valid ns d

first_of_valid-append :
    (valid : String → Bool) (xs ys : List RingNode) (d : Option String)
    → first_of_valid valid (xs ++ ys) d ≡ first_of_valid valid xs (first_of_valid valid ys d)
first_of_valid-append valid [] ys d = refl
first_of_valid-append valid (x ∷ xs) ys d =
    ap (λ r. if valid x.dest_id then some x.dest_id else r) (first_of_valid-append valid xs ys d)

get_elem?-middle :
    (pre : List RingNode) (n : RingNode) (post : List RingNode)
    → get_elem? (pre ++ n ∷ post) (length pre) ≡ some n
get_elem?-middle [] n post = refl
get_elem?-middle (p ∷ pre) n post = get_elem?-middle pre n post

wrap_inside : (entries : List RingNode) (i : ℕ) → i < length entries → wrap_index entries i ≡ i
unfolding wrap_index
wrap_inside entries i h = ground arith

wrap_end : (entries : List RingNode) → wrap_index entries (length entries) ≡ 0
unfolding wrap_index
wrap_end entries = ground arith

wrap_start : (entries : List RingNode) → wrap_index entries 0 ≡ 0
unfolding wrap_index
wrap_start entries = ground arith

-- The nodes from the key on, and then those before it.
abbrev pub clockwise : ℕ → List RingNode → List RingNode
clockwise key entries = above node_hash key entries ++ below node_hash key entries

module _ (valid : String → Bool) (entries : List RingNode) where
  loop_hit :
      (i rounds : ℕ) (n : RingNode)
      → i < length entries
      → get_elem? entries i ≡ some n
      → pick_valid_loop valid entries (suc rounds) i
        ≡ visit valid (some n) (pick_valid_loop valid entries rounds (i + 1))
  unfolding pick_valid_loop
  loop_hit i rounds n h g = rw (wrap_inside entries i h, g)

  loop_wrap :
      (rounds : ℕ)
      → pick_valid_loop valid entries rounds (length entries)
        ≡ pick_valid_loop valid entries rounds 0
  unfolding pick_valid_loop
  loop_wrap zero = refl
  loop_wrap (suc rounds) = rw (wrap_end entries, wrap_start entries)

  -- Rounds of the loop that stay within the ring visit its nodes in turn.
  loop_visits :
      (xs pre post : List RingNode) (i k : ℕ)
      → entries ≡ pre ++ (xs ++ post)
      → i ≡ length pre
      → pick_valid_loop valid entries (length xs + k) i
        ≡ first_of_valid valid xs (pick_valid_loop valid entries k (i + length xs))
  unfolding visit
  loop_visits [] pre post i k e h = rw (zero-add k, add-zero i)
  loop_visits (x ∷ xs) pre post i k e h =
      rw (suc-add (length xs) k, loop_hit i (length xs + k) x inside at_i)
        (ap (λ r. if valid x.dest_id then some x.dest_id else r)
          (loop_visits xs (pre ++ x ∷ []) post (i + 1) k shifted next
            ∙ ap (λ j. first_of_valid valid xs (pick_valid_loop valid entries k j))
                (let e : i + 1 + length xs ≡ i + suc (length xs) = omega arith in e)))
    where
      inside : i < length entries
      inside = omega (arith, ap length e, length-append pre (x ∷ (xs ++ post)))

      at_i : get_elem? entries i ≡ some x
      at_i = rw (e, h) (get_elem?-middle pre x (xs ++ post))

      shifted : entries ≡ (pre ++ x ∷ []) ++ (xs ++ post)
      shifted = e ∙ sym (append_assoc pre (x ∷ []) (xs ++ post))

      next : i + 1 ≡ length (pre ++ x ∷ [])
      next = omega (arith, length-append pre (x ∷ []))

module _ (valid : String → Bool) (entries : List RingNode) (key : ℕ)
    (s : Sorted node_hash entries) where
  split : below node_hash key entries ++ above node_hash key entries ≡ entries
  split = below-append-above node_hash key entries s

  size :
      length (below node_hash key entries) + length (above node_hash key entries) ≡ length entries
  size =
      sym (length-append (below node_hash key entries) (above node_hash key entries))
      ∙ ap length split

  found : find_index entries key ≡ length (below node_hash key entries)
  unfolding find_index
  found = search-below node_hash key entries s

  second_half :
      pick_valid_loop valid entries (length (below node_hash key entries)) (length entries)
      ≡ first_of_valid valid (below node_hash key entries) (some "")
  unfolding pick_valid_loop
  second_half =
      loop_wrap valid entries (length (below node_hash key entries))
      ∙ (ap (λ n. pick_valid_loop valid entries n 0)
            (sym (add-zero (length (below node_hash key entries))))
          ∙ loop_visits valid entries (below node_hash key entries) [] (above node_hash key entries)
              0 0 (sym split) refl)

  loop_round :
      pick_valid_loop valid entries (length entries) (find_index entries key)
      ≡ first_of_valid valid (clockwise key entries) (some "")
  loop_round =
      rw (found, rounds)
        (loop_visits valid entries (above node_hash key entries) (below node_hash key entries) []
            (length (below node_hash key entries)) (length (below node_hash key entries))
            (sym split ∙ ap (◌++◌ (below node_hash key entries)) (sym (append-nil _))) refl
          ∙ (rw (size, second_half)
              (sym (
                first_of_valid-append valid (above node_hash key entries)
                  (below node_hash key entries) (some "")))))
    where
      rounds :
          length entries
          ≡ length (above node_hash key entries) + length (below node_hash key entries)
      rounds = omega (arith, size)

-- PickValid on a sorted ring gives the first valid destination clockwise from the key.
pub pick_valid-clockwise :
    (valid : String → Bool) (entries : List RingNode) (key : ℕ)
    → Sorted node_hash entries
    → pick_valid valid entries key ≡ first_of_valid valid (clockwise key entries) (some "")
unfolding pick_valid
pick_valid-clockwise valid [] key s = refl
pick_valid-clockwise valid (x ∷ xs) key s = loop_round valid (x ∷ xs) key s

head_of_clockwise :
    (bl ab entries : List RingNode)
    → bl ++ ab ≡ entries
    → 0 < length entries
    → Option.map (λ (n : RingNode). n.dest_id) (get_elem? entries (wrap_index entries (length bl)))
      ≡ first_of_valid (λ _. true) (ab ++ bl) (some "")
head_of_clockwise bl (a ∷ ab) entries e h =
    rw (wrap_inside entries (length bl) inside, ← e, get_elem?-middle bl a ab)
  where
    inside : length bl < length entries
    inside = omega (arith, ap length e, length-append bl (a ∷ ab))
head_of_clockwise (b ∷ bl) [] entries e h = rw (ends, wrap_end entries, ← e)
  where
    ends : length (b ∷ bl) ≡ length entries
    ends = omega (arith, ap length e, length-append (b ∷ bl) [])
head_of_clockwise [] [] entries e h = absurd (omega (arith, ap length e))

-- Pick gives the first destination clockwise from the key.
pick-clockwise :
    (entries : List RingNode) (key : ℕ)
    → Sorted node_hash entries
    → pick entries key ≡ first_of_valid (λ _. true) (clockwise key entries) (some "")
unfolding pick
pick-clockwise [] key s = refl
pick-clockwise (x ∷ xs) key s = rw (found (λ _. true) (x ∷ xs) key s) (
    head_of_clockwise (below node_hash key (x ∷ xs)) (above node_hash key (x ∷ xs)) (x ∷ xs)
      (split (λ _. true) (x ∷ xs) key s) (omega arith))

first_of_valid-filter_by :
    (valid : String → Bool) (xs : List RingNode) (d : Option String)
    → first_of_valid valid xs d ≡ first_of_valid (λ _. true) (filter_by (λ n. valid n.dest_id) xs) d
first_of_valid-filter_by valid [] d = refl
first_of_valid-filter_by valid (x ∷ xs) d = ground (arith, first_of_valid-filter_by valid xs d)

keep-Sorted :
    (b : Bool) (x : RingNode) (ys : List RingNode)
    → All (λ y. x.hash ≤ y.hash) ys
    → Sorted node_hash ys
    → Sorted node_hash (if b then x ∷ ys else ys)
keep-Sorted true x ys a s = (a, s)
keep-Sorted false x ys a s = s

Sorted-filter_by :
    (p : RingNode → Bool) (xs : List RingNode)
    → Sorted node_hash xs
    → Sorted node_hash (filter_by p xs)
Sorted-filter_by p [] s = tt
Sorted-filter_by p (x ∷ xs) (a, s) =
    keep-Sorted (p x) x _ (All-filter_by p _ xs a) (Sorted-filter_by p xs s)

-- On a ring sorted by hash, PickValid with a set of valid destinations picks what Pick would on the
-- ring that holds the nodes of those destinations alone.
pub pick_valid-filter_by :
    (valid : String → Bool) (entries : List RingNode) (key : ℕ)
    → Sorted node_hash entries
    → pick_valid valid entries key ≡ pick (filter_by (λ n. valid n.dest_id) entries) key
pick_valid-filter_by valid entries key s =
    pick_valid-clockwise valid entries key s
    ∙ (first_of_valid-filter_by valid (clockwise key entries) (some "")
        ∙ (rw
            (
              filter_by-append keeps (above node_hash key entries) (below node_hash key entries),
              filter_by_comm keeps (λ n. leb key n.hash) entries,
              filter_by_comm keeps (λ n. ltb n.hash key) entries,
            )
            (sym
              (pick-clockwise (filter_by keeps entries) key (Sorted-filter_by keeps entries s)))))
  where
    keeps : RingNode → Bool
    keeps n = valid n.dest_id

-- Going round visits each node of the ring once.
pub count_by-clockwise :
    (p : RingNode → Bool) (entries : List RingNode) (key : ℕ)
    → Sorted node_hash entries
    → count_by p (clockwise key entries) ≡ count_by p entries
count_by-clockwise p entries key s = omega (
  arith,
  count_by-append p (above node_hash key entries) (below node_hash key entries),
  count_by-append p (below node_hash key entries) (above node_hash key entries),
  ap (count_by p) (split (λ _. true) entries key s),
)
