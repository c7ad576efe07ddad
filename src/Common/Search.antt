-- ===== src/Common/Search.antt =====
-- sort.Search of Go's standard library, and lists sorted by a number, as sort.Slice leaves them.
use vrata.Common.Tests.{ltb, leb, if◌then◌else◌, ltb→lt, lt→ltb, Bool-cases}
use vrata.Common.Lists.{length, get_elem?, filter_by, All, length-append}
use Prim.Native.Nat.{ℕ, zero, suc, ◌+◌, ◌/◌, ◌≤◌, ◌<◌}
use mathlib.Core.Path.{◌≡◌, refl, sym, ap, subst, ◌∙◌}
use mathlib.Core.Logic.{inl, inr}
use mathlib.Core.Bool.{Bool, true, false}
use mathlib.Core.Option.{Option, none, some}
use mathlib.Core.List.{List, [], ◌∷◌, ◌++◌}
use native.Mathlib.Omega.{arith}
use native.Mathlib.Decide.{dec_lt, dec_le}

-- The loop of sort.Search between `i` and `j`.
pub search_loop : ℕ → (ℕ → Bool) → ℕ → ℕ → ℕ
search_loop zero f i j = i
search_loop (suc fuel) f i j =
    let h = (i + j) / 2 in
    let upper = search_loop fuel f (h + 1) j in
    let lower = search_loop fuel f i h in if ltb i j then (if f h then lower else upper) else i

-- sort.Search(n, f): n rounds are enough.
unfoldable pub search : ℕ → (ℕ → Bool) → ℕ
unfolding search_loop
search n f = search_loop n f 0 n

ended_le : (i j : ℕ) → ltb i j ≡ false → j ≤ i
ended_le i j h = ground arith

-- The place that a search over `n` ends at: all before it is out, and it is in unless it is the end.
pub record Found (n : ℕ) (f : ℕ → Bool) (r : ℕ) : Type 0 where
  pub within : r ≤ n
  pub out : (k : ℕ) → r ≡ suc k → f k ≡ false
  pub in_ : r < n → f r ≡ true

-- `i` and `j` keep the loop's invariant: f(i-1) is false and f(j) is true.
pub record Between (n : ℕ) (f : ℕ → Bool) (i j : ℕ) : Type 0 where
  pub ordered : i ≤ j
  pub top : j ≤ n
  pub low : (k : ℕ) → i ≡ suc k → f k ≡ false
  pub high : j < n → f j ≡ true

done-Found : (n : ℕ) (f : ℕ → Bool) (i j : ℕ) → i ≡ j → Between n f i j → Found n f i
done-Found n f i j e b = record {
  within = omega (arith, b.top);
  out = b.low;
  in_ = λ lt. subst (λ x. f x ≡ true) (sym e) (b.high (omega arith));
}

search_loop-Found :
    (fuel n : ℕ) (f : ℕ → Bool) (i j : ℕ)
    → j ≤ i + fuel
    → Between n f i j
    → Found n f (search_loop fuel f i j)
unfolding search_loop
search_loop-Found zero n f i j h b = done-Found n f i j (omega (arith, b.ordered)) b
search_loop-Found (suc fuel) n f i j h b = elim (Bool-cases (ltb i j)) [
  | inr ended ↦
      rw ended (done-Found n f i j (omega (arith, b.ordered, lt→ltb i j, ended_le i j ended)) b)
  | inl more ↦
      let lt = ltb→lt i j more in
      elim (Bool-cases (f ((i + j) / 2))) [
        | inl hit ↦
            rw (more, hit)
              (search_loop-Found fuel n f i ((i + j) / 2) (omega arith) (record {
                ordered = omega arith;
                top = omega (arith, b.top);
                low = b.low;
                high = λ _. hit;
              }))
        | inr miss ↦
            rw (more, miss)
              (search_loop-Found fuel n f ((i + j) / 2 + 1) j (omega arith) (record {
                ordered = omega arith;
                top = b.top;
                low = λ k e. subst (λ x. f x ≡ false) (omega arith) miss;
                high = b.high;
              }))
      ]
]

pub search-Found : (n : ℕ) (f : ℕ → Bool) → Found n f (search n f)
unfolding search
search-Found n f = search_loop-Found n n f 0 n (omega arith) (record {
  ordered = omega arith;
  top = omega arith;
  low = λ k e. absurd (omega arith);
  high = λ lt. absurd (omega arith);
})

module _ {A : Type 0} (hash : A → ℕ) where
  -- In ascending order of the hash.
  abbrev pub Sorted : List A → Type 0
  Sorted [] = Unit
  Sorted (x ∷ xs) = All (λ y. hash x ≤ hash y) xs × Sorted xs

  abbrev pub below : ℕ → List A → List A
  below key = filter_by (λ x. ltb (hash x) key)

  abbrev pub above : ℕ → List A → List A
  above key = filter_by (λ x. leb key (hash x))

  -- The test of a search for the first element whose hash is at least the key.
  abbrev pub reaches : ℕ → Option A → Bool
  reaches key none = false
  reaches key (some x) = leb key (hash x)

  All-above :
      (key : ℕ) (x : A) (xs : List A)
      → key ≤ hash x
      → All (λ y. hash x ≤ hash y) xs
      → (above key xs ≡ xs) × (below key xs ≡ [])
  All-above key x [] h a = (refl, refl)
  All-above key x (y ∷ ys) h (a, as_) = let (same, gone) = All-above key x ys h as_ in ground arith

  -- A sorted list is what lies below a key, and then the rest.
  pub below-append-above : (key : ℕ) (xs : List A) → Sorted xs → below key xs ++ above key xs ≡ xs
  below-append-above key [] s = refl
  below-append-above key (x ∷ xs) (a, s) = elim (dec_le key (hash x)) [
    | yes h ↦ ground (arith, All-above key x xs h a)
    | no h ↦ ground (arith, below-append-above key xs s)
  ]

  reaches-low :
      (key i : ℕ) (xs rest : List A)
      → i < length (below key xs)
      → reaches key (get_elem? (below key xs ++ rest) i) ≡ false
  reaches-low key i [] rest h = elim h [ ]
  reaches-low key zero (x ∷ xs) rest h = ground (arith, reaches-low key 0 xs rest)
  reaches-low key (suc i) (x ∷ xs) rest h =
      ground (arith, reaches-low key i xs rest, reaches-low key (suc i) xs rest)

  reaches-above :
      (key i : ℕ) (xs : List A)
      → i < length (above key xs)
      → reaches key (get_elem? (above key xs) i) ≡ true
  reaches-above key i [] h = elim h [ ]
  reaches-above key zero (x ∷ xs) h = ground (arith, reaches-above key 0 xs)
  reaches-above key (suc i) (x ∷ xs) h =
      ground (arith, reaches-above key i xs, reaches-above key (suc i) xs)

  reaches-high :
      (key i : ℕ) (xs pre : List A)
      → length pre ≤ i
      → i < length pre + length (above key xs)
      → reaches key (get_elem? (pre ++ above key xs) i) ≡ true
  reaches-high key i xs [] h k = reaches-above key i xs (omega arith)
  reaches-high key zero xs (p ∷ pre) h k = elim h [ ]
  reaches-high key (suc i) xs (p ∷ pre) h k = reaches-high key i xs pre (omega arith) (omega arith)

  -- On a sorted list the search for a key ends behind the elements below it.
  pub search-below :
      (key : ℕ) (xs : List A)
      → Sorted xs
      → search (length xs) (λ i. reaches key (get_elem? xs i)) ≡ length (below key xs)
  search-below key xs s = place (search (length xs) _) (search-Found (length xs) _)
    where
      split : below key xs ++ above key xs ≡ xs
      split = below-append-above key xs s

      size : length (below key xs) + length (above key xs) ≡ length xs
      size = sym (length-append (below key xs) (above key xs)) ∙ ap length split

      low : (i : ℕ) → i < length (below key xs) → reaches key (get_elem? xs i) ≡ false
      low i h = rw split at (reaches-low key i xs (above key xs) h)

      high :
          (i : ℕ) → length (below key xs) ≤ i → i < length xs → reaches key (get_elem? xs i) ≡ true
      high i h k = rw split at (reaches-high key i xs (below key xs) h (omega (arith, size)))

      place :
          (r : ℕ)
          → Found (length xs) (λ i. reaches key (get_elem? xs i)) r
          → r ≡ length (below key xs)
      place zero f = elim (dec_lt 0 (length (below key xs))) [
        | yes p ↦ cc (low 0 p, f.in_ (omega (arith, size)))
        | no p ↦ omega arith
      ]
      place (suc k) f = elim (dec_lt (suc k) (length (below key xs))) [
        | yes p ↦ cc (low (suc k) p, f.in_ (omega (arith, size)))
        | no p ↦ elim (dec_lt (length (below key xs)) (suc k)) [
          | yes q ↦ cc (high k (omega arith) (omega (arith, f.within)), f.out k refl)
          | no q ↦ omega arith
        ]
      ]
