-- ===== src/Proxy/Selection/Shares.antt =====
-- Each destination gets its weight's share of the draws.
use vrata.Common.{
  ℕ, ◌+◌, ◌%◌, ◌^◌, ◌≤◌, ◌<◌, String, ◌≡◌, refl, ap, ap₂, ◌∙◌, Bool, false, List, [], ◌∷◌, arith,
  ltb, ◌==◌, if◌then◌else◌,
}
use native.Mathlib.Nat.{mod-eq_of_lt}
use vrata.Common.Counting.{count_from, count_from-append, count_from-const, count_from-same}
use vrata.Common.Words.{add32}
use vrata.Model.{DestinationRef}
use vrata.Proxy.Selection.{
  Choice, no_destination, chosen, panics, choose, total_weight, all_zero, last_id, weighted_loop,
  weighted_choice,
}

-- The weights of the destinations that pass, added up.
abbrev pub weight_by : (String → Bool) → List DestinationRef → ℕ
weight_by p [] = 0
weight_by p (b ∷ bs) = (if p b.destination_id then b.weight else 0) + weight_by p bs

abbrev pub is_chosen : (String → Bool) → Choice → Bool
is_chosen p no_destination = false
is_chosen p (chosen id) = p id
is_chosen p panics = false

abbrev pub sum_weights : List DestinationRef → ℕ
sum_weights [] = 0
sum_weights (b ∷ bs) = b.weight + sum_weights bs

total_weight-sum :
    (bs : List DestinationRef) (total : ℕ)
    → total + sum_weights bs < 2 ^ 32
    → total_weight total bs ≡ total + sum_weights bs
unfolding total_weight
total_weight-sum [] total small = omega arith
total_weight-sum (b ∷ bs) total small = ground (arith, total_weight-sum bs (total + b.weight))

module _ (p : String → Bool) (last : String) where
  loop_here :
      (b : DestinationRef) (bs : List DestinationRef) (r c : ℕ)
      → r < c + b.weight
      → c + b.weight < 2 ^ 32
      → weighted_loop last r c (b ∷ bs) ≡ b.destination_id
  unfolding weighted_loop
  loop_here b bs r c lt small = ground arith

  loop_later :
      (b : DestinationRef) (bs : List DestinationRef) (r c : ℕ)
      → c + b.weight ≤ r
      → c + b.weight < 2 ^ 32
      → weighted_loop last r c (b ∷ bs) ≡ weighted_loop last r (c + b.weight) bs
  unfolding weighted_loop
  loop_later b bs r c le small =
      let fits : add32 c b.weight ≡ c + b.weight = omega arith in
      let over : ltb r (c + b.weight) ≡ false = ground arith in rw (fits, over) refl

  -- The draws below the sum of the weights, from the cumulative weight on.
  loop-share :
      (bs : List DestinationRef) (c : ℕ)
      → c + sum_weights bs < 2 ^ 32
      → count_from (λ r. p (weighted_loop last r c bs)) c (sum_weights bs) ≡ weight_by p bs
  unfolding weighted_loop
  loop-share [] c small = refl
  loop-share (b ∷ bs) c small =
      count_from-append (λ r. p (weighted_loop last r c (b ∷ bs))) c b.weight (sum_weights bs)
      ∙ ap₂ (λ m n. m + n)
          (count_from-const (λ r. p (weighted_loop last r c (b ∷ bs))) (p b.destination_id) c
            b.weight (λ r lo hi. ap p (loop_here b bs r c hi (omega arith))))
          (count_from-same (λ r. p (weighted_loop last r c (b ∷ bs)))
              (λ r. p (weighted_loop last r (c + b.weight) bs)) (c + b.weight) (sum_weights bs)
              (λ r lo hi. ap p (loop_later b bs r c lo (omega arith)))
            ∙ loop-share bs (c + b.weight) (omega arith))

any_weight_pos : (bs : List DestinationRef) → 0 < sum_weights bs → all_zero bs ≡ false
unfolding all_zero
any_weight_pos [] h = absurd (omega arith)
any_weight_pos (b ∷ bs) h = ground (arith, any_weight_pos bs)

weighted_choice-below :
    (last : String) (dests : List DestinationRef) (total r : ℕ)
    → r < total
    → weighted_choice last dests total r ≡ chosen (weighted_loop last r 0 dests)
unfolding weighted_choice
weighted_choice-below last dests total r lt =
    let positive : (total == 0) ≡ false = ground arith in rw (positive, mod-eq_of_lt lt) refl

choose_draw :
    (b c : DestinationRef) (bs : List DestinationRef) (draw_int r : ℕ)
    → r < sum_weights (b ∷ c ∷ bs)
    → sum_weights (b ∷ c ∷ bs) < 2 ^ 32
    → choose (b ∷ c ∷ bs) draw_int r ≡ chosen (weighted_loop (last_id c bs) r 0 (b ∷ c ∷ bs))
unfolding choose
choose_draw b c bs draw_int r lt small =
    let total : total_weight 0 (b ∷ c ∷ bs) ≡ sum_weights (b ∷ c ∷ bs) =
      total_weight-sum (b ∷ c ∷ bs) 0 (omega arith) ∙ omega arith in
    rw (any_weight_pos (b ∷ c ∷ bs) (omega arith)) (
      ap (λ n. weighted_choice (last_id c bs) (b ∷ c ∷ bs) n r) total
      ∙ weighted_choice-below (last_id c bs) (b ∷ c ∷ bs) (sum_weights (b ∷ c ∷ bs)) r lt)

-- Of at least two destinations, the weights of which add up to a positive number below 2 ^ 32: of as many
-- successive draws as that number, from 0 on, those that choose some destination of a set are as many
-- as the weights of the set's members add up to.
pub choose-share :
    (b c : DestinationRef) (bs : List DestinationRef) (p : String → Bool) (draw_int : ℕ)
    → 0 < sum_weights (b ∷ c ∷ bs)
    → sum_weights (b ∷ c ∷ bs) < 2 ^ 32
    → count_from
        (λ draw. is_chosen p (choose (b ∷ c ∷ bs) draw_int draw))
        0
        (sum_weights (b ∷ c ∷ bs))
      ≡ weight_by p (b ∷ c ∷ bs)
choose-share b c bs p draw_int pos small =
    count_from-same (λ draw. is_chosen p (choose (b ∷ c ∷ bs) draw_int draw))
      (λ r. p (weighted_loop (last_id c bs) r 0 (b ∷ c ∷ bs))) 0 (sum_weights (b ∷ c ∷ bs))
      (λ r lo hi. ap (is_chosen p) (choose_draw b c bs draw_int r (omega arith) small))
    ∙ loop-share p (last_id c bs) (b ∷ c ∷ bs) 0 (omega arith)

total_weight-mod :
    (bs : List DestinationRef) (total : ℕ)
    → total < 2 ^ 32
    → total_weight total bs ≡ (total + sum_weights bs) % 2 ^ 32
unfolding total_weight
total_weight-mod [] total small = omega arith
total_weight-mod (b ∷ bs) total small =
    omega (arith, total_weight-mod bs ((total + b.weight) % 2 ^ 32) (omega arith))

weighted_choice-zero :
    (last : String) (dests : List DestinationRef) (r : ℕ) → weighted_choice last dests 0 r ≡ panics
unfolding weighted_choice
weighted_choice-zero last dests r = refl

-- Of at least two destinations, the weights of which add up to a positive multiple of 2 ^ 32, every draw
-- panics.
pub choose-overflow :
    (b c : DestinationRef) (bs : List DestinationRef) (draw_int draw : ℕ)
    → 0 < sum_weights (b ∷ c ∷ bs)
    → sum_weights (b ∷ c ∷ bs) % 2 ^ 32 ≡ 0
    → choose (b ∷ c ∷ bs) draw_int draw ≡ panics
unfolding choose
choose-overflow b c bs draw_int draw pos gone =
    let total : total_weight 0 (b ∷ c ∷ bs) ≡ 0 =
      total_weight-mod (b ∷ c ∷ bs) 0 (omega arith) ∙ omega (arith, gone) in
    rw (any_weight_pos (b ∷ c ∷ bs) pos) (
      ap (λ n. weighted_choice (last_id c bs) (b ∷ c ∷ bs) n draw) total
      ∙ weighted_choice-zero (last_id c bs) (b ∷ c ∷ bs) draw)
