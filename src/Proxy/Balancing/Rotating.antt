-- ===== src/Proxy/Balancing/Rotating.antt =====
-- Round robin gives every destination its turn.
use vrata.Common.{
  ℕ, zero, suc, ◌+◌, ◌%◌, ◌^◌, ◌<◌, String, ◌≡◌, refl, ap, ◌∙◌, Bool, Option, some, List, [], ◌∷◌,
  arith, if◌then◌else◌, length, get_elem?, count_by,
}
use native.Mathlib.Nat.{mod-eq_of_lt, add-mod_right}
use vrata.Common.StringMap.{lookup}
use vrata.Common.Counting.{count_from, count_from-append}
use vrata.Model.{DestinationRef}
use vrata.Proxy.Balancing.{endpoint_of, pick_round_robin}

tail_one : (n : ℕ) → suc n ≡ n + 1
tail_one n = omega arith

zero_plus : (n : ℕ) → 0 + n ≡ n
zero_plus n = omega arith

index_below :
    (ds : List DestinationRef) (i : ℕ) (d : DestinationRef)
    → get_elem? ds i ≡ some d
    → i < length ds
index_below [] i d found = cc
index_below (x ∷ ds) zero d found = omega arith
index_below (x ∷ ds) (suc i) d found = omega (arith, index_below ds i d found)

counted :
    (g : ℕ → Bool) (q : DestinationRef → Bool) (ds : List DestinationRef) (start : ℕ)
    → ((i : ℕ) (d : DestinationRef) → get_elem? ds i ≡ some d → g (start + i) ≡ q d)
    → count_from g start (length ds) ≡ count_by q ds
counted g q [] start h = refl
counted g q (d ∷ ds) start h =
    let here : g start ≡ q d = ap g (omega arith) ∙ h 0 d refl in
    let rest = counted g q ds (start + 1) (λ i x found. ap g (omega arith) ∙ h (suc i) x found) in
    rw here (ap (λ m. (if q d then 1 else 0) + m) rest)

module _ {E : Type 0} (endpoints : List (String × E)) where
  -- What `n` successive calls give.
  abbrev pub picks : ℕ → ℕ → List DestinationRef → List (Option E)
  picks zero counter dests = []
  picks (suc n) counter dests =
      (pick_round_robin endpoints counter dests).1
      ∷ picks n (pick_round_robin endpoints counter dests).0 dests

  module _ (p : Option E → Bool) (b : DestinationRef) (bs : List DestinationRef) where
    turn : ℕ → Bool
    turn k = p (endpoint_of endpoints (get_elem? (b ∷ bs) (k % length (b ∷ bs))))

    picks-turn :
        (n counter : ℕ)
        → counter + n < 2 ^ 64
        → count_by p (picks n counter (b ∷ bs)) ≡ count_from turn (counter + 1) n
    unfolding pick_round_robin turn
    picks-turn zero counter short = refl
    picks-turn (suc n) counter short =
        let fits : (counter + 1) % 2 ^ 64 ≡ counter + 1 = omega arith in
        rw fits (
          ap (λ m. (if turn (counter + 1) then 1 else 0) + m)
            (picks-turn n (counter + 1) (omega arith)))

    turn-round : (k : ℕ) → turn (k + length (b ∷ bs)) ≡ turn k
    unfolding turn
    turn-round k =
        ap (λ i. p (endpoint_of endpoints (get_elem? (b ∷ bs) i)))
          (add-mod_right k (suc (length bs)))

    one_more :
        (s : ℕ) → count_from turn (s + 1) (length (b ∷ bs)) ≡ count_from turn s (length (b ∷ bs))
    one_more s =
        let last : turn (s + 1 + length bs) ≡ turn s = ap turn (omega arith) ∙ turn-round s in
        omega (
          arith,
          ap (count_from turn (s + 1)) (tail_one (length bs)),
          count_from-append turn (s + 1) (length bs) 1,
          ap {B = ℕ} (λ v. if v then 1 else 0) last,
        )

    one_round : (s : ℕ) → count_from turn s (length (b ∷ bs)) ≡ count_from turn 0 (length (b ∷ bs))
    one_round zero = refl
    one_round (suc s) =
        ap (λ m. count_from turn m (length (b ∷ bs))) (omega arith) ∙ one_more s ∙ one_round s

    first_round :
        count_from turn 0 (length (b ∷ bs))
        ≡ count_by (λ d. p (lookup d.destination_id endpoints)) (b ∷ bs)
    unfolding turn
    first_round =
        counted turn (λ d. p (lookup d.destination_id endpoints)) (b ∷ bs) 0
          (λ i d found.
            (ap (λ k. p (endpoint_of endpoints (get_elem? (b ∷ bs) k)))
                (ap (λ k. k % length (b ∷ bs)) (zero_plus i)
                  ∙ mod-eq_of_lt (index_below (b ∷ bs) i d found))
              ∙ ap (λ o. p (endpoint_of endpoints o)) found))

    -- Fewer than 2 ^ 64 calls in, as many successive calls as there are destinations give each of them its
    -- turn: of the endpoints they give, as many pass any test as there are destinations whose endpoint does.
    pub picks-count_by :
        (counter : ℕ)
        → counter + length (b ∷ bs) < 2 ^ 64
        → count_by p (picks (length (b ∷ bs)) counter (b ∷ bs))
          ≡ count_by (λ d. p (lookup d.destination_id endpoints)) (b ∷ bs)
    picks-count_by counter short =
        picks-turn (length (b ∷ bs)) counter short ∙ one_round (counter + 1) ∙ first_round
