-- ===== src/Proxy/Balancing/Least.antt =====
-- The least-request balancer picks a least loaded destination, and Done takes the request back.
use vrata.Common.{
  ℕ, ◌+◌, ◌-◌, ◌^◌, ◌≤◌, ◌<◌, String, ◌≡◌, refl, sym, ap, ◌∙◌, ◌≢◌, ◌⊎◌, inl, inr, Bool, true,
  false, Option, some, List, [], ◌∷◌, arith, str_eq, eq_iff, if◌then◌else◌, Bool-cases, All,
}
use mathlib.Core.Path.{subst}
use vrata.Common.Words.{add64, minus_one64, slt64}
use vrata.Common.StringMap.{lookup, insert, lookup-insert}
use vrata.Model.{DestinationRef}
use vrata.Proxy.Balancing.{InFlight, in_flight, or_zero, least_loop, done, pick_least, pick_best}

abbrev pub HasId : String → List DestinationRef → Type 0
HasId id [] = ⊥
HasId id (b ∷ bs) = (b.destination_id ≡ id) ⊎ HasId id bs

abbrev pub AtLeast : InFlight → ℕ → List DestinationRef → Type 0
AtLeast inflight n = All (λ b. n ≤ in_flight inflight b.destination_id)

abbrev pub Below : InFlight → ℕ → List DestinationRef → Type 0
Below inflight n = All (λ b. in_flight inflight b.destination_id < n)

-- The loop keeps what it had, or goes over to a destination with fewer requests; none has fewer.
abbrev Kept : InFlight → List DestinationRef → String → ℕ → String × ℕ → Type 0
Kept inflight bs best n r = (r.0 ≡ best) × (r.1 ≡ n) × AtLeast inflight n bs

abbrev Found : InFlight → List DestinationRef → ℕ → String × ℕ → Type 0
Found inflight bs n r =
    HasId r.0 bs × (r.1 ≡ in_flight inflight r.0) × (r.1 < n) × AtLeast inflight r.1 bs

module _ (inflight : InFlight) where
  loop_step :
      (bs : List DestinationRef) (b : DestinationRef) (best : String) (n : ℕ) (v : Bool)
      → slt64 (in_flight inflight b.destination_id) n ≡ v
      → least_loop inflight (b ∷ bs) best n
        ≡ least_loop inflight bs
            (if v then b.destination_id else best)
            (if v then in_flight inflight b.destination_id else n)
  unfolding least_loop
  loop_step bs b best n v e =
      ap
        (λ w.
          least_loop inflight bs (if w then b.destination_id else best)
            (if w then in_flight inflight b.destination_id else n))
        e

  after_better :
      (bs : List DestinationRef) (b : DestinationRef) (best : String) (n : ℕ) (r : String × ℕ)
      → in_flight inflight b.destination_id < n
      → Kept inflight bs b.destination_id (in_flight inflight b.destination_id) r
        ⊎ Found inflight bs (in_flight inflight b.destination_id) r
      → Kept inflight (b ∷ bs) best n r ⊎ Found inflight (b ∷ bs) n r
  after_better bs b best n r less (inl (id, count, rest)) = inr (
    inl (sym id),
    count ∙ ap (in_flight inflight) (sym id),
    omega (arith, count),
    (omega (arith, count), subst (λ m. AtLeast inflight m bs) (sym count) rest),
  )
  after_better bs b best n r less (inr (has, count, fewer, rest)) =
      inr (inr has, count, omega arith, (omega arith, rest))

  after_worse :
      (bs : List DestinationRef) (b : DestinationRef) (best : String) (n : ℕ) (r : String × ℕ)
      → n ≤ in_flight inflight b.destination_id
      → Kept inflight bs best n r ⊎ Found inflight bs n r
      → Kept inflight (b ∷ bs) best n r ⊎ Found inflight (b ∷ bs) n r
  after_worse bs b best n r more (inl (id, count, rest)) = inl (id, count, (more, rest))
  after_worse bs b best n r more (inr (has, count, fewer, rest)) =
      inr (inr has, count, fewer, (omega arith, rest))

  loop-least :
      (bs : List DestinationRef) (best : String) (n : ℕ)
      → Below inflight (2 ^ 63) bs
      → n < 2 ^ 63
      → Kept inflight bs best n (least_loop inflight bs best n)
        ⊎ Found inflight bs n (least_loop inflight bs best n)
  unfolding least_loop
  loop-least [] best n small small_n = inl (refl, refl, tt)
  loop-least (b ∷ bs) best n (small_b, small) small_n =
      elim (Bool-cases (slt64 (in_flight inflight b.destination_id) n)) [
        | inl better ↦
            subst (λ r. Kept inflight (b ∷ bs) best n r ⊎ Found inflight (b ∷ bs) n r)
              (sym (loop_step bs b best n true better))
              (after_better bs b best n _ (ground arith) (
                loop-least bs b.destination_id (in_flight inflight b.destination_id) small small_b))
        | inr worse ↦
            subst (λ r. Kept inflight (b ∷ bs) best n r ⊎ Found inflight (b ∷ bs) n r)
              (sym (loop_step bs b best n false worse))
              (after_worse bs b best n _ (ground arith) (loop-least bs best n small small_n))
      ]

in_flight-insert :
    (inflight : InFlight) (k j : String) (n : ℕ)
    → in_flight (insert k n inflight) j ≡ (if str_eq k j then n else in_flight inflight j)
in_flight-insert inflight k j n =
    ap or_zero (lookup-insert j k n inflight) ∙ or_zero_if (str_eq k j)
  where
    or_zero_if :
        (b : Bool)
        → or_zero (if b then some n else lookup j inflight)
          ≡ (if b then n else in_flight inflight j)
    or_zero_if true = refl
    or_zero_if false = refl

eq_self : (k : String) → str_eq k k ≡ true
eq_self k = (eq_iff k k).1 refl

not_empty : (id : String) → id ≢ "" → str_eq id "" ≡ false
not_empty id h = ground (arith, h, eq_iff id "")

id_named :
    (id : String) (bs : List DestinationRef)
    → HasId id bs
    → All (λ b. b.destination_id ≢ "") bs
    → id ≢ ""
id_named id [] h named = absurd h
id_named id (b ∷ bs) (inl e) (n, named) = λ empty. n (e ∙ empty)
id_named id (b ∷ bs) (inr h) (n, named) = id_named id bs h named

add_one :
    (inflight : InFlight) (id j : String)
    → in_flight inflight id < 2 ^ 63 - 1
    → in_flight (insert id (add64 (in_flight inflight id) 1) inflight) j
      ≡ in_flight inflight j + (if str_eq id j then 1 else 0)
add_one inflight id j small =
    in_flight-insert inflight id j (add64 (in_flight inflight id) 1)
    ∙ elim (Bool-cases (str_eq id j)) [
      | inl same ↦ rw same (omega (arith, ap (in_flight inflight) ((eq_iff id j).0 same)))
      | inr differ ↦ rw differ (omega arith)
    ]

module _ (before after : InFlight) (id : String) (small : in_flight before id < 2 ^ 63 - 1)
    (added : (j : String)
      → in_flight after j ≡ in_flight before j + (if str_eq id j then 1 else 0)) where
  one_more : in_flight after id ≡ in_flight before id + 1
  one_more = added id ∙ ap (λ v. in_flight before id + (if v then 1 else 0)) (eq_self id)

  done-after : (j : String) → in_flight (done after id) j ≡ in_flight before j
  unfolding done
  done-after j = in_flight-insert after id j _ ∙ elim (Bool-cases (str_eq id j)) [
    | inl same ↦ rw same (taken_back ∙ ap (in_flight before) ((eq_iff id j).0 same))
    | inr differ ↦ rw differ (omega (arith, added j, ap {B = ℕ} (λ v. if v then 1 else 0) differ))
  ]
    where
      taken_back :
          (if slt64 (add64 (in_flight after id) minus_one64) 0
            then 0
            else add64 (in_flight after id) minus_one64)
          ≡ in_flight before id
      taken_back = ground (arith, one_more)

module _ {E : Type 0} (endpoints : List (String × E)) where
  pick_best-named :
      (inflight : InFlight) (id : String)
      → id ≢ ""
      → pick_best endpoints inflight id
        ≡ (insert id (add64 (in_flight inflight id) 1) inflight, lookup id endpoints)
  unfolding pick_best
  pick_best-named inflight id named = rw (not_empty id named) refl

  -- What a pick does: it gives the endpoint of a destination with the fewest requests in flight, and
  -- counts one more for that destination alone, which Done takes back.
  abbrev pub PicksLeast : InFlight → List DestinationRef → InFlight × Option E → Type 0
  PicksLeast inflight dests (after, picked) =
      (id : String) × HasId id dests
      × AtLeast inflight (in_flight inflight id) dests
      × (picked ≡ lookup id endpoints)
      × ((j : String) → in_flight after j ≡ in_flight inflight j + (if str_eq id j then 1 else 0))
      × ((j : String) → in_flight (done after id) j ≡ in_flight inflight j)

  picks-Found :
      (inflight : InFlight) (dests : List DestinationRef) (r : String × ℕ)
      → All (λ d. d.destination_id ≢ "") dests
      → Found inflight dests (2 ^ 63 - 1) r
      → PicksLeast inflight dests (pick_best endpoints inflight r.0)
  picks-Found inflight dests (id, n) named (has, count, less, least) =
      let small : in_flight inflight id < 2 ^ 63 - 1 = omega (arith, count) in
      let after = insert id (add64 (in_flight inflight id) 1) inflight in
      subst (PicksLeast inflight dests)
        (sym (pick_best-named inflight id (id_named id dests has named)))
        (
          id,
          has,
          subst (λ m. AtLeast inflight m dests) count least,
          refl,
          (λ j. add_one inflight id j small),
          done-after inflight after id small (λ j. add_one inflight id j small),
        )

  weaken :
      (inflight : InFlight) (ds : List DestinationRef)
      → Below inflight (2 ^ 63 - 1) ds
      → Below inflight (2 ^ 63) ds
  weaken inflight [] h = tt
  weaken inflight (d ∷ ds) (h, hs) = (omega arith, weaken inflight ds hs)

  -- Of destinations with IDs that are not empty, at least one, and with fewer than 2 ^ 63 - 1 requests in
  -- flight each, Pick gives the endpoint of one that has no more requests in flight than any other. It
  -- counts one more for that one alone, and Done for it gives back the numbers from before.
  pub pick_least-PicksLeast :
      (inflight : InFlight) (b : DestinationRef) (bs : List DestinationRef)
      → All (λ d. d.destination_id ≢ "") (b ∷ bs)
      → Below inflight (2 ^ 63 - 1) (b ∷ bs)
      → PicksLeast inflight (b ∷ bs) (pick_least endpoints inflight (b ∷ bs))
  unfolding pick_least
  pick_least-PicksLeast inflight b bs named (small_b, small) =
      elim (loop-least inflight (b ∷ bs) "" (2 ^ 63 - 1) (omega arith, weaken inflight bs small)
        (omega arith)) [
          | inl (id, count, (more, rest)) ↦ absurd (omega arith)
          | inr found ↦
              picks-Found inflight (b ∷ bs) (least_loop inflight (b ∷ bs) "" (2 ^ 63 - 1)) named
                found
        ]
