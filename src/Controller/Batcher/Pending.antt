-- ===== src/Controller/Batcher/Pending.antt =====
-- What is pending, and how many changes a snapshot can hold.
use vrata.Common.{
  ℕ, ◌+◌, ◌^◌, ◌≤◌, ◌<◌, String, ◌≡◌, refl, ap, ap₂, ◌∙◌, inl, inr, Bool, true, false, ◌&&◌, Option,
  none, some, List, [], ◌∷◌, arith, leb, if◌then◌else◌, Bool-cases, length, All,
}
use vrata.Common.Words.{add64, slt64, sle64}
use vrata.Controller.Batcher.{
  Batcher, Answer, new, flush_locked, flush_created, signal, flush, fires, Event, signals, flushes,
  timeout, step, run,
}

-- Whether the API creates and activates the snapshot.
abbrev pub succeeds : Answer → Bool
succeeds a = elim a.created [ none ↦ false | some id ↦ a.activates ]

-- The changes without a snapshot after some events, `n` of them before.
abbrev pub waiting : ℕ → ℕ → List Event → ℕ
waiting max n [] = n
waiting max n (signals a ∷ es) = waiting max (if leb max (n + 1) && succeeds a then 0 else n + 1) es
waiting max n (flushes a ∷ es) = waiting max (if succeeds a then 0 else n) es
waiting max n (timeout a ∷ es) = waiting max (if succeeds a then 0 else n) es

flush_created-pending :
    (b : Batcher) (created : Option String) (v : Bool)
    → ((flush_created b created v).pending
        ≡ (if elim created [ none ↦ false | some id ↦ v ] then 0 else b.pending))
      × ((flush_created b created v).max_batch ≡ b.max_batch)
unfolding flush_created
flush_created-pending b none v = (refl, refl)
flush_created-pending b (some id) true = (refl, refl)
flush_created-pending b (some id) false = (refl, refl)

flush_locked-pending :
    (b : Batcher) (a : Answer)
    → ((flush_locked b a).pending ≡ (if succeeds a then 0 else b.pending))
      × ((flush_locked b a).max_batch ≡ b.max_batch)
unfolding flush_locked
flush_locked-pending b a = flush_created-pending (record b { timer = false }) a.created a.activates

signal-pending :
    (b : Batcher) (a : Answer)
    → b.max_batch < 2 ^ 63
    → b.pending + 1 < 2 ^ 63
    → ((signal b a).pending
        ≡ (if leb b.max_batch (b.pending + 1) && succeeds a then 0 else b.pending + 1))
      × ((signal b a).max_batch ≡ b.max_batch)
unfolding signal
signal-pending b a max_fits fits =
    let counted = record b { pending = add64 b.pending 1; counter = add64 b.counter 1 } in
    let (left, same) = flush_locked-pending counted a in
    let fits1 : add64 b.pending 1 ≡ b.pending + 1 = omega arith in
    elim (Bool-cases (leb b.max_batch (b.pending + 1))) [
      | inl full ↦
          let full64 : sle64 b.max_batch (add64 b.pending 1) ≡ true = ground arith in
          rw (full64, full) (left ∙ ap (λ n. if succeeds a then 0 else n) fits1, same)
      | inr room ↦
          let room64 : sle64 b.max_batch (add64 b.pending 1) ≡ false = ground arith in
          rw (room64, room) (fits1, refl)
    ]

keeps_zero : (v : Bool) (n : ℕ) → n ≡ 0 → n ≡ (if v then 0 else n)
keeps_zero true n e = e
keeps_zero false n e = refl

flush-pending :
    (b : Batcher) (a : Answer)
    → b.pending < 2 ^ 63
    → ((flush b a).pending ≡ (if succeeds a then 0 else b.pending))
      × ((flush b a).max_batch ≡ b.max_batch)
unfolding flush
flush-pending b a fits = elim (Bool-cases (slt64 0 b.pending)) [
  | inl some_ ↦ rw some_ (flush_locked-pending b a)
  | inr none_ ↦ rw none_ (keeps_zero (succeeds a) b.pending (ground arith), refl)
]

fires-pending :
    (b : Batcher) (a : Answer)
    → b.pending < 2 ^ 63
    → ((fires b a).pending ≡ (if succeeds a then 0 else b.pending))
      × ((fires b a).max_batch ≡ b.max_batch)
unfolding fires
fires-pending b a fits = elim (Bool-cases (slt64 0 b.pending)) [
  | inl some_ ↦ rw some_ (flush_locked-pending b a)
  | inr none_ ↦ rw none_ (keeps_zero (succeeds a) b.pending (ground arith), refl)
]

waits_le : (v : Bool) (n : ℕ) → (if v then 0 else n) ≤ n
waits_le true n = omega arith
waits_le false n = omega arith

run-waiting :
    (b : Batcher) (max n : ℕ) (es : List Event)
    → b.max_batch ≡ max
    → b.pending ≡ n
    → max < 2 ^ 63
    → n + length es < 2 ^ 63
    → (run b es).pending ≡ waiting max n es
unfolding step
run-waiting b max n [] m p max_fits fits = p
run-waiting b max n (signals a ∷ es) m p max_fits fits =
    let (left, same) = signal-pending b a (omega (arith, m)) (omega (arith, p)) in
    let v = leb max (n + 1) && succeeds a in
    run-waiting (signal b a) max (if v then 0 else n + 1) es (same ∙ m)
      (left ∙ ap₂ (λ k l. if leb k (l + 1) && succeeds a then 0 else l + 1) m p) max_fits
      (omega (arith, waits_le v (n + 1)))
run-waiting b max n (flushes a ∷ es) m p max_fits fits =
    let (left, same) = flush-pending b a (omega (arith, p)) in
    run-waiting (flush b a) max (if succeeds a then 0 else n) es (same ∙ m)
      (left ∙ ap (λ l. if succeeds a then 0 else l) p) max_fits
      (omega (arith, waits_le (succeeds a) n))
run-waiting b max n (timeout a ∷ es) m p max_fits fits =
    let (left, same) = fires-pending b a (omega (arith, p)) in
    run-waiting (fires b a) max (if succeeds a then 0 else n) es (same ∙ m)
      (left ∙ ap (λ l. if succeeds a then 0 else l) p) max_fits
      (omega (arith, waits_le (succeeds a) n))

-- With a limit and a number of events below 2 ^ 63: what Pending gives for a new batcher after the events
-- is the number of the signals since the last flush that the API let succeed, where a signal flushes if
-- it brings that number to the limit.
pub run-pending :
    (max : ℕ) (es : List Event)
    → max < 2 ^ 63
    → length es < 2 ^ 63
    → (run (new max) es).pending ≡ waiting max 0 es
unfolding new
run-pending max es max_fits fits = run-waiting (new max) max 0 es refl refl max_fits (omega arith)

abbrev pub Succeeds : List Event → Type 0
Succeeds = All (λ e. succeeds (elim e [ signals a ↦ a | flushes a ↦ a | timeout a ↦ a ]) ≡ true)

waiting_below : (max n : ℕ) (es : List Event) → n < max → Succeeds es → waiting max n es < max
waiting_below max n [] below h = below
waiting_below max n (signals a ∷ es) below (ok_, oks) =
    waiting_below max (if leb max (n + 1) && succeeds a then 0 else n + 1) es (ground (arith, ok_))
      oks
waiting_below max n (flushes a ∷ es) below (ok_, oks) =
    waiting_below max (if succeeds a then 0 else n) es (ground (arith, ok_)) oks
waiting_below max n (timeout a ∷ es) below (ok_, oks) =
    waiting_below max (if succeeds a then 0 else n) es (ground (arith, ok_)) oks

-- If the limit is positive and below 2 ^ 63, there are fewer than 2 ^ 63 events, and the API always
-- succeeds, then fewer changes than the limit are pending after the events.
pub run-below :
    (max : ℕ) (es : List Event)
    → 0 < max
    → max < 2 ^ 63
    → length es < 2 ^ 63
    → Succeeds es
    → (run (new max) es).pending < max
run-below max es pos max_fits fits h =
    omega (arith, run-pending max es max_fits fits, waiting_below max 0 es pos h)
