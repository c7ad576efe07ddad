-- ===== src/Proxy/Retry/Attempts.antt =====
-- Which attempts a call makes, and what it gives back.
use vrata.Common.{
  ℕ, zero, suc, ◌+◌, ◌-◌, ◌≤◌, ◌<◌, String, ◌≡◌, refl, sym, ap, ◌⊎◌, inl, inr, Bool, true, false,
  ◌&&◌, Option, none, some, List, [], ◌∷◌, arith, ltb, ◌==◌, lt→ltb,
}
use vrata.Proxy.Retry.{
  RouteRetry, Reply, failure, returned, panicked, exhausted, Trip, retriable, base_backoff,
  max_backoff, has_deadline, round, attempt_loop, wrapped_trip, round_trip, calc_backoff,
}

-- a, a + 1, …: `n` numbers.
abbrev pub count_up : ℕ → ℕ → List ℕ
count_up a zero = []
count_up a (suc n) = a ∷ count_up (a + 1) n

not_below : (a b : ℕ) → b ≤ a → ltb a b ≡ false
not_below a b h = ground arith

pub positive : (a : ℕ) → 0 < a → (a == 0) ≡ false
positive a h = ground arith

and_false : (b : Bool) → (b && false) ≡ false
and_false true = refl
and_false false = refl

and_true : (b : Bool) → (b && true) ≡ b
and_true true = refl
and_true false = refl

module _ (retry : RouteRetry) (inner : Bool → ℕ → Reply) (draws : ℕ → ℕ) where
  abbrev pub reply : ℕ → Reply
  reply attempt = inner (has_deadline retry) attempt

  abbrev pub backoff : ℕ → Option ℕ
  backoff attempt = calc_backoff (base_backoff retry) (max_backoff retry) attempt (draws attempt)

  -- The replies of `n` attempts from the given one on are retriable.
  abbrev pub AllRetriable : ℕ → ℕ → Type 0
  AllRetriable attempt zero = Unit {0}
  AllRetriable attempt (suc n) =
      (retriable retry (reply attempt) ≡ true) × AllRetriable (attempt + 1) n

  -- How a call that begins at `attempt`, with `rounds` retries to come, may go: `n` attempts whose
  -- replies are retriable, and a last one, which ends the call.
  pub record Ran (t : Trip) (attempt rounds : ℕ) : Type 0 where
    pub n : ℕ
    pub last : ℕ
    pub last_is : attempt + n ≡ last
    pub bounded : n ≤ rounds
    pub numbered : t.sent ≡ count_up (attempt + 1) (suc n)
    pub retried : AllRetriable attempt n
    pub ended :
        ((t.outcome ≡ returned (reply last))
          × ((n ≡ rounds) ⊎ (retriable retry (reply last) ≡ false)))
        ⊎ ((t.outcome ≡ panicked)
            × (backoff last ≡ none)
            × (retriable retry (reply last) ≡ true)
            × (n < rounds))

  last-Ran :
      (attempt rounds : ℕ) (b : Option ℕ) (rest : Trip)
      → ((rounds ≡ 0) ⊎ (retriable retry (reply attempt) ≡ false))
      → Ran (round false b attempt (reply attempt) rest) attempt rounds
  unfolding round
  last-Ran attempt rounds b rest e = record {
    n = 0;
    last = attempt;
    last_is = omega arith;
    bounded = omega arith;
    numbered = refl;
    retried = tt;
    ended = inl (refl, elim e [ inl z ↦ inl (sym z) | inr f ↦ inr f ]);
  }

  panic-Ran :
      (attempt rounds : ℕ) (rest : Trip)
      → retriable retry (reply attempt) ≡ true
      → backoff attempt ≡ none
      → 0 < rounds
      → Ran (round true none attempt (reply attempt) rest) attempt rounds
  unfolding round
  panic-Ran attempt rounds rest r e h = record {
    n = 0;
    last = attempt;
    last_is = omega arith;
    bounded = omega arith;
    numbered = refl;
    retried = tt;
    ended = inr (refl, e, r, h);
  }

  next-Ran :
      (attempt rounds d : ℕ) (rest : Trip)
      → retriable retry (reply attempt) ≡ true
      → Ran rest (attempt + 1) rounds
      → Ran (round true (some d) attempt (reply attempt) rest) attempt (suc rounds)
  unfolding round
  next-Ran attempt rounds d rest r ran = record {
    n = suc ran.n;
    last = ran.last;
    last_is = omega (arith, ran.last_is);
    bounded = omega (arith, ran.bounded);
    numbered = ap (◌∷◌ (attempt + 1)) ran.numbered;
    retried = (r, ran.retried);
    ended = elim ran.ended [
      | inl (e, inl z) ↦ inl (e, inl (ap suc z))
      | inl (e, inr f) ↦ inl (e, inr f)
      | inr (e, b, t, lt) ↦ inr (e, b, t, omega arith)
    ];
  }

  more-Ran :
      (attempt rounds : ℕ) (go : Bool) (b : Option ℕ) (rest : Trip)
      → retriable retry (reply attempt) ≡ go
      → backoff attempt ≡ b
      → Ran rest (attempt + 1) rounds
      → Ran (round go b attempt (reply attempt) rest) attempt (suc rounds)
  more-Ran attempt rounds true none rest r e ran =
      panic-Ran attempt (suc rounds) rest r e (omega arith)
  more-Ran attempt rounds true (some d) rest r e ran = next-Ran attempt rounds d rest r ran
  more-Ran attempt rounds false b rest r e ran = last-Ran attempt (suc rounds) b rest (inr r)

  attempt_loop-Ran :
      (max_attempts rounds attempt : ℕ)
      → attempt + suc rounds ≡ max_attempts
      → Ran (attempt_loop retry inner draws max_attempts (suc rounds) attempt) attempt rounds
  unfolding attempt_loop
  attempt_loop-Ran max_attempts zero attempt e =
      rw (not_below attempt (max_attempts - 1) (omega arith), and_false)
        (last-Ran attempt 0 (backoff attempt)
          (record { sent = []; slept = []; outcome = exhausted }) (inl refl))
  attempt_loop-Ran max_attempts (suc rounds) attempt e =
      rw (lt→ltb attempt (max_attempts - 1) (omega arith), and_true)
        (more-Ran attempt rounds _ _ _ refl refl
          (attempt_loop-Ran max_attempts rounds (attempt + 1) (omega arith)))

  -- How a call with a body that is read, or not, may go.
  abbrev pub Trips : Option String → Trip → Type 0
  Trips none t = Ran t 0 retry.attempts
  Trips (some e) t = (t.sent ≡ []) × (t.slept ≡ []) × (t.outcome ≡ returned (failure e))

  wrapped_trip-Trips : (body : Option String) → Trips body (wrapped_trip retry inner draws body)
  unfolding wrapped_trip
  wrapped_trip-Trips (some e) = (refl, refl, refl)
  wrapped_trip-Trips none =
      let e : retry.attempts + 1 ≡ suc retry.attempts = omega arith in
      rw e (attempt_loop-Ran (suc retry.attempts) retry.attempts 0 (omega arith))

  -- With retries configured, a call whose body cannot be read gives that error back, without an attempt.
  -- Any other makes at most one attempt more than the retries, and numbers them from 1 in
  -- X-Request-Attempt-Count. It goes on only after retriable replies: an error of the transport, or a
  -- status that shouldRetry accepts. It gives back the reply of its last attempt, which is the one
  -- after all retries or is not retriable, and otherwise it panics in calcBackoff; it never reaches the
  -- end of the loop.
  pub round_trip-Ran :
      (body : Option String) → 0 < retry.attempts → Trips body (round_trip retry inner draws body)
  unfolding round_trip
  round_trip-Ran body h = rw (positive retry.attempts h) (wrapped_trip-Trips body)
