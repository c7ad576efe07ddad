-- ===== src/Controller/Batcher.antt =====
-- The batcher, which turns changes into snapshots: clients/controller/internal/batcher/batcher.go.
--
-- A call of the control plane's API is an argument: the ID of the created snapshot, or `none` where
-- CreateSnapshot fails, and whether ActivateSnapshot succeeds. Of the timer the model keeps whether one
-- is set (b.timer != nil). Counters are int64 patterns; logging is left out.
pub mod Pending
mod Tests
use vrata.Common.{
  dec_lt, dec_le, ℕ_discrete, ℕ, zero, suc, ◌+◌, ◌-◌, ◌*◌, ◌/◌, ◌%◌, ◌^◌, ◌≤◌, ◌<◌, String, ◌≡◌,
  refl, sym, ap, ap₂, ◌∙◌, ◌≢◌, ◌↔◌, ◌⊎◌, inl, inr, Bool, true, false, not, ◌&&◌, ◌||◌, Option,
  none, some, List, [], ◌∷◌, ◌++◌, map, arith, str_eq, eq_iff, ltb, leb, ◌==◌, if◌then◌else◌,
  ltb→lt, lt→ltb, leb→le, le→leb, ==_iff, Bool-cases, Option-cases, length, get_elem?, replicate,
  filter_by, filter_by_comm, filter_by-append, count_by-append, All-filter_by, any_by, count_by,
  length-append, All,
}
use vrata.Common.Words.{add64, slt64, sle64}

pub record Batcher : Type 0 where
  pub max_batch : ℕ
  pub pending : ℕ
  pub timer : Bool
  pub counter : ℕ
  -- The snapshots activated so far, the newest first.
  pub activated : List String

-- What the API answers in one flush.
pub record Answer : Type 0 where
  pub created : Option String
  pub activates : Bool

-- New
pub new : ℕ → Batcher
new max_batch = record {
  max_batch = max_batch;
  pending = 0;
  timer = false;
  counter = 0;
  activated = [];
}

-- flushLocked behind the call of CreateSnapshot.
pub flush_created : Batcher → Option String → Bool → Batcher
flush_created b none activates = b
flush_created b (some id) false = b
flush_created b (some id) true = record b { pending = 0; activated = id ∷ b.activated }

-- flushLocked
pub flush_locked : Batcher → Answer → Batcher
unfolding flush_created
flush_locked b a = flush_created (record b { timer = false }) a.created a.activates

-- Signal
pub signal : Batcher → Answer → Batcher
unfolding flush_locked
signal b a =
    let counted = record b { pending = add64 b.pending 1; counter = add64 b.counter 1 } in
    if sle64 counted.max_batch counted.pending
    then flush_locked counted a
    else record counted { timer = true }

-- Flush
pub flush : Batcher → Answer → Batcher
unfolding flush_locked
flush b a = if slt64 0 b.pending then flush_locked b a else b

-- The function of time.AfterFunc; one that is late may still run after its timer was replaced.
pub fires : Batcher → Answer → Batcher
unfolding flush_locked
fires b a = if slt64 0 b.pending then flush_locked b a else b

pub data Event : Type 0 where
  signals : Answer → Event
  flushes : Answer → Event
  timeout : Answer → Event

pub step : Batcher → Event → Batcher
unfolding signal flush fires
step b (signals a) = signal b a
step b (flushes a) = flush b a
step b (timeout a) = fires b a

abbrev pub run : Batcher → List Event → Batcher
run b [] = b
run b (e ∷ es) = run (step b e) es
