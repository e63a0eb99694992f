-- ===== src/Flush/Cleaner.antt =====
-- src/cpp/lib/buffer/cleaner_controller.cc: the queue of frames that the cleaner may flush. Each
-- operation runs under the controller's latch.
use tele_path.Prelude.{
  ℕ, ◌+◌, ◌-◌, ◌%◌, ◌^◌, Bool, true, false, ◌&&◌, Option, none, some, List, [], ◌∷◌, ◌++◌, ◌==◌,
  ltb, leb, if◌then◌else◌, store,
}

pub record Candidate : Type 0 where
  pub frame : ℕ
  pub generation : ℕ

pub record Cleaner : Type 0 where
  pub pool_size : ℕ
  pub high_watermark : ℕ
  pub low_watermark : ℕ
  pub inflight_flushes : ℕ
  pub queue : List Candidate
  pub enqueued : ℕ → Bool
  pub generations : ℕ → ℕ

-- The constructor.
unfoldable pub new_cleaner : ℕ → ℕ → ℕ → Cleaner
new_cleaner pool_size high_watermark low_watermark = record {
  pool_size = pool_size;
  high_watermark = high_watermark;
  low_watermark = low_watermark;
  inflight_flushes = 0;
  queue = [];
  enqueued = λ frame. false;
  generations = λ frame. 0;
}

unfoldable pub reset_candidate : Cleaner → ℕ → Cleaner
reset_candidate c frame = if leb c.pool_size frame then c else record c {
  enqueued = store c.enqueued frame false;
  generations = store c.generations frame ((c.generations frame + 1) % 2 ^ 64);
}

unfoldable pub enqueue_candidate : Cleaner → ℕ → Cleaner
enqueue_candidate c frame =
    let candidate : Candidate = record { frame = frame; generation = c.generations frame } in
    if leb c.pool_size frame
    then c
    else if c.enqueued frame
    then c
    else record c { enqueued = store c.enqueued frame true; queue = c.queue ++ (candidate ∷ []) }

unfoldable pub on_flush_scheduled : Cleaner → Cleaner
on_flush_scheduled c = record c { inflight_flushes = (c.inflight_flushes + 1) % 2 ^ 64 }

unfoldable pub on_flush_finished : Cleaner → Cleaner
on_flush_finished c = record c { inflight_flushes = c.inflight_flushes - 1 }

-- The three tests of the loop of TakeCandidate.
unfoldable pub is_live : Cleaner → Candidate → Bool
is_live c candidate =
    ltb candidate.frame c.pool_size
    && c.enqueued candidate.frame
    && c.generations candidate.frame == candidate.generation

unfoldable pub take_from : Cleaner → List Candidate → Cleaner × Option ℕ
unfolding is_live
take_from c [] = (record c { queue = [] }, none)
take_from c (candidate ∷ queue) =
    let rest = take_from c queue in
    let taken = record c { queue = queue; enqueued = store c.enqueued candidate.frame false } in
    if is_live c candidate then (taken, some candidate.frame) else rest

unfoldable pub take_candidate : Cleaner → Cleaner × Option ℕ
unfolding take_from
take_candidate c = take_from c c.queue

-- What one pass of the loop of Run does next, from the number of dirty pages.
pub data Decision : Type 0 where
  sleeps throttled schedules : Decision

unfoldable pub flush_budget : Cleaner → ℕ → ℕ
flush_budget c dirty = if ltb c.low_watermark dirty then dirty - c.low_watermark else 0

unfoldable pub decide : Cleaner → ℕ → Decision
unfolding flush_budget
decide c dirty =
    if ltb dirty c.high_watermark
    then Decision.sleeps
    else if flush_budget c dirty == 0
    then Decision.sleeps
    else if leb (flush_budget c dirty) c.inflight_flushes
    then Decision.throttled
    else Decision.schedules
