-- ===== src/Manager/Telemetry.antt =====
-- src/cpp/include/telepath/telemetry/telemetry_sink.h with the counters of counter_telemetry_sink.cc, and
-- src/cpp/lib/buffer/buffer_manager_observer.cc: which counters a call of the observer raises. Each
-- thread has one shard of the counters.
use tele_path.Prelude.{
  ℕ, zero, suc, ◌+◌, ◌%◌, ◌^◌, ◌&&◌, none, some, List, [], ◌∷◌, ◌==◌, if◌then◌else◌,
}
use tele_path.Common.Status.{ok, error}
use tele_path.Manager.Types.{Event}

-- The counters of a shard.
pub data Counter : Type 0 where
  buffer_hits buffer_misses disk_reads disk_writes evictions dirty_flushes : Counter
  flush_tasks_scheduled flush_tasks_completed flush_failures : Counter
  cleaner_flushes_scheduled cleaner_flushes_finished cleaner_flushes_skipped : Counter
  eviction_failures : Counter

abbrev pub index_of : Counter → ℕ
index_of buffer_hits = 0
index_of buffer_misses = 1
index_of disk_reads = 2
index_of disk_writes = 3
index_of evictions = 4
index_of dirty_flushes = 5
index_of flush_tasks_scheduled = 6
index_of flush_tasks_completed = 7
index_of flush_failures = 8
index_of cleaner_flushes_scheduled = 9
index_of cleaner_flushes_finished = 10
index_of cleaner_flushes_skipped = 11
index_of eviction_failures = 12

-- The value of each counter in each shard.
abbrev pub Counters : Type 0
Counters = ℕ → Counter → ℕ

abbrev pub no_counts : Counters
no_counts shard counter = 0

abbrev pub shard_count : ℕ
shard_count = 64

unfoldable pub record_fast_path : ℕ → Counter → Counters → Counters
record_fast_path shard counter shards i c =
    if i == shard && index_of c == index_of counter then (shards i c + 1) % 2 ^ 64 else shards i c

-- One counter of the snapshot: the loop over `left` shards from `shard` on.
unfoldable pub read_from : ℕ → ℕ → Counter → Counters → ℕ → ℕ
read_from zero shard c shards total = total
read_from (suc left) shard c shards total =
    read_from left (shard + 1) c shards ((total + shards shard c) % 2 ^ 64)

unfoldable pub read_counters_snapshot : Counters → Counter → ℕ
unfolding read_from
read_counters_snapshot shards c = read_from shard_count 0 c shards 0

-- The observer's calls.
unfoldable pub counters_of : Event → List Counter
counters_of (Event.resident_hit tag) = buffer_hits ∷ []
counters_of (Event.joined_miss_hit tag) = buffer_hits ∷ []
counters_of (Event.read_miss tag) = buffer_misses ∷ []
counters_of (Event.load_completion tag none) = disk_reads ∷ []
counters_of (Event.load_completion tag (some evicted)) = disk_reads ∷ evictions ∷ []
counters_of (Event.zero_fill none) = []
counters_of (Event.zero_fill (some evicted)) = evictions ∷ []
counters_of (Event.successful_flush tag) = disk_writes ∷ dirty_flushes ∷ []
counters_of (Event.flush_task_scheduled tag) = flush_tasks_scheduled ∷ []
counters_of (Event.flush_task_completion tag ok) = flush_tasks_completed ∷ []
counters_of (Event.flush_task_completion tag (error e)) =
    flush_tasks_completed ∷ flush_failures ∷ []
counters_of (Event.cleaner_flush_scheduled tag) = cleaner_flushes_scheduled ∷ []
counters_of (Event.cleaner_flush_finished tag) = cleaner_flushes_finished ∷ []
counters_of Event.cleaner_flush_skipped = cleaner_flushes_skipped ∷ []
counters_of (Event.eviction_failure tag) = eviction_failures ∷ []

unfoldable pub record_all : ℕ → List Counter → Counters → Counters
unfolding record_fast_path
record_all shard [] shards = shards
record_all shard (c ∷ cs) shards = record_all shard cs (record_fast_path shard c shards)

-- A call of the observer in a thread with the given shard.
pub record Call : Type 0 where
  pub shard : ℕ
  pub event : Event

unfoldable pub record_calls : List Call → Counters → Counters
unfolding record_all counters_of
record_calls [] shards = shards
record_calls (call ∷ calls) shards =
    record_calls calls (record_all call.shard (counters_of call.event) shards)
