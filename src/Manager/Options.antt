-- ===== src/Manager/Options.antt =====
-- src/cpp/include/telepath/options/buffer_manager_options.h, the sizes that the options resolve to, and
-- their use in src/cpp/lib/buffer/buffer_manager_lifecycle.cc.
use tele_path.Prelude.{
  ℕ, ◌-◌, ◌*◌, ◌/◌, ◌≤◌, ◌<◌, ◌≡◌, refl, Bool, true, false, ◌==◌, ltb, min, max, if◌then◌else◌,
  arith,
}
use native.Mathlib.Nat.{div-le_self}

pub record Options : Type 0 where
  pub pool_size : ℕ
  pub page_table_stripe_count : ℕ
  pub flush_worker_count : ℕ
  pub flush_submit_batch_size : ℕ
  pub flush_foreground_burst_limit : ℕ
  pub enable_background_cleaner : Bool
  pub dirty_page_high_watermark : ℕ
  pub dirty_page_low_watermark : ℕ

-- `hardware` is std::thread::hardware_concurrency().
unfoldable pub resolve_stripe_count : ℕ → Options → ℕ
resolve_stripe_count hardware o =
    let hardware_threads : ℕ = max 1 hardware in
    let baseline : ℕ = max 16 (hardware_threads * 4) in
    if o.page_table_stripe_count == 0
    then min baseline (max 1 o.pool_size)
    else o.page_table_stripe_count

-- A pool of 2 ^ 32 frames or less: `pool_size * 3` does not wrap around.
unfoldable pub resolve_high_watermark : Options → ℕ
resolve_high_watermark o =
    if o.pool_size == 0
    then 0
    else if o.dirty_page_high_watermark == 0
    then max 1 (o.pool_size * 3 / 4)
    else min o.dirty_page_high_watermark o.pool_size

unfoldable pub resolve_low_watermark : Options → ℕ
resolve_low_watermark o =
    let high = resolve_high_watermark o in
    let max_low = high - 1 in
    if high == 0
    then 0
    else if o.dirty_page_low_watermark == 0
    then (if high == 1 then 0 else min (high / 2) max_low)
    else min o.dirty_page_low_watermark max_low

-- ResolveCleanerOptions, given whether the cleaner is enabled.
unfoldable pub cleaner_options : Bool → Options → Options
cleaner_options false o = o
cleaner_options true o =
    let high = resolve_high_watermark o in
    let with_high = record o { dirty_page_high_watermark = high } in
    record with_high {
      dirty_page_low_watermark = resolve_low_watermark with_high;
      enable_background_cleaner = if high == 0 then false else true;
    }

unfoldable pub resolve_cleaner_options : Options → Options
unfolding cleaner_options
resolve_cleaner_options o = cleaner_options o.enable_background_cleaner o

-- std::clamp.
abbrev pub clamp : ℕ → ℕ → ℕ → ℕ
clamp n low high = if ltb n low then low else if ltb high n then high else n

-- `queue_depth` is what the disk backend reports.
unfoldable pub resolve_worker_count : ℕ → Options → ℕ
resolve_worker_count queue_depth o =
    let most : ℕ = max 1 o.pool_size in
    let one : ℕ = if queue_depth == 0 then 1 else queue_depth in
    let four : ℕ = if ltb 4 one then 4 else one in
    let derived : ℕ = if ltb most four then most else four in
    if o.flush_worker_count == 0 then derived else clamp o.flush_worker_count 1 most

unfoldable pub resolve_submit_batch_size : ℕ → ℕ → Options → ℕ
resolve_submit_batch_size queue_depth worker_count o =
    let most : ℕ = max 1 queue_depth in
    let derived : ℕ = max 1 (queue_depth / worker_count) in
    if o.flush_submit_batch_size == 0 then derived else clamp o.flush_submit_batch_size 1 most

-- With the submit batch size that was resolved before.
unfoldable pub resolve_burst_limit : Options → ℕ
resolve_burst_limit o =
    let four : ℕ = o.flush_submit_batch_size * 4 in
    let derived : ℕ = if ltb four 4 then 4 else four in
    if o.flush_foreground_burst_limit == 0 then derived else max 1 o.flush_foreground_burst_limit

-- The three sizes of the flush pipeline, in the order in which Initialize resolves them.
unfoldable pub resolve_flush_options : ℕ → Options → Options
resolve_flush_options queue_depth o =
    let workers = record o { flush_worker_count = resolve_worker_count queue_depth o } in
    let batches = record workers {
      flush_submit_batch_size =
          resolve_submit_batch_size queue_depth workers.flush_worker_count workers;
    } in
    record batches { flush_foreground_burst_limit = resolve_burst_limit batches }

workers-range :
    (queue_depth : ℕ) (o : Options)
    → (1 ≤ resolve_worker_count queue_depth o)
      × (0 < o.pool_size → resolve_worker_count queue_depth o ≤ o.pool_size)
unfolding resolve_worker_count
workers-range queue_depth o = ground arith

batch-range :
    (queue_depth workers : ℕ) (o : Options)
    → 1 ≤ workers
    → (1 ≤ resolve_submit_batch_size queue_depth workers o)
      × (resolve_submit_batch_size queue_depth workers o ≤ max 1 queue_depth)
unfolding resolve_submit_batch_size
batch-range queue_depth workers o some_worker =
    let share : queue_depth / workers ≤ queue_depth = div-le_self queue_depth workers in
    ground arith

high-range :
    (o : Options)
    → 0 < o.pool_size
    → (1 ≤ resolve_high_watermark o) × (resolve_high_watermark o ≤ o.pool_size)
unfolding resolve_high_watermark
high-range o filled = ground arith

low-range : (o : Options) → 0 < o.pool_size → resolve_low_watermark o < resolve_high_watermark o
unfolding resolve_low_watermark
low-range o filled = let some_high = high-range o filled in ground arith

-- Resolving the watermark again changes nothing.
high_again :
    (o : Options)
    → resolve_high_watermark (record o { dirty_page_high_watermark = resolve_high_watermark o })
      ≡ resolve_high_watermark o
unfolding resolve_high_watermark
high_again o = ground arith

burst-positive : (o : Options) → 1 ≤ resolve_burst_limit o
unfolding resolve_burst_limit
burst-positive o = ground arith

abbrev HasWatermarks : Options → Options → Type 0
HasWatermarks o cleaner =
    (cleaner.enable_background_cleaner ≡ true)
    × (1 ≤ cleaner.dirty_page_high_watermark)
    × (cleaner.dirty_page_high_watermark ≤ o.pool_size)
    × (cleaner.dirty_page_low_watermark < cleaner.dirty_page_high_watermark)

watermarks : (o : Options) → 0 < o.pool_size → HasWatermarks o (cleaner_options true o)
unfolding cleaner_options
watermarks o filled =
    let with_high = record o { dirty_page_high_watermark = resolve_high_watermark o } in
    let below = low-range with_high filled in
    let same = high_again o in
    let (some_high, bounded) = high-range o filled in
    (ground arith, some_high, bounded, omega (arith, below, same))

-- What the options `o` resolve to for a cleaner that is enabled, and for one that is not.
abbrev pub CleanerInRange : Bool → Options → Options → Type 0
CleanerInRange true o cleaner = HasWatermarks o cleaner
CleanerInRange false o cleaner = cleaner ≡ o

-- The sizes of a pool are in their ranges.
abbrev pub InRange : ℕ → ℕ → Options → Type 0
InRange hardware queue_depth o =
    let cleaner = resolve_cleaner_options o in
    let flush = resolve_flush_options queue_depth o in
    CleanerInRange o.enable_background_cleaner o cleaner
    × (1 ≤ resolve_stripe_count hardware o)
    × (resolve_stripe_count hardware o ≤ max o.pool_size o.page_table_stripe_count)
    × (1 ≤ flush.flush_worker_count)
    × (flush.flush_worker_count ≤ o.pool_size)
    × (1 ≤ flush.flush_submit_batch_size)
    × (flush.flush_submit_batch_size ≤ max 1 queue_depth)
    × (1 ≤ flush.flush_foreground_burst_limit)

cleaner-CleanerInRange :
    (enabled : Bool) (o : Options)
    → 0 < o.pool_size
    → CleanerInRange enabled o (cleaner_options enabled o)
unfolding cleaner_options
cleaner-CleanerInRange true o filled = watermarks o filled
cleaner-CleanerInRange false o filled = refl

-- Whatever the options of a pool that is not empty say, its cleaner enabled or not: a background
-- cleaner that is enabled stays so, with a high watermark from 1 to the size of the pool and a low one
-- below it, and for one that is disabled no option changes; there is at least one stripe, and no more
-- than the options ask for or the pool has frames; there are from one flush worker to as many as
-- frames, each submits at least one request at a time and at most as many as the backend's queue
-- holds, and a burst has at least one task.
pub options-InRange :
    (hardware queue_depth : ℕ) (o : Options) → 0 < o.pool_size → InRange hardware queue_depth o
unfolding resolve_cleaner_options resolve_flush_options resolve_stripe_count
options-InRange hardware queue_depth o filled =
    let (some_worker, few_workers) = workers-range queue_depth o in
    let (some_task, few_tasks) =
      batch-range queue_depth (resolve_worker_count queue_depth o)
        (record o { flush_worker_count = resolve_worker_count queue_depth o }) some_worker in
    (
      cleaner-CleanerInRange o.enable_background_cleaner o filled,
      ground arith,
      ground arith,
      some_worker,
      few_workers filled,
      some_task,
      few_tasks,
      burst-positive _,
    )
