-- ===== src/Flush/Scheduler.antt =====
-- src/cpp/lib/buffer/flush_scheduler.cc: the two queues of flush tasks and the batches that a worker
-- takes from them.
use tele_path.Prelude.{
  ℕ, zero, suc, ◌+◌, Bool, true, false, not, ◌&&◌, Option, none, some, List, [], ◌∷◌, ◌++◌, leb,
  if◌then◌else◌,
}
use tele_path.Common.Types.{BufferTag}
use tele_path.Common.Status.{Status, ok, invalid_argument_error, unavailable_error}

pub record FlushTask : Type 0 where
  pub frame_id : ℕ
  pub tag : BufferTag
  pub clear_dirty_on_success : Bool
  pub cleaner_owned : Bool

pub record FlushScheduler : Type 0 where
  pub submit_batch_size : ℕ
  pub foreground_burst_limit : ℕ
  pub foreground_queue : List FlushTask
  pub background_queue : List FlushTask
  pub shutdown : Bool
  pub started : Bool

-- The end of the queue is its back; `none` is the null pointer.
unfoldable pub enqueue : FlushScheduler → Option FlushTask → FlushScheduler × Status
enqueue s none = (s, invalid_argument_error "flush task must not be null")
enqueue s (some task) =
    let background = record s { background_queue = s.background_queue ++ (task ∷ []) } in
    let foreground = record s { foreground_queue = s.foreground_queue ++ (task ∷ []) } in
    if s.shutdown
    then (s, unavailable_error "flush scheduler is shutting down" 0)
    else (if task.cleaner_owned then background else foreground, ok)

-- What the loop of TakeNextBatch leaves: the batch, the two queues and the worker's run of
-- foreground tasks.
pub record Taken : Type 0 where
  pub tasks : List FlushTask
  pub foreground : List FlushTask
  pub background : List FlushTask
  pub consecutive : ℕ

abbrev pub is_empty : List FlushTask → Bool
is_empty [] = true
is_empty (x ∷ xs) = false

unfoldable pub should_serve_background : ℕ → ℕ → List FlushTask → Bool
should_serve_background limit consecutive background =
    not (is_empty background) && leb limit consecutive

abbrev pub put : FlushTask → Taken → Taken
put task t = record t { tasks = task ∷ t.tasks }

-- The loop; the room that is left in the batch is its fuel.
unfoldable pub fill : ℕ → ℕ → ℕ → List FlushTask → List FlushTask → Taken
unfolding should_serve_background
fill limit zero consecutive foreground background = record {
  tasks = [];
  foreground = foreground;
  background = background;
  consecutive = consecutive;
}
fill limit (suc room) consecutive [] [] = record {
  tasks = [];
  foreground = [];
  background = [];
  consecutive = consecutive;
}
fill limit (suc room) consecutive [] (y ∷ background) = put y (fill limit room 0 [] background)
fill limit (suc room) consecutive (x ∷ foreground) [] =
    put x (fill limit room (consecutive + 1) foreground [])
fill limit (suc room) consecutive (x ∷ foreground) (y ∷ background) =
    let serves = should_serve_background limit consecutive (y ∷ background) in
    let rest =
      fill limit room (if serves then 0 else consecutive + 1)
        (if serves then x ∷ foreground else foreground)
        (if serves then background else y ∷ background) in
    put (if serves then y else x) rest

pub data Batch : Type 0 where
  -- No task is there: the worker waits, unless the scheduler shuts down.
  waits : Batch
  stops : Batch
  batch : List FlushTask → Batch

-- One pass of TakeNextBatch by a worker whose run of foreground tasks is `consecutive`.
unfoldable pub take_next_batch : FlushScheduler → ℕ → (FlushScheduler × ℕ) × Batch
unfolding fill
take_next_batch s consecutive =
    let taken =
      fill s.foreground_burst_limit s.submit_batch_size consecutive s.foreground_queue
        s.background_queue in
    if is_empty s.foreground_queue && is_empty s.background_queue
    then ((s, consecutive), if s.shutdown then stops else waits)
    else (
      (
        record s { foreground_queue = taken.foreground; background_queue = taken.background },
        taken.consecutive,
      ),
      batch taken.tasks,
    )

-- What arrives between two batches, in its order.
abbrev pub enqueue_all : FlushScheduler → List (Option FlushTask) → FlushScheduler
enqueue_all s [] = s
enqueue_all s (task ∷ tasks) = enqueue_all (enqueue s task).0 tasks

abbrev pub tasks_of : Batch → List FlushTask
tasks_of waits = []
tasks_of stops = []
tasks_of (batch tasks) = tasks

-- The rounds of Run by one worker, each with what arrives before it: the worker's run of foreground
-- tasks outlives the call of TakeNextBatch. The tasks that the worker takes come in their order; a round
-- that stops or waits takes none, and after one that stops nothing more arrives.
unfoldable pub take_batches :
    FlushScheduler → ℕ → List (List (Option FlushTask)) → (FlushScheduler × ℕ) × List FlushTask
unfolding enqueue take_next_batch
take_batches s consecutive [] = ((s, consecutive), [])
take_batches s consecutive (arrivals ∷ rounds) =
    let ((after, run), taken) = take_next_batch (enqueue_all s arrivals) consecutive in
    let (last, rest) = take_batches after run rounds in (last, tasks_of taken ++ rest)
