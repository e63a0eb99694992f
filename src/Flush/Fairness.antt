-- ===== src/Flush/Fairness.antt =====
-- In which order src/cpp/lib/buffer/flush_scheduler.cc serves its queues.
use tele_path.Prelude.{
  ℕ, zero, suc, ◌+◌, ◌≤◌, ◌≡◌, ◌⊎◌, inl, inr, refl, ap, false, ◌&&◌, List, [], ◌∷◌, ◌++◌, length,
  arith, Bool-cases,
}
use tele_path.Flush.Scheduler.{
  FlushTask, FlushScheduler, Taken, should_serve_background, put, fill, take_next_batch, batch,
  is_empty,
}

-- The batch takes some tasks off the front of each queue and keeps the order of both.
pub data Interleaves : List FlushTask → List FlushTask → List FlushTask → Type 0 where
  neither : Interleaves [] [] []
  foreground_first :
      {fs bs ts : List FlushTask} (t : FlushTask)
      → Interleaves fs bs ts
      → Interleaves (t ∷ fs) bs (t ∷ ts)
  background_first :
      {fs bs ts : List FlushTask} (t : FlushTask)
      → Interleaves fs bs ts
      → Interleaves fs (t ∷ bs) (t ∷ ts)

-- What a batch of at most `room` tasks is.
abbrev pub IsBatch : ℕ → List FlushTask → List FlushTask → Taken → Type 0
IsBatch room foreground background t =
    (length t.tasks ≤ room)
    × ((length t.tasks ≡ room) ⊎ ((t.foreground ≡ []) × (t.background ≡ [])))
    × (fs : List FlushTask) × (bs : List FlushTask) × (foreground ≡ fs ++ t.foreground)
    × (background ≡ bs ++ t.background)
    × Interleaves fs bs t.tasks

put_foreground :
    (room : ℕ) (x : FlushTask) (foreground background : List FlushTask) (t : Taken)
    → IsBatch room foreground background t
    → IsBatch (suc room) (x ∷ foreground) background (put x t)
put_foreground room x foreground background t (small, full, fs, bs, ef, eb, i) =
    (omega arith, ground arith, x ∷ fs, bs, ap (λ q. x ∷ q) ef, eb, foreground_first x i)

put_background :
    (room : ℕ) (y : FlushTask) (foreground background : List FlushTask) (t : Taken)
    → IsBatch room foreground background t
    → IsBatch (suc room) foreground (y ∷ background) (put y t)
put_background room y foreground background t (small, full, fs, bs, ef, eb, i) =
    (omega arith, ground arith, fs, y ∷ bs, ef, ap (λ q. y ∷ q) eb, background_first y i)

pub fill-IsBatch :
    (limit room consecutive : ℕ) (foreground background : List FlushTask)
    → IsBatch room foreground background (fill limit room consecutive foreground background)
unfolding fill
fill-IsBatch limit zero consecutive foreground background =
    (omega arith, inl refl, [], [], refl, refl, neither)
fill-IsBatch limit (suc room) consecutive [] [] =
    (omega arith, inr (refl, refl), [], [], refl, refl, neither)
fill-IsBatch limit (suc room) consecutive [] (y ∷ background) =
    put_background room y [] background (fill limit room 0 [] background)
      (fill-IsBatch limit room 0 [] background)
fill-IsBatch limit (suc room) consecutive (x ∷ foreground) [] =
    put_foreground room x foreground [] (fill limit room (consecutive + 1) foreground [])
      (fill-IsBatch limit room (consecutive + 1) foreground [])
fill-IsBatch limit (suc room) consecutive (x ∷ foreground) (y ∷ background) =
    elim (Bool-cases (should_serve_background limit consecutive (y ∷ background))) [
      | inl e ↦ rw e (
          put_background room y (x ∷ foreground) background
            (fill limit room 0 (x ∷ foreground) background)
            (fill-IsBatch limit room 0 (x ∷ foreground) background))
      | inr e ↦ rw e (
          put_foreground room x foreground (y ∷ background)
            (fill limit room (consecutive + 1) foreground (y ∷ background))
            (fill-IsBatch limit room (consecutive + 1) foreground (y ∷ background)))
    ]

-- Where a task waits, TakeNextBatch gives a batch of at most the batch size, and fewer only when it
-- empties both queues: it takes tasks off the fronts of the two queues and keeps the order of each.
pub take_next_batch-IsBatch :
    (s : FlushScheduler) (consecutive : ℕ)
    → (is_empty s.foreground_queue && is_empty s.background_queue) ≡ false
    → let ((after, run), taken) = take_next_batch s consecutive in
      (tasks : List FlushTask) × (taken ≡ batch tasks)
      × IsBatch s.submit_batch_size s.foreground_queue s.background_queue (record {
        tasks = tasks;
        foreground = after.foreground_queue;
        background = after.background_queue;
        consecutive = run;
      })
unfolding take_next_batch
take_next_batch-IsBatch s consecutive some_task = rw some_task (
  _,
  refl,
  fill-IsBatch s.foreground_burst_limit s.submit_batch_size consecutive s.foreground_queue
      s.background_queue,
)
