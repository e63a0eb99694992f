-- ===== src/Flush/Bursts.antt =====
-- How long a task of the cleaner waits for one worker of src/cpp/lib/buffer/flush_scheduler.cc.
use tele_path.Prelude.{
  ℕ, zero, suc, ◌+◌, ◌-◌, ◌*◌, ◌≤◌, ◌<◌, ◌≡◌, ◌⊎◌, inl, inr, refl, sym, ap, ◌∙◌, Bool, true, false,
  ◌&&◌, Option, none, some, List, [], ◌∷◌, ◌++◌, length, leb, arith, Bool-cases, length-append,
  subst, if◌then◌else◌,
}
use mathlib.Core.List.{append_assoc}
use tele_path.Common.Status.{Status}
use tele_path.Flush.Scheduler.{
  FlushTask, FlushScheduler, Taken, enqueue, enqueue_all, fill, should_serve_background,
  take_next_batch, take_batches, is_empty,
}

-- The task is taken, behind at most so many others.
abbrev pub IsServed : ℕ → FlushTask → List FlushTask → Type 0
IsServed most task tasks =
    (before : List FlushTask) × (after : List FlushTask) × (tasks ≡ before ++ (task ∷ after))
    × (length before ≤ most)

-- A batch of foreground tasks alone, which the run of the worker counts.
abbrev IsBurst : ℕ → ℕ → ℕ → List FlushTask → Taken → Type 0
IsBurst limit room consecutive background t =
    (length t.tasks ≡ room)
    × (t.background ≡ background)
    × (t.consecutive ≡ consecutive + room)
    × (room ≤ limit - consecutive)

-- A task at the front of the background queue is in the batch, or the batch is a burst.
fill-IsServed :
    (limit room consecutive : ℕ) (foreground : List FlushTask) (y : FlushTask)
    (background : List FlushTask)
    → let t = fill limit room consecutive foreground (y ∷ background) in
      IsServed (limit - consecutive) y t.tasks ⊎ IsBurst limit room consecutive (y ∷ background) t
unfolding fill should_serve_background
fill-IsServed limit zero consecutive foreground y background =
    inr (refl, refl, omega arith, omega arith)
fill-IsServed limit (suc room) consecutive [] y background =
    inl ([], (fill limit room 0 [] background).tasks, refl, omega arith)
fill-IsServed limit (suc room) consecutive (x ∷ foreground) y background =
    elim (Bool-cases (leb limit consecutive)) [
      | inl e ↦
          inl ([], (fill limit room 0 (x ∷ foreground) background).tasks, rw e refl, omega arith)
      | inr e ↦ elim (fill-IsServed limit room (consecutive + 1) foreground y background) [
        | inl (before, after, eq, most) ↦ inl (x ∷ before, after, rw (e, eq) refl, ground arith)
        | inr (size, kept, run, low) ↦
            rw e (inr (ground arith, kept, omega (arith, run), ground arith))
      ]
    ]

-- The front of the background queue and the sizes of the scheduler.
abbrev HasFront : ℕ → ℕ → FlushTask → FlushScheduler → Type 0
HasFront size limit task s =
    ((waiting : List FlushTask) × (s.background_queue ≡ task ∷ waiting))
    × (s.submit_batch_size ≡ size)
    × (s.foreground_burst_limit ≡ limit)

module _ (size limit : ℕ) (task : FlushTask) where
  choice-HasFront :
      (stops owned : Bool) (s background foreground : FlushScheduler) (refused accepted : Status)
      → HasFront size limit task s
      → HasFront size limit task background
      → HasFront size limit task foreground
      → let result : FlushScheduler × Status =
          if stops then (s, refused) else (if owned then background else foreground, accepted) in
        HasFront size limit task result.0
  choice-HasFront true owned s background foreground refused accepted hs hb hf = hs
  choice-HasFront false true s background foreground refused accepted hs hb hf = hb
  choice-HasFront false false s background foreground refused accepted hs hb hf = hf

  enqueue-HasFront :
      (s : FlushScheduler) (arrival : Option FlushTask)
      → HasFront size limit task s
      → HasFront size limit task (enqueue s arrival).0
  unfolding enqueue
  enqueue-HasFront s none front = front
  enqueue-HasFront s (some new) ((waiting, queue), sized, limited) =
      choice-HasFront s.shutdown new.cleaner_owned s _ _ _ _ ((waiting, queue), sized, limited)
        ((waiting ++ (new ∷ []), ap (λ q. q ++ (new ∷ [])) queue), sized, limited)
        ((waiting, queue), sized, limited)

  enqueue_all-HasFront :
      (s : FlushScheduler) (arrivals : List (Option FlushTask))
      → HasFront size limit task s
      → HasFront size limit task (enqueue_all s arrivals)
  enqueue_all-HasFront s [] front = front
  enqueue_all-HasFront s (arrival ∷ arrivals) front =
      enqueue_all-HasFront (enqueue s arrival).0 arrivals (enqueue-HasFront s arrival front)

  -- A round that does not serve the task shortens what is left of the burst by its size.
  later-IsServed :
      (consecutive : ℕ) (tasks rest : List FlushTask)
      → length tasks ≡ size
      → size ≤ limit - consecutive
      → IsServed (limit - (consecutive + size)) task rest
      → IsServed (limit - consecutive) task (tasks ++ rest)
  later-IsServed consecutive tasks rest full low (before, after, eq, most) = (
    tasks ++ before,
    after,
    ap (λ ts. tasks ++ ts) eq ∙ sym (append_assoc tasks before (task ∷ after)),
    omega (arith, length-append tasks before),
  )

  now-IsServed :
      (most : ℕ) (tasks rest : List FlushTask)
      → IsServed most task tasks
      → IsServed most task (tasks ++ rest)
  now-IsServed most tasks rest (before, after, eq, few) =
      (before, after ++ rest, rw eq (append_assoc before (task ∷ after) rest), few)

  rounds-IsServed :
      (s : FlushScheduler) (consecutive : ℕ) (rounds : List (List (Option FlushTask)))
      → HasFront size limit task s
      → limit - consecutive < length rounds * size
      → IsServed (limit - consecutive) task (take_batches s consecutive rounds).1
  unfolding take_batches take_next_batch
  rounds-IsServed s consecutive [] front room = absurd (omega arith)
  rounds-IsServed s consecutive (arrivals ∷ rounds) front room =
      let s' = enqueue_all s arrivals in
      let ((waiting, queue), sized, limited) = enqueue_all-HasFront s arrivals front in
      let some_task : (is_empty s'.foreground_queue && is_empty s'.background_queue) ≡ false =
        rw queue (ground arith) in
      rw (some_task, queue, sized, limited)
        (let t = fill limit size consecutive s'.foreground_queue (task ∷ waiting) in
          let after : FlushScheduler = record s' {
            submit_batch_size = size;
            foreground_burst_limit = limit;
            foreground_queue = t.foreground;
            background_queue = t.background;
          } in
          elim (fill-IsServed limit size consecutive s'.foreground_queue task waiting) [
            | inl served ↦ now-IsServed (limit - consecutive) t.tasks _ served
            | inr (full, kept, run, low) ↦
                let left : limit - t.consecutive < length rounds * size = omega (arith, run) in
                let later =
                  rounds-IsServed after t.consecutive rounds ((waiting, kept), refl, refl) left in
                later-IsServed consecutive t.tasks _ full low (
                  subst (λ n. IsServed (limit - n) task (take_batches after t.consecutive rounds).1)
                    run later)
          ])

-- A worker that keeps taking batches, and is the only one, serves the task at the front of the
-- background queue, whatever arrives before each batch: in more batches than hold what is left of its burst, it takes that task
-- behind at most as many others as are left of the burst.
pub take_batches-IsServed :
    (s : FlushScheduler) (consecutive : ℕ) (rounds : List (List (Option FlushTask)))
    (task : FlushTask) (waiting : List FlushTask)
    → s.background_queue ≡ task ∷ waiting
    → s.foreground_burst_limit - consecutive < length rounds * s.submit_batch_size
    → IsServed (s.foreground_burst_limit - consecutive) task (take_batches s consecutive rounds).1
take_batches-IsServed s consecutive rounds task waiting front room =
    rounds-IsServed s.submit_batch_size s.foreground_burst_limit task s consecutive rounds
      ((waiting, front), refl, refl) room
