-- ===== src/Flush/Examples.antt =====
-- Runs of src/cpp/lib/buffer/flush_scheduler.cc and cleaner_controller.cc.
use tele_path.Prelude.{
  ℕ, ◌≡◌, ◌⊎◌, refl, Bool, true, false, not, ◌&&◌, ◌==◌, Option, none, some, List, [], ◌∷◌, arith,
}
use tele_path.Common.Types.{no_tag}
use tele_path.Flush.Scheduler.{
  FlushTask, FlushScheduler, enqueue, take_next_batch, take_batches, fill, should_serve_background,
  batch,
}
use tele_path.Flush.Fairness.{IsBatch, take_next_batch-IsBatch}
use tele_path.Flush.Bursts.{IsServed, take_batches-IsServed}
use tele_path.Flush.Cleaner.{
  Cleaner, new_cleaner, enqueue_candidate, reset_candidate, take_candidate, take_from, is_live,
}
use tele_path.Flush.Candidates.{
  IsValid, new_cleaner-IsValid, updates-IsValid, take_candidate-IsValid,
}

abbrev task : ℕ → Bool → FlushTask
task frame owned = record {
  frame_id = frame;
  tag = no_tag;
  clear_dirty_on_success = true;
  cleaner_owned = owned;
}

abbrev idle : FlushScheduler
idle = record {
  submit_batch_size = 4;
  foreground_burst_limit = 2;
  foreground_queue = [];
  background_queue = [];
  shutdown = false;
  started = true;
}

-- Three tasks of the foreground, and one of the cleaner.
abbrev busy : FlushScheduler
busy = record idle {
  foreground_queue = task 1 false ∷ task 2 false ∷ task 3 false ∷ [];
  background_queue = task 9 true ∷ [];
}

queued : (enqueue (record busy { background_queue = [] }) (some (task 9 true))).0 ≡ busy
unfolding enqueue
queued = refl

burst :
    (take_next_batch busy 0).1
    ≡ batch (task 1 false ∷ task 2 false ∷ task 9 true ∷ task 3 false ∷ [])
unfolding take_next_batch fill should_serve_background
burst = refl

take_next_batch-IsBatch_example :
    let ((after, run), taken) = take_next_batch busy 0 in
    (tasks : List FlushTask) × (taken ≡ batch tasks)
    × IsBatch 4 busy.foreground_queue busy.background_queue (record {
      tasks = tasks;
      foreground = after.foreground_queue;
      background = after.background_queue;
      consecutive = run;
    })
take_next_batch-IsBatch_example = take_next_batch-IsBatch busy 0 refl

-- A burst of four batches, and four tasks of the foreground before each.
abbrev bursty : FlushScheduler
bursty = record busy { foreground_burst_limit = 16 }

abbrev arrivals : List (Option FlushTask)
arrivals =
    some (task 1 false) ∷ some (task 2 false) ∷ some (task 3 true) ∷ some (task 4 false) ∷ none ∷ []

abbrev five_rounds : List (List (Option FlushTask))
five_rounds = [] ∷ arrivals ∷ arrivals ∷ arrivals ∷ arrivals ∷ []

take_batches-IsServed_example : IsServed 16 (task 9 true) (take_batches bursty 0 five_rounds).1
take_batches-IsServed_example =
    take_batches-IsServed bursty 0 five_rounds (task 9 true) [] refl (omega arith)

-- Frame 3 is a candidate, and frame 5 was one until it was reset.
abbrev cleaner : Cleaner
cleaner = reset_candidate (enqueue_candidate (enqueue_candidate (new_cleaner 8 4 2) 5) 3) 5

candidate : (take_candidate cleaner).1 ≡ some 3
unfolding take_candidate take_from is_live reset_candidate enqueue_candidate new_cleaner
candidate = refl

abbrev one_candidate : Cleaner
one_candidate = enqueue_candidate (new_cleaner 8 4 2) 5

one_candidate-IsValid : IsValid one_candidate
unfolding new_cleaner
one_candidate-IsValid =
    (updates-IsValid (new_cleaner 8 4 2) 5 5 (omega arith) (new_cleaner-IsValid 8 4 2)).0

updates-IsValid_example :
    IsValid (enqueue_candidate one_candidate 3)
    × IsValid (reset_candidate one_candidate 3)
    × ((enqueue_candidate one_candidate 3).enqueued 3 ≡ true)
    × ((reset_candidate one_candidate 3).enqueued 3 ≡ false)
unfolding enqueue_candidate new_cleaner
updates-IsValid_example = updates-IsValid one_candidate 3 3 (omega arith) one_candidate-IsValid

take_candidate-IsValid_example :
    let (after, found) = take_candidate one_candidate in
    IsValid after
    × (((f : ℕ) × (found ≡ some f)
          × (one_candidate.enqueued f ≡ true)
          × ((j : ℕ) → after.enqueued j ≡ (one_candidate.enqueued j && not (j == f))))
        ⊎ ((found ≡ none)
            × ((j : ℕ) → one_candidate.enqueued j ≡ false)
            × ((j : ℕ) → after.enqueued j ≡ one_candidate.enqueued j)))
take_candidate-IsValid_example = take_candidate-IsValid one_candidate one_candidate-IsValid
