-- ===== src/Manager/FlushRounds.antt =====
-- One round of RunForegroundFlush of src/cpp/lib/buffer/buffer_manager_flush.cc from a copy of the page,
-- on a frame that nobody else changes.
use tele_path.Prelude.{
  ℕ, suc, ◌<◌, ◌≡◌, refl, sym, ◌∙◌, subst, Bool, false, Option, none, some, if◌then◌else◌, leb,
  arith,
}
use tele_path.Common.Results.{value}
use tele_path.FrameControl.Ops
use tele_path.FrameControl.Ops.{QueueOutcome, queued, not_dirty, pending, pinned}
use tele_path.Manager.Types.{Page, Env, Task, Manager, Call, ◌>>=◌, outcome}
use tele_path.Manager.Frames.{load_tag}
use tele_path.Manager.Flushing.{
  Prepared, Created, created, queue_writeback, prepare_from, prepare_flush_task, new_task,
  task_from, create_flush_task, capture_flush_snapshot,
}
use tele_path.Manager.Rounds.{write_created, foreground_flush_round}

pub if-false :
    {A B : Type 0} (b : Bool) (x y : A → B) (a : A) → b ≡ false → (if b then x else y) a ≡ y a
if-false b x y a e = rw e refl

-- A call that returns, and what follows it.
pub bind-some :
    {Disk R A B : Type 0} (call : Call Disk R A) (next : A → Call Disk R B) (m m' : Manager Disk R)
    (a : A)
    → call m ≡ some (m', a)
    → (call >>= next) m ≡ next a m'
bind-some {Disk} {R} {A} {B} call next m m' a e =
    subst
      (λ (r : Option (Manager Disk R × A)). ◌>>=◌ {A = A} {B = B} (λ start. r) next m ≡ next a m')
      (sym e) refl

module _ {Disk R : Type 0} (env : Env Disk R) (f : ℕ) (page : Page) where
  abbrev pub claimed : Manager Disk R → Manager Disk R
  claimed m = queue_writeback env f false m

  -- The task of a page that is flushed by its caller.
  abbrev pub task_of : Manager Disk R → Task
  task_of m = new_task env f false (load_tag env (claimed m) f) page

  prepares :
      (fuel : ℕ) (m : Manager Disk R)
      → outcome pending f (Ops.try_queue_writeback false) m ≡ queued
      → prepare_from env (suc fuel) f (some page) false false m
        ≡ some (claimed m, value (Prepared.ready (load_tag env (claimed m) f) page))
  unfolding prepare_from capture_flush_snapshot
  prepares fuel m queues = rw (queues, prepare_from) refl

  prepares_nothing :
      (fuel : ℕ) (m : Manager Disk R)
      → outcome pending f (Ops.try_queue_writeback false) m ≡ not_dirty
      → prepare_from env (suc fuel) f (some page) false false m
        ≡ some (m, value (Prepared.nothing false))
  unfolding prepare_from capture_flush_snapshot
  prepares_nothing fuel m skips = rw (skips, prepare_from) refl

  creates :
      (m : Manager Disk R)
      → f < env.pool_size
      → env.pre_write_hook ≡ none
      → outcome pending f (Ops.try_queue_writeback false) m ≡ queued
      → create_flush_task env f (some page) false false m
        ≡ some (claimed m, value (created (task_of m)))
  unfolding create_flush_task prepare_flush_task task_from
  creates m low no_hook queues =
      let inside : leb env.pool_size f ≡ false = ground arith in
      if-false (leb env.pool_size f) _ _ m inside
      ∙ bind-some (prepare_flush_task env f (some page) false false) _ m (claimed m) _
          (prepares 1 m queues)
      ∙ rw (no_hook, task_from) refl

  creates_nothing :
      (m : Manager Disk R)
      → f < env.pool_size
      → outcome pending f (Ops.try_queue_writeback false) m ≡ not_dirty
      → create_flush_task env f (some page) false false m ≡ some (m, value (Created.skipped false))
  unfolding create_flush_task prepare_flush_task task_from
  creates_nothing m low skips =
      let inside : leb env.pool_size f ≡ false = ground arith in
      if-false (leb env.pool_size f) _ _ m inside
      ∙ bind-some (prepare_flush_task env f (some page) false false) _ m m _
          (prepares_nothing 1 m skips)

  pub dirty_round :
      (m : Manager Disk R)
      → f < env.pool_size
      → env.queued_writeback ≡ false
      → env.pre_write_hook ≡ none
      → outcome pending f (Ops.try_queue_writeback false) m ≡ queued
      → foreground_flush_round env f (some page) m
        ≡ some (write_created env (value (created (task_of m))) (claimed m))
  unfolding foreground_flush_round
  dirty_round m low direct no_hook queues =
      if-false env.queued_writeback _ _ m direct
      ∙ bind-some (create_flush_task env f (some page) false false) _ m (claimed m) _
          (creates m low no_hook queues)

  pub clean_round :
      (m : Manager Disk R)
      → f < env.pool_size
      → env.queued_writeback ≡ false
      → outcome pending f (Ops.try_queue_writeback false) m ≡ not_dirty
      → foreground_flush_round env f (some page) m ≡ some (m, value false)
  unfolding foreground_flush_round write_created
  clean_round m low direct skips =
      if-false env.queued_writeback _ _ m direct
      ∙ bind-some (create_flush_task env f (some page) false false) _ m m _
          (creates_nothing m low skips)
