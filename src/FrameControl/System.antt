-- ===== src/FrameControl/System.antt =====
-- One frame, its control word (src/cpp/lib/buffer/frame_control.h) and the threads that use it:
-- the operations interleave in any order, each by a holder of what the callers in
-- src/cpp/lib/buffer/buffer_manager_*.cc hold when they make the call. The ghost fields say who
-- holds what, and what the page, its snapshot and the disk contain.
use tele_path.Prelude.{
  ℕ, ◌+◌, ◌-◌, ◌≤◌, ◌<◌, ◌≡◌, ◌⊎◌, Bool, true, false, some, ◌==◌, if◌then◌else◌,
}
use tele_path.FrameControl.Fields.{Fields, Fits, pack}
use tele_path.FrameControl.Spec.{Op, transition}

-- Pages are compared only, so a number stands for a page's bytes; 0 is the page of zeros.
pub record Ghost : Type 0 where
  -- Pins of handles, and that of the thread which loads the page.
  pub pinners : ℕ
  pub loaders : ℕ
  pub readers : ℕ
  pub writers : ℕ
  -- Flush tasks that wait for a worker, and that a worker writes.
  pub queued_tasks : ℕ
  pub active_tasks : ℕ
  -- Whether the writer changed the page under its latch, and whether it marked it dirty.
  pub touched : ℕ
  pub marked : ℕ
  pub page : ℕ
  pub snapshot : ℕ
  pub disk : ℕ

pub record Frame : Type 0 where
  pub word : ℕ
  pub ghost : Ghost

-- What the caller of an operation holds.
abbrev pub Permitted : Op → Ghost → Type 0
Permitted Op.unpin g = 0 < g.pinners
Permitted (Op.publish_resident true) g = (g.loaders ≡ 1) × (g.writers ≡ 0)
Permitted (Op.publish_resident false) g = g.loaders ≡ 1
Permitted Op.release_to_free g = (g.loaders ≡ 1) × (g.writers ≡ 0)
Permitted Op.try_discard_pinned g = 0 < g.pinners
Permitted Op.mark_dirty g = 0 < g.writers
Permitted Op.release_shared g = 0 < g.readers
Permitted Op.try_acquire_exclusive g = 0 < g.pinners + g.loaders
Permitted Op.release_exclusive g = (0 < g.writers) × (g.touched ≤ g.marked)
Permitted (Op.try_queue_writeback skip) g = 0 < g.readers + g.writers
Permitted Op.begin_writeback g = g.queued_tasks ≡ 1
Permitted Op.cancel_queued_writeback g = g.queued_tasks ≡ 1
Permitted (Op.complete_writeback succeeded) g = g.active_tasks ≡ 1
Permitted _ g = Unit {0}

-- What the caller holds afterwards. A page is published as the disk has it, or as zeros by a
-- loader that took the exclusive latch first. A write that fails leaves anything, `torn`, on disk.
abbrev pub effect : Op → ℕ → Ghost → Ghost
effect Op.try_pin_resident torn g = record g { pinners = g.pinners + 1 }
effect Op.unpin torn g = record g { pinners = g.pinners - 1 }
effect (Op.try_reserve popped) torn g = record g { loaders = 1 }
effect (Op.publish_resident release) torn g = record g {
  loaders = 0;
  pinners = if release then g.pinners else g.pinners + 1;
  page = if g.writers == 1 then 0 else g.disk;
  touched = g.writers;
}
effect Op.release_to_free torn g = record g { loaders = 0 }
effect Op.try_discard_pinned torn g = record g { pinners = g.pinners - 1 }
effect Op.mark_dirty torn g = record g { marked = 1 }
effect Op.try_acquire_shared torn g = record g { readers = g.readers + 1 }
effect Op.release_shared torn g = record g { readers = g.readers - 1 }
effect Op.try_acquire_exclusive torn g = record g { writers = g.writers + 1 }
effect Op.release_exclusive torn g = record g { writers = g.writers - 1; touched = 0; marked = 0 }
effect (Op.try_queue_writeback skip) torn g = record g { queued_tasks = 1; snapshot = g.page }
effect Op.begin_writeback torn g = record g { queued_tasks = 0; active_tasks = 1 }
effect Op.cancel_queued_writeback torn g = record g { queued_tasks = 0 }
effect (Op.complete_writeback succeeded) torn g = record g {
  active_tasks = 0;
  disk = if succeeded then g.snapshot else torn;
}
effect Op.announce torn g = g

-- A step of some thread: an operation that writes the word, a change of the page's bytes by the
-- writer, or a MarkDirty that finds the word as it would make it.
pub data Step (s t : Frame) : Type 0 where
  operate :
      (op : Op) (torn word : ℕ) (wake : Bool)
      → Permitted op s.ghost
      → transition op s.word ≡ some (word, wake)
      → t ≡ record { word = word; ghost = effect op torn s.ghost }
      → Step s t
  modify :
      (page : ℕ)
      → 0 < s.ghost.writers
      → t ≡ record s { ghost = record (s.ghost) { page = page; touched = 1 } }
      → Step s t

pub data Reach (s : Frame) : Frame → Type 0 where
  here : Reach s s
  next : {t u : Frame} → Reach s t → Step t u → Reach s u

abbrev nobody : ℕ → Ghost
nobody disk = record {
  pinners = 0;
  loaders = 0;
  readers = 0;
  writers = 0;
  queued_tasks = 0;
  active_tasks = 0;
  touched = 0;
  marked = 0;
  page = 0;
  snapshot = 0;
  disk = disk;
}

-- A frame as a new buffer manager has it, over a disk with some page.
abbrev pub fresh : ℕ → Frame
fresh disk = record { word = 0; ghost = nobody disk }

-- How the word's fields account for the threads.
pub record Accounts (f : Fields) (g : Ghost) : Type 0 where
  pub fits : Fits f
  pub state : f.state < 3
  pub pins : f.pins ≡ g.pinners + g.loaders
  pub shared : f.shared ≡ g.readers
  pub exclusive : f.exclusive ≡ g.writers
  pub queued : f.queued ≡ g.queued_tasks
  pub active : f.active ≡ g.active_tasks
  pub one_task : f.queued + f.active ≤ 1
  pub one_side : (f.exclusive ≡ 0) ⊎ (f.shared ≡ 0)
  pub loading :
      (f.state ≡ 1) × (g.loaders ≡ 1) × (g.pinners ≡ 0) ⊎ ((f.state ≡ 1 → ⊥) × (g.loaders ≡ 0))
  pub free : (f.state ≡ 0 → ⊥) ⊎ (g.pinners ≡ 0)
  pub task : (f.queued + f.active ≡ 0) ⊎ ((f.state ≡ 2) × (f.dirty ≡ 1))
  pub touched : g.touched ≤ g.writers
  pub marked : g.marked ≤ g.writers
  pub marked_dirty : (g.marked ≡ 0) ⊎ ((f.state ≡ 2) × (f.dirty ≡ 1))
  -- A clean page that no writer is changing is the page on disk.
  pub clean : (f.state ≡ 2 → ⊥) ⊎ (f.dirty ≡ 1) ⊎ (g.touched ≡ 1) ⊎ (g.page ≡ g.disk)
  -- The snapshot of a pending task is the page, unless the word says that it may not be.
  pub stable :
      (f.queued + f.active ≡ 0) ⊎ (f.redirtied ≡ 1) ⊎ (f.exclusive ≡ 1) ⊎ (g.snapshot ≡ g.page)

abbrev pub Inv : Frame → Type 0
Inv s = (f : Fields) × (s.word ≡ pack f) × Accounts f s.ghost
