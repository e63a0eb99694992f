-- ===== src/Manager/Types.antt =====
-- The state of a BufferManager of src/cpp/include/telepath/buffer/buffer_manager.h, what it uses of
-- its parts, and the calls that it makes to its observer.
use tele_path.Prelude.{ℕ, Bool, true, false, Option, none, some, List, ◌∷◌, store}
use tele_path.Common.Types.{BufferTag, no_tag, invalid_lsn}
use tele_path.Common.Status.{Error, Status}
use tele_path.FrameControl.Ops.{Attempt, leave, reload, swap}
use tele_path.PageTable.Table.{Table}
use tele_path.FreeList.Ops.{FreeList}
use tele_path.Flush.Cleaner.{Cleaner}
use tele_path.Flush.Scheduler.{FlushTask}

-- The bytes of a page.
abbrev pub Page : Type 0
Page = List ℕ

-- BufferDescriptor of buffer_descriptor.h.
pub record Descriptor : Type 0 where
  pub control : ℕ
  pub last_writeback_error : ℕ
  pub version : ℕ
  pub tag : BufferTag
  pub rec_lsn : ℕ
  pub writeback_rec_lsn : ℕ

abbrev pub new_descriptor : Descriptor
new_descriptor = record {
  control = 0;
  last_writeback_error = 0;
  version = 0;
  tag = no_tag;
  rec_lsn = invalid_lsn;
  writeback_rec_lsn = invalid_lsn;
}

-- The calls of BufferManagerObserver.
pub data Event : Type 0 where
  resident_hit joined_miss_hit read_miss : BufferTag → Event
  load_completion : BufferTag → Option BufferTag → Event
  zero_fill : Option BufferTag → Event
  successful_flush flush_task_scheduled : BufferTag → Event
  flush_task_completion : BufferTag → Status → Event
  cleaner_flush_scheduled cleaner_flush_finished : BufferTag → Event
  cleaner_flush_skipped : Event
  eviction_failure : BufferTag → Event

-- A flush task with the copy of the page that it writes.
pub record Task : Type 0 where
  pub flush : FlushTask
  pub snapshot : Page

-- What the manager calls and does not implement: the replacer, the I/O engine with the disk behind
-- it, and the hook of the user. A read gives the outcome and what the frame's memory holds after
-- it; the pool size and the options do not change.
pub record Env (Disk R : Type 0) : Type 0 where
  pub pool_size : ℕ
  pub zero_page : Page
  pub queued_writeback : Bool
  pub pre_write_hook : Option (BufferTag → Page → Status)
  pub enable_background_cleaner : Bool
  pub shared_capacity : ℕ
  pub record_access : R → ℕ → R
  pub record_load : R → ℕ → R
  pub victim : R → (ℕ → Bool) → R × Option ℕ
  pub remove : R → ℕ → R
  pub read : Disk → BufferTag → Page → Disk × Status × Page
  pub write : Disk → BufferTag → Page → Disk × Status
  pub sync : Disk → List ℕ → Disk × Status

-- `cleaner` is none for the null pointer, `shared_files` is none outside the cross-process mode, and
-- `stopped` says that the flush scheduler is shut down.
pub record Manager (Disk R : Type 0) : Type 0 where
  pub descriptors : ℕ → Descriptor
  pub page_table : Table
  pub free_list : FreeList
  pub frames : ℕ → Page
  pub dirty_page_count : ℕ
  pub cleaner : Option Cleaner
  pub written_files : List ℕ
  pub shared_files : Option (List ℕ)
  pub failure : Option Error
  pub closed : Bool
  pub stopped : Bool
  pub replacer : R
  pub disk : Disk
  pub events : List Event

-- What an operation on a control word leaves there, and what it returns, when no other thread runs
-- between its load and its swap. `otherwise` is what it returns if it loads again, which only
-- TryPinResident does.
abbrev pub after {ℓ} : {A : Type ℓ} → ℕ → Attempt A → ℕ
after word (leave r) = word
after word reload = word
after word (swap next wake r) = next

abbrev pub returned {ℓ} : {A : Type ℓ} → A → Attempt A → A
returned otherwise (leave r) = r
returned otherwise reload = otherwise
returned otherwise (swap next wake r) = r

-- An operation on the control word of a descriptor.
abbrev pub operate {ℓ} : {A : Type ℓ} → (ℕ → Attempt A) → Descriptor → Descriptor
operate op d = record d { control = after d.control (op d.control) }

-- A call that returns gives the state after it and its value; none is a call that waits for what no
-- other thread does.
abbrev pub Call : Type 0 → Type 0 → Type 0 → Type 0
Call Disk R A = Manager Disk R → Option (Manager Disk R × A)

infixl 5 ◌>>=◌ ◌>>◌
abbrev pub ◌>>=◌ : {Disk R A B : Type 0} → Call Disk R A → (A → Call Disk R B) → Call Disk R B
◌>>=◌ call next m = elim (call m) [ none ↦ none | some (m', a) ↦ next a m' ]

abbrev pub ◌>>◌ : {Disk R A B : Type 0} → Call Disk R A → Call Disk R B → Call Disk R B
call >> next = call >>= λ _. next

abbrev pub pure : {Disk R A : Type 0} → A → Call Disk R A
pure a m = some (m, a)

abbrev pub update : {Disk R : Type 0} → (Manager Disk R → Manager Disk R) → Call Disk R (Unit {0})
update change m = some (change m, tt)

-- A call that always returns.
abbrev pub always : {Disk R A : Type 0} → (Manager Disk R → Manager Disk R × A) → Call Disk R A
always call m = some (call m)

-- A call that waits while the test holds, when no other thread can change it.
abbrev pub wait_while : {Disk R : Type 0} → (Manager Disk R → Bool) → Call Disk R (Unit {0})
wait_while blocked m = elim (blocked m) [ true ↦ none | false ↦ some (m, tt) ]

module _ {Disk R : Type 0} where
  abbrev pub set_descriptor : ℕ → Descriptor → Manager Disk R → Manager Disk R
  set_descriptor frame d m = record m { descriptors = store m.descriptors frame d }

  abbrev pub word_of : Manager Disk R → ℕ → ℕ
  word_of m frame = (m.descriptors frame).control

  abbrev pub set_word : ℕ → ℕ → Manager Disk R → Manager Disk R
  set_word frame word m = set_descriptor frame (record (m.descriptors frame) { control = word }) m

  abbrev pub change_descriptor : ℕ → (Descriptor → Descriptor) → Manager Disk R → Manager Disk R
  change_descriptor frame change m = set_descriptor frame (change (m.descriptors frame)) m

  -- An operation on the control word of a frame.
  abbrev pub on_word {ℓ} : {A : Type ℓ} → ℕ → (ℕ → Attempt A) → Manager Disk R → Manager Disk R
  on_word frame op = change_descriptor frame (operate op)

  abbrev pub outcome {ℓ} : {A : Type ℓ} → A → ℕ → (ℕ → Attempt A) → Manager Disk R → A
  outcome otherwise frame op m = returned otherwise (op (word_of m frame))

  abbrev pub observe : Event → Manager Disk R → Manager Disk R
  observe event m = record m { events = event ∷ m.events }
