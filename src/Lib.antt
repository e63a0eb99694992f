-- ===== src/Lib.antt =====
-- TelePath is a page buffer manager in C++ (src/cpp). A fixed pool of frames holds pages of
-- files; a page table maps a page's tag (file, block) to its frame; every frame has a 32-bit
-- control word that threads change with compare-and-swap and wait on with a futex; a replacer
-- chooses the frame to evict; a cleaner and a flush scheduler write dirty pages back; a free list
-- holds the frames without a page.
--
-- Correspondence:
--
-- - src/cpp/include/telepath/common/types.h: Common/Types (BufferTag, kInvalidFrameId,
--   kInvalidLsn).
-- - src/cpp/lib/buffer/frame_control.h: FrameControl/Word (the bits of the word and their
--   readers), FrameControl/Ops (every operation, as the decision that one iteration of its
--   compare-and-swap loop takes on the word that it read: leave the loop with a result, reload,
--   or try to swap in a new word). FrameControl/Readers has what the readers give,
--   FrameControl/Fields packs a record of fields into a word, FrameControl/Spec specifies each
--   operation on the fields, and FrameControl/System is the step relation of many threads on one
--   frame: a step is one successful swap, with a ghost account of who pins, latches, loads,
--   queues and writes back, and of the bytes in memory and on disk.
-- - src/cpp/lib/buffer/page_table.h and page_table.cc: PageTable/Table (hash, buckets, lookup),
--   PageTable/Ops (Link, Unlink and the writers), PageTable/Chain and PageTable/Invariant (the
--   intrusive chains as lists), PageTable/Validity, PageTable/Entries (the abstract map from
--   frames to tags).
-- - src/cpp/lib/buffer/frame_free_list.h: FreeList/Ops (the words that Push and Pop load, store
--   and swap in, and both run alone), FreeList/System (many threads, each atomic access a step),
--   FreeList/Invariant, FreeList/Steps and FreeList/Safety.
-- - src/cpp/lib/replacer/clock_replacer.cc and clock_sweep_replacer.cc: Replacer/Clock and
--   Replacer/ClockSweep over the hand that both share, Replacer/Sweep, whose laws are in
--   Replacer/SweepLaws and, on how far the hand goes and what it takes off the marks,
--   Replacer/SweepTurns. The policy's read-only view of the frames (EvictionProbe) is a test on
--   frames, the same during one call.
-- - src/cpp/lib/replacer/frame_list.h: Replacer/FrameList; Replacer/Recency and Replacer/Sequence
--   relate its links to a sequence of frames.
-- - src/cpp/lib/replacer/access_batcher.h: Replacer/Batcher, over any policy.
-- - src/cpp/lib/replacer/lru_replacer.cc and two_queue_replacer.cc: Replacer/Lru and
--   Replacer/TwoQueue, with their refinements in Replacer/LruLaws and Replacer/TwoQueueLaws. What
--   LRU promises, with the accesses that wait, is in Replacer/Waiting, apart from the batcher.
-- - src/cpp/include/telepath/common/status.h: Common/Status. src/cpp/lib/buffer/frame_control.cc,
--   and LowerRecLsn: FrameControl/Errors. The operating system's error number of an error is
--   taken to be no less than zero.
-- - src/cpp/lib/replacer/sieve_replacer.cc: Replacer/Sieve and, on the same linked list, its laws
--   in Replacer/SieveQueue, Replacer/SieveLaws and, on the way of the hand, Replacer/SieveTurns.
--   src/cpp/lib/common/state_layout.h: Common/Layout.
-- - src/cpp/lib/buffer/flush_scheduler.cc: Flush/Scheduler (the queues, the batches and the
--   batches that one worker takes in a row), Flush/Fairness (one batch), Flush/Bursts (how long a
--   task waits). The number of foreground tasks that a worker served in a row, thread local in
--   the source, is an argument and a result. src/cpp/lib/buffer/cleaner_controller.cc:
--   Flush/Cleaner (the candidates, and the decision of a pass of its loop), Flush/Candidates.
--   Threads, condition variables and callbacks are left out.
-- - src/cpp/lib/buffer/buffer_manager*.cc and buffer_handle.cc: Manager. Manager/Types has the
--   state of a manager (descriptors, page table, free list, frames, count of dirty pages, files
--   that wait for a sync, failure) and what it calls outside: the replacer, the disk behind the
--   I/O engine and the hook of the user are an Env. An operation of the manager is a function on
--   the state that gives none where it would wait for what no other thread does. Manager/Frames,
--   Files, Flushing, Writeback, Rounds, Pool, Reserve, Loading, Reading, Handles, Dropping,
--   Closing, AsyncReads and FinishReads follow the flows of the source: the tests of one frame
--   and the cleaner's candidates; the files to sync; a flush task; its writeback; the loops over
--   flushes; the calls over all frames; the claim of a frame; the load of a page; PinPage;
--   handles; DropFileBuffers; Close, the snapshot and the start; asynchronous reads and their
--   end. Manager/Strategy is buffer_access_strategy.cc and Manager/Options the sizes of
--   src/cpp/include/telepath/options/buffer_manager_options.h. The laws are in Manager/Steps (the
--   operations of any threads on a pool as steps; Words, DirtyWords, Dirty, Accounting,
--   FileFrames, Balance and Claims carry its invariant), RecLsn, Options, Coalescing, Eviction,
--   Loads (over PinWords and Published) and Flushed (over FlushWords and FlushRounds).
--   Manager/Telemetry has the counters of src/cpp/include/telepath/telemetry/telemetry_sink.h and
--   the calls of buffer_manager_observer.cc that raise them, Manager/Counts what a snapshot of
--   them gives.
-- - src/cpp/lib/sync/futex.h: Sync/Mutex (the accesses of lock, try_lock and unlock to the word,
--   and many threads that make them, with the futex of the operating system as the steps of a
--   thread that sleeps and is woken), Sync/Invariant and Sync/Safety.
-- - src/cpp/lib/io/file_descriptor_cache.cc: Io/FileDescriptors, its laws in Io/Entries and
--   Io/Eviction; open, fstat and ftruncate are arguments.
-- - src/cpp/include/telepath/common/block_geometry.h and src/cpp/lib/buffer/frame_memory_pool.h:
--   Common/Geometry. The error builders of status.h: Common/Results.
--
-- Common/Chains has the chains of frames through an array of links that the page table, the free
-- list and the replacers share; Prelude has the shared names, tests, lists, arrays and bit laws.
--
-- Machine integers: a control word is a natural below 2 ^ 32, and the sums and differences on it
-- are written modulo 2 ^ 32 (add32, sub32); the hash of a tag is computed modulo 2 ^ 64. The walk
-- of a chain has the fuel that the source gives it, the frame capacity; the loop of Unlink, which
-- has no bound in the source, has the frame capacity as fuel, and the theorems about it show that
-- a valid chain is not longer; the walk of a replacer from the back of its list has the same fuel
-- for the same reason. The hand of a clock is a std::size_t that wraps at 2 ^ 64, and the
-- theorems that a victim is found are about a hand that does not wrap during the call. The head
-- of the free list has a version of 32 bits; a step of its system that swaps the head assumes
-- fewer than 2 ^ 32 other swaps since the thread's load.
--
-- The loops of the manager: RunForegroundFlush and the inner loop of CheckpointBuffers have two
-- rounds as fuel, because a round that wrote leaves the page clean and the next one ends the loop
-- when no other thread changes it; PinPage, ReserveFrameForTag, AcquireVictimFrame and
-- DropFileBuffers have their rounds as an argument. The loop of EvictIdleLocked has the number of
-- entries as fuel, since each round closes one.
--
-- Not modelled: the memory orders of atomics (every operation is one step on a sequentially
-- consistent word), the seqlock that lets lookups run beside writers (a lookup is modelled
-- between two writers, and a writer runs alone under its stripe locks), the futex calls
-- themselves, and the placement of the arrays in a shared segment. A compare-and-swap of the
-- clock sweep is taken to succeed. An operation of a batched replacer is one step: nothing comes
-- between a slot's latch and the policy's latch. A call of the manager runs alone: other threads
-- come between its operations on a frame only in the steps of Manager/Steps, a flush worker
-- serves a task when it is enqueued, and a prefetch completes through FinishAsyncLoad. The
-- batches of I/O requests, the waiters and the futexes of the I/O engine, the telemetry behind
-- the observer but for the counters (the manager keeps the observer's calls as a list of events),
-- the observation plane, the facade, the shared segment but for its list of written files, the
-- LRU-K and the plan replacers, and the backends are left out.
pub mod Prelude
pub mod Common
pub mod FrameControl
pub mod PageTable
pub mod FreeList
pub mod Replacer
pub mod Flush
pub mod Manager
pub mod Io
pub mod Sync
