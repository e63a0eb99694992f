-- ===== src/FrameControl/Ops.antt =====
-- src/cpp/lib/buffer/frame_control.h, the operations on the control word. Each is a loop that loads
-- the word, decides, and publishes by compare-and-swap, and that starts again on the word it finds
-- if the swap fails. An `Attempt` is one round of it; `cas_loop` is the loop against a schedule.
use tele_path.Prelude.{
  ℕ, bit_and, bit_or, Bool, true, false, not, ◌==◌, ◌&&◌, ◌||◌, if◌then◌else◌, ltb, leb, Option,
  none, some, List, [], ◌∷◌,
}
use tele_path.FrameControl.Word.{
  free, loading, resident, state_code, dirty, writeback_queued, writeback_active, redirtied,
  exclusive, shared_one, max_shared, waiters, pin_one, max_pins, writeback_mask, latch_mask,
  complement, add32, sub32, has_any, state, with_state, pins, shared_holders, is_resident, is_dirty,
  has_writeback,
}

-- One round of a loop on the word it observed: return without a write, load again, or try to swap
-- in a new word, wake the sleepers if the flag says so, and return.
pub data Attempt {ℓ} (R : Type ℓ) : Type ℓ where
  leave : R → Attempt R
  reload : Attempt R
  swap : ℕ → Bool → R → Attempt R

-- The loop: each entry of the schedule is a word that the thread observes and whether its swap,
-- if it tries one, succeeds. The result is the last word observed and that round's attempt.
pub cas_loop {ℓ} : {R : Type ℓ} → (ℕ → Attempt R) → List (ℕ × Bool) → Option (ℕ × Attempt R)
cas_loop body [] = none
cas_loop body ((word, succeeds) ∷ rest) =
    let again = cas_loop body rest in
    elim (body word) [
      | leave r ↦ some (word, leave r)
      | reload ↦ again
      | swap next wake r ↦ if succeeds then some (word, swap next wake r) else again
    ]

-- WaitWhile: what a thread does before it sleeps, given the word it observed.
pub data WaitStep : Type 0 where
  proceed : ℕ → WaitStep
  announce : ℕ → WaitStep
  sleep : ℕ → WaitStep

unfoldable pub wait_while : (ℕ → Bool) → ℕ → WaitStep
wait_while blocked word =
    if blocked word
    then (if bit_and word waiters == 0 then announce (bit_or word waiters) else sleep word)
    else proceed word

unfoldable pub update_and_wake : (ℕ → ℕ) → (ℕ → ℕ → Bool) → ℕ → Attempt ℕ
update_and_wake next wakes word =
    let new_word = next word in
    let wake = has_any word waiters && wakes word new_word in
    swap (if wake then bit_and new_word (complement waiters) else new_word) wake word

abbrev pub always : ℕ → ℕ → Bool
always old_word new_word = true

unfoldable pub try_pin_resident : ℕ → Attempt Bool
unfolding is_resident pins
try_pin_resident word =
    if not (is_resident word)
    then leave false
    else if pins word == max_pins
    then reload
    else swap (add32 word pin_one) false true

unfoldable pub unpin : ℕ → Attempt (Option ℕ)
unfolding pins
unpin word = if pins word == 0 then leave none else swap (sub32 word pin_one) false (some word)

pub data ReserveOutcome : Type 0 where
  reserved needs_flush rejected : ReserveOutcome

-- The result carries the word that `*observed` receives.
unfoldable pub try_reserve : Bool → ℕ → Attempt (ReserveOutcome × ℕ)
unfolding state is_resident is_dirty pins
try_reserve popped_from_free_list word =
    if state word == state_code loading
    then leave (rejected, word)
    else if state word == state_code free && not popped_from_free_list
    then leave (rejected, word)
    else if not (pins word == 0) || has_any word (bit_or latch_mask writeback_mask)
    then leave (rejected, word)
    else if is_resident word && is_dirty word
    then leave (needs_flush, word)
    else swap (bit_or (bit_or (bit_and word waiters) pin_one) (state_code loading)) false
        (reserved, word)

unfoldable pub published : Bool → ℕ → ℕ
unfolding with_state
published release_pin word = sub32 (with_state word resident) (if release_pin then pin_one else 0)

unfoldable pub publish_resident : Bool → ℕ → Attempt ℕ
publish_resident release_pin = update_and_wake (published release_pin) always

unfoldable pub freed : ℕ → ℕ
freed word = bit_and word (bit_or waiters latch_mask)

unfoldable pub release_to_free : ℕ → Attempt ℕ
release_to_free = update_and_wake freed always

pub data DiscardOutcome : Type 0 where
  discarded writeback latched busy : DiscardOutcome

-- On success the result carries the word that `*previous` receives.
unfoldable pub try_discard_pinned : ℕ → Attempt (DiscardOutcome × ℕ)
unfolding has_writeback is_resident pins
try_discard_pinned word =
    if has_writeback word
    then leave (writeback, 0)
    else if not (is_resident word) || not (pins word == 1)
    then leave (busy, 0)
    else if has_any word latch_mask
    then leave (latched, 0)
    else swap 0 (has_any word waiters) (discarded, word)

unfoldable pub mark_dirty : ℕ → Attempt (Option Bool)
unfolding is_resident has_writeback is_dirty
mark_dirty word =
    let marked = bit_or word dirty in
    let next = if has_writeback word then bit_or marked redirtied else marked in
    if not (is_resident word)
    then leave none
    else if next == word
    then leave (some false)
    else swap next false (some (not (is_dirty word)))

unfoldable pub try_acquire_shared : ℕ → Attempt Bool
unfolding shared_holders
try_acquire_shared word =
    if bit_and word exclusive == 0 && ltb (shared_holders word) max_shared
    then swap (add32 word shared_one) false true
    else leave false

unfoldable pub acquire_shared_blocked : ℕ → Bool
unfolding shared_holders
acquire_shared_blocked word = has_any word exclusive || leb max_shared (shared_holders word)

unfoldable pub release_shared : ℕ → Attempt ℕ
unfolding shared_holders update_and_wake
release_shared =
    update_and_wake (λ word. sub32 word shared_one)
      (λ old_word new_word. shared_holders new_word == 0 || shared_holders old_word == max_shared)

unfoldable pub try_acquire_exclusive : ℕ → Attempt Bool
try_acquire_exclusive word =
    if bit_and word latch_mask == 0 then swap (bit_or word exclusive) false true else leave false

unfoldable pub acquire_exclusive_blocked : ℕ → Bool
acquire_exclusive_blocked word = has_any word latch_mask

-- The bump of the frame's version that comes first is no part of the word.
unfoldable pub unlatched_word : ℕ → ℕ
unfolding has_writeback
unlatched_word word =
    let next = bit_and word (complement exclusive) in
    if has_writeback word then bit_or next redirtied else next

unfoldable pub release_exclusive : ℕ → Attempt ℕ
release_exclusive = update_and_wake unlatched_word always

pub data QueueOutcome : Type 0 where
  queued not_dirty pending pinned : QueueOutcome

unfoldable pub try_queue_writeback : Bool → ℕ → Attempt QueueOutcome
unfolding has_writeback is_resident is_dirty pins
try_queue_writeback skip_if_pinned word =
    if has_writeback word
    then leave pending
    else if not (is_resident word) || not (is_dirty word)
    then leave not_dirty
    else if skip_if_pinned && not (pins word == 0)
    then leave pinned
    else swap (bit_and (bit_or word writeback_queued) (complement redirtied)) false queued

unfoldable pub begin_writeback : ℕ → Attempt ℕ
unfolding update_and_wake
begin_writeback =
    update_and_wake (λ word. bit_or (bit_and word (complement writeback_queued)) writeback_active)
      (λ old_word new_word. false)

unfoldable pub cancelled : ℕ → ℕ
cancelled word = bit_and word (complement (bit_or writeback_queued redirtied))

unfoldable pub cancel_queued_writeback : ℕ → Attempt ℕ
cancel_queued_writeback = update_and_wake cancelled always

pub record WritebackCompletion : Type 0 where
  pub cleared_dirty : Bool
  pub word : ℕ

unfoldable pub may_clear_dirty : Bool → ℕ → Bool
unfolding is_resident is_dirty
may_clear_dirty succeeded word =
    succeeded && is_resident word && is_dirty word && bit_and word (bit_or redirtied exclusive) == 0

unfoldable pub completed : Bool → ℕ → ℕ
unfolding may_clear_dirty
completed succeeded word =
    let next = bit_and word (complement (bit_or writeback_mask redirtied)) in
    if may_clear_dirty succeeded word then bit_and next (complement dirty) else next

unfoldable pub complete_writeback_word : Bool → ℕ → Attempt ℕ
complete_writeback_word succeeded = update_and_wake (completed succeeded) always

-- What CompleteWriteback returns, from the word it replaced.
unfoldable pub writeback_completion : Bool → ℕ → WritebackCompletion
unfolding may_clear_dirty
writeback_completion succeeded old_word =
    let kept = bit_and old_word (complement (bit_or (bit_or writeback_mask redirtied) waiters)) in
    let cleared = may_clear_dirty succeeded old_word in
    record {
      cleared_dirty = cleared;
      word = if cleared then bit_and kept (complement dirty) else kept;
    }
