-- ===== src/FrameControl/Spec.antt =====
-- The operations of src/cpp/lib/buffer/frame_control.h as transitions on the fields of the word:
-- when each one writes, what it writes, and whether it wakes the sleepers.
use tele_path.Prelude.{
  ℕ, ◌+◌, ◌-◌, ◌<◌, Bool, true, false, not, ◌==◌, ◌&&◌, ◌||◌, if◌then◌else◌, ltb, Option, none,
  some,
}
use tele_path.FrameControl.Fields.{Fields, pack}
use tele_path.FrameControl.Ops
use tele_path.FrameControl.Ops.{Attempt, leave, reload, swap}

-- One operation of one thread, with its arguments. `announce` is the write of WaitWhile.
pub data Op : Type 0 where
  try_pin_resident unpin : Op
  try_reserve : Bool → Op
  publish_resident : Bool → Op
  release_to_free try_discard_pinned mark_dirty : Op
  try_acquire_shared release_shared try_acquire_exclusive release_exclusive : Op
  try_queue_writeback : Bool → Op
  begin_writeback cancel_queued_writeback : Op
  complete_writeback : Bool → Op
  announce : Op

-- What a round publishes: the new word and whether it wakes the sleepers.
abbrev pub written {ℓ} : {R : Type ℓ} → Attempt R → Option (ℕ × Bool)
written (leave r) = none
written reload = none
written (swap next wake r) = some (next, wake)

abbrev pub announced : Ops.WaitStep → Option (ℕ × Bool)
announced (Ops.proceed w) = none
announced (Ops.announce next) = some (next, false)
announced (Ops.sleep w) = none

unfoldable pub transition : Op → ℕ → Option (ℕ × Bool)
transition try_pin_resident w = written (Ops.try_pin_resident w)
transition unpin w = written (Ops.unpin w)
transition (try_reserve popped) w = written (Ops.try_reserve popped w)
transition (publish_resident release) w = written (Ops.publish_resident release w)
transition release_to_free w = written (Ops.release_to_free w)
transition try_discard_pinned w = written (Ops.try_discard_pinned w)
transition mark_dirty w = written (Ops.mark_dirty w)
transition try_acquire_shared w = written (Ops.try_acquire_shared w)
transition release_shared w = written (Ops.release_shared w)
transition try_acquire_exclusive w = written (Ops.try_acquire_exclusive w)
transition release_exclusive w = written (Ops.release_exclusive w)
transition (try_queue_writeback skip) w = written (Ops.try_queue_writeback skip w)
transition begin_writeback w = written (Ops.begin_writeback w)
transition cancel_queued_writeback w = written (Ops.cancel_queued_writeback w)
transition (complete_writeback succeeded) w = written (Ops.complete_writeback_word succeeded w)
transition announce w = announced (Ops.wait_while (λ word. true) w)

abbrev pub no_fields : Fields
no_fields = record {
  state = 0;
  dirty = 0;
  queued = 0;
  active = 0;
  prefetched = 0;
  redirtied = 0;
  exclusive = 0;
  shared = 0;
  waiters = 0;
  pins = 0;
}

-- A write that wakes whoever announced that it sleeps.
abbrev pub waking : Fields → Fields → Fields × Bool
waking f g = if f.waiters == 1 then (record g { waiters = 0 }, true) else (g, false)

abbrev pub in_writeback : Fields → Bool
in_writeback f = f.queued == 1 || f.active == 1

abbrev pub unlatched : Fields → Bool
unlatched f = f.exclusive == 0 && f.shared == 0

abbrev only_if : Bool → Fields × Bool → Option (Fields × Bool)
only_if test result = if test then some result else none

abbrev pub marks : Fields → ℕ
marks f = if in_writeback f then 1 else f.redirtied

unfoldable pub spec : Op → Fields → Option (Fields × Bool)
spec try_pin_resident f =
    only_if (f.state == 2 && not (f.pins == 0x7fff)) (record f { pins = f.pins + 1 }, false)
spec unpin f = only_if (not (f.pins == 0)) (record f { pins = f.pins - 1 }, false)
spec (try_reserve popped) f =
    only_if
      (not (f.state == 1)
        && (not (f.state == 0) || popped)
        && f.pins == 0
        && unlatched f
        && not (in_writeback f)
        && not (f.state == 2 && f.dirty == 1))
      (record no_fields { state = 1; waiters = f.waiters; pins = 1 }, false)
spec (publish_resident release) f =
    some (waking f (record f { state = 2; pins = f.pins - (if release then 1 else 0) }))
spec release_to_free f = some (
    waking f (record no_fields { exclusive = f.exclusive; shared = f.shared; waiters = f.waiters }))
spec try_discard_pinned f =
    only_if (not (in_writeback f) && f.state == 2 && f.pins == 1 && unlatched f)
      (no_fields, f.waiters == 1)
spec mark_dirty f =
    only_if (f.state == 2 && not (f.dirty == 1 && marks f == f.redirtied))
      (record f { dirty = 1; redirtied = marks f }, false)
spec try_acquire_shared f =
    only_if (f.exclusive == 0 && ltb f.shared 0xff) (record f { shared = f.shared + 1 }, false)
spec release_shared f = some (
    if f.waiters == 1 && (f.shared == 1 || f.shared == 0xff)
    then (record f { shared = f.shared - 1; waiters = 0 }, true)
    else (record f { shared = f.shared - 1 }, false))
spec try_acquire_exclusive f = only_if (unlatched f) (record f { exclusive = 1 }, false)
spec release_exclusive f = some (waking f (record f { exclusive = 0; redirtied = marks f }))
spec (try_queue_writeback skip) f =
    only_if (not (in_writeback f) && f.state == 2 && f.dirty == 1 && (not skip || f.pins == 0))
      (record f { queued = 1; redirtied = 0 }, false)
spec begin_writeback f = some (record f { queued = 0; active = 1 }, false)
spec cancel_queued_writeback f = some (waking f (record f { queued = 0; redirtied = 0 }))
spec (complete_writeback succeeded) f = some (
    waking f (record f {
      dirty =
          if succeeded && f.state == 2 && f.dirty == 1 && f.redirtied == 0 && f.exclusive == 0
          then 0
          else f.dirty;
      queued = 0;
      active = 0;
      redirtied = 0;
    }))
spec announce f = only_if (f.waiters == 0) (record f { waiters = 1 }, false)

-- What the callers owe: whoever drops a pin or a shared latch in a write that does not test for
-- one holds it.
abbrev pub Allowed : Op → Fields → Type 0
Allowed (publish_resident true) f = 0 < f.pins
Allowed release_shared f = 0 < f.shared
Allowed _ f = Unit {0}

abbrev pub packed : Fields × Bool → ℕ × Bool
packed (f, wake) = (pack f, wake)
