-- ===== src/Replacer/Examples.antt =====
-- Runs of the replacers of src/cpp/lib/replacer, and the theorems about them at concrete states.
use tele_path.Prelude.{ℕ, ◌≡◌, refl, Bool, true, ◌==◌, [], some, arith}
use tele_path.Replacer.Sweep.{sweep}
use tele_path.Replacer.Clock
use tele_path.Replacer.ClockSweep
use tele_path.Replacer.FrameList
use tele_path.Replacer.Batcher.{
  HasRoom, batcher-HasRoom, apply_all, record_batched, drain_slot, drain_from, drain_all,
}
use tele_path.Common.Chains.{find, walk}
use tele_path.Replacer.Sequence
use tele_path.Replacer.Sequence.{back_first}
use tele_path.Replacer.Lru.{Lru, empty_lru, touch, record_access, record_load, victim, remove}
use tele_path.Replacer.Waiting.{
  Order, recent, settled, touch_order, access_order, load_order, remove_order,
}
use tele_path.Replacer.LruLaws.{IsOrdered, lru-IsOrdered}

abbrev all : ℕ → Bool
all f = true

-- Clock: frames 1 and 2 of four are loaded.
abbrev clock : Clock.Clock
clock = Clock.record_load (Clock.record_load (Clock.empty_clock 4) 1) 2

clock_victim : (Clock.victim clock all).1 ≡ some 1
unfolding Clock.victim Clock.record_load Clock.empty_clock Clock.set_mark sweep
clock_victim = refl

clock-IsValid : Clock.IsValid clock
unfolding Clock.record_load Clock.empty_clock
clock-IsValid f = ground arith

victim-Swept_example : Clock.Swept clock (λ f. f == 2) (Clock.victim clock (λ f. f == 2))
victim-Swept_example = Clock.victim-Swept clock (λ f. f == 2) clock-IsValid

victim-finds_example : (g : ℕ) × ((Clock.victim clock (λ f. f == 2)).1 ≡ some g)
unfolding Clock.record_load Clock.empty_clock
victim-finds_example =
    Clock.victim-finds clock (λ f. f == 2) 2 (omega arith) clock-IsValid (omega arith) refl refl

-- ClockSweep: the same frames, and frame 1 is accessed twice.
abbrev counts : ClockSweep.ClockSweep
counts =
    let loaded =
      ClockSweep.record_load (ClockSweep.record_load (ClockSweep.empty_clock_sweep 4) 1) 2 in
    ClockSweep.record_access (ClockSweep.record_access loaded 1) 1

first_cold : (ClockSweep.victim counts all).1 ≡ some 2
unfolding ClockSweep.victim ClockSweep.record_load ClockSweep.record_access
    ClockSweep.empty_clock_sweep ClockSweep.set_usage sweep
first_cold = refl

counts-IsValid : ClockSweep.IsValid counts
unfolding ClockSweep.record_load ClockSweep.record_access ClockSweep.empty_clock_sweep
counts-IsValid f = ground arith

victim-counts_example :
    ClockSweep.CountsDown counts (λ f. f == 2) (ClockSweep.victim counts (λ f. f == 2))
victim-counts_example = ClockSweep.victim-counts counts (λ f. f == 2) counts-IsValid

victim-found_example : (g : ℕ) × ((ClockSweep.victim counts (λ f. f == 1)).1 ≡ some g)
unfolding ClockSweep.record_load ClockSweep.record_access ClockSweep.empty_clock_sweep
victim-found_example =
    ClockSweep.victim-found counts (λ f. f == 1) 1 (omega arith) counts-IsValid (omega arith) refl
      refl

-- Lru: frames 1, 2 and 3 are loaded in this order, and the access to frame 1 waits in slot 0.
abbrev lru : Lru
lru =
    record_access 4 2 0 (record_load 4 2 0 (record_load 4 2 0 (record_load 4 2 0 empty_lru 1) 2) 3)
      1

least_recent : (victim 4 2 lru all).1 ≡ some 2
unfolding victim record_access record_load touch empty_lru record_batched drain_slot drain_all
    drain_from apply_all FrameList.push_front FrameList.contains FrameList.empty_list
    FrameList.move_to_front FrameList.unlink FrameList.pick_from walk
least_recent = refl

abbrev no_order : Order
no_order = record { slots = λ slot. []; policy = [] }

empty_lru-IsOrdered : IsOrdered 4 2 (omega arith) empty_lru no_order
unfolding empty_lru
empty_lru-IsOrdered = (λ slot. refl, Sequence.empty-Represents 4 (omega arith))

loaded-IsOrdered :
    IsOrdered 4 2 (omega arith) (record_load 4 2 0 empty_lru 1) (load_order 4 0 no_order 1)
loaded-IsOrdered =
    (lru-IsOrdered 4 2 (omega arith) 0 1 all empty_lru no_order empty_lru-IsOrdered).2

lru-IsOrdered_example :
    let loaded = record_load 4 2 0 empty_lru 1 in
    let o = load_order 4 0 no_order 1 in
    IsOrdered 4 2 (omega arith) (record_access 4 2 0 loaded 1) (access_order 0 o 1)
    × (recent 0 (access_order 0 o 1) ≡ touch_order (recent 0 o) 1)
    × IsOrdered 4 2 (omega arith) (record_load 4 2 0 loaded 1) (load_order 4 0 o 1)
    × IsOrdered 4 2 (omega arith) (remove 4 2 0 loaded 1) (remove_order 4 0 o 1)
    × IsOrdered 4 2 (omega arith) ((victim 4 2 loaded all).0) (settled 2 o)
    × ((victim 4 2 loaded all).1 ≡ find all (back_first ((settled 2 o).policy) []))
lru-IsOrdered_example =
    lru-IsOrdered 4 2 (omega arith) 0 1 all (record_load 4 2 0 empty_lru 1)
      (load_order 4 0 no_order 1) loaded-IsOrdered

empty_lru-HasRoom : HasRoom empty_lru
unfolding empty_lru
empty_lru-HasRoom slot = omega arith

batcher-HasRoom_example :
    HasRoom (record_batched (touch 4 2) 0 1 empty_lru)
    × HasRoom (drain_slot (touch 4 2) 0 empty_lru)
    × HasRoom (drain_all (touch 4 2) 2 empty_lru)
batcher-HasRoom_example = batcher-HasRoom (touch 4 2) 0 1 2 empty_lru empty_lru-HasRoom
