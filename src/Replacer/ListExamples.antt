-- ===== src/Replacer/ListExamples.antt =====
-- Runs of src/cpp/lib/replacer/two_queue_replacer.cc and sieve_replacer.cc.
use tele_path.Prelude.{ℕ, ◌≡◌, refl, Bool, true, [], ◌∷◌, inl, some, arith}
use tele_path.Common.Chains.{walk}
use tele_path.Replacer.FrameList
use tele_path.Replacer.Batcher.{
  Batched, apply_all, record_batched, drain_slot, drain_from, drain_all,
}
use tele_path.Replacer.Sequence
use tele_path.Replacer.TwoQueue.{
  TwoQueue, empty_two_queue, touch, untrack, record_access, record_load, victim, remove,
}
use tele_path.Replacer.TwoQueueLaws.{
  Order, AreSplit, touch_order, load_order, remove_order, victim_order, two_queue-AreSplit,
}
use tele_path.Replacer.Sieve
use tele_path.Replacer.SieveTurns.{Turns, next_in, start_in}
use tele_path.Replacer.SieveQueue.{IsQueue}
use tele_path.Replacer.SieveLaws.{IsVictim, sieve-IsQueue}
use tele_path.Replacer.Waiting.{to_front}

abbrev all : ℕ → Bool
all f = true

-- Frames 1 and 2 are loaded, and the access to frame 1 moves it to the cache before Victim looks.
abbrev queues : TwoQueue
queues = record_access 4 2 0 (record_load 4 2 0 (record_load 4 2 0 empty_two_queue 1) 2) 1

from_history : (victim 4 2 queues all).1 ≡ some 2
unfolding victim record_access record_load touch untrack empty_two_queue record_batched drain_slot
    drain_all drain_from apply_all FrameList.push_front FrameList.contains FrameList.empty_list
    FrameList.move_to_front FrameList.unlink FrameList.pick_from walk
from_history = refl

abbrev no_order : Batched Order
no_order = record { slots = λ slot. []; policy = record { history = []; cache = [] } }

empty_two_queue-AreSplit : AreSplit 4 2 (omega arith) empty_two_queue no_order
unfolding empty_two_queue
empty_two_queue-AreSplit = (
  λ slot. refl,
  record {
    history = Sequence.empty-Represents 4 (omega arith);
    cache = Sequence.empty-Represents 4 (omega arith);
    apart = λ f m. refl;
  },
)

loaded-AreSplit :
    AreSplit 4 2 (omega arith) (record_load 4 2 0 empty_two_queue 1) (load_order 4 0 no_order 1)
loaded-AreSplit =
    (two_queue-AreSplit 4 2 (omega arith) 0 1 all empty_two_queue no_order
      empty_two_queue-AreSplit).1

two_queue-AreSplit_example :
    let loaded = record_load 4 2 0 empty_two_queue 1 in
    let o = load_order 4 0 no_order 1 in
    AreSplit 4 2 (omega arith) (record_access 4 2 0 loaded 1) (record_batched touch_order 0 1 o)
    × AreSplit 4 2 (omega arith) (record_load 4 2 0 loaded 1) (load_order 4 0 o 1)
    × AreSplit 4 2 (omega arith) (remove 4 2 0 loaded 1) (remove_order 4 0 o 1)
    × AreSplit 4 2 (omega arith) ((victim 4 2 loaded all).0) (drain_all touch_order 2 o)
    × ((victim 4 2 loaded all).1 ≡ victim_order all ((drain_all touch_order 2 o).policy))
two_queue-AreSplit_example =
    two_queue-AreSplit 4 2 (omega arith) 0 1 all (record_load 4 2 0 empty_two_queue 1)
      (load_order 4 0 no_order 1) loaded-AreSplit

-- Sieve: frames 1 and 2 are loaded, and frame 1 is accessed, so the hand passes it once.
abbrev sieve : Sieve.Sieve
sieve = Sieve.record_access (Sieve.record_load (Sieve.record_load (Sieve.empty_sieve 4) 1) 2) 1

unvisited : (Sieve.victim sieve all).1 ≡ some 2
unfolding Sieve.victim Sieve.scan Sieve.next_of Sieve.record_access Sieve.record_load Sieve.forget
    Sieve.unlink Sieve.push_newest Sieve.empty_sieve FrameList.push_front FrameList.contains
    FrameList.empty_list FrameList.unlink
unvisited = refl

empty_sieve-IsQueue : IsQueue [] (Sieve.empty_sieve 4)
unfolding Sieve.empty_sieve
empty_sieve-IsQueue = (omega arith, Sequence.empty-Represents 4 (omega arith), refl, inl refl)

one_loaded-IsQueue : IsQueue (to_front [] 1) (Sieve.record_load (Sieve.empty_sieve 4) 1)
unfolding Sieve.empty_sieve
one_loaded-IsQueue =
    (sieve-IsQueue (Sieve.empty_sieve 4) [] 1 all empty_sieve-IsQueue (omega arith)).0

sieve-IsQueue_example :
    let one = Sieve.record_load (Sieve.empty_sieve 4) 1 in
    IsQueue (to_front (1 ∷ []) 2) (Sieve.record_load one 2)
    × IsQueue (1 ∷ []) (Sieve.remove one 2)
    × IsVictim all (1 ∷ []) (Sieve.victim one all)
    × Turns all (next_in (1 ∷ [])) 2 one.visited (start_in (1 ∷ []) one.hand) (Sieve.victim one all)
unfolding Sieve.record_load Sieve.forget Sieve.unlink Sieve.push_newest Sieve.empty_sieve
    FrameList.contains FrameList.empty_list
sieve-IsQueue_example =
    sieve-IsQueue (Sieve.record_load (Sieve.empty_sieve 4) 1) (1 ∷ []) 2 all one_loaded-IsQueue
      (omega arith)
