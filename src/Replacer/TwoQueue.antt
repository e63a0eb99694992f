-- ===== src/Replacer/TwoQueue.antt =====
-- src/cpp/lib/replacer/two_queue_replacer.cc: a history of frames that were loaded, and a cache of
-- frames that were accessed again. `slot` is the slot of the calling thread.
use tele_path.Prelude.{ℕ, Bool, Option, none, some, [], if◌then◌else◌, leb}
use tele_path.Replacer.FrameList.{
  FrameList, empty_list, contains, push_front, unlink, move_to_front, pick_from,
}
use tele_path.Replacer.Batcher.{Batched, record_batched, drain_slot, drain_all}

pub record Queues : Type 0 where
  pub history : FrameList
  pub cache : FrameList

abbrev pub TwoQueue : Type 0
TwoQueue = Batched Queues

unfoldable pub empty_two_queue : TwoQueue
unfolding empty_list
empty_two_queue = record {
  slots = λ slot. [];
  policy = record { history = empty_list; cache = empty_list };
}

unfoldable pub untrack : Queues → ℕ → Queues
unfolding contains unlink
untrack q frame = record {
  history = if contains q.history frame then unlink q.history frame else q.history;
  cache = if contains q.cache frame then unlink q.cache frame else q.cache;
}

-- `PickFrom(...) || PickFrom(...)`.
abbrev pub first_of : Option ℕ → Option ℕ → Option ℕ
first_of none other = other
first_of (some frame) other = some frame

module _ (capacity slot_count : ℕ) where
  unfoldable pub touch : Queues → ℕ → Queues
  unfolding contains unlink push_front move_to_front
  touch q frame =
      if leb capacity frame
      then q
      else if contains q.history frame
      then record { history = unlink q.history frame; cache = push_front q.cache frame }
      else if contains q.cache frame
      then record q { cache = move_to_front q.cache frame }
      else q

  unfoldable pub record_access : ℕ → TwoQueue → ℕ → TwoQueue
  unfolding touch record_batched
  record_access slot s frame = record_batched touch slot frame s

  unfoldable pub record_load : ℕ → TwoQueue → ℕ → TwoQueue
  unfolding touch drain_slot untrack push_front
  record_load slot s frame =
      let drained = drain_slot touch slot s in
      let q = untrack drained.policy frame in
      if leb capacity frame
      then s
      else record drained { policy = record q { history = push_front q.history frame } }

  unfoldable pub victim : TwoQueue → (ℕ → Bool) → TwoQueue × Option ℕ
  unfolding touch drain_all pick_from
  victim s evictable =
      let drained = drain_all touch slot_count s in
      let q = drained.policy in
      (
        drained,
        first_of (pick_from q.history capacity evictable) (pick_from q.cache capacity evictable),
      )

  unfoldable pub remove : ℕ → TwoQueue → ℕ → TwoQueue
  unfolding touch drain_slot untrack
  remove slot s frame =
      let drained = drain_slot touch slot s in
      if leb capacity frame then s else record drained { policy = untrack drained.policy frame }
