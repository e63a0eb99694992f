-- ===== src/Replacer/Lru.antt =====
-- src/cpp/lib/replacer/lru_replacer.cc: least recently used. Each operation runs under the policy's
-- latch; `slot` is the slot of the calling thread.
use tele_path.Prelude.{ℕ, Bool, Option, [], ◌&&◌, if◌then◌else◌, ltb, leb}
use tele_path.Replacer.FrameList.{
  FrameList, empty_list, contains, push_front, unlink, move_to_front, pick_from,
}
use tele_path.Replacer.Batcher.{Batched, record_batched, drain_slot, drain_all}

-- The slots of the batcher, and the recency list. The capacity and the number of slots are fixed.
abbrev pub Lru : Type 0
Lru = Batched FrameList

unfoldable pub empty_lru : Lru
unfolding empty_list
empty_lru = record { slots = λ slot. []; policy = empty_list }

module _ (capacity slot_count : ℕ) where
  unfoldable pub touch : FrameList → ℕ → FrameList
  unfolding contains move_to_front
  touch l frame = if ltb frame capacity && contains l frame then move_to_front l frame else l

  unfoldable pub record_access : ℕ → Lru → ℕ → Lru
  unfolding touch record_batched
  record_access slot lru frame = record_batched touch slot frame lru

  unfoldable pub record_load : ℕ → Lru → ℕ → Lru
  unfolding touch drain_slot contains move_to_front push_front
  record_load slot lru frame =
      let drained = drain_slot touch slot lru in
      let l = drained.policy in
      if leb capacity frame then lru else record drained {
        policy = if contains l frame then move_to_front l frame else push_front l frame;
      }

  unfoldable pub victim : Lru → (ℕ → Bool) → Lru × Option ℕ
  unfolding touch drain_all pick_from
  victim lru evictable =
      let drained = drain_all touch slot_count lru in
      (drained, pick_from drained.policy capacity evictable)

  unfoldable pub remove : ℕ → Lru → ℕ → Lru
  unfolding touch drain_slot contains unlink
  remove slot lru frame =
      let drained = drain_slot touch slot lru in
      let l = drained.policy in
      if leb capacity frame
      then lru
      else record drained { policy = if contains l frame then unlink l frame else l }
