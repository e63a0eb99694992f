-- ===== src/Replacer/LruLaws.antt =====
-- The replacer of src/cpp/lib/replacer/lru_replacer.cc against its promise: the frames in the order of
-- their last recorded access, the latest first.
use tele_path.Prelude.{
  ℕ, ◌≤◌, ◌<◌, ◌≡◌, ◌∙◌, subst, Bool, true, false, List, [], ◌&&◌, if◌then◌else◌, ltb, leb, arith,
  Bool-cases, inl, inr,
}
use tele_path.Common.Types.{invalid_frame_id}
use tele_path.Common.Chains
use tele_path.Common.Chains.{elem, find}
use tele_path.Replacer.FrameList.{FrameList, contains, push_front, unlink, move_to_front}
use tele_path.Replacer.Recency
use tele_path.Replacer.Recency.{Represents}
use tele_path.Replacer.Sequence
use tele_path.Replacer.Sequence.{back_first}
use tele_path.Replacer.Batcher
use tele_path.Replacer.Batcher.{Batched, record_batched, drain_slot, drain_all, Agree}
use tele_path.Replacer.Waiting.{
  Order, to_front, touch_order, recent, settle, settled, access_order, load_order, remove_order,
  recent-access_order, drain_slot-settle, record_batched-access_order, drain_all-settled,
}
use tele_path.Replacer.Lru.{Lru, touch, record_access, record_load, victim, remove}

module _ (capacity slot_count : ℕ) (small : capacity ≤ invalid_frame_id) where
  touch-Represents :
      (l : FrameList) (xs : List ℕ) (frame : ℕ)
      → Represents capacity l xs
      → Represents capacity (touch capacity slot_count l frame) (touch_order xs frame)
  unfolding touch contains
  touch-Represents l xs frame r = elim (Bool-cases (elem frame xs)) [
    | inl m ↦
        let below =
          Recency.member-lt capacity small l.front_to_back l.back_to_front l.back invalid_frame_id
            l.front xs frame r.links m in
        let test : (ltb frame capacity && l.linked frame) ≡ true = ground (arith, r.member frame) in
        rw (m, test) (Sequence.move_to_front-Represents capacity small l xs frame r m)
    | inr out ↦
        let test : (ltb frame capacity && l.linked frame) ≡ false =
          ground (arith, r.member frame) in
        rw (out, test) r
  ]

  -- The replacer and the order agree.
  abbrev pub IsOrdered : Lru → Order → Type 0
  IsOrdered lru o = Agree (Represents capacity) lru o

  settle-IsOrdered :
      (slot : ℕ) (lru : Lru) (o : Order)
      → IsOrdered lru o
      → IsOrdered (drain_slot (touch capacity slot_count) slot lru) (settle slot o)
  settle-IsOrdered slot lru o a =
      subst (IsOrdered (drain_slot (touch capacity slot_count) slot lru)) (drain_slot-settle slot o)
        (Batcher.drain_slot-Agree (Represents capacity) (touch capacity slot_count) touch_order
          touch-Represents slot lru o a)

  settled-IsOrdered :
      (lru : Lru) (o : Order)
      → IsOrdered lru o
      → IsOrdered (drain_all (touch capacity slot_count) slot_count lru) (settled slot_count o)
  unfolding drain_all
  settled-IsOrdered lru o a =
      subst (IsOrdered (drain_all (touch capacity slot_count) slot_count lru))
        (drain_all-settled slot_count o)
        (Batcher.drain_from-Agree (Represents capacity) (touch capacity slot_count) touch_order
          touch-Represents slot_count 0 lru o a)

  load-Represents :
      (l : FrameList) (xs : List ℕ) (frame : ℕ)
      → frame < capacity
      → Represents capacity l xs
      → Represents capacity
          (if contains l frame then move_to_front l frame else push_front l frame)
          (to_front xs frame)
  unfolding contains
  load-Represents l xs frame lt r = elim (Bool-cases (elem frame xs)) [
    | inl m ↦
        let test : l.linked frame ≡ true = r.member frame ∙ m in
        rw test (Sequence.move_to_front-Represents capacity small l xs frame r m)
    | inr out ↦
        let test : l.linked frame ≡ false = r.member frame ∙ out in
        rw (test, Chains.remove_absent frame xs out)
          (Sequence.push_front-Represents capacity small l xs frame r out lt)
  ]

  pub drop-Represents :
      (l : FrameList) (xs : List ℕ) (frame : ℕ)
      → Represents capacity l xs
      → Represents capacity
          (if contains l frame then unlink l frame else l)
          (Chains.remove frame xs)
  unfolding contains
  drop-Represents l xs frame r = elim (Bool-cases (elem frame xs)) [
    | inl m ↦
        let test : l.linked frame ≡ true = r.member frame ∙ m in
        rw test (Sequence.unlink-Represents capacity small l xs frame r m)
    | inr out ↦
        let test : l.linked frame ≡ false = r.member frame ∙ out in
        rw (test, Chains.remove_absent frame xs out) r
  ]

  load-IsOrdered :
      (slot frame : ℕ) (lru : Lru) (o : Order)
      → IsOrdered lru o
      → IsOrdered
          (record_load capacity slot_count slot lru frame)
          (load_order capacity slot o frame)
  unfolding record_load
  load-IsOrdered slot frame lru o a =
      let calm = settle-IsOrdered slot lru o a in
      elim (Bool-cases (leb capacity frame)) [
        | inl out ↦ rw out a
        | inr room ↦ rw room (
          calm.0,
          load-Represents ((drain_slot (touch capacity slot_count) slot lru).policy)
              (settle slot o).policy frame (ground arith) (calm.1),
        )
      ]

  remove-IsOrdered :
      (slot frame : ℕ) (lru : Lru) (o : Order)
      → IsOrdered lru o
      → IsOrdered (remove capacity slot_count slot lru frame) (remove_order capacity slot o frame)
  unfolding remove
  remove-IsOrdered slot frame lru o a =
      let calm = settle-IsOrdered slot lru o a in
      elim (Bool-cases (leb capacity frame)) [
        | inl out ↦ rw out a
        | inr room ↦ rw room (
          calm.0,
          drop-Represents ((drain_slot (touch capacity slot_count) slot lru).policy)
              (settle slot o).policy frame (calm.1),
        )
      ]

  -- The capacity is at most the invalid frame id. A replacer agrees with the accesses that wait, a
  -- slot each thread, and the order of the others, the latest first. An access waits in its thread's
  -- slot until it fills the slot, and then all of the slot come to the front, one after the other, but
  -- those to frames that are in no order; either way it is the latest for its thread. A load and a
  -- removal first do so with the accesses of their slot; then a load brings its frame to the front, and
  -- a removal takes it out; a frame from the capacity on changes nothing. Victim does so with the
  -- accesses of every slot, from the first on, and gives the evictable frame that is then last.
  pub lru-IsOrdered :
      (slot frame : ℕ) (evictable : ℕ → Bool) (lru : Lru) (o : Order)
      → IsOrdered lru o
      → IsOrdered (record_access capacity slot_count slot lru frame) (access_order slot o frame)
        × (recent slot (access_order slot o frame) ≡ touch_order (recent slot o) frame)
        × IsOrdered
            (record_load capacity slot_count slot lru frame)
            (load_order capacity slot o frame)
        × IsOrdered (remove capacity slot_count slot lru frame) (remove_order capacity slot o frame)
        × IsOrdered ((victim capacity slot_count lru evictable).0) (settled slot_count o)
        × ((victim capacity slot_count lru evictable).1
            ≡ find evictable (back_first ((settled slot_count o).policy) []))
  unfolding record_access victim
  lru-IsOrdered slot frame evictable lru o a =
      let calm = settled-IsOrdered lru o a in
      (
        subst (IsOrdered (record_batched (touch capacity slot_count) slot frame lru))
            (record_batched-access_order slot frame o)
            (Batcher.record_batched-Agree (Represents capacity) (touch capacity slot_count)
              touch_order touch-Represents slot frame lru o a),
        recent-access_order slot o frame,
        load-IsOrdered slot frame lru o a,
        remove-IsOrdered slot frame lru o a,
        calm,
        Sequence.pick_from-find capacity small _ _ evictable calm.1,
      )
