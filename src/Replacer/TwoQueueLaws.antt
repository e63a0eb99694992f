-- ===== src/Replacer/TwoQueueLaws.antt =====
-- The replacer of src/cpp/lib/replacer/two_queue_replacer.cc against its promise: two sequences with no
-- frame in both.
use tele_path.Prelude.{
  ℕ, ◌≤◌, ◌<◌, ◌≡◌, refl, ◌∙◌, Bool, true, false, Option, List, [], ◌∷◌, if◌then◌else◌, leb, arith,
  Bool-cases, inl, inr,
}
use tele_path.Common.Types.{invalid_frame_id}
use tele_path.Common.Chains
use tele_path.Common.Chains.{elem, find}
use tele_path.Replacer.FrameList.{contains, push_front}
use tele_path.Replacer.Recency
use tele_path.Replacer.Recency.{Represents}
use tele_path.Replacer.Sequence
use tele_path.Replacer.Sequence.{back_first}
use tele_path.Replacer.Batcher
use tele_path.Replacer.Batcher.{Batched, record_batched, drain_slot, drain_all, Agree}
use tele_path.Replacer.Waiting.{to_front}
use tele_path.Replacer.LruLaws.{drop-Represents}
use tele_path.Replacer.TwoQueue.{
  first_of, Queues, TwoQueue, touch, untrack, record_access, record_load, victim, remove,
}

-- The specification.
pub record Order : Type 0 where
  pub history : List ℕ
  pub cache : List ℕ

-- A second access moves a frame from the history to the cache.
abbrev pub touch_order : Order → ℕ → Order
touch_order o frame =
    if elem frame o.history
    then record { history = Chains.remove frame o.history; cache = frame ∷ o.cache }
    else if elem frame o.cache
    then record o { cache = to_front o.cache frame }
    else o

abbrev pub load_order : ℕ → ℕ → Batched Order → ℕ → Batched Order
load_order capacity slot s frame =
    let drained = drain_slot touch_order slot s in
    if leb capacity frame then s else record drained {
      policy = record {
        history = to_front drained.policy.history frame;
        cache = Chains.remove frame drained.policy.cache;
      };
    }

abbrev pub remove_order : ℕ → ℕ → Batched Order → ℕ → Batched Order
remove_order capacity slot s frame =
    let drained = drain_slot touch_order slot s in
    if leb capacity frame then s else record drained {
      policy = record {
        history = Chains.remove frame drained.policy.history;
        cache = Chains.remove frame drained.policy.cache;
      };
    }

-- The history is searched first.
abbrev pub victim_order : (ℕ → Bool) → Order → Option ℕ
victim_order evictable o =
    first_of (find evictable (back_first o.history [])) (find evictable (back_first o.cache []))

pub record IsSplit (capacity : ℕ) (q : Queues) (o : Order) : Type 0 where
  pub history : Represents capacity q.history o.history
  pub cache : Represents capacity q.cache o.cache
  pub apart : (f : ℕ) → elem f o.history ≡ true → elem f o.cache ≡ false

module _ (capacity slot_count : ℕ) (small : capacity ≤ invalid_frame_id) where
  touch-IsSplit :
      (q : Queues) (o : Order) (frame : ℕ)
      → IsSplit capacity q o
      → IsSplit capacity (touch capacity slot_count q frame) (touch_order o frame)
  unfolding touch contains
  touch-IsSplit q o frame r = elim (Bool-cases (elem frame o.history)) [
    | inl m ↦
        let h = r.history in
        let below =
          Recency.member-lt capacity small q.history.front_to_back q.history.back_to_front
            q.history.back invalid_frame_id q.history.front o.history frame h.links m in
        let room : leb capacity frame ≡ false = ground arith in
        let test : q.history.linked frame ≡ true = h.member frame ∙ m in
        rw (m, room, test)
          (record {
            history = Sequence.unlink-Represents capacity small q.history o.history frame h m;
            cache =
                Sequence.push_front-Represents capacity small q.cache o.cache frame r.cache
                  (r.apart frame m) below;
            apart = λ f n. ground (
              arith,
              r.apart f,
              Chains.elem-remove_self frame o.history,
              Chains.elem-remove_ne frame f o.history,
            );
          })
    | inr out ↦
        let past : q.history.linked frame ≡ false = r.history.member frame ∙ out in
        elim (Bool-cases (elem frame o.cache)) [
          | inl m ↦
              let c = r.cache in
              let below =
                Recency.member-lt capacity small q.cache.front_to_back q.cache.back_to_front
                  q.cache.back invalid_frame_id q.cache.front o.cache frame c.links m in
              let room : leb capacity frame ≡ false = ground arith in
              let test : q.cache.linked frame ≡ true = c.member frame ∙ m in
              rw (out, m, room, past, test)
                (record {
                  history = r.history;
                  cache =
                      Sequence.move_to_front-Represents capacity small q.cache o.cache frame c m;
                  apart = λ f n. ground (arith, r.apart f, Chains.elem-remove_ne frame f o.cache);
                })
          | inr away ↦
              let test : q.cache.linked frame ≡ false = r.cache.member frame ∙ away in
              rw (out, away, past, test)
                (elim (Bool-cases (leb capacity frame)) [
                  | inl far ↦ rw far r
                  | inr near ↦ rw near r
                ])
        ]
  ]

  untrack-IsSplit :
      (q : Queues) (o : Order) (frame : ℕ)
      → IsSplit capacity q o
      → IsSplit capacity
          (untrack q frame)
          (record { history = Chains.remove frame o.history; cache = Chains.remove frame o.cache })
  unfolding untrack
  untrack-IsSplit q o frame r = record {
    history = drop-Represents capacity slot_count small q.history o.history frame r.history;
    cache = drop-Represents capacity slot_count small q.cache o.cache frame r.cache;
    apart = λ f m. ground (
      arith,
      r.apart f,
      Chains.elem-remove_self frame o.history,
      Chains.elem-remove_ne frame f o.history,
      Chains.elem-remove_self frame o.cache,
      Chains.elem-remove_ne frame f o.cache,
    );
  }

  load-IsSplit :
      (q : Queues) (o : Order) (frame : ℕ)
      → frame < capacity
      → IsSplit capacity q o
      → IsSplit capacity
          (record (untrack q frame) { history = push_front ((untrack q frame).history) frame })
          (record { history = to_front o.history frame; cache = Chains.remove frame o.cache })
  load-IsSplit q o frame lt r =
      let u = untrack-IsSplit q o frame r in
      record {
        history =
            Sequence.push_front-Represents capacity small ((untrack q frame).history)
              (Chains.remove frame o.history) frame u.history
              (Chains.elem-remove_self frame o.history) lt;
        cache = u.cache;
        apart = λ f m. ground (arith, u.apart f, Chains.elem-remove_self frame o.cache);
      }

  -- The replacer and the two sequences agree.
  abbrev pub AreSplit : TwoQueue → Batched Order → Type 0
  AreSplit s o = Agree (IsSplit capacity) s o

  -- Every operation of the replacer does to the two sequences what its specification says, and keeps
  -- them apart; Victim gives the last evictable frame of the history, or else of the cache, once every
  -- waiting access has been applied. The capacity is at most the invalid frame id.
  pub two_queue-AreSplit :
      (slot frame : ℕ) (evictable : ℕ → Bool) (s : TwoQueue) (o : Batched Order)
      → AreSplit s o
      → AreSplit
          (record_access capacity slot_count slot s frame)
          (record_batched touch_order slot frame o)
        × AreSplit (record_load capacity slot_count slot s frame) (load_order capacity slot o frame)
        × AreSplit (remove capacity slot_count slot s frame) (remove_order capacity slot o frame)
        × AreSplit ((victim capacity slot_count s evictable).0) (drain_all touch_order slot_count o)
        × ((victim capacity slot_count s evictable).1
            ≡ victim_order evictable ((drain_all touch_order slot_count o).policy))
  unfolding record_access record_load remove victim drain_all
  two_queue-AreSplit slot frame evictable s o a =
      let drained =
        Batcher.drain_slot-Agree (IsSplit capacity) (touch capacity slot_count) touch_order
          touch-IsSplit slot s o a in
      let all =
        Batcher.drain_from-Agree (IsSplit capacity) (touch capacity slot_count) touch_order
          touch-IsSplit slot_count 0 s o a in
      let q = (drain_slot (touch capacity slot_count) slot s).policy in
      let p = (drain_slot touch_order slot o).policy in
      let from_history = Sequence.pick_from-find capacity small _ _ evictable (all.1.history) in
      let from_cache = Sequence.pick_from-find capacity small _ _ evictable (all.1.cache) in
      (
        Batcher.record_batched-Agree (IsSplit capacity) (touch capacity slot_count) touch_order
            touch-IsSplit slot frame s o a,
        elim (Bool-cases (leb capacity frame)) [
          | inl out ↦ rw out a
          | inr room ↦ rw room (drained.0, load-IsSplit q p frame (ground arith) (drained.1))
        ],
        elim (Bool-cases (leb capacity frame)) [
          | inl out ↦ rw out a
          | inr room ↦ rw room (drained.0, untrack-IsSplit q p frame (drained.1))
        ],
        all,
        rw (from_history, from_cache) refl,
      )
