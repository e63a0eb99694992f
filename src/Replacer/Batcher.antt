-- ===== src/Replacer/Batcher.antt =====
-- src/cpp/lib/replacer/access_batcher.h: accesses that wait in a slot per thread until a batch of them
-- is applied to the policy.
use tele_path.Prelude.{
  ℕ, zero, suc, ◌<◌, ◌≡◌, List, [], ◌∷◌, ◌++◌, length, ltb, Bool-cases, inl, inr, if◌then◌else◌,
  store, arith,
}

abbrev pub batch_size : ℕ
batch_size = 64

-- The slots, each with the accesses from its first to its last, and the state of the policy.
pub record Batched {ℓ} (P : Type ℓ) : Type ℓ where
  pub slots : ℕ → List ℕ
  pub policy : P

-- `for (FrameId frame : batch) apply(frame)`.
unfoldable pub apply_all {ℓ} : {P : Type ℓ} → (P → ℕ → P) → P → List ℕ → P
apply_all apply p [] = p
apply_all apply p (frame ∷ frames) = apply_all apply (apply p frame) frames

-- DrainCurrentThread, on the thread's slot.
unfoldable pub drain_slot {ℓ} : {P : Type ℓ} → (P → ℕ → P) → ℕ → Batched P → Batched P
unfolding apply_all
drain_slot apply slot s = record {
  slots = store s.slots slot [];
  policy = apply_all apply s.policy (s.slots slot);
}

-- Record. Nothing comes between the slot's latch and the policy's latch.
unfoldable pub record_batched {ℓ} : {P : Type ℓ} → (P → ℕ → P) → ℕ → ℕ → Batched P → Batched P
unfolding apply_all
record_batched apply slot frame s =
    let filled = s.slots slot ++ (frame ∷ []) in
    if ltb (length filled) batch_size
    then record s { slots = store s.slots slot filled }
    else record { slots = store s.slots slot []; policy = apply_all apply s.policy filled }

-- DrainAll, from slot `index` on.
unfoldable pub drain_from {ℓ} : {P : Type ℓ} → (P → ℕ → P) → ℕ → ℕ → Batched P → Batched P
unfolding drain_slot
drain_from apply zero index s = s
drain_from apply (suc count) index s = drain_from apply count (suc index) (drain_slot apply index s)

unfoldable pub drain_all {ℓ} : {P : Type ℓ} → (P → ℕ → P) → ℕ → Batched P → Batched P
unfolding drain_from
drain_all apply slot_count s = drain_from apply slot_count 0 s

-- No slot is full between calls, so the write at `count` is inside the array.
abbrev pub HasRoom {ℓ} : {P : Type ℓ} → Batched P → Type 0
HasRoom s = (slot : ℕ) → length (s.slots slot) < batch_size

drain-HasRoom {ℓ} :
    {P : Type ℓ} (apply : P → ℕ → P) (slot : ℕ) (s : Batched P)
    → HasRoom s
    → HasRoom (drain_slot apply slot s)
unfolding drain_slot
drain-HasRoom apply slot s room k = ground (arith, room k)

drain_from-HasRoom {ℓ} :
    {P : Type ℓ} (apply : P → ℕ → P) (count index : ℕ) (s : Batched P)
    → HasRoom s
    → HasRoom (drain_from apply count index s)
unfolding drain_from
drain_from-HasRoom apply zero index s room = room
drain_from-HasRoom apply (suc count) index s room =
    drain_from-HasRoom apply count (suc index) (drain_slot apply index s)
      (drain-HasRoom apply index s room)

record-HasRoom {ℓ} :
    {P : Type ℓ} (apply : P → ℕ → P) (slot frame : ℕ) (s : Batched P)
    → HasRoom s
    → HasRoom (record_batched apply slot frame s)
unfolding record_batched
record-HasRoom apply slot frame s room k =
    let filled = s.slots slot ++ (frame ∷ []) in
    elim (Bool-cases (ltb (length filled) batch_size)) [
      | inl more ↦ rw more (ground (arith, room k))
      | inr full ↦ rw full (ground (arith, room k))
    ]

-- Record, DrainCurrentThread and DrainAll keep room in every slot.
pub batcher-HasRoom {ℓ} :
    {P : Type ℓ} (apply : P → ℕ → P) (slot frame slot_count : ℕ) (s : Batched P)
    → HasRoom s
    → HasRoom (record_batched apply slot frame s)
      × HasRoom (drain_slot apply slot s)
      × HasRoom (drain_all apply slot_count s)
unfolding drain_all
batcher-HasRoom apply slot frame slot_count s room = (
  record-HasRoom apply slot frame s room,
  drain-HasRoom apply slot s room,
  drain_from-HasRoom apply slot_count 0 s room,
)

-- The same accesses wait, and the policies agree.
abbrev pub Agree {ℓ ℓ'} :
    {P : Type ℓ} {Q : Type ℓ'} → (P → Q → Type 0) → Batched P → Batched Q → Type 0
Agree R s t = ((slot : ℕ) → s.slots slot ≡ t.slots slot) × R (s.policy) (t.policy)

-- What a policy and its specification agree on, they agree on after a batch.
module _ {ℓ ℓ'} {P : Type ℓ} {Q : Type ℓ'} (R : P → Q → Type 0) (apply : P → ℕ → P)
    (spec : Q → ℕ → Q) (step : (p : P) (q : Q) (f : ℕ) → R p q → R (apply p f) (spec q f)) where
  pub apply_all-Agree :
      (p : P) (q : Q) (frames : List ℕ)
      → R p q
      → R (apply_all apply p frames) (apply_all spec q frames)
  unfolding apply_all
  apply_all-Agree p q [] r = r
  apply_all-Agree p q (f ∷ frames) r = apply_all-Agree (apply p f) (spec q f) frames (step p q f r)

  pub drain_slot-Agree :
      (slot : ℕ) (s : Batched P) (t : Batched Q)
      → Agree R s t
      → Agree R (drain_slot apply slot s) (drain_slot spec slot t)
  unfolding drain_slot
  drain_slot-Agree slot s t (same, r) = (
    λ k. ground (arith, same k),
    rw (same slot) (apply_all-Agree (s.policy) (t.policy) (t.slots slot) r),
  )

  pub record_batched-Agree :
      (slot frame : ℕ) (s : Batched P) (t : Batched Q)
      → Agree R s t
      → Agree R (record_batched apply slot frame s) (record_batched spec slot frame t)
  unfolding record_batched
  record_batched-Agree slot frame s t (same, r) =
      let filled = t.slots slot ++ (frame ∷ []) in
      rw (same slot) (elim (Bool-cases (ltb (length filled) batch_size)) [
        | inl more ↦ rw more (λ k. ground (arith, same k), r)
        | inr full ↦
            rw full (λ k. ground (arith, same k), apply_all-Agree (s.policy) (t.policy) filled r)
      ])

  pub drain_from-Agree :
      (count index : ℕ) (s : Batched P) (t : Batched Q)
      → Agree R s t
      → Agree R (drain_from apply count index s) (drain_from spec count index t)
  unfolding drain_from
  drain_from-Agree zero index s t a = a
  drain_from-Agree (suc count) index s t a =
      drain_from-Agree count (suc index) (drain_slot apply index s) (drain_slot spec index t)
        (drain_slot-Agree index s t a)
