-- ===== src/Replacer/Waiting.antt =====
-- What the replacer of src/cpp/lib/replacer/lru_replacer.cc promises, apart from its list and its
-- batcher: frames in the order of their last access, and accesses that wait in a slot per thread.
use tele_path.Prelude.{
  ℕ, zero, suc, ◌+◌, ◌≡◌, refl, ap, ◌∙◌, List, [], ◌∷◌, ◌++◌, length, length-append, Bool-cases,
  inl, inr, store_self, if◌then◌else◌, ltb, leb, store, arith,
}
use tele_path.Common.Chains
use tele_path.Common.Chains.{elem}
use tele_path.Replacer.Batcher.{
  Batched, batch_size, apply_all, drain_slot, record_batched, drain_from, drain_all,
}

-- The accesses that wait, a slot each thread, and the order, the latest first.
abbrev pub Order : Type 0
Order = Batched (List ℕ)

abbrev pub to_front : List ℕ → ℕ → List ℕ
to_front xs frame = frame ∷ Chains.remove frame xs

-- An access to a frame that is in no order changes nothing.
abbrev pub touch_order : List ℕ → ℕ → List ℕ
touch_order xs frame = if elem frame xs then to_front xs frame else xs

-- The order after some accesses.
abbrev pub touches : List ℕ → List ℕ → List ℕ
touches xs [] = xs
touches xs (frame ∷ frames) = touches (touch_order xs frame) frames

-- The order as a thread sees it that counts the accesses in its slot.
abbrev pub recent : ℕ → Order → List ℕ
recent slot o = touches o.policy (o.slots slot)

-- No access of the slot waits any more.
abbrev pub settle : ℕ → Order → Order
settle slot o = record { slots = store o.slots slot []; policy = recent slot o }

-- No access of the slots below `count` waits any more; the lower slot comes first.
abbrev pub settled : ℕ → Order → Order
settled zero o = o
settled (suc count) o = settle count (settled count o)

-- An access waits until it fills the slot; then none of the slot waits.
abbrev pub access_order : ℕ → Order → ℕ → Order
access_order slot o frame =
    let filled = o.slots slot ++ (frame ∷ []) in
    if ltb (length (o.slots slot) + 1) batch_size
    then record o { slots = store o.slots slot filled }
    else record { slots = store o.slots slot []; policy = touches o.policy filled }

abbrev pub load_order : ℕ → ℕ → Order → ℕ → Order
load_order capacity slot o frame =
    let calm = settle slot o in
    if leb capacity frame then o else record calm { policy = to_front calm.policy frame }

abbrev pub remove_order : ℕ → ℕ → Order → ℕ → Order
remove_order capacity slot o frame =
    let calm = settle slot o in
    if leb capacity frame then o else record calm { policy = Chains.remove frame calm.policy }

touches-append :
    (xs frames : List ℕ) (frame : ℕ)
    → touches xs (frames ++ (frame ∷ [])) ≡ touch_order (touches xs frames) frame
touches-append xs [] frame = refl
touches-append xs (f ∷ frames) frame = touches-append (touch_order xs f) frames frame

-- Waiting or not, an access is the latest for its thread.
pub recent-access_order :
    (slot : ℕ) (o : Order) (frame : ℕ)
    → recent slot (access_order slot o frame) ≡ touch_order (recent slot o) frame
recent-access_order slot o frame =
    let filled = o.slots slot ++ (frame ∷ []) in
    let last = touches-append o.policy (o.slots slot) frame in
    elim (Bool-cases (ltb (length (o.slots slot) + 1) batch_size)) [
      | inl room ↦ rw room (ap (touches o.policy) (store_self o.slots slot filled) ∙ last)
      | inr full ↦
          rw full (ap (touches (touches o.policy filled)) (store_self o.slots slot []) ∙ last)
    ]

apply_all-touches : (xs frames : List ℕ) → apply_all touch_order xs frames ≡ touches xs frames
unfolding apply_all
apply_all-touches xs [] = refl
apply_all-touches xs (frame ∷ frames) = apply_all-touches (touch_order xs frame) frames

pub drain_slot-settle : (slot : ℕ) (o : Order) → drain_slot touch_order slot o ≡ settle slot o
unfolding drain_slot
drain_slot-settle slot o =
    ap (λ xs. record { slots = store o.slots slot []; policy = xs })
      (apply_all-touches o.policy (o.slots slot))

pub record_batched-access_order :
    (slot frame : ℕ) (o : Order)
    → record_batched touch_order slot frame o ≡ access_order slot o frame
unfolding record_batched
record_batched-access_order slot frame o =
    let filled = o.slots slot ++ (frame ∷ []) in
    let waits : Order = record o { slots = store o.slots slot filled } in
    let applied : List ℕ → Order = λ xs. record { slots = store o.slots slot []; policy = xs } in
    ap (λ n. if ltb n batch_size then waits else applied (apply_all touch_order o.policy filled))
      (length-append (o.slots slot) (frame ∷ []))
    ∙ ap (λ xs. if ltb (length (o.slots slot) + 1) batch_size then waits else applied xs)
        (apply_all-touches o.policy filled)

drain_from-last :
    (count index : ℕ) (o : Order)
    → drain_from touch_order (suc count) index o
      ≡ drain_slot touch_order (index + count) (drain_from touch_order count index o)
unfolding drain_from
drain_from-last zero index o = ap (λ k. drain_slot touch_order k o) (omega arith)
drain_from-last (suc count) index o =
    drain_from-last count (suc index) (drain_slot touch_order index o)
    ∙ ap
        (λ k.
          drain_slot touch_order k
            (drain_from touch_order count (suc index) (drain_slot touch_order index o)))
        (omega arith)

pub drain_all-settled : (count : ℕ) (o : Order) → drain_all touch_order count o ≡ settled count o
unfolding drain_all drain_from
drain_all-settled zero o = refl
drain_all-settled (suc count) o =
    drain_from-last count 0 o
    ∙ ap (λ k. drain_slot touch_order k (drain_from touch_order count 0 o)) (omega arith)
    ∙ ap (drain_slot touch_order count) (drain_all-settled count o)
    ∙ drain_slot-settle count (settled count o)
