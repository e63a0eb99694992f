-- ===== src/Replacer/SieveQueue.antt =====
-- The queue of src/cpp/lib/replacer/sieve_replacer.cc under loads and removals.
use tele_path.Prelude.{
  ℕ, ◌+◌, ◌≤◌, ◌<◌, ◌≡◌, ◌≢◌, ◌⊎◌, inl, inr, refl, subst, sym, ap, ◌∙◌, true, false, List, [], ◌∷◌,
  length, leb, store, arith, Bool-cases, ℕ_discrete,
}
use tele_path.Common.Types.{invalid_frame_id}
use tele_path.Common.Chains
use tele_path.Common.Chains.{elem, Distinct}
use tele_path.Replacer.FrameList.{contains}
use tele_path.Replacer.Recency
use tele_path.Replacer.Recency.{Represents}
use tele_path.Replacer.Sequence
use tele_path.Replacer.Waiting.{to_front}
use tele_path.Replacer.Sieve.{Sieve, unlink, push_newest, record_load, remove, forget, next_of}

-- The links stand for the sequence, the newest first; the count is its length, and the hand is at
-- one of its frames or at none.
abbrev pub IsQueue : List ℕ → Sieve → Type 0
IsQueue xs s =
    (s.capacity ≤ invalid_frame_id)
    × Represents s.capacity s.links xs
    × (s.linked_count ≡ length xs)
    × ((s.hand ≡ invalid_frame_id) ⊎ (elem s.hand xs ≡ true))

length-remove :
    (f : ℕ) (xs : List ℕ)
    → Distinct xs
    → elem f xs ≡ true
    → length (Chains.remove f xs) + 1 ≡ length xs
length-remove f [] d m = absurd (ground arith)
length-remove f (x ∷ xs) d m = ground (arith, length-remove f xs d.1, Chains.remove_absent f xs)

newer_ne :
    (cap : ℕ) (next prev : ℕ → ℕ) (last before current f : ℕ) (xs : List ℕ)
    → Recency.IsLinked cap next prev last before current xs
    → Distinct xs
    → elem before xs ≡ false
    → elem f xs ≡ true
    → prev f ≢ f
newer_ne cap next prev last before current f [] c d out m = absurd (ground arith)
newer_ne cap next prev last before current f (x ∷ xs) c d out m = elim (ℕ_discrete f x) [
  | yes e ↦ λ same. ground (arith, ap prev e, c.2)
  | no ne ↦ newer_ne cap next prev last x (next x) f xs c.3 d.1 d.0 (ground arith)
]

newer-elem :
    (s : Sieve) (xs : List ℕ) (f : ℕ)
    → IsQueue xs s
    → elem f xs ≡ true
    → (s.links.back_to_front f ≡ invalid_frame_id) ⊎ (elem (s.links.back_to_front f) xs ≡ true)
newer-elem s [] f q m = absurd (ground arith)
newer-elem s (x ∷ xs) f (small, r, n, h) m = elim (ℕ_discrete f (s.links.front)) [
  | yes e ↦ inl (ap (s.links.back_to_front) (e ∙ r.links.0) ∙ r.links.2)
  | no ne ↦ inr (
      Recency.prev-elem s.capacity small s.links.front_to_back s.links.back_to_front s.links.back
        invalid_frame_id s.links.front (x ∷ xs) f r.links m ne)
]

pub oldest-elem :
    (s : Sieve) (xs : List ℕ)
    → IsQueue xs s
    → (s.links.back ≡ invalid_frame_id) ⊎ (elem s.links.back xs ≡ true)
oldest-elem s [] (small, r, n, h) = inl (r.links.1)
oldest-elem s (x ∷ xs) (small, r, n, h) = inr (
    Sequence.last-elem s.capacity small s.links.front_to_back s.links.back_to_front s.links.back
      invalid_frame_id s.links.front x xs r.links)

pub next_of-elem :
    (s : Sieve) (xs : List ℕ) (f : ℕ)
    → IsQueue xs s
    → elem f xs ≡ true
    → (next_of s f ≡ invalid_frame_id) ⊎ (elem (next_of s f) xs ≡ true)
unfolding next_of
next_of-elem s xs f q m = ground (arith, newer-elem s xs f q m, oldest-elem s xs q)

unlink-IsQueue :
    (s : Sieve) (xs : List ℕ) (f : ℕ)
    → IsQueue xs s
    → elem f xs ≡ true
    → IsQueue (Chains.remove f xs) (unlink s f)
unfolding unlink
unlink-IsQueue s xs f (small, r, n, h) m =
    let absent =
      Sequence.none_absent s.capacity small s.links.front_to_back s.links.back_to_front s.links.back
        invalid_frame_id s.links.front xs r.links in
    let apart =
      newer_ne s.capacity s.links.front_to_back s.links.back_to_front s.links.back invalid_frame_id
        s.links.front f xs r.links r.distinct absent m in
    (
      small,
      Sequence.unlink-Represents s.capacity small s.links xs f r m,
      omega (arith, length-remove f xs r.distinct m),
      ground (
        arith,
        newer-elem s xs f (small, r, n, h) m,
        Chains.elem-remove_ne f (s.links.back_to_front f) xs,
        Chains.elem-remove_ne f (s.hand) xs,
      ),
    )

push-IsQueue :
    (s : Sieve) (xs : List ℕ) (f : ℕ)
    → IsQueue xs s
    → elem f xs ≡ false
    → f < s.capacity
    → IsQueue (f ∷ xs) (push_newest s f)
unfolding push_newest
push-IsQueue s xs f (small, r, n, h) out lt = (
  small,
  Sequence.push_front-Represents s.capacity small s.links xs f r out lt,
  omega arith,
  ground arith,
)

forget-IsQueue :
    (s : Sieve) (xs : List ℕ) (f : ℕ) → IsQueue xs s → IsQueue (Chains.remove f xs) (forget s f)
unfolding forget contains
forget-IsQueue s xs f q = elim (Bool-cases (elem f xs)) [
  | inl m ↦
      let test : s.links.linked f ≡ true = q.1.member f ∙ m in rw test (unlink-IsQueue s xs f q m)
  | inr out ↦
      let test : s.links.linked f ≡ false = q.1.member f ∙ out in
      rw (test, Chains.remove_absent f xs out) q
]

forget_capacity : (s : Sieve) (f : ℕ) → (forget s f).capacity ≡ s.capacity
unfolding forget unlink
forget_capacity s f = elim (Bool-cases (contains s.links f)) [
  | inl m ↦ rw m refl
  | inr out ↦ rw out refl
]

pub load-IsQueue :
    (s : Sieve) (xs : List ℕ) (f : ℕ)
    → IsQueue xs s
    → f < s.capacity
    → IsQueue (to_front xs f) (record_load s f)
unfolding record_load
load-IsQueue s xs f q lt =
    let near : leb s.capacity f ≡ false = ground arith in
    let fresh : Sieve = record (forget s f) { visited = store ((forget s f).visited) f false } in
    let loads : record_load s f ≡ push_newest fresh f = rw near refl in
    subst (IsQueue (to_front xs f)) (sym loads) (
      push-IsQueue fresh (Chains.remove f xs) f (forget-IsQueue s xs f q)
        (Chains.elem-remove_self f xs) (rw (forget_capacity s f) lt))

pub remove-IsQueue :
    (s : Sieve) (xs : List ℕ) (f : ℕ)
    → IsQueue xs s
    → f < s.capacity
    → IsQueue (Chains.remove f xs) (remove s f)
unfolding remove
remove-IsQueue s xs f q lt =
    let near : leb s.capacity f ≡ false = ground arith in rw near (forget-IsQueue s xs f q)
