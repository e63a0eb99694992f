-- ===== src/Replacer/SieveTurns.antt =====
-- How far the hand of src/cpp/lib/replacer/sieve_replacer.cc goes round the queue, and which marks it
-- clears on its way.
use tele_path.Prelude.{
  ℕ, zero, suc, ◌+◌, ◌<◌, ◌≡◌, ◌⊎◌, inl, inr, refl, subst, ap, ◌∙◌, Bool, true, false, ◌==◌, Option,
  none, some, List, [], ◌∷◌, if◌then◌else◌, store, arith, Bool-cases, ℕ_discrete,
}
use tele_path.Common.Types.{invalid_frame_id}
use tele_path.Common.Chains.{elem}
use tele_path.Replacer.Recency.{IsLinked, Represents}
use tele_path.Replacer.Sieve.{Sieve, next_of, scan}

-- The frame before the first `f` of a sequence that comes after `before`.
abbrev pub newer_in : ℕ → ℕ → List ℕ → ℕ
newer_in before f [] = before
newer_in before f (x ∷ xs) = if f == x then before else newer_in x f xs

abbrev pub last_of : ℕ → List ℕ → ℕ
last_of before [] = before
last_of before (x ∷ xs) = last_of x xs

-- The next newer frame of a sequence, the newest first, and the oldest after the newest.
abbrev pub next_in : List ℕ → ℕ → ℕ
next_in xs f =
    if newer_in invalid_frame_id f xs == invalid_frame_id
    then last_of invalid_frame_id xs
    else newer_in invalid_frame_id f xs

-- Where the hand starts: at the oldest frame, when it is at none.
abbrev pub start_in : List ℕ → ℕ → ℕ
start_in xs hand = if hand == invalid_frame_id then last_of invalid_frame_id xs else hand

-- Where the hand is after `n` steps.
abbrev pub walked : (ℕ → ℕ) → ℕ → ℕ → ℕ
walked next zero start = start
walked next (suc n) start = walked next n (next start)

-- How often the hand is at frame `j` in its first `n` steps.
abbrev pub passes : (ℕ → ℕ) → ℕ → ℕ → ℕ → ℕ
passes next zero start j = 0
passes next (suc n) start j = (if j == start then 1 else 0) + passes next n (next start) j

abbrev pub bit : Bool → ℕ
bit b = if b then 1 else 0

-- After `n` steps that took nothing the hand took the frame that it was at, and is at the next one, or
-- stays because it had no step left or the queue is empty.
abbrev pub Stops : (ℕ → ℕ) → ℕ → ℕ → ℕ → ℕ → Option ℕ → Type 0
Stops next scans start n hand none =
    (hand ≡ walked next n start) × ((n ≡ scans) ⊎ (hand ≡ invalid_frame_id))
Stops next scans start n hand (some f) = (n < scans) × (f ≡ walked next n start) × (hand ≡ next f)

-- The marks of frames that are not evictable stay, and an evictable frame has its mark until the hand
-- is at it, which takes a frame without one.
abbrev pub Turns : (ℕ → Bool) → (ℕ → ℕ) → ℕ → (ℕ → Bool) → ℕ → Sieve × Option ℕ → Type 0
Turns evictable next scans visited start (after, found) =
    ((j : ℕ) → evictable j ≡ false → after.visited j ≡ visited j)
    × (n : ℕ) × ((j : ℕ)
        → evictable j ≡ true
        → bit (after.visited j) + passes next n start j ≡ bit (visited j))
    × Stops next scans start n after.hand found

pub newer_in-lem :
    (cap : ℕ) (next prev : ℕ → ℕ) (last before current f : ℕ) (xs : List ℕ)
    → IsLinked cap next prev last before current xs
    → elem f xs ≡ true
    → prev f ≡ newer_in before f xs
newer_in-lem cap next prev last before current f [] c m = absurd (ground arith)
newer_in-lem cap next prev last before current f (x ∷ xs) c m = elim (ℕ_discrete f x) [
  | yes e ↦ let test : (f == x) ≡ true = ground arith in rw test (ap prev e ∙ c.2)
  | no ne ↦
      let test : (f == x) ≡ false = ground arith in
      rw test (newer_in-lem cap next prev last x (next x) f xs c.3 (ground arith))
]

pub last_of-lem :
    (cap : ℕ) (next prev : ℕ → ℕ) (last before current : ℕ) (xs : List ℕ)
    → IsLinked cap next prev last before current xs
    → last ≡ last_of before xs
last_of-lem cap next prev last before current [] c = c.1
last_of-lem cap next prev last before current (x ∷ xs) c =
    last_of-lem cap next prev last x (next x) xs c.3

pub next_of-next_in :
    (s : Sieve) (xs : List ℕ) (f : ℕ)
    → Represents s.capacity s.links xs
    → elem f xs ≡ true
    → next_of s f ≡ next_in xs f
unfolding next_of
next_of-next_in s xs f r m =
    let before =
      newer_in-lem s.capacity s.links.front_to_back s.links.back_to_front s.links.back
        invalid_frame_id s.links.front f xs r.links m in
    let oldest =
      last_of-lem s.capacity s.links.front_to_back s.links.back_to_front s.links.back
        invalid_frame_id s.links.front xs r.links in
    rw (before, oldest) refl

later-Stops :
    (next : ℕ → ℕ) (scans start n hand : ℕ) (found : Option ℕ)
    → Stops next scans (next start) n hand found
    → Stops next (suc scans) start (suc n) hand found
later-Stops next scans start n hand none (at, inl all) = (at, inl (omega arith))
later-Stops next scans start n hand none (at, inr empty) = (at, inr empty)
later-Stops next scans start n hand (some f) (some_left, here, at) = (omega arith, here, at)

module _ (evictable : ℕ → Bool) (s : Sieve) (xs : List ℕ) (next : ℕ → ℕ)
    (step : (c : ℕ)
      → elem c xs ≡ true
      → (next_of s c ≡ next c)
        × ((next_of s c ≡ invalid_frame_id) ⊎ (elem (next_of s c) xs ≡ true))) where
  pub scan-Turns :
      (scans : ℕ) (visited : ℕ → Bool) (candidate : ℕ)
      → (candidate ≡ invalid_frame_id) ⊎ (elem candidate xs ≡ true)
      → Turns evictable next scans visited candidate
          (scan evictable scans (record s { visited = visited }) candidate)
  unfolding scan next_of
  scan-Turns zero visited candidate c = (λ j e. refl, 0, λ j e. omega arith, (refl, inl refl))
  scan-Turns (suc scans) visited candidate c = elim (ℕ_discrete candidate invalid_frame_id) [
    | yes z ↦
        let test : (candidate == invalid_frame_id) ≡ true = ground arith in
        rw test (λ j e. refl, 0, λ j e. omega arith, (refl, inr z))
    | no nz ↦
        let test : (candidate == invalid_frame_id) ≡ false = ground arith in
        let m : elem candidate xs ≡ true = ground arith in
        let (same, inside) = step candidate m in
        elim (Bool-cases (evictable candidate)) [
          | inr held ↦
              let (others, n, cleared, stops) =
                subst
                  (λ k.
                    Turns evictable next scans visited k
                      (scan evictable scans (record s { visited = visited }) (next_of s candidate)))
                  same (scan-Turns scans visited (next_of s candidate) inside) in
              rw (test, held)
                (
                  others,
                  suc n,
                  λ j e.
                      let away : (j == candidate) ≡ false = ground arith in
                      rw away (omega (arith, cleared j e)),
                  later-Stops next scans candidate n _ _ stops,
                )
          | inl free ↦ elim (Bool-cases (visited candidate)) [
            | inl seen ↦
                let marks = store visited candidate false in
                let (others, n, cleared, stops) =
                  subst
                    (λ k.
                      Turns evictable next scans marks k
                        (scan evictable scans (record s { visited = marks }) (next_of s candidate)))
                    same (scan-Turns scans marks (next_of s candidate) inside) in
                rw (test, free, seen)
                  (
                    λ j e. ground (arith, others j e),
                    suc n,
                    λ j e. elim (ℕ_discrete j candidate) [
                      | yes here ↦
                          let at : (j == candidate) ≡ true = ground arith in
                          let off : marks j ≡ false = rw at refl in
                          let on : visited j ≡ true = ap visited here ∙ seen in
                          let rest = cleared j e in
                          rw at (omega (arith, rest, ap bit off, ap bit on))
                      | no other ↦
                          let at : (j == candidate) ≡ false = ground arith in
                          let kept : marks j ≡ visited j = rw at refl in
                          let rest = cleared j e in rw at (omega (arith, rest, ap bit kept))
                    ],
                    later-Stops next scans candidate n _ _ stops,
                  )
            | inr unseen ↦
                rw (test, free, unseen)
                  (λ j e. refl, 0, λ j e. omega arith, (omega arith, refl, same))
          ]
        ]
  ]
