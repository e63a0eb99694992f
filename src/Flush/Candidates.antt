-- ===== src/Flush/Candidates.antt =====
-- What the queue of src/cpp/lib/buffer/cleaner_controller.cc stands for: a set of frames.
use tele_path.Prelude.{
  ℕ, ◌+◌, ◌%◌, ◌≤◌, ◌<◌, ◌^◌, ◌≡◌, ◌⊎◌, ◌↔◌, inl, inr, refl, true, false, not, ◌&&◌, ◌||◌, none,
  some, List, [], ◌∷◌, ◌++◌, ◌==◌, ltb, leb, if◌then◌else◌, arith, Bool-cases, ℕ_discrete,
}
use tele_path.Flush.Cleaner.{
  Candidate, Cleaner, new_cleaner, reset_candidate, enqueue_candidate, is_live, take_from,
  take_candidate, decide, Decision, flush_budget,
}

-- The entries of a frame with a generation.
abbrev count : ℕ → ℕ → List Candidate → ℕ
count frame generation [] = 0
count frame generation (x ∷ xs) =
    (if x.frame == frame && x.generation == generation then 1 else 0) + count frame generation xs

-- No entry of the frame is of a later generation.
abbrev IsPast : ℕ → ℕ → List Candidate → Type 0
IsPast frame generation [] = Unit {0}
IsPast frame generation (x ∷ xs) =
    (x.frame ≡ frame → x.generation ≤ generation) × IsPast frame generation xs

-- A frame in the set has one entry of its generation, any other frame has none, and only frames of
-- the pool are in the set.
abbrev IsCounted : Cleaner → List Candidate → Type 0
IsCounted c queue =
    (f : ℕ)
    → (count f (c.generations f) queue ≡ (if c.enqueued f then 1 else 0))
      × IsPast f (c.generations f) queue
      × (c.enqueued f ≡ true → f < c.pool_size)

abbrev pub IsValid : Cleaner → Type 0
IsValid c = IsCounted c c.queue

count-append :
    (f g : ℕ) (xs : List Candidate) (x : Candidate)
    → count f g (xs ++ (x ∷ []))
      ≡ count f g xs + (if x.frame == f && x.generation == g then 1 else 0)
count-append f g [] x = omega arith
count-append f g (y ∷ ys) x = omega (arith, count-append f g ys x)

append-IsPast :
    (f g : ℕ) (xs : List Candidate) (x : Candidate)
    → IsPast f g xs
    → (x.frame ≡ f → x.generation ≤ g)
    → IsPast f g (xs ++ (x ∷ []))
append-IsPast f g [] x p h = (h, tt)
append-IsPast f g (y ∷ ys) x p h = (p.0, append-IsPast f g ys x p.1 h)

later-IsPast : (f g : ℕ) (xs : List Candidate) → IsPast f g xs → IsPast f (g + 1) xs
later-IsPast f g [] p = tt
later-IsPast f g (y ∷ ys) p = (λ e. omega (arith, p.0 e), later-IsPast f g ys p.1)

count-later : (f g : ℕ) (xs : List Candidate) → IsPast f g xs → count f (g + 1) xs ≡ 0
count-later f g [] p = refl
count-later f g (y ∷ ys) p = ground (arith, p.0, count-later f g ys p.1)

-- TakeCandidate on what is left of the queue.
take_from-IsCounted :
    (c : Cleaner) (queue : List Candidate)
    → IsCounted c queue
    → let (after, found) = take_from c queue in
      IsCounted after after.queue
      × (((f : ℕ) × (found ≡ some f)
            × (c.enqueued f ≡ true)
            × ((j : ℕ) → after.enqueued j ≡ (c.enqueued j && not (j == f))))
          ⊎ ((found ≡ none)
              × ((j : ℕ) → c.enqueued j ≡ false)
              × ((j : ℕ) → after.enqueued j ≡ c.enqueued j)))
unfolding take_from is_live
take_from-IsCounted c [] v = (v, inr (refl, λ j. ground (arith, v j), λ j. refl))
take_from-IsCounted c (x ∷ queue) v = elim (Bool-cases (is_live c x)) [
  | inl live ↦
      rw live (λ f. ground (arith, v f), inl (x.frame, refl, ground arith, λ j. ground arith))
  | inr dead ↦ rw dead (take_from-IsCounted c queue (λ f. ground (arith, v f)))
]

enqueue-IsValid : (c : Cleaner) (frame : ℕ) → IsValid c → IsValid (enqueue_candidate c frame)
unfolding enqueue_candidate
enqueue-IsValid c frame v = elim (Bool-cases (leb c.pool_size frame || c.enqueued frame)) [
  | inl skips ↦ elim (Bool-cases (leb c.pool_size frame)) [
    | inl far ↦ rw far v
    | inr near ↦ let held : c.enqueued frame ≡ true = ground arith in rw (near, held) v
  ]
  | inr adds ↦
      let near : leb c.pool_size frame ≡ false = ground arith in
      let absent : c.enqueued frame ≡ false = ground arith in
      let entry : Candidate = record { frame = frame; generation = c.generations frame } in
      rw (near, absent)
        (λ f. (
          ground (arith, v f, count-append f (c.generations f) c.queue entry),
          append-IsPast f (c.generations f) c.queue entry ((v f).1) (λ e. ground arith),
          ground (arith, v f),
        ))
]

reset-IsValid :
    (c : Cleaner) (frame : ℕ)
    → c.generations frame + 1 < 2 ^ 64
    → IsValid c
    → IsValid (reset_candidate c frame)
unfolding reset_candidate
reset-IsValid c frame room v = elim (Bool-cases (leb c.pool_size frame)) [
  | inl far ↦ rw far v
  | inr near ↦
      let fits : (c.generations frame + 1) % 2 ^ 64 ≡ c.generations frame + 1 = omega arith in
      rw (near, fits)
        (λ f. elim (ℕ_discrete f frame) [
          | yes e ↦
              let test : (f == frame) ≡ true = ground arith in
              let past : IsPast frame (c.generations frame) c.queue = (v frame).1 in
              rw (test, e)
                (
                  count-later frame (c.generations frame) c.queue past,
                  later-IsPast frame (c.generations frame) c.queue past,
                  λ h. absurd (ground arith),
                )
          | no ne ↦ let test : (f == frame) ≡ false = ground arith in rw test (v f)
        ])
]

-- The queue stands for a set of frames of the pool: EnqueueCandidate puts its frame in and
-- ResetCandidate takes it out, for frames of the pool, while its generation does not overflow. Each
-- keeps one entry for a frame in the set and none for any other.
pub updates-IsValid :
    (c : Cleaner) (frame j : ℕ)
    → c.generations frame + 1 < 2 ^ 64
    → IsValid c
    → IsValid (enqueue_candidate c frame)
      × IsValid (reset_candidate c frame)
      × ((enqueue_candidate c frame).enqueued j
          ≡ (c.enqueued j || (j == frame && ltb frame c.pool_size)))
      × ((reset_candidate c frame).enqueued j
          ≡ (c.enqueued j && not (j == frame && ltb frame c.pool_size)))
unfolding enqueue_candidate reset_candidate
updates-IsValid c frame j room v =
    (enqueue-IsValid c frame v, reset-IsValid c frame room v, ground arith, ground arith)

-- TakeCandidate takes a frame out of the set and gives it, or finds the set empty: no candidate is
-- lost, and none is given twice.
pub take_candidate-IsValid :
    (c : Cleaner)
    → IsValid c
    → let (after, found) = take_candidate c in
      IsValid after
      × (((f : ℕ) × (found ≡ some f)
            × (c.enqueued f ≡ true)
            × ((j : ℕ) → after.enqueued j ≡ (c.enqueued j && not (j == f))))
          ⊎ ((found ≡ none)
              × ((j : ℕ) → c.enqueued j ≡ false)
              × ((j : ℕ) → after.enqueued j ≡ c.enqueued j)))
unfolding take_candidate
take_candidate-IsValid c v = take_from-IsCounted c c.queue v

pub new_cleaner-IsValid : (pool_size high low : ℕ) → IsValid (new_cleaner pool_size high low)
unfolding new_cleaner
new_cleaner-IsValid pool_size high low f = (refl, tt, λ e. absurd (ground arith))

-- The cleaner schedules a flush exactly when the dirty pages have reached the high watermark and the
-- flushes in flight would leave more than the low watermark of them.
pub decide_lem :
    (c : Cleaner) (dirty : ℕ)
    → (decide c dirty ≡ Decision.schedules)
      ↔ ((c.high_watermark ≤ dirty) × (c.low_watermark + c.inflight_flushes < dirty))
unfolding decide flush_budget
decide_lem c dirty = ground arith
