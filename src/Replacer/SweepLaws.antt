-- ===== src/Replacer/SweepLaws.antt =====
-- What the hand of src/cpp/lib/replacer/clock_replacer.cc and clock_sweep_replacer.cc finds.
use tele_path.Prelude.{
  ℕ, zero, suc, ◌+◌, ◌-◌, ◌*◌, ◌%◌, ◌^◌, ◌≤◌, ◌<◌, ◌≡◌, ◌≢◌, refl, sym, ap, ◌∙◌, Bool, true, false,
  ◌==◌, Option, some, store, arith, Bool-cases, inl, inr, ℕ_discrete,
}
use native.Mathlib.Nat.{
  mod-lt, mod-eq_of_lt, add-mod-mod, mod-add-mod, add-mod_right, mul-le-mul_right,
}
use tele_path.Replacer.Sweep.{Marks, Policy, advance, sweep}

-- A hot mark that is tracked, and that is in the range of marks, cools to a tracked mark in that range
-- of the rank before; a cold one has rank 0.
pub record Cools (p : Policy) (Fits : ℕ → Type 0) (rank : ℕ → ℕ) : Type 0 where
  pub fits : (m : ℕ) → p.hot m ≡ true → p.untracked m ≡ false → Fits m → Fits (p.cool m)
  pub keeps :
      (m : ℕ) → p.hot m ≡ true → p.untracked m ≡ false → Fits m → p.untracked (p.cool m) ≡ false
  pub lowers : (m : ℕ) → p.hot m ≡ true → p.untracked m ≡ false → rank (p.cool m) + 1 ≡ rank m
  pub cold : (m : ℕ) → p.hot m ≡ false → rank m ≡ 0

module _ (p : Policy) (Fits : ℕ → Type 0) (rank : ℕ → ℕ) (laws : Cools p Fits rank) (capacity : ℕ)
    (evictable : ℕ → Bool) where
  -- The frame that the hand is at is passed over, cooled or taken.
  pub data Scan (scans : ℕ) (m : Marks) : Type 0 where
    passes :
        (p.untracked (m.mark (m.hand % capacity)) ≡ false
          → evictable (m.hand % capacity) ≡ true
          → ⊥)
        → sweep p capacity evictable (suc scans) m ≡ sweep p capacity evictable scans (advance m)
        → Scan scans m
    cools :
        p.hot (m.mark (m.hand % capacity)) ≡ true
        → p.untracked (m.mark (m.hand % capacity)) ≡ false
        → evictable (m.hand % capacity) ≡ true
        → sweep p capacity evictable (suc scans) m
          ≡ sweep p capacity evictable scans (record (advance m) {
            mark = store m.mark (m.hand % capacity) (p.cool (m.mark (m.hand % capacity)));
          })
        → Scan scans m
    takes :
        p.hot (m.mark (m.hand % capacity)) ≡ false
        → p.untracked (m.mark (m.hand % capacity)) ≡ false
        → evictable (m.hand % capacity) ≡ true
        → sweep p capacity evictable (suc scans) m ≡ (advance m, some (m.hand % capacity))
        → Scan scans m

  pub Scan-cases : (scans : ℕ) (m : Marks) → Scan scans m
  unfolding sweep
  Scan-cases scans m = elim (Bool-cases (p.untracked (m.mark (m.hand % capacity)))) [
    | inl gone ↦ passes (λ u. absurd (ground arith)) (rw gone refl)
    | inr kept ↦ elim (Bool-cases (evictable (m.hand % capacity))) [
      | inr held ↦ passes (λ u e. absurd (ground arith)) (rw (kept, held) refl)
      | inl free ↦ elim (Bool-cases (p.hot (m.mark (m.hand % capacity)))) [
        | inl h ↦ cools h kept free (rw (kept, free, h) refl)
        | inr h ↦ takes h kept free (rw (kept, free, h) refl)
      ]
    ]
  ]

  -- What a sweep leaves: no frame becomes tracked or untracked, a frame that is not evictable keeps
  -- its mark, and the frame it gives is tracked, evictable and cold.
  abbrev pub Swept : Marks → Marks × Option ℕ → Type 0
  Swept m (after, found) =
      ((j : ℕ) → Fits (after.mark j))
      × ((j : ℕ) → p.untracked (after.mark j) ≡ p.untracked (m.mark j))
      × ((j : ℕ) → evictable j ≡ false → after.mark j ≡ m.mark j)
      × ((f : ℕ)
          → found ≡ some f
          → (f < capacity)
            × (evictable f ≡ true)
            × (p.untracked (m.mark f) ≡ false)
            × (p.hot (after.mark f) ≡ false))

  pub sweep-Swept :
      (scans : ℕ) (m : Marks)
      → 0 < capacity
      → ((j : ℕ) → Fits (m.mark j))
      → Swept m (sweep p capacity evictable scans m)
  unfolding sweep
  sweep-Swept zero m pos ok = (ok, λ j. refl, λ j e. refl, λ f e. absurd (ground arith))
  sweep-Swept (suc scans) m pos ok = elim (Scan-cases scans m) [
    | passes out eq ↦ rw eq (sweep-Swept scans (advance m) pos ok)
    | takes h k e eq ↦
        rw eq (ok, λ j. refl, λ j e. refl, λ f found. ground (arith, mod-lt (m.hand) pos))
    | cools h k e eq ↦
        let c = m.hand % capacity in
        let cooled : Marks = record (advance m) { mark = store m.mark c (p.cool (m.mark c)) } in
        let kept = laws.keeps (m.mark c) h k (ok c) in
        let fit : (j : ℕ) → Fits (cooled.mark j) = λ j. elim (ℕ_discrete j c) [
          | yes here ↦
              let test : (j == c) ≡ true = ground arith in rw test (laws.fits (m.mark c) h k (ok c))
          | no away ↦ let test : (j == c) ≡ false = ground arith in rw test (ok j)
        ] in
        let (in_range, tracks, holds, finds) = sweep-Swept scans cooled pos fit in
        rw eq (
          in_range,
          λ j. ground (arith, tracks j),
          λ j held. ground (arith, holds j),
          λ f found. ground (arith, finds f found),
        )
  ]

  here_at : (m : Marks) (f k : ℕ) → (m.hand + k) % capacity ≡ f → k ≡ 0 → m.hand % capacity ≡ f
  here_at m f k at z =
      let none_left : m.hand + k ≡ m.hand = omega arith in
      ap (λ n. n % capacity) (sym none_left) ∙ at

  later :
      (m : Marks) (f k scans : ℕ)
      → (m.hand + k) % capacity ≡ f
      → k ≢ 0
      → m.hand + suc scans < 2 ^ 64
      → ((advance m).hand + (k - 1)) % capacity ≡ f
  later m f k scans at nz room =
      let sum : (advance m).hand + (k - 1) ≡ m.hand + k = omega arith in
      ap (λ n. n % capacity) sum ∙ at

  abbrev pub cooled : Marks → Marks
  cooled m = record (advance m) {
    mark = store m.mark (m.hand % capacity) (p.cool (m.mark (m.hand % capacity)));
  }

  round :
      (m : Marks) (f scans : ℕ)
      → m.hand % capacity ≡ f
      → 0 < capacity
      → m.hand + suc scans < 2 ^ 64
      → ((cooled m).hand + (capacity - 1)) % capacity ≡ f
  round m f scans same pos room =
      let sum : (cooled m).hand + (capacity - 1) ≡ m.hand + capacity = omega arith in
      ap (λ n. n % capacity) sum ∙ add-mod_right (m.hand) capacity ∙ same

  module _ (m : Marks) (f : ℕ) (same : m.hand % capacity ≡ f)
      (u : p.untracked (m.mark (m.hand % capacity)) ≡ false)
      (h : p.hot (m.mark (m.hand % capacity)) ≡ true) where
    mark_cooled : (cooled m).mark f ≡ p.cool (m.mark f)
    mark_cooled = ground arith

    cooled_kept : Fits (m.mark f) → p.untracked ((cooled m).mark f) ≡ false
    cooled_kept ok = rw mark_cooled (laws.keeps (m.mark f) (rw (sym same) h) (rw (sym same) u) ok)

    cooled-Fits : Fits (m.mark f) → Fits ((cooled m).mark f)
    cooled-Fits ok = rw mark_cooled (laws.fits (m.mark f) (rw (sym same) h) (rw (sym same) u) ok)

    rank-cooled : rank ((cooled m).mark f) * capacity + capacity ≤ rank (m.mark f) * capacity
    rank-cooled =
        let lower = laws.lowers (m.mark f) (rw (sym same) h) (rw (sym same) u) in
        let step : suc (rank (p.cool (m.mark f))) ≤ rank (m.mark f) = omega arith in
        rw mark_cooled (omega (arith, mul-le-mul_right capacity step))

  -- The hand reaches `f` in `k` more scans, and again after each round.
  finds_from :
      (scans : ℕ) (m : Marks) (f k : ℕ)
      → 0 < capacity
      → m.hand + scans < 2 ^ 64
      → (m.hand + k) % capacity ≡ f
      → p.untracked (m.mark f) ≡ false
      → Fits (m.mark f)
      → evictable f ≡ true
      → k + rank (m.mark f) * capacity < scans
      → (g : ℕ) × ((sweep p capacity evictable scans m).1 ≡ some g)
  finds_from zero m f k pos room at kept ok free fuel = absurd (omega arith)
  finds_from (suc scans) m f k pos room at kept ok free fuel = elim (Scan-cases scans m) [
    | takes h u e eq ↦ (m.hand % capacity, rw eq refl)
    | passes out eq ↦ elim (ℕ_discrete k 0) [
      | yes z ↦ absurd (out (rw (here_at m f k at z) kept) (rw (here_at m f k at z) free))
      | no nz ↦ rw eq (
          finds_from scans (advance m) f (k - 1) pos (omega arith) (later m f k scans at nz room)
            kept ok free (omega arith))
    ]
    | cools h u e eq ↦ elim (ℕ_discrete (m.hand % capacity) f) [
      | yes same ↦ rw eq (
          finds_from scans (cooled m) f (capacity - 1) pos (omega arith)
            (round m f scans same pos room) (cooled_kept m f same u h ok)
            (cooled-Fits m f same u h ok) free (omega (arith, rank-cooled m f same u h)))
      | no other ↦ rw eq (
          let kept' : p.untracked ((cooled m).mark f) ≡ false = ground arith in
          let same_mark : (cooled m).mark f ≡ m.mark f = ground arith in
          let nz : k ≢ 0 = λ z. other (here_at m f k at z) in
          finds_from scans (cooled m) f (k - 1) pos (omega arith) (later m f k scans at nz room)
            kept' (rw same_mark ok) free (omega (arith, ap (λ x. rank x * capacity) same_mark)))
    ]
  ]

  distance : (hand f : ℕ) → f < capacity → (k : ℕ) × (k < capacity) × ((hand + k) % capacity ≡ f)
  distance hand f lt =
      let pos : 0 < capacity = omega arith in
      let x = f + capacity - hand % capacity in
      let below = mod-lt hand pos in
      let sum : hand % capacity + x ≡ f + capacity = omega arith in
      (
        x % capacity,
        mod-lt x pos,
        add-mod-mod hand x capacity
            ∙ sym (mod-add-mod hand capacity x)
            ∙ ap (λ n. n % capacity) sum
            ∙ add-mod_right f capacity
            ∙ mod-eq_of_lt lt,
      )

  -- Enough rounds find a frame wherever a tracked evictable one is.
  pub sweep-finds :
      (rounds : ℕ) (m : Marks) (f : ℕ)
      → f < capacity
      → m.hand + rounds * capacity < 2 ^ 64
      → p.untracked (m.mark f) ≡ false
      → Fits (m.mark f)
      → evictable f ≡ true
      → rank (m.mark f) < rounds
      → (g : ℕ) × ((sweep p capacity evictable (rounds * capacity) m).1 ≡ some g)
  sweep-finds rounds m f lt room kept ok free low =
      let (k, near, at) = distance (m.hand) f lt in
      let step : suc (rank (m.mark f)) ≤ rounds = omega arith in
      finds_from (rounds * capacity) m f k (omega arith) room at kept ok free
        (omega (arith, mul-le-mul_right capacity step))
