-- ===== src/Replacer/SweepTurns.antt =====
-- How far the hand of src/cpp/lib/replacer/clock_replacer.cc and clock_sweep_replacer.cc goes, and what it
-- takes off each mark on its way.
use tele_path.Prelude.{
  ℕ, zero, suc, ◌+◌, ◌%◌, ◌^◌, ◌<◌, ◌≡◌, refl, sym, ap, Bool, true, false, ◌==◌, Option, none, some,
  if◌then◌else◌, store, arith, ℕ_discrete,
}
use tele_path.Replacer.Sweep.{Marks, Policy, advance, sweep}
use tele_path.Replacer.SweepLaws.{Cools, Scan-cases, passes, cools, takes}

-- Where the hand is after `n` steps of a std::size_t.
abbrev pub turned : ℕ → ℕ → ℕ
turned zero hand = hand
turned (suc n) hand = turned n ((hand + 1) % 2 ^ 64)

-- How often the hand is at frame `j` in its next `n` steps.
abbrev pub visits : ℕ → ℕ → ℕ → ℕ → ℕ
visits capacity zero hand j = 0
visits capacity (suc n) hand j =
    (if j == hand % capacity then 1 else 0) + visits capacity n ((hand + 1) % 2 ^ 64) j

-- After `n` steps that took nothing the hand took the frame that it was at, in the next of its
-- `scans` steps, or had no step left.
abbrev pub Stops : ℕ → ℕ → ℕ → ℕ → ℕ → Option ℕ → Type 0
Stops scans capacity hand n hand' none = (n ≡ scans) × (hand' ≡ turned n hand)
Stops scans capacity hand n hand' (some f) =
    (n < scans) × (f ≡ turned n hand % capacity) × (hand' ≡ turned (suc n) hand)

later-Stops :
    (scans capacity hand n hand' : ℕ) (found : Option ℕ)
    → Stops scans capacity ((hand + 1) % 2 ^ 64) n hand' found
    → Stops (suc scans) capacity hand (suc n) hand' found
later-Stops scans capacity hand n hand' none (all, at) = (omega arith, at)
later-Stops scans capacity hand n hand' (some f) (some_left, here, at) = (omega arith, here, at)

module _ (p : Policy) (Fits : ℕ → Type 0) (rank : ℕ → ℕ) (laws : Cools p Fits rank) (capacity : ℕ)
    (evictable : ℕ → Bool) where
  -- Each step lowers the rank of a tracked, evictable frame that the hand is at by one, until it takes
  -- one.
  abbrev pub Turns : ℕ → Marks → Marks × Option ℕ → Type 0
  Turns scans m (after, found) =
      (n : ℕ) × ((j : ℕ)
        → p.untracked (m.mark j) ≡ false
        → evictable j ≡ true
        → rank (after.mark j) + visits capacity n m.hand j ≡ rank (m.mark j))
      × Stops scans capacity m.hand n after.hand found

  pub sweep-Turns :
      (scans : ℕ) (m : Marks)
      → 0 < capacity
      → ((j : ℕ) → Fits (m.mark j))
      → Turns scans m (sweep p capacity evictable scans m)
  unfolding sweep
  sweep-Turns zero m pos ok = (0, λ j u e. omega arith, (refl, refl))
  sweep-Turns (suc scans) m pos ok = elim (Scan-cases p Fits rank laws capacity evictable scans m) [
    | passes out eq ↦
        let (n, lowered, stops) = sweep-Turns scans (advance m) pos ok in
        rw eq (
          suc n,
          λ j u e. elim (ℕ_discrete j (m.hand % capacity)) [
            | yes here ↦ absurd (out (rw (sym here) u) (rw (sym here) e))
            | no away ↦
                let test : (j == m.hand % capacity) ≡ false = ground arith in
                rw test (omega (arith, lowered j u e))
          ],
          later-Stops scans capacity m.hand n _ _ stops,
        )
    | takes h k e eq ↦ rw eq (0, λ j u e'. omega arith, (omega arith, refl, refl))
    | cools h k e eq ↦
        let c = m.hand % capacity in
        let next : Marks = record (advance m) { mark = store m.mark c (p.cool (m.mark c)) } in
        let fit : (j : ℕ) → Fits (next.mark j) = λ j. elim (ℕ_discrete j c) [
          | yes here ↦
              let test : (j == c) ≡ true = ground arith in rw test (laws.fits (m.mark c) h k (ok c))
          | no away ↦ let test : (j == c) ≡ false = ground arith in rw test (ok j)
        ] in
        let (n, lowered, stops) = sweep-Turns scans next pos fit in
        rw eq (
          suc n,
          λ j u e'. elim (ℕ_discrete j c) [
            | yes here ↦
                let test : (j == c) ≡ true = ground arith in
                let same : next.mark j ≡ p.cool (m.mark c) = rw test refl in
                let kept = laws.keeps (m.mark c) h k (ok c) in
                let rest = lowered j (rw same kept) e' in
                rw test (
                  omega (
                    arith,
                    rest,
                    ap rank same,
                    ap (λ f. rank (m.mark f)) here,
                    laws.lowers (m.mark c) h k,
                  ))
            | no away ↦
                let test : (j == c) ≡ false = ground arith in
                let same : next.mark j ≡ m.mark j = rw test refl in
                let rest = lowered j (rw same u) e' in rw test (omega (arith, rest, ap rank same))
          ],
          later-Stops scans capacity m.hand n _ _ stops,
        )
  ]
