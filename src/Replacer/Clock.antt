-- ===== src/Replacer/Clock.antt =====
-- src/cpp/lib/replacer/clock_replacer.cc: second chance with one reference bit per frame.
use tele_path.Prelude.{
  ℕ, ◌+◌, ◌*◌, ◌<◌, ◌^◌, ◌≡◌, ◌≢◌, refl, Bool, true, false, not, ◌==◌, ◌||◌, ◌&&◌, ℕ_discrete,
  Option, none, some, if◌then◌else◌, ltb, leb, store, arith,
}
use tele_path.Replacer.Sweep.{Marks, Policy, sweep}
use tele_path.Replacer.SweepLaws.{Cools, sweep-Swept, sweep-finds}
use tele_path.Replacer.SweepTurns.{visits, Stops, sweep-Turns}

abbrev untracked : ℕ
untracked = 0

abbrev clear : ℕ
clear = 1

abbrev referenced : ℕ
referenced = 2

pub record Clock : Type 0 where
  pub capacity : ℕ
  pub marks : Marks

-- The constructor.
unfoldable pub empty_clock : ℕ → Clock
empty_clock capacity = record {
  capacity = capacity;
  marks = record { hand = 0; mark = λ frame. untracked };
}

unfoldable pub set_mark : Clock → ℕ → ℕ → Clock
set_mark c frame m = record c { marks = record c.marks { mark = store c.marks.mark frame m } }

unfoldable pub record_access : Clock → ℕ → Clock
unfolding set_mark
record_access c frame =
    if leb c.capacity frame
    then c
    else if c.marks.mark frame == clear
    then set_mark c frame referenced
    else c

unfoldable pub record_load : Clock → ℕ → Clock
unfolding set_mark
record_load c frame = if leb c.capacity frame then c else set_mark c frame referenced

unfoldable pub remove : Clock → ℕ → Clock
unfolding set_mark
remove c frame = if leb c.capacity frame then c else set_mark c frame untracked

abbrev policy : Policy
policy = record { untracked = λ m. m == untracked; hot = λ m. m == referenced; cool = λ m. clear }

unfoldable pub victim : Clock → (ℕ → Bool) → Clock × Option ℕ
unfolding sweep
victim c evictable =
    if c.capacity == 0
    then (c, none)
    else let (after, found) = sweep policy c.capacity evictable (2 * c.capacity) c.marks in
      (record c { marks = after }, found)

-- Marks are untracked, clear or referenced.
abbrev pub IsValid : Clock → Type 0
IsValid c = (f : ℕ) → c.marks.mark f < 3

abbrev pub tracks : Clock → ℕ → Bool
tracks c frame = not (c.marks.mark frame == untracked)

-- How often the hand passes over a frame that has the mark.
abbrev pub chances : ℕ → ℕ
chances m = if m == referenced then 1 else 0

policy-Cools : Cools policy (λ m. m < 3) chances
policy-Cools = record {
  fits = λ m h u f. omega arith;
  keeps = λ m h u f. refl;
  lowers = λ m h u. ground arith;
  cold = λ m h. ground arith;
}

-- Accesses, loads and removals: a load tracks its frame, a removal stops that, and an access does
-- neither; a frame from the capacity on is left out, and the marks stay in their range.
pub updates-tracks :
    (c : Clock) (frame j : ℕ)
    → IsValid c
    → (tracks (record_access c frame) j ≡ tracks c j)
      × (tracks (record_load c frame) j ≡ (j == frame && ltb frame c.capacity || tracks c j))
      × (tracks (remove c frame) j ≡ (tracks c j && not (j == frame && ltb frame c.capacity)))
      × IsValid (record_access c frame)
      × IsValid (record_load c frame)
      × IsValid (remove c frame)
unfolding record_access record_load remove
updates-tracks c frame j v = (
  ground arith,
  ground arith,
  ground arith,
  λ f. ground (arith, v f),
  λ f. ground (arith, v f),
  λ f. ground (arith, v f),
)

-- What Victim leaves and gives, in two rounds of the hand at most.
abbrev pub Swept : Clock → (ℕ → Bool) → Clock × Option ℕ → Type 0
Swept c evictable (after, found) =
    let hand = c.marks.hand in
    IsValid after
    × ((j : ℕ) → tracks after j ≡ tracks c j)
    × ((j : ℕ) → evictable j ≡ false → after.marks.mark j ≡ c.marks.mark j)
    × ((f : ℕ)
        → found ≡ some f
        → (f < c.capacity)
          × (evictable f ≡ true)
          × (tracks c f ≡ true)
          × (after.marks.mark f ≢ referenced))
    × (n : ℕ) × ((j : ℕ)
        → tracks c j ≡ true
        → evictable j ≡ true
        → chances (after.marks.mark j) + visits c.capacity n hand j ≡ chances (c.marks.mark j))
    × ((f : ℕ) → found ≡ some f → visits c.capacity n hand f ≡ chances (c.marks.mark f))
    × Stops (2 * c.capacity) c.capacity hand n after.marks.hand found

-- Victim keeps the marks in their range, neither tracks nor drops a frame, and leaves frames that are
-- not evictable alone; it gives only a tracked, evictable frame below the capacity that has no
-- reference bit left. First the hand takes a number of steps that take no frame: in them it was at a
-- tracked, evictable frame at most once, and never when the frame had no reference bit, and such a frame
-- has lost its bit exactly when the hand was at it. Then the frame that the hand is at is given, and the
-- hand is past it, or two rounds are over and nothing is given. A frame that is given had a reference
-- bit exactly when the hand was at it before: a referenced frame gets its second chance.
pub victim-Swept :
    (c : Clock) (evictable : ℕ → Bool) → IsValid c → Swept c evictable (victim c evictable)
unfolding victim
victim-Swept c evictable v = elim (ℕ_discrete (c.capacity) 0) [
  | yes z ↦
      let test : (c.capacity == 0) ≡ true = ground arith in
      rw test (
        v,
        λ j. refl,
        λ j e. refl,
        λ f e. absurd (ground arith),
        0,
        λ j t e. omega arith,
        λ f e. absurd (ground arith),
        (omega arith, refl),
      )
  | no nz ↦
      let test : (c.capacity == 0) ≡ false = ground arith in
      let (fits, kept, held, found) =
        sweep-Swept policy (λ m. m < 3) chances policy-Cools c.capacity evictable (2 * c.capacity)
          c.marks (omega arith) v in
      let (n, lowered, stops) =
        sweep-Turns policy (λ m. m < 3) chances policy-Cools c.capacity evictable (2 * c.capacity)
          c.marks (omega arith) v in
      rw test (
        fits,
        λ j. ground (arith, kept j),
        held,
        λ f e. ground (arith, found f e),
        n,
        λ j t e. lowered j (ground arith) e,
        λ f e.
            let (below, free, some_mark, cold) = found f e in
            omega (arith, lowered f some_mark free, policy-Cools.cold _ cold),
        stops,
      )
]

-- Two rounds of the hand are enough: where a tracked frame below the capacity is evictable Victim gives a frame, while
-- the hand does not overflow.
pub victim-finds :
    (c : Clock) (evictable : ℕ → Bool) (f : ℕ)
    → f < c.capacity
    → IsValid c
    → c.marks.hand + 2 * c.capacity < 2 ^ 64
    → tracks c f ≡ true
    → evictable f ≡ true
    → (g : ℕ) × ((victim c evictable).1 ≡ some g)
unfolding victim
victim-finds c evictable f lt v room kept free =
    let test : (c.capacity == 0) ≡ false = ground arith in
    rw test (
      sweep-finds policy (λ m. m < 3) chances policy-Cools c.capacity evictable 2 c.marks f lt room
        (ground arith) (v f) free (ground arith))
