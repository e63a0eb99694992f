-- ===== src/Replacer/ClockSweep.antt =====
-- src/cpp/lib/replacer/clock_sweep_replacer.cc: a usage count per frame. A weak compare-and-swap is
-- taken to succeed, as it does when no other thread changes the count.
use tele_path.Prelude.{
  ℕ, ◌+◌, ◌-◌, ◌*◌, ◌≤◌, ◌<◌, ◌^◌, ◌≡◌, ◌⊎◌, refl, Bool, true, false, not, ◌==◌, ◌||◌, ◌&&◌, Option,
  none, some, if◌then◌else◌, ltb, leb, min, store, arith, ℕ_discrete,
}
use tele_path.Replacer.Sweep.{Marks, Policy, sweep}
use tele_path.Replacer.SweepLaws.{Cools, sweep-Swept, sweep-finds}
use tele_path.Replacer.SweepTurns.{visits, Stops, sweep-Turns}

abbrev max_usage_count : ℕ
max_usage_count = 5

abbrev untracked : ℕ
untracked = 0xff

pub record ClockSweep : Type 0 where
  pub capacity : ℕ
  pub usage : Marks

-- The constructor.
unfoldable pub empty_clock_sweep : ℕ → ClockSweep
empty_clock_sweep capacity = record {
  capacity = capacity;
  usage = record { hand = 0; mark = λ frame. untracked };
}

unfoldable pub set_usage : ClockSweep → ℕ → ℕ → ClockSweep
set_usage c frame m = record c { usage = record c.usage { mark = store c.usage.mark frame m } }

unfoldable pub record_access : ClockSweep → ℕ → ClockSweep
unfolding set_usage
record_access c frame =
    if leb c.capacity frame
    then c
    else if leb max_usage_count (c.usage.mark frame)
    then c
    else set_usage c frame (c.usage.mark frame + 1)

unfoldable pub record_load : ClockSweep → ℕ → ClockSweep
unfolding set_usage
record_load c frame = if leb c.capacity frame then c else set_usage c frame 1

unfoldable pub remove : ClockSweep → ℕ → ClockSweep
unfolding set_usage
remove c frame = if leb c.capacity frame then c else set_usage c frame untracked

abbrev policy : Policy
policy = record { untracked = λ m. m == untracked; hot = λ m. ltb 0 m; cool = λ m. m - 1 }

unfoldable pub victim : ClockSweep → (ℕ → Bool) → ClockSweep × Option ℕ
unfolding sweep
victim c evictable =
    if c.capacity == 0
    then (c, none)
    else let (after, found) =
        sweep policy c.capacity evictable ((max_usage_count + 1) * c.capacity) c.usage in
      (record c { usage = after }, found)

abbrev pub tracks : ClockSweep → ℕ → Bool
tracks c frame = not (c.usage.mark frame == untracked)

-- A count of a tracked frame is at most kMaxUsageCount, so it never reaches kUntracked.
abbrev Fits : ℕ → Type 0
Fits m = (m ≡ untracked) ⊎ (m ≤ max_usage_count)

abbrev pub IsValid : ClockSweep → Type 0
IsValid c = (f : ℕ) → Fits (c.usage.mark f)

policy-Cools : Cools policy Fits (λ m. m)
policy-Cools = record {
  fits = λ m h u f. ground arith;
  keeps = λ m h u f. ground arith;
  lowers = λ m h u. ground arith;
  cold = λ m h. ground arith;
}

-- Accesses, loads and removals: a load tracks its frame with a count of one, a removal stops that,
-- and an access raises the count of a tracked frame up to kMaxUsageCount; a frame from the capacity
-- on is left out, and the counts stay in their range.
pub updates-counts :
    (c : ClockSweep) (frame j : ℕ)
    → IsValid c
    → (tracks (record_access c frame) j ≡ tracks c j)
      × (tracks c frame ≡ true
          → frame < c.capacity
          → (record_access c frame).usage.mark frame ≡ min (c.usage.mark frame + 1) max_usage_count)
      × (tracks (record_load c frame) j ≡ (j == frame && ltb frame c.capacity || tracks c j))
      × (tracks (remove c frame) j ≡ (tracks c j && not (j == frame && ltb frame c.capacity)))
      × IsValid (record_access c frame)
      × IsValid (record_load c frame)
      × IsValid (remove c frame)
unfolding record_access record_load remove
updates-counts c frame j v = (
  ground (arith, v frame),
  λ t lt. ground (arith, v frame),
  ground arith,
  ground arith,
  λ f. ground (arith, v f, v frame),
  λ f. ground (arith, v f),
  λ f. ground (arith, v f),
)

-- What Victim leaves and gives, in six rounds of the hand at most.
abbrev pub CountsDown : ClockSweep → (ℕ → Bool) → ClockSweep × Option ℕ → Type 0
CountsDown c evictable (after, found) =
    let hand = c.usage.hand in
    IsValid after
    × ((j : ℕ) → tracks after j ≡ tracks c j)
    × ((j : ℕ) → evictable j ≡ false → after.usage.mark j ≡ c.usage.mark j)
    × ((f : ℕ)
        → found ≡ some f
        → (f < c.capacity) × (evictable f ≡ true) × (tracks c f ≡ true) × (after.usage.mark f ≡ 0))
    × (n : ℕ) × ((j : ℕ)
        → tracks c j ≡ true
        → evictable j ≡ true
        → after.usage.mark j + visits c.capacity n hand j ≡ c.usage.mark j)
    × ((f : ℕ) → found ≡ some f → visits c.capacity n hand f ≡ c.usage.mark f)
    × Stops (6 * c.capacity) c.capacity hand n after.usage.hand found

-- Victim keeps the counts in their range, neither tracks nor drops a frame, and leaves frames that are
-- not evictable alone; it gives only a tracked, evictable frame below the capacity with count zero.
-- The hand takes a number of steps that take no frame: the count of a tracked, evictable frame is
-- lowered by exactly the number of them in which the hand was at it. Then the frame that the hand is at
-- is given, and the hand is past it, or six rounds are over and nothing is given. So the frame that is given was passed as
-- often as its count said.
pub victim-counts :
    (c : ClockSweep) (evictable : ℕ → Bool)
    → IsValid c
    → CountsDown c evictable (victim c evictable)
unfolding victim
victim-counts c evictable v = elim (ℕ_discrete (c.capacity) 0) [
  | yes z ↦
      let test : (c.capacity == 0) ≡ true = ground arith in
      rw test (
        v,
        λ j. refl,
        λ j e. refl,
        λ f e. absurd (ground arith),
        0,
        λ j t e. omega arith,
        λ f e. absurd (ground arith),
        (omega arith, refl),
      )
  | no nz ↦
      let test : (c.capacity == 0) ≡ false = ground arith in
      let (fits, kept, held, found) =
        sweep-Swept policy Fits (λ m. m) policy-Cools c.capacity evictable
          ((max_usage_count + 1) * c.capacity) c.usage (omega arith) v in
      let (n, lowered, stops) =
        sweep-Turns policy Fits (λ m. m) policy-Cools c.capacity evictable
          ((max_usage_count + 1) * c.capacity) c.usage (omega arith) v in
      rw test (
        fits,
        λ j. ground (arith, kept j),
        held,
        λ f e. ground (arith, found f e),
        n,
        λ j t e. lowered j (ground arith) e,
        λ f e.
            let (below, free, some_mark, cold) = found f e in
            omega (arith, lowered f some_mark free, policy-Cools.cold _ cold),
        stops,
      )
]

-- Six rounds of the hand are enough: where a tracked frame below the capacity is evictable Victim
-- gives a frame, while the hand does not overflow.
pub victim-found :
    (c : ClockSweep) (evictable : ℕ → Bool) (f : ℕ)
    → f < c.capacity
    → IsValid c
    → c.usage.hand + 6 * c.capacity < 2 ^ 64
    → tracks c f ≡ true
    → evictable f ≡ true
    → (g : ℕ) × ((victim c evictable).1 ≡ some g)
unfolding victim
victim-found c evictable f lt v room kept free =
    let test : (c.capacity == 0) ≡ false = ground arith in
    rw test (
      sweep-finds policy Fits (λ m. m) policy-Cools c.capacity evictable 6 c.usage f lt room
        (ground arith) (v f) free (ground (arith, v f)))
