-- ===== src/Sync/Examples.antt =====
-- Tests of the mutex, and its theorem at a run: thread 0 takes the mutex, and thread 1 finds it taken,
-- marks the word and falls asleep.
use tele_path.Prelude.{ℕ, ◌≡◌, refl, true, false}
use tele_path.Sync.Mutex.{
  marking, waiting, asleep, holding, lock_first, lock_mark, futex_wait, Mutex, new_mutex, holds,
  is_asleep, goes, Step, Reach,
}
use tele_path.Sync.Invariant.{IsRemembered}
use tele_path.Sync.Safety.{Reach-IsSafe}

abbrev taken : Mutex
taken = goes new_mutex 0 (lock_first 0).0 (lock_first 0).1

abbrev refused : Mutex
refused = goes taken 1 (lock_first taken.word).0 (lock_first taken.word).1

abbrev marked : Mutex
marked = goes refused 1 (lock_mark refused.word).0 (lock_mark refused.word).1

abbrev sleeping : Mutex
sleeping = goes marked 1 marked.word (futex_wait marked.word)

refused-marking : refused.locals 1 ≡ marking
unfolding lock_first
refused-marking = refl

marked-waiting : marked.locals 1 ≡ waiting
unfolding lock_first lock_mark
marked-waiting = refl

run : Reach sleeping
run =
    Reach.next
      (Reach.next
        (Reach.next (Reach.next Reach.here (Step.lock new_mutex 0 refl)) (Step.lock taken 1 refl))
        (Step.mark refused 1 refused-marking))
      (Step.wait marked 1 marked-waiting)

Reach-IsSafe_example :
    ((t u : ℕ) → holds (sleeping.locals t) ≡ true → holds (sleeping.locals u) ≡ true → t ≡ u)
    × (sleeping.word ≡ 0 → (t : ℕ) → holds (sleeping.locals t) ≡ false)
    × ((t : ℕ) → is_asleep (sleeping.locals t) ≡ true → IsRemembered sleeping)
Reach-IsSafe_example = Reach-IsSafe run

asleep_at_end : (sleeping.locals 1 ≡ asleep) × (sleeping.locals 0 ≡ holding) × (sleeping.word ≡ 2)
unfolding lock_first lock_mark futex_wait
asleep_at_end = (refl, refl, refl)
