-- ===== src/Sync/Safety.antt =====
-- Mutual exclusion of FutexMutex of src/cpp/lib/sync/futex.h, and that no wake-up is lost.
use tele_path.Prelude.{ℕ, ◌≡◌, refl, ap, inl, inr, true, false, ◌==◌, arith, Bool-cases}
use tele_path.Sync.Mutex.{
  Local, outside, marking, waiting, asleep, waking, holding, lock_first, lock_mark, futex_wait,
  try_lock, unlock, Mutex, holds, is_asleep, will_recall, goes, after_try, Step, Reach,
}
use tele_path.Sync.Invariant.{
  IsRemembered, IsOwned, AreRemembered, tested, goes-IsOwned, goes-AreRemembered, recalls_itself,
  others-free,
}

abbrev pub IsSafe : Mutex → Type 0
IsSafe s = IsOwned s × AreRemembered s

-- A thread that does not take the mutex and leaves the word.
stays-IsOwned :
    (s : Mutex) (t : ℕ) (l : Local) → IsOwned s → holds l ≡ false → IsOwned (goes s t s.word l)
stays-IsOwned s t l i out =
    goes-IsOwned s t s.word l i (λ e. absurd (ground arith)) (λ e. (out, λ u ne. i.free e u))

-- A thread from outside that finds the word zero takes the mutex.
takes-IsSafe :
    (s : Mutex) (t : ℕ) → IsSafe s → s.locals t ≡ outside → s.word ≡ 0 → IsSafe (goes s t 1 holding)
takes-IsSafe s t (i, r) at zero_word = (
  goes-IsOwned s t 1 holding i (λ e u ne. i.free zero_word u) (λ e. absurd (ground arith)),
  goes-AreRemembered s t 1 holding r (ap will_recall at) (λ two. absurd (ground arith)) refl,
)

-- A thread from outside that goes on without it, and puts no mark.
passes-IsSafe :
    (s : Mutex) (t : ℕ) (l : Local)
    → IsSafe s
    → s.locals t ≡ outside
    → holds l ≡ false
    → is_asleep l ≡ false
    → IsSafe (goes s t s.word l)
passes-IsSafe s t l (i, r) at out awake = (
  stays-IsOwned s t l i out,
  goes-AreRemembered s t s.word l r (ap will_recall at) (λ two. inl two) awake,
)

lock-IsSafe :
    (s : Mutex) (t : ℕ)
    → IsSafe s
    → s.locals t ≡ outside
    → IsSafe (goes s t (lock_first s.word).0 (lock_first s.word).1)
unfolding lock_first
lock-IsSafe s t safe at = elim (Bool-cases (s.word == 0)) [
  | inl e ↦ rw e (takes-IsSafe s t safe at (ground arith))
  | inr e ↦ elim (Bool-cases (s.word == 2)) [
    | inl two ↦ rw (e, two) (passes-IsSafe s t waiting safe at refl refl)
    | inr other ↦ rw (e, other) (passes-IsSafe s t marking safe at refl refl)
  ]
]

try-IsSafe :
    (s : Mutex) (t : ℕ)
    → IsSafe s
    → s.locals t ≡ outside
    → IsSafe (goes s t (try_lock s.word).0 (after_try (try_lock s.word).1))
unfolding try_lock
try-IsSafe s t safe at = elim (Bool-cases (s.word == 0)) [
  | inl e ↦ rw e (takes-IsSafe s t safe at (ground arith))
  | inr e ↦ rw e (passes-IsSafe s t outside safe at refl refl)
]

mark-IsSafe :
    (s : Mutex) (t : ℕ) → IsSafe s → IsSafe (goes s t (lock_mark s.word).0 (lock_mark s.word).1)
unfolding lock_mark
mark-IsSafe s t (i, r) = elim (Bool-cases (s.word == 0)) [
  | inl e ↦ rw e (
    goes-IsOwned s t 2 holding i (λ mine u ne. i.free (ground arith) u)
        (λ e. absurd (ground arith)),
    λ u e. inl refl,
  )
  | inr e ↦ rw e (
    goes-IsOwned s t 2 waiting i (λ e. absurd (ground arith)) (λ e. absurd (ground arith)),
    λ u e. inl refl,
  )
]

wait-IsSafe : (s : Mutex) (t : ℕ) → IsSafe s → IsSafe (goes s t s.word (futex_wait s.word))
unfolding futex_wait
wait-IsSafe s t (i, r) = elim (Bool-cases (s.word == 2)) [
  | inl two ↦ rw two (stays-IsOwned s t asleep i refl, λ u e. inl (ground arith))
  | inr other ↦
      rw other (stays-IsOwned s t marking i refl, λ u e. recalls_itself s t s.word marking refl)
]

-- The owner gives the mutex up.
release-IsSafe :
    (s : Mutex) (t : ℕ)
    → IsSafe s
    → s.locals t ≡ holding
    → IsSafe (goes s t (unlock s.word).0 (unlock s.word).1)
unfolding unlock
release-IsSafe s t (i, r) at = elim (Bool-cases (s.word == 2)) [
  | inl two ↦ rw two (
    goes-IsOwned s t 0 waking i (λ e. absurd (ground arith)) (λ e. (refl, others-free s t i at)),
    λ u e. recalls_itself s t 0 waking refl,
  )
  | inr other ↦ rw other (
    goes-IsOwned s t 0 outside i (λ e. absurd (ground arith)) (λ e. (refl, others-free s t i at)),
    goes-AreRemembered s t 0 outside r (ap will_recall at) (λ two. absurd (ground arith)) refl,
  )
]

alone-AreRemembered :
    (s : Mutex) (t : ℕ)
    → ((u : ℕ) → is_asleep (s.locals u) ≡ false)
    → AreRemembered (goes s t s.word outside)
alone-AreRemembered s t nobody u e =
    let here = tested is_asleep s.locals t u outside in
    let awake = nobody u in
    absurd (elim (Bool-cases (u == t)) [ inl same ↦ ground arith | inr other ↦ ground arith ])

Step-IsSafe : {s s' : Mutex} → Step s s' → IsSafe s → IsSafe s'
Step-IsSafe (Step.lock s t at) safe = lock-IsSafe s t safe at
Step-IsSafe (Step.try s t at) safe = try-IsSafe s t safe at
Step-IsSafe (Step.mark s t at) safe = mark-IsSafe s t safe
Step-IsSafe (Step.wait s t at) safe = wait-IsSafe s t safe
Step-IsSafe (Step.returns s t at) (i, r) =
    (stays-IsOwned s t marking i refl, λ u e. recalls_itself s t s.word marking refl)
Step-IsSafe (Step.release s t at) safe = release-IsSafe s t safe at
Step-IsSafe (Step.wake s t u at asleep_u) (i, r) =
    let woken = goes s t s.word outside in
    (
      stays-IsOwned woken u marking (stays-IsOwned s t outside i refl) refl,
      λ v e. recalls_itself woken u s.word marking refl,
    )
Step-IsSafe (Step.wake_nobody s t at nobody) (i, r) =
    (stays-IsOwned s t outside i refl, alone-AreRemembered s t nobody)

reached : {s : Mutex} → Reach s → IsSafe s
reached Reach.here = (
  record { alone = λ t u e. absurd (ground arith); free = λ e t. refl },
  λ t e. absurd (ground arith),
)
reached (Reach.next r step) = Step-IsSafe step (reached r)

-- Whatever the order of the accesses of any number of threads to a mutex: two threads never have it at
-- once, none has it while the word is zero, and a thread that sleeps is never forgotten: the word
-- says that there are waiters, so that unlock wakes one, or another thread is awake and will mark the
-- word so before it can sleep, or is in unlock and about to wake one.
pub Reach-IsSafe :
    {s : Mutex}
    → Reach s
    → ((t u : ℕ) → holds (s.locals t) ≡ true → holds (s.locals u) ≡ true → t ≡ u)
      × (s.word ≡ 0 → (t : ℕ) → holds (s.locals t) ≡ false)
      × ((t : ℕ) → is_asleep (s.locals t) ≡ true → IsRemembered s)
Reach-IsSafe r = let (owned, remembered) = reached r in (owned.alone, owned.free, remembered)
