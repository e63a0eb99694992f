-- ===== src/Sync/Mutex.antt =====
-- FutexMutex of src/cpp/lib/sync/futex.h: the atomic accesses of its calls, and many threads that make
-- them in any order. The futex is the operating system's: FutexWait puts a thread to sleep when the
-- word still has the value that is expected, at once with that test, and may return for no reason;
-- FutexWakeOne wakes a thread that sleeps, if there is one.
use tele_path.Prelude.{ℕ, ◌≡◌, Bool, true, false, ◌==◌, if◌then◌else◌, store}

-- Where a thread is: in lock before its exchange, before its FutexWait, asleep in it; in unlock before
-- its FutexWakeOne; or outside of every call, with or without the mutex.
pub data Local : Type 0 where
  outside marking waiting asleep waking holding : Local

-- The first compare-and-swap of lock.
unfoldable pub lock_first : ℕ → ℕ × Local
lock_first word = if word == 0 then (1, holding) else (word, if word == 2 then waiting else marking)

-- An exchange of lock.
unfoldable pub lock_mark : ℕ → ℕ × Local
lock_mark word = (2, if word == 0 then holding else waiting)

-- FutexWait(word_, 2).
unfoldable pub futex_wait : ℕ → Local
futex_wait word = if word == 2 then asleep else marking

unfoldable pub try_lock : ℕ → ℕ × Bool
try_lock word = if word == 0 then (1, true) else (word, false)

-- The exchange of unlock.
unfoldable pub unlock : ℕ → ℕ × Local
unlock word = (0, if word == 2 then waking else outside)

pub record Mutex : Type 0 where
  pub word : ℕ
  pub locals : ℕ → Local

abbrev pub new_mutex : Mutex
new_mutex = record { word = 0; locals = λ t. outside }

abbrev pub holds : Local → Bool
holds outside = false
holds marking = false
holds waiting = false
holds asleep = false
holds waking = false
holds holding = true

abbrev pub is_asleep : Local → Bool
is_asleep outside = false
is_asleep marking = false
is_asleep waiting = false
is_asleep asleep = true
is_asleep waking = false
is_asleep holding = false

-- Whether a thread will mark the word or wake another one.
abbrev pub will_recall : Local → Bool
will_recall outside = false
will_recall marking = true
will_recall waiting = false
will_recall asleep = false
will_recall waking = true
will_recall holding = false

-- One access of thread t, after which it is at `l`.
abbrev pub goes : Mutex → ℕ → ℕ → Local → Mutex
goes s t word l = record { word = word; locals = store s.locals t l }

abbrev pub after_try : Bool → Local
after_try true = holding
after_try false = outside

pub data Step : Mutex → Mutex → Type 0 where
  lock :
      (s : Mutex) (t : ℕ)
      → s.locals t ≡ outside
      → Step s (goes s t (lock_first s.word).0 (lock_first s.word).1)
  try :
      (s : Mutex) (t : ℕ)
      → s.locals t ≡ outside
      → Step s (goes s t (try_lock s.word).0 (after_try (try_lock s.word).1))
  mark :
      (s : Mutex) (t : ℕ)
      → s.locals t ≡ marking
      → Step s (goes s t (lock_mark s.word).0 (lock_mark s.word).1)
  wait : (s : Mutex) (t : ℕ) → s.locals t ≡ waiting → Step s (goes s t s.word (futex_wait s.word))
  returns : (s : Mutex) (t : ℕ) → s.locals t ≡ asleep → Step s (goes s t s.word marking)
  release :
      (s : Mutex) (t : ℕ)
      → s.locals t ≡ holding
      → Step s (goes s t (unlock s.word).0 (unlock s.word).1)
  wake :
      (s : Mutex) (t u : ℕ)
      → s.locals t ≡ waking
      → s.locals u ≡ asleep
      → Step s (goes (goes s t s.word outside) u s.word marking)
  -- The wake finds no thread that sleeps.
  wake_nobody :
      (s : Mutex) (t : ℕ)
      → s.locals t ≡ waking
      → ((u : ℕ) → is_asleep (s.locals u) ≡ false)
      → Step s (goes s t s.word outside)

pub data Reach : Mutex → Type 0 where
  here : Reach new_mutex
  next : {s s' : Mutex} → Reach s → Step s s' → Reach s'
