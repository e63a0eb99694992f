-- ===== src/Sync/Invariant.antt =====
-- The invariant of the mutex of src/cpp/lib/sync/futex.h: who has it, and who is remembered.
use tele_path.Prelude.{
  ℕ, ◌≡◌, ◌≢◌, refl, sym, ap, ◌∙◌, ◌⊎◌, inl, inr, Bool, true, false, ◌==◌, if◌then◌else◌, store,
  arith, Bool-cases, ℕ_discrete,
}
use tele_path.Sync.Mutex.{Local, holding, Mutex, holds, is_asleep, will_recall, goes}

-- A thread that sleeps is not forgotten: the word tells the owner to wake one, or a thread is awake that
-- will put the mark on the word or wake one.
abbrev pub IsRemembered : Mutex → Type 0
IsRemembered s = (s.word ≡ 2) ⊎ ((u : ℕ) × (will_recall (s.locals u) ≡ true))

-- One thread at most has the mutex, and none while the word is zero.
pub record IsOwned (s : Mutex) : Type 0 where
  pub alone : (t u : ℕ) → holds (s.locals t) ≡ true → holds (s.locals u) ≡ true → t ≡ u
  pub free : s.word ≡ 0 → (t : ℕ) → holds (s.locals t) ≡ false

abbrev pub AreRemembered : Mutex → Type 0
AreRemembered s = (t : ℕ) → is_asleep (s.locals t) ≡ true → IsRemembered s

pub tested :
    (test : Local → Bool) (locals : ℕ → Local) (t u : ℕ) (l : Local)
    → test (store locals t l u) ≡ (if u == t then test l else test (locals u))
tested test locals t u l = elim (Bool-cases (u == t)) [ inl e ↦ rw e refl | inr e ↦ rw e refl ]

-- What a step owes for the invariant: only a thread that finds the word free takes the mutex, and no
-- thread keeps it once the word is free.
pub goes-IsOwned :
    (s : Mutex) (t word : ℕ) (l : Local)
    → IsOwned s
    → (holds l ≡ true → (u : ℕ) → u ≢ t → holds (s.locals u) ≡ false)
    → (word ≡ 0 → (holds l ≡ false) × ((u : ℕ) → u ≢ t → holds (s.locals u) ≡ false))
    → IsOwned (goes s t word l)
goes-IsOwned s t word l i takes frees = record {
  alone = λ u v hu hv.
      let here = tested holds s.locals t u l in
      let there = tested holds s.locals t v l in
      elim (ℕ_discrete u t) [
        | yes ut ↦ elim (ℕ_discrete v t) [
          | yes vt ↦ ut ∙ sym vt
          | no vt ↦
              let mine : holds l ≡ true = ground arith in
              let other = takes mine v vt in absurd (ground arith)
        ]
        | no ut ↦ elim (ℕ_discrete v t) [
          | yes vt ↦
              let mine : holds l ≡ true = ground arith in
              let other = takes mine u ut in absurd (ground arith)
          | no vt ↦ i.alone u v (ground arith) (ground arith)
        ]
      ];
  free = λ e u.
      let here = tested holds s.locals t u l in
      let (mine, others) = frees e in
      elim (ℕ_discrete u t) [
        | yes ut ↦ ground arith
        | no ut ↦ let other = others u ut in ground arith
      ];
}

-- Threads that were remembered stay so when the word keeps its mark or the thread that moves had none to
-- put, and when the thread that moves does not fall asleep unnoticed.
pub goes-AreRemembered :
    (s : Mutex) (t word : ℕ) (l : Local)
    → AreRemembered s
    → will_recall (s.locals t) ≡ false
    → (s.word ≡ 2 → IsRemembered (goes s t word l))
    → is_asleep l ≡ false
    → AreRemembered (goes s t word l)
goes-AreRemembered s t word l r silent kept awake u asleep_u =
    let here = tested is_asleep s.locals t u l in
    let before : is_asleep (s.locals u) ≡ true = elim (ℕ_discrete u t) [
      | yes ut ↦ absurd (ground arith)
      | no ut ↦ ground arith
    ] in
    elim (r u before) [
      | inl two ↦ kept two
      | inr (v, marks) ↦
          let there = tested will_recall s.locals t v l in
          inr (
            v,
            elim (ℕ_discrete v t) [
              | yes vt ↦ absurd (ground (arith, ap (λ w. will_recall (s.locals w)) vt))
              | no vt ↦ ground arith
            ],
          )
    ]

pub recalls_itself :
    (s : Mutex) (t word : ℕ) (l : Local) → will_recall l ≡ true → IsRemembered (goes s t word l)
recalls_itself s t word l e = inr (t, ground (arith, tested will_recall s.locals t t l))

pub not_holding : (l m : Local) → l ≡ m → holds m ≡ false → holds l ≡ false
not_holding l m e h = ap holds e ∙ h

-- The others when thread t has the mutex.
pub others-free :
    (s : Mutex) (t : ℕ)
    → IsOwned s
    → s.locals t ≡ holding
    → (u : ℕ) → u ≢ t
    → holds (s.locals u) ≡ false
others-free s t i at u ne = elim (Bool-cases (holds (s.locals u))) [
  | inl h ↦ absurd (ne (i.alone u t h (ap holds at)))
  | inr h ↦ h
]
