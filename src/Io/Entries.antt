-- ===== src/Io/Entries.antt =====
-- The entries of the cache of src/cpp/lib/io/file_descriptor_cache.cc: which one EvictIdleLocked closes,
-- and what is left.
use tele_path.Prelude.{
  ℕ, ◌+◌, ◌≤◌, ◌≡◌, ◌≢◌, ◌⊎◌, inl, inr, refl, subst, Bool, true, false, ◌&&◌, ◌||◌, Option, none,
  some, List, [], ◌∷◌, length, ◌==◌, ltb, if◌then◌else◌, arith, Bool-cases,
}
use mathlib.Core.Option.{some-injective}
use tele_path.Io.FileDescriptors.{Entry, oldest_idle, erase}

abbrev pub IsIn : Entry → List Entry → Type 0
IsIn v [] = ◌≡◌ {A = Bool} true false
IsIn v (e ∷ es) = (e ≡ v) ⊎ IsIn v es

abbrev pub has_file : ℕ → List Entry → Bool
has_file file [] = false
has_file file (e ∷ es) = e.file_id == file || has_file file es

-- The keys of a map.
abbrev pub IsUnique : List Entry → Type 0
IsUnique [] = Unit {0}
IsUnique (e ∷ es) = (has_file e.file_id es ≡ false) × IsUnique es

abbrev pub pinned : List Entry → List Entry
pinned [] = []
pinned (e ∷ es) = if e.pins == 0 then pinned es else e ∷ pinned es

pub oldest-found : (es : List Entry) (a : Entry) → oldest_idle es (some a) ≢ none
unfolding oldest_idle
oldest-found [] a h = cc
oldest-found (e ∷ es) a h = elim (Bool-cases (e.pins == 0 && ltb e.last_used a.last_used)) [
  | inl better ↦
      oldest-found es e (subst (λ b. oldest_idle es (if b then some e else some a) ≡ none) better h)
  | inr worse ↦
      oldest-found es a (subst (λ b. oldest_idle es (if b then some e else some a) ≡ none) worse h)
]

pub oldest-none : (es : List Entry) → oldest_idle es none ≡ none → pinned es ≡ es
unfolding oldest_idle
oldest-none [] h = refl
oldest-none (e ∷ es) h = elim (Bool-cases (e.pins == 0)) [
  | inl idle ↦ absurd (
      oldest-found es e
        (subst (λ b. oldest_idle es (if b && true then some e else none) ≡ none) idle h))
  | inr busy ↦
      let rest =
        oldest-none es
          (subst (λ b. oldest_idle es (if b && true then some e else none) ≡ none) busy h) in
      ground arith
]

-- The victim is an idle entry that was used no later than any other idle one.
abbrev pub IsOldest : List Entry → Option Entry → Entry → Type 0
IsOldest es acc v =
    ((acc ≡ some v) ⊎ (IsIn v es × (v.pins ≡ 0)))
    × ((e : Entry) → IsIn e es → e.pins ≡ 0 → v.last_used ≤ e.last_used)
    × ((a : Entry) → acc ≡ some a → v.last_used ≤ a.last_used)

-- An entry that becomes the victim, and one that is passed.
pub taken-IsOldest :
    (e : Entry) (es : List Entry) (acc : Option Entry) (v : Entry)
    → e.pins ≡ 0
    → ((a : Entry) → acc ≡ some a → e.last_used ≤ a.last_used)
    → IsOldest es (some e) v
    → IsOldest (e ∷ es) acc v
taken-IsOldest e es acc v idle first (from, below, under) = (
  elim from [
    | inl same ↦ inr (inl (some-injective e v same), ground arith)
    | inr (member, free) ↦ inr (inr member, free)
  ],
  λ e' member free. elim member [
    | inl same ↦ ground (arith, under e refl)
    | inr later ↦ below e' later free
  ],
  λ a h. ground (arith, first a h, under e refl),
)

pub passed-IsOldest :
    (e : Entry) (es : List Entry) (acc : Option Entry) (v : Entry)
    → (e.pins ≡ 0 → (a : Entry) × (acc ≡ some a) × (a.last_used ≤ e.last_used))
    → IsOldest es acc v
    → IsOldest (e ∷ es) acc v
passed-IsOldest e es acc v reason (from, below, under) = (
  elim from [ inl same ↦ inl same | inr (member, free) ↦ inr (inr member, free) ],
  λ e' member free. elim member [
    | inl same ↦
        let idle : e.pins ≡ 0 = ground arith in
        let (a, held, earlier) = reason idle in ground (arith, under a held)
    | inr later ↦ below e' later free
  ],
  under,
)

pub oldest_idle-IsOldest :
    (es : List Entry) (acc : Option Entry) (v : Entry)
    → oldest_idle es acc ≡ some v
    → IsOldest es acc v
unfolding oldest_idle
oldest_idle-IsOldest [] acc v h = (inl h, λ e i. cc, λ a e. ground arith)
oldest_idle-IsOldest (e ∷ es) none v h = elim (Bool-cases (e.pins == 0)) [
  | inl idle ↦
      taken-IsOldest e es none v (ground arith) (λ a e'. cc)
        (oldest_idle-IsOldest es (some e) v
          (subst (λ b. oldest_idle es (if b && true then some e else none) ≡ some v) idle h))
  | inr busy ↦
      passed-IsOldest e es none v (λ free. absurd (ground arith))
        (oldest_idle-IsOldest es none v
          (subst (λ b. oldest_idle es (if b && true then some e else none) ≡ some v) busy h))
]
oldest_idle-IsOldest (e ∷ es) (some a) v h =
    elim (Bool-cases (e.pins == 0 && ltb e.last_used a.last_used)) [
      | inl better ↦
          taken-IsOldest e es (some a) v (ground arith)
            (λ b same. ground (arith, some-injective a b same))
            (oldest_idle-IsOldest es (some e) v
              (subst (λ b. oldest_idle es (if b then some e else some a) ≡ some v) better h))
      | inr worse ↦
          passed-IsOldest e es (some a) v (λ free. (a, refl, ground arith))
            (oldest_idle-IsOldest es (some a) v
              (subst (λ b. oldest_idle es (if b then some e else some a) ≡ some v) worse h))
    ]

pub has_file-in : (v : Entry) (es : List Entry) → IsIn v es → has_file v.file_id es ≡ true
has_file-in v [] i = cc
has_file-in v (e ∷ es) (inl same) = ground arith
has_file-in v (e ∷ es) (inr i) = ground (arith, has_file-in v es i)

pub erase-in : (file : ℕ) (v : Entry) (es : List Entry) → IsIn v (erase file es) → IsIn v es
unfolding erase
erase-in file v [] i = i
erase-in file v (e ∷ es) i = elim (Bool-cases (e.file_id == file)) [
  | inl hit ↦ inr (subst (λ b. IsIn v (if b then es else e ∷ erase file es)) hit i)
  | inr miss ↦ elim (subst (λ b. IsIn v (if b then es else e ∷ erase file es)) miss i) [
    | inl same ↦ inl same
    | inr later ↦ inr (erase-in file v es later)
  ]
]

pub erase-has_file :
    (file g : ℕ) (es : List Entry) → has_file g es ≡ false → has_file g (erase file es) ≡ false
unfolding erase
erase-has_file file g [] h = refl
erase-has_file file g (e ∷ es) h = ground (arith, erase-has_file file g es)

-- Erasing an idle entry: the pinned ones stay, and one entry goes.
pub erase-pinned :
    (v : Entry) (es : List Entry)
    → IsUnique es
    → IsIn v es
    → v.pins ≡ 0
    → (pinned (erase v.file_id es) ≡ pinned es)
      × (length (erase v.file_id es) + 1 ≡ length es)
      × IsUnique (erase v.file_id es)
unfolding erase
erase-pinned v [] u i idle = cc
erase-pinned v (e ∷ es) u (inl same) idle =
    let hit : (e.file_id == v.file_id) ≡ true = ground arith in
    let free : (e.pins == 0) ≡ true = ground arith in rw (hit, free) (refl, omega arith, u.1)
erase-pinned v (e ∷ es) u (inr i) idle =
    let other : (e.file_id == v.file_id) ≡ false = ground (arith, has_file-in v es i) in
    let (same, shorter, unique) = erase-pinned v es u.1 i idle in
    rw other
      (rw same refl, omega (arith, shorter), (erase-has_file v.file_id e.file_id es u.0, unique))
