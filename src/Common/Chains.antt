-- ===== src/Common/Chains.antt =====
-- Chains of frames through an array of links, as src/cpp/lib/buffer/page_table.cc and
-- src/cpp/lib/buffer/frame_free_list.h keep them, as lists of distinct frames.
use tele_path.Prelude.{
  ℕ, zero, suc, ◌+◌, ◌≤◌, ◌<◌, ◌≡◌, ◌≢◌, inl, inr, refl, Bool, true, false, Option, none, some,
  List, [], ◌∷◌, length, ◌==◌, ◌||◌, if◌then◌else◌, store, arith, Bool-cases,
}
use tele_path.Common.Types.{invalid_frame_id}

abbrev pub elem : ℕ → List ℕ → Bool
elem f [] = false
elem f (x ∷ xs) = f == x || elem f xs

abbrev pub remove : ℕ → List ℕ → List ℕ
remove f [] = []
remove f (x ∷ xs) = if f == x then remove f xs else x ∷ remove f xs

abbrev pub find : (ℕ → Bool) → List ℕ → Option ℕ
find p [] = none
find p (x ∷ xs) = if p x then some x else find p xs

abbrev pub Distinct : List ℕ → Type 0
Distinct [] = Unit {0}
Distinct (x ∷ xs) = (elem x xs ≡ false) × Distinct xs

-- The links lead from `current` through the frames of the list, all below `cap`, to the end.
abbrev pub IsChain : ℕ → (ℕ → ℕ) → ℕ → List ℕ → Type 0
IsChain cap next current [] = current ≡ invalid_frame_id
IsChain cap next current (x ∷ xs) = (current ≡ x) × (x < cap) × IsChain cap next (next x) xs

pub elem-remove_self : (f : ℕ) (xs : List ℕ) → elem f (remove f xs) ≡ false
elem-remove_self f [] = refl
elem-remove_self f (x ∷ xs) = ground (arith, elem-remove_self f xs)

pub elem-remove_ne : (f g : ℕ) (xs : List ℕ) → g ≢ f → elem g (remove f xs) ≡ elem g xs
elem-remove_ne f g [] h = refl
elem-remove_ne f g (x ∷ xs) h = ground (arith, elem-remove_ne f g xs)

pub remove_absent : (f : ℕ) (xs : List ℕ) → elem f xs ≡ false → remove f xs ≡ xs
remove_absent f [] h = refl
remove_absent f (x ∷ xs) h = ground (arith, remove_absent f xs)

pub remove-Distinct : (f : ℕ) (xs : List ℕ) → Distinct xs → Distinct (remove f xs)
remove-Distinct f [] d = tt
remove-Distinct f (x ∷ xs) d = ground (arith, remove-Distinct f xs d.1, elem-remove_ne f x xs)

pub find-remove :
    (p : ℕ → Bool) (f : ℕ) (xs : List ℕ) → find p xs ≢ some f → find p (remove f xs) ≡ find p xs
find-remove p f [] h = refl
find-remove p f (x ∷ xs) h = elim (Bool-cases (p x)) [
  | inl hit ↦ ground arith
  | inr miss ↦ ground (arith, find-remove p f xs)
]

-- Only what the test says of the members counts.
pub find-agree :
    (p q : ℕ → Bool) (f : ℕ) (xs : List ℕ)
    → elem f xs ≡ false
    → ((x : ℕ) → x ≢ f → p x ≡ q x)
    → find p xs ≡ find q xs
find-agree p q f [] h e = refl
find-agree p q f (x ∷ xs) h e = ground (arith, e x, find-agree p q f xs)

pub find-hit :
    (p : ℕ → Bool) (xs : List ℕ) (f : ℕ) → find p xs ≡ some f → (p f ≡ true) × (elem f xs ≡ true)
find-hit p [] f h = cc
find-hit p (x ∷ xs) f h = ground (arith, find-hit p xs f)

-- A write to a link outside the chain leaves the chain.
pub store-IsChain :
    (cap : ℕ) (next : ℕ → ℕ) (p v current : ℕ) (xs : List ℕ)
    → elem p xs ≡ false
    → IsChain cap next current xs
    → IsChain cap (store next p v) current xs
store-IsChain cap next p v current [] h c = c
store-IsChain cap next p v current (x ∷ xs) h c =
    let step : store next p v x ≡ next x = ground arith in
    (c.0, c.1, rw step (store-IsChain cap next p v (next x) xs (ground arith) c.2))

-- Only the links of the members count.
pub agree-IsChain :
    (cap : ℕ) (next links : ℕ → ℕ) (current : ℕ) (xs : List ℕ)
    → ((j : ℕ) → elem j xs ≡ true → links j ≡ next j)
    → IsChain cap next current xs
    → IsChain cap links current xs
agree-IsChain cap next links current [] e c = c
agree-IsChain cap next links current (x ∷ xs) e c = (
  c.0,
  c.1,
  rw (e x (ground arith))
      (agree-IsChain cap next links (next x) xs (λ j m. e j (ground arith)) c.2),
)

-- A list of distinct numbers below `cap` has at most `cap` members.
abbrev Below : ℕ → List ℕ → Type 0
Below cap [] = Unit {0}
Below cap (x ∷ xs) = (x < cap) × Below cap xs

remove-Below : (cap : ℕ) (xs : List ℕ) → Below (suc cap) xs → Below cap (remove cap xs)
remove-Below cap [] b = tt
remove-Below cap (x ∷ xs) b = ground (arith, remove-Below cap xs b.1)

length-remove : (f : ℕ) (xs : List ℕ) → Distinct xs → length xs ≤ length (remove f xs) + 1
length-remove f [] d = omega arith
length-remove f (x ∷ xs) d = ground (arith, length-remove f xs d.1, remove_absent f xs)

length-le_Below : (cap : ℕ) (xs : List ℕ) → Distinct xs → Below cap xs → length xs ≤ cap
length-le_Below zero [] d b = omega arith
length-le_Below zero (x ∷ xs) d b = absurd (omega arith)
length-le_Below (suc cap) xs d b = omega (
  arith,
  length-remove cap xs d,
  length-le_Below cap (remove cap xs) (remove-Distinct cap xs d) (remove-Below cap xs b),
)

IsChain-Below :
    (cap : ℕ) (next : ℕ → ℕ) (current : ℕ) (xs : List ℕ)
    → IsChain cap next current xs
    → Below cap xs
IsChain-Below cap next current [] c = tt
IsChain-Below cap next current (x ∷ xs) c = (c.1, IsChain-Below cap next (next x) xs c.2)

pub length-le :
    (cap : ℕ) (next : ℕ → ℕ) (current : ℕ) (xs : List ℕ)
    → Distinct xs
    → IsChain cap next current xs
    → length xs ≤ cap
length-le cap next current xs d c = length-le_Below cap xs d (IsChain-Below cap next current xs c)

-- A walk along a chain for a wanted frame: at most `steps` frames from `frame`.
unfoldable pub walk : (ℕ → Bool) → (ℕ → ℕ) → ℕ → ℕ → Option ℕ
walk wanted next zero frame = none
walk wanted next (suc steps) frame =
    let rest = walk wanted next steps (next frame) in
    if frame == invalid_frame_id then none else if wanted frame then some frame else rest

pub walk-find :
    (wanted : ℕ → Bool) (cap : ℕ) (next : ℕ → ℕ) (steps current : ℕ) (xs : List ℕ)
    → cap ≤ invalid_frame_id
    → IsChain cap next current xs
    → length xs ≤ steps
    → walk wanted next steps current ≡ find wanted xs
unfolding walk
walk-find wanted cap next zero current [] small c h = refl
walk-find wanted cap next zero current (x ∷ xs) small c h = absurd (omega arith)
walk-find wanted cap next (suc steps) current [] small c h = ground arith
walk-find wanted cap next (suc steps) current (x ∷ xs) small c h =
    ground (arith, c.0, walk-find wanted cap next steps (next x) xs)
