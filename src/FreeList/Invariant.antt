-- ===== src/FreeList/Invariant.antt =====
-- What every access to the free list of src/cpp/lib/buffer/frame_free_list.h keeps.
use tele_path.Prelude.{
  ℕ, ◌+◌, ◌*◌, ◌%◌, ◌≤◌, ◌<◌, ◌^◌, ◌≡◌, ◌≢◌, true, false, List, [], ◌∷◌, ◌==◌, store, bit_or, arith,
  refl, ap, ℕ_discrete, inl, inr, Bool-cases,
}
use tele_path.Prelude.Bits.{or-and_add, shift-and}
use tele_path.Common.Chains.{elem, Distinct, IsChain}
use tele_path.FreeList.Ops.{none_index, pack, index, version}
use tele_path.FreeList.System.{Local, idle, pushing, linked, popping, reading, Shared, pushes}

pub pack-fields :
    (i v : ℕ)
    → i < 2 ^ 32
    → v < 2 ^ 32
    → (index (pack i v) ≡ i) × (version (pack i v) ≡ v) × (pack i v < 2 ^ 64)
unfolding pack index version
pack-fields i v hi hv =
    let sum : bit_or (v * 2 ^ 32) i ≡ v * 2 ^ 32 + i =
      omega (arith, or-and_add (v * 2 ^ 32) i, shift-and 32 v i hi) in
    omega arith

-- A word below 2 ^ 64 is its index and its version.
pub same_word :
    (a b : ℕ) → a < 2 ^ 64 → b < 2 ^ 64 → index a ≡ index b → version a ≡ version b → a ≡ b
unfolding index version
same_word a b ha hb i v = omega arith

-- What a thread has loaded: the head of `clock` swaps ago.
abbrev pub Loaded : Shared → ℕ → ℕ → Type 0
Loaded s head clock =
    (clock ≤ s.clock) × (version head ≡ clock % 2 ^ 32) × (s.clock ≡ clock → head ≡ s.list.head)

abbrev pub IsSound : ℕ → Shared → Local → Type 0
IsSound cap s idle = Unit {0}
IsSound cap s (pushing f head clock) = Loaded s head clock × (f < cap) × (elem f s.stack ≡ false)
IsSound cap s (linked f head clock) =
    Loaded s head clock × (f < cap) × (elem f s.stack ≡ false) × (s.list.next f ≡ index head)
IsSound cap s (popping head clock) = Loaded s head clock × (index head ≢ none_index)
IsSound cap s (reading head link clock) =
    Loaded s head clock
    × (index head ≢ none_index)
    × (s.clock ≡ clock → link ≡ s.list.next (index head))

pub record Inv (cap : ℕ) (s : Shared) : Type 0 where
  pub chain : IsChain cap s.list.next (index s.list.head) s.stack
  pub distinct : Distinct s.stack
  pub counted : version s.list.head ≡ s.clock % 2 ^ 32
  pub sound : (t : ℕ) → IsSound cap s (s.locals t)
  pub alone : (t u f : ℕ) → t ≢ u → pushes (s.locals t) f ≡ true → pushes (s.locals u) f ≡ false

-- A load of the head.
pub load : (cap : ℕ) (s : Shared) → Inv cap s → Loaded s (s.list.head) (s.clock)
load cap s i = (omega arith, i.counted, λ e. refl)

-- Only what a thread's facts are about counts.
pub IsSound-start :
    (cap : ℕ) (s : Shared) (locals : ℕ → Local) (l : Local)
    → IsSound cap s l
    → IsSound cap (record s { locals = locals }) l
IsSound-start cap s locals idle o = tt
IsSound-start cap s locals (pushing f head clock) o = o
IsSound-start cap s locals (linked f head clock) o = o
IsSound-start cap s locals (popping head clock) o = o
IsSound-start cap s locals (reading head link clock) o = o

-- A swap by another thread leaves the facts of a thread that pushes no frame of the new stack.
pub IsSound-swap :
    (cap : ℕ) (s : Shared) (head : ℕ) (stack : List ℕ) (locals : ℕ → Local) (l : Local)
    → ((f : ℕ) → pushes l f ≡ true → elem f s.stack ≡ false → elem f stack ≡ false)
    → IsSound cap s l
    → IsSound cap
        (record s {
          list = record s.list { head = head };
          stack = stack;
          clock = s.clock + 1;
          locals = locals;
        })
        l
IsSound-swap cap s head stack locals idle h o = tt
IsSound-swap cap s head stack locals (pushing f old clock) h o = ground (arith, h f)
IsSound-swap cap s head stack locals (linked f old clock) h o = ground (arith, h f)
IsSound-swap cap s head stack locals (popping old clock) h o = ground arith
IsSound-swap cap s head stack locals (reading old link clock) h o = ground arith

pub head_elem :
    (cap : ℕ) (links : ℕ → ℕ) (current : ℕ) (xs : List ℕ)
    → IsChain cap links current xs
    → current ≢ none_index
    → elem current xs ≡ true
head_elem cap links current [] c h = absurd (h c)
head_elem cap links current (x ∷ xs) c h = ground (arith, c.0)

-- The store of a link by the thread that pushes the frame.
pub IsSound-store :
    (cap : ℕ) (s : Shared) (f v : ℕ) (locals : ℕ → Local) (l : Local)
    → Inv cap s
    → elem f s.stack ≡ false
    → pushes l f ≡ false
    → IsSound cap s l
    → IsSound cap
        (record s { list = record s.list { next = store s.list.next f v }; locals = locals })
        l
IsSound-store cap s f v locals idle i out other o = tt
IsSound-store cap s f v locals (pushing g head clock) i out other o = o
IsSound-store cap s f v locals (linked g head clock) i out other o = ground arith
IsSound-store cap s f v locals (popping head clock) i out other o = o
IsSound-store cap s f v locals (reading head link clock) i out other o = (
  o.0,
  o.1,
  λ e.
      let inside = head_elem cap s.list.next (index s.list.head) s.stack i.chain in
      ground (arith, o.0.2 e, ap index (o.0.2 e), o.2 e),
)

-- One thread moves on.
pub move-IsSound :
    (cap : ℕ) (s : Shared) (locals : ℕ → Local) (t : ℕ) (l : Local)
    → ((u : ℕ) → u ≢ t → IsSound cap s (locals u))
    → IsSound cap s l
    → (u : ℕ) → IsSound cap s (store locals t l u)
move-IsSound cap s locals t l others own u = elim (ℕ_discrete u t) [
  | yes e ↦ let test : (u == t) ≡ true = ground arith in rw test own
  | no ne ↦ let test : (u == t) ≡ false = ground arith in rw test (others u ne)
]

abbrev pub IsAlone : (ℕ → Local) → Type 0
IsAlone locals = (t u f : ℕ) → t ≢ u → pushes (locals t) f ≡ true → pushes (locals u) f ≡ false

pub move-IsAlone :
    (locals : ℕ → Local) (t : ℕ) (l : Local)
    → IsAlone locals
    → ((u f : ℕ) → u ≢ t → pushes l f ≡ true → pushes (locals u) f ≡ false)
    → IsAlone (store locals t l)
move-IsAlone locals t l alone own u v f ne h = elim (ℕ_discrete u t) [
  | yes e ↦
      let here_u : (u == t) ≡ true = ground arith in
      let there_v : (v == t) ≡ false = ground arith in
      rw there_v (own v f (ground arith) (rw here_u at h))
  | no nu ↦ elim (ℕ_discrete v t) [
    | yes e ↦
        let there_u : (u == t) ≡ false = ground arith in
        let here_v : (v == t) ≡ true = ground arith in
        let w = rw there_u at h in
        rw here_v (elim (Bool-cases (pushes l f)) [
          | inl yes_l ↦ ground (arith, own u f nu yes_l)
          | inr no_l ↦ no_l
        ])
    | no nv ↦
        let there_u : (u == t) ≡ false = ground arith in
        let there_v : (v == t) ≡ false = ground arith in
        rw there_v (alone u v f ne (rw there_u at h))
  ]
]
