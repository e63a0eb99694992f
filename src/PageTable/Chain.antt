-- ===== src/PageTable/Chain.antt =====
-- The walks of src/cpp/lib/buffer/page_table.cc along a chain.
use tele_path.Prelude.{
  ℕ, zero, suc, ◌≤◌, ◌<◌, ◌≡◌, ◌≢◌, refl, sym, ◌∙◌, true, false, List, [], ◌∷◌, length, ◌==◌,
  if◌then◌else◌, store, arith, ℕ_discrete,
}
use tele_path.PageTable.Table.{none_index}
use tele_path.PageTable.Ops.{bypass}
use tele_path.Common.Chains.{elem, remove, Distinct, IsChain, store-IsChain, remove_absent}

-- What the loop of Unlink leaves: the chain without the frame, and all other links.
pub record Bypassed (cap : ℕ) (next : ℕ → ℕ) (x : ℕ) (xs : List ℕ) (frame : ℕ) (links : ℕ → ℕ)
    : Type 0 where
  pub chain : IsChain cap links x (x ∷ remove frame xs)
  pub others : (j : ℕ) → elem j (x ∷ xs) ≡ false → links j ≡ next j

module _ (cap : ℕ) (next : ℕ → ℕ) (frame : ℕ) (small : cap ≤ none_index) where
  bypass_hit :
      (fuel x : ℕ)
      → x < cap
      → next x ≡ frame
      → bypass (suc fuel) next x frame (next frame) ≡ store next x (next frame)
  unfolding bypass
  bypass_hit fuel x h e = ground arith

  bypass_miss :
      (fuel x : ℕ)
      → x < cap
      → next x ≢ frame
      → bypass (suc fuel) next x frame (next frame) ≡ bypass fuel next (next x) frame (next frame)
  unfolding bypass
  bypass_miss fuel x h e = ground arith

  hit-Bypassed :
      (x : ℕ) (ys : List ℕ)
      → IsChain cap next x (x ∷ frame ∷ ys)
      → Distinct (x ∷ frame ∷ ys)
      → Bypassed cap next x (frame ∷ ys) frame (store next x (next frame))
  hit-Bypassed x ys c d =
      let links = store next x (next frame) in
      let step : links x ≡ next frame = ground arith in
      let gone : remove frame (frame ∷ ys) ≡ ys = ground (arith, remove_absent frame ys d.1.0) in
      let rest = store-IsChain cap next x (next frame) (next frame) ys (ground arith) c.2.2 in
      record { chain = (refl, c.1, rw (step, gone) rest); others = λ j h. ground arith }

  miss-Bypassed :
      (x y : ℕ) (ys : List ℕ) (links : ℕ → ℕ)
      → x < cap
      → next x ≡ y
      → elem x (y ∷ ys) ≡ false
      → y ≢ frame
      → Bypassed cap next y ys frame links
      → Bypassed cap next x (y ∷ ys) frame links
  miss-Bypassed x y ys links h e out ne b =
      let kept : remove frame (y ∷ ys) ≡ y ∷ remove frame ys = ground arith in
      let step : links x ≡ y = b.others x out ∙ e in
      record {
        chain = (refl, h, rw (kept, step) (b.chain));
        others = λ j o. b.others j (ground arith);
      }

  pub bypass-Bypassed :
      (fuel x : ℕ) (xs : List ℕ)
      → IsChain cap next x (x ∷ xs)
      → Distinct (x ∷ xs)
      → elem frame xs ≡ true
      → length xs < fuel
      → Bypassed cap next x xs frame (bypass fuel next x frame (next frame))
  bypass-Bypassed zero x xs c d m h = absurd (omega arith)
  bypass-Bypassed (suc fuel) x [] c d m h = cc
  bypass-Bypassed (suc fuel) x (y ∷ ys) c d m h = elim (ℕ_discrete y frame) [
    | yes hit ↦
        let e : next x ≡ frame = c.2.0 ∙ hit in
        rw (bypass_hit fuel x c.1 e, hit) (hit-Bypassed x ys (rw hit at c) (rw hit at d))
    | no miss ↦
        let e : next x ≡ y = c.2.0 in
        let ih = bypass-Bypassed fuel y ys (refl, c.2.1, c.2.2) d.1 (ground arith) (omega arith) in
        rw (bypass_miss fuel x c.1 (λ f. miss (sym e ∙ f)), e)
          (miss-Bypassed x y ys _ c.1 e d.0 miss ih)
  ]

  -- Unlink on a chain that holds the frame: the links and the head that it leaves before it clears
  -- the frame's own link.
  abbrev Unlinks : ℕ → List ℕ → Type 0
  Unlinks head xs =
      let links = if head == frame then next else bypass cap next head frame (next frame) in
      IsChain cap links (if head == frame then next frame else head) (remove frame xs)
      × ((j : ℕ) → elem j xs ≡ false → links j ≡ next j)

  unlinked_at :
      (x : ℕ) (xs : List ℕ)
      → IsChain cap next x (x ∷ xs)
      → Distinct (x ∷ xs)
      → elem frame (x ∷ xs) ≡ true
      → length (x ∷ xs) ≤ cap
      → Unlinks x (x ∷ xs)
  unlinked_at x xs c d m h = elim (ℕ_discrete x frame) [
    | yes hit ↦
        let at_head : (x == frame) ≡ true = ground arith in
        let gone : remove frame (x ∷ xs) ≡ xs = ground (arith, remove_absent frame xs) in
        rw (at_head, gone) (rw hit at c.2, λ j o. refl)
    | no miss ↦
        let past : (x == frame) ≡ false = ground arith in
        let kept : remove frame (x ∷ xs) ≡ x ∷ remove frame xs = ground arith in
        let b = bypass-Bypassed cap x xs c d (ground arith) (omega arith) in
        rw (past, kept) (b.chain, λ j o. b.others j o)
  ]

  pub unlinked :
      (head : ℕ) (xs : List ℕ)
      → IsChain cap next head xs
      → Distinct xs
      → elem frame xs ≡ true
      → length xs ≤ cap
      → let links = if head == frame then next else bypass cap next head frame (next frame) in
        IsChain cap links (if head == frame then next frame else head) (remove frame xs)
        × ((j : ℕ) → elem j xs ≡ false → links j ≡ next j)
  unlinked head [] c d m h = cc
  unlinked head (x ∷ xs) c d m h = rw (c.0) (unlinked_at x xs (refl, c.1, c.2) d m h)
