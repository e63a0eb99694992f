-- ===== src/Replacer/Recency.antt =====
-- The list of src/cpp/lib/replacer/frame_list.h as a sequence of frames, the front first.
use tele_path.Prelude.{
  ℕ, ◌≤◌, ◌<◌, ◌≡◌, ◌≢◌, refl, subst, sym, ap, ◌∙◌, true, false, List, [], ◌∷◌, ◌==◌, if◌then◌else◌,
  store, arith, ℕ_discrete,
}
use tele_path.Common.Types.{invalid_frame_id}
use tele_path.Common.Chains
use tele_path.Common.Chains.{elem, find, Distinct, IsChain, walk}
use tele_path.Replacer.FrameList.{FrameList}

-- From `current`, with `before` in front of it, the links lead through the frames of the sequence to
-- `last` and back.
abbrev pub IsLinked : ℕ → (ℕ → ℕ) → (ℕ → ℕ) → ℕ → ℕ → ℕ → List ℕ → Type 0
IsLinked cap next prev last before current [] = (current ≡ invalid_frame_id) × (last ≡ before)
IsLinked cap next prev last before current (x ∷ xs) =
    (current ≡ x) × (x < cap) × (prev x ≡ before) × IsLinked cap next prev last x (next x) xs

pub record Represents (cap : ℕ) (l : FrameList) (xs : List ℕ) : Type 0 where
  pub links : IsLinked cap l.front_to_back l.back_to_front l.back invalid_frame_id l.front xs
  pub distinct : Distinct xs
  pub member : (f : ℕ) → l.linked f ≡ elem f xs

module _ (cap : ℕ) (small : cap ≤ invalid_frame_id) where
  -- Only the links of the members count.
  pub agree-IsLinked :
      (next prev next' prev' : ℕ → ℕ) (last before current : ℕ) (xs : List ℕ)
      → ((j : ℕ) → elem j xs ≡ true → next' j ≡ next j)
      → ((j : ℕ) → elem j xs ≡ true → prev' j ≡ prev j)
      → IsLinked cap next prev last before current xs
      → IsLinked cap next' prev' last before current xs
  agree-IsLinked next prev next' prev' last before current [] en ep c = c
  agree-IsLinked next prev next' prev' last before current (x ∷ xs) en ep c = (
    c.0,
    c.1,
    ep x (ground arith) ∙ c.2,
    rw (en x (ground arith)) (
        agree-IsLinked next prev next' prev' last x (next x) xs (λ j m. en j (ground arith))
          (λ j m. ep j (ground arith)) c.3),
  )

  pub member-lt :
      (next prev : ℕ → ℕ) (last before current : ℕ) (xs : List ℕ) (f : ℕ)
      → IsLinked cap next prev last before current xs
      → elem f xs ≡ true
      → f < cap
  member-lt next prev last before current [] f c m = absurd (ground arith)
  member-lt next prev last before current (x ∷ xs) f c m =
      ground (arith, c.1, member-lt next prev last x (next x) xs f c.3)

  next-elem :
      (next prev : ℕ → ℕ) (last before current : ℕ) (xs : List ℕ) (f : ℕ)
      → IsLinked cap next prev last before current xs
      → elem f xs ≡ true
      → next f ≢ invalid_frame_id
      → elem (next f) xs ≡ true
  next-elem next prev last before current [] f c m ne = absurd (ground arith)
  next-elem next prev last before current (x ∷ []) f c m ne = absurd (ground (arith, c.3.0))
  next-elem next prev last before current (x ∷ y ∷ ys) f c m ne =
      ground (arith, c.3.0, next-elem next prev last x (next x) (y ∷ ys) f c.3)

  pub prev-elem :
      (next prev : ℕ → ℕ) (last before current : ℕ) (xs : List ℕ) (f : ℕ)
      → IsLinked cap next prev last before current xs
      → elem f xs ≡ true
      → f ≢ current
      → elem (prev f) xs ≡ true
  prev-elem next prev last before current [] f c m ne = absurd (ground arith)
  prev-elem next prev last before current (x ∷ []) f c m ne = absurd (ground (arith, c.0))
  prev-elem next prev last before current (x ∷ y ∷ ys) f c m ne =
      ground (
        arith,
        c.0,
        c.3.0,
        c.3.2,
        ap prev c.3.0,
        prev-elem next prev last x (next x) (y ∷ ys) f c.3,
      )

  -- The links that Unlink leaves around `frame`.
  module _ (next prev : ℕ → ℕ) (last frame : ℕ) where
    abbrev after_next : ℕ → ℕ
    after_next =
        if prev frame == invalid_frame_id then next else store next (prev frame) (next frame)

    abbrev after_prev : ℕ → ℕ
    after_prev =
        if next frame == invalid_frame_id then prev else store prev (next frame) (prev frame)

    abbrev after_last : ℕ
    after_last = if next frame == invalid_frame_id then prev frame else last

    unlinked_first :
        (before : ℕ) (ys : List ℕ)
        → IsLinked cap next prev last before frame (frame ∷ ys)
        → Distinct (frame ∷ ys)
        → elem before ys ≡ false
        → IsLinked cap after_next after_prev after_last before (next frame) ys
    unlinked_first before [] c d out = (c.3.0, ground (arith, c.3.0, c.2))
    unlinked_first before (y ∷ ys) c d out =
        let here_y : next frame ≡ y = c.3.0 in
        let y_lt : y < cap = c.3.1 in
        let keep_next : (j : ℕ) → elem j (y ∷ ys) ≡ true → after_next j ≡ next j =
          λ j m. ground (arith, c.2) in
        let keep_prev : (j : ℕ) → elem j ys ≡ true → after_prev j ≡ prev j =
          λ j m. ground (arith, d.1.0) in
        let step : after_next y ≡ next y = keep_next y (ground arith) in
        let back_y : after_prev y ≡ before = ground (arith, c.2) in
        let same_last : after_last ≡ last = ground arith in
        (
          here_y,
          y_lt,
          back_y,
          rw step (
              subst (λ z. IsLinked cap after_next after_prev z y (next y) ys) (sym same_last)
                (agree-IsLinked next prev after_next after_prev last y (next y) ys
                  (λ j m. keep_next j (ground arith)) keep_prev c.3.3)),
        )

    -- The frame before the frame, or a frame farther from it.
    next_step :
        (x : ℕ) (xs : List ℕ)
        → x < cap
        → IsLinked cap next prev last x (next x) xs
        → elem x xs ≡ false
        → elem frame xs ≡ true
        → after_next x ≡ (if next x == frame then next frame else next x)
    next_step x [] lt c out m = absurd (ground arith)
    next_step x (y ∷ ys) lt c out m = elim (ℕ_discrete (next x) frame) [
      | yes e ↦ ground (arith, c.0, c.2, ap prev e, ap prev c.0)
      | no ne ↦
          ground (arith, prev-elem next prev last x (next x) (y ∷ ys) frame c m (λ q. ne (sym q)))
    ]

    pub unlinked :
        (before current : ℕ) (xs : List ℕ)
        → IsLinked cap next prev last before current xs
        → Distinct xs
        → elem before xs ≡ false
        → elem frame xs ≡ true
        → IsLinked cap after_next after_prev after_last before
            (if current == frame then next frame else current)
            (Chains.remove frame xs)
    unlinked before current [] c d out m = absurd (ground arith)
    unlinked before current (x ∷ xs) c d out m = elim (ℕ_discrete x frame) [
      | yes e ↦
          let at_front : (current == frame) ≡ true = ground (arith, c.0) in
          let gone : Chains.remove frame (x ∷ xs) ≡ xs =
            ground (arith, Chains.remove_absent frame xs, e, d.0) in
          let own : IsLinked cap next prev last before x (x ∷ xs) = (refl, c.1, c.2, c.3) in
          rw (at_front, gone)
            (unlinked_first before xs
              (subst (λ z. IsLinked cap next prev last before z (z ∷ xs)) e own)
              (subst (λ z. Distinct (z ∷ xs)) e d) (ground arith))
      | no ne ↦
          let past : (current == frame) ≡ false = ground (arith, c.0) in
          let kept : Chains.remove frame (x ∷ xs) ≡ x ∷ Chains.remove frame xs = ground arith in
          let inside : elem frame xs ≡ true = ground arith in
          let ih = unlinked x (next x) xs c.3 d.1 d.0 inside in
          let next_of : after_next x ≡ (if next x == frame then next frame else next x) =
            next_step x xs c.1 c.3 d.0 inside in
          let prev_of : after_prev x ≡ before =
            ground (arith, c.2, next-elem next prev last x (next x) xs frame c.3 inside, d.0) in
          rw (past, kept) (c.0, c.1, prev_of, rw next_of ih)
    ]
