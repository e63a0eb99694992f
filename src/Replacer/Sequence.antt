-- ===== src/Replacer/Sequence.antt =====
-- The operations of src/cpp/lib/replacer/frame_list.h on the sequence that the list stands for.
use tele_path.Prelude.{
  ℕ, ◌≤◌, ◌<◌, ◌≡◌, ◌≢◌, ◌⊎◌, refl, subst, sym, ap, Bool, true, false, List, [], ◌∷◌, ◌==◌, ◌||◌,
  if◌then◌else◌, store, arith, ℕ_discrete, inl, inr,
}
use tele_path.Common.Types.{invalid_frame_id}
use tele_path.Common.Chains
use tele_path.Common.Chains.{elem, find, Distinct, IsChain, walk}
use tele_path.Replacer.FrameList.{
  FrameList, empty_list, push_front, unlink, move_to_front, pick_from,
}
use tele_path.Replacer.Recency
use tele_path.Replacer.Recency.{IsLinked, Represents}

-- The sequence from its other end, before `tail`.
abbrev pub back_first : List ℕ → List ℕ → List ℕ
back_first [] tail = tail
back_first (x ∷ xs) tail = back_first xs (x ∷ tail)

module _ (cap : ℕ) (small : cap ≤ invalid_frame_id) where
  pub empty-Represents : Represents cap empty_list []
  unfolding empty_list
  empty-Represents = record { links = (refl, refl); distinct = tt; member = λ f. refl }

  pub none_absent :
      (next prev : ℕ → ℕ) (last before current : ℕ) (xs : List ℕ)
      → IsLinked cap next prev last before current xs
      → elem invalid_frame_id xs ≡ false
  none_absent next prev last before current [] c = refl
  none_absent next prev last before current (x ∷ xs) c =
      ground (arith, none_absent next prev last x (next x) xs c.3)

  -- The frame is the first of the sequence when no frame is in front of it.
  first_test :
      (l : FrameList) (xs : List ℕ) (frame : ℕ)
      → Represents cap l xs
      → elem frame xs ≡ true
      → (if l.front == frame then l.front_to_back frame else l.front)
        ≡ (if l.back_to_front frame == invalid_frame_id then l.front_to_back frame else l.front)
  first_test l [] frame r m = absurd (ground arith)
  first_test l (x ∷ xs) frame r m = elim (ℕ_discrete (l.front) frame) [
    | yes e ↦
        ground
          (arith, r.links.0, r.links.2, ap (l.back_to_front) e, ap (l.back_to_front) (r.links.0))
    | no ne ↦
        let inside =
          Recency.prev-elem cap small l.front_to_back l.back_to_front l.back invalid_frame_id
            l.front (x ∷ xs) frame r.links m (λ q. ne (sym q)) in
        let absent =
          none_absent l.front_to_back l.back_to_front l.back invalid_frame_id l.front (x ∷ xs)
            r.links in
        let there : l.back_to_front frame ≢ invalid_frame_id =
          λ q. ground (arith, ap (λ f. elem f (x ∷ xs)) q) in
        ground arith
  ]

  pub last-elem :
      (next prev : ℕ → ℕ) (last before current x : ℕ) (xs : List ℕ)
      → IsLinked cap next prev last before current (x ∷ xs)
      → elem last (x ∷ xs) ≡ true
  last-elem next prev last before current x [] c = ground (arith, c.3.1)
  last-elem next prev last before current x (y ∷ ys) c =
      ground (arith, last-elem next prev last x (next x) y ys c.3)

  front_ne :
      (l : FrameList) (xs : List ℕ) (frame : ℕ)
      → Represents cap l xs
      → elem frame xs ≡ false
      → l.front ≢ frame ⊎ (l.front ≡ invalid_frame_id)
  front_ne l [] frame r out = inr (r.links.0)
  front_ne l (x ∷ xs) frame r out = inl (λ e. ground (arith, r.links.0))

  -- The links of PushFront past the new frame.
  module _ (l : FrameList) (frame : ℕ) where
    abbrev pushed_next : ℕ → ℕ
    pushed_next = store l.front_to_back frame l.front

    abbrev pushed_prev : ℕ → ℕ
    pushed_prev =
        let toward_front = store l.back_to_front frame invalid_frame_id in
        if l.front == invalid_frame_id then toward_front else store toward_front l.front frame

    abbrev pushed_last : ℕ
    pushed_last = if l.back == invalid_frame_id then frame else l.back

    pushed_rest :
        (xs : List ℕ)
        → Represents cap l xs
        → elem frame xs ≡ false
        → IsLinked cap pushed_next pushed_prev pushed_last frame (pushed_next frame) xs
    pushed_rest [] r out = (ground (arith, r.links.0), ground (arith, r.links.1))
    pushed_rest (x ∷ xs) r out =
        let c = r.links in
        let inside =
          last-elem l.front_to_back l.back_to_front l.back invalid_frame_id l.front x xs c in
        let absent =
          none_absent l.front_to_back l.back_to_front l.back invalid_frame_id l.front (x ∷ xs) c in
        let there : l.back ≢ invalid_frame_id = λ q. ground (arith, ap (λ f. elem f (x ∷ xs)) q) in
        let same_last : pushed_last ≡ l.back = ground arith in
        let own_front : pushed_next frame ≡ x = ground (arith, c.0) in
        let step : pushed_next x ≡ l.front_to_back x = ground arith in
        let back_x : pushed_prev x ≡ frame = ground (arith, c.0, c.1) in
        (
          own_front,
          c.1,
          back_x,
          rw step (
              subst (λ z. IsLinked cap pushed_next pushed_prev z x (l.front_to_back x) xs)
                (sym same_last)
                (Recency.agree-IsLinked cap small l.front_to_back l.back_to_front pushed_next
                  pushed_prev l.back x (l.front_to_back x) xs (λ j m. ground arith)
                  (λ j m. ground (arith, c.0, r.distinct.0)) c.3)),
        )

  pub unlink-Represents :
      (l : FrameList) (xs : List ℕ) (frame : ℕ)
      → Represents cap l xs
      → elem frame xs ≡ true
      → Represents cap (unlink l frame) (Chains.remove frame xs)
  unfolding unlink
  unlink-Represents l xs frame r m =
      let links =
        Recency.unlinked cap small l.front_to_back l.back_to_front l.back frame invalid_frame_id
          l.front xs r.links r.distinct
          (none_absent l.front_to_back l.back_to_front l.back invalid_frame_id l.front xs r.links)
          m in
      record {
        links =
            subst
              (λ c.
                IsLinked cap ((unlink l frame).front_to_back) ((unlink l frame).back_to_front)
                  ((unlink l frame).back) invalid_frame_id c (Chains.remove frame xs))
              (first_test l xs frame r m) links;
        distinct = Chains.remove-Distinct frame xs r.distinct;
        member = λ f.
            ground (
              arith,
              r.member f,
              Chains.elem-remove_self frame xs,
              Chains.elem-remove_ne frame f xs,
            );
      }

  pub push_front-Represents :
      (l : FrameList) (xs : List ℕ) (frame : ℕ)
      → Represents cap l xs
      → elem frame xs ≡ false
      → frame < cap
      → Represents cap (push_front l frame) (frame ∷ xs)
  unfolding push_front
  push_front-Represents l xs frame r out lt = record {
    links = (refl, lt, ground (arith, front_ne l xs frame r out), pushed_rest l frame xs r out);
    distinct = (out, r.distinct);
    member = λ f. ground (arith, r.member f);
  }

  -- The walk from the back meets the frames of the sequence in the opposite order.
  back-IsChain :
      (next prev : ℕ → ℕ) (last before current : ℕ) (xs tail : List ℕ)
      → IsLinked cap next prev last before current xs
      → IsChain cap prev before tail
      → IsChain cap prev last (back_first xs tail)
  back-IsChain next prev last before current [] tail c t =
      subst (λ b. IsChain cap prev b tail) (sym (c.1)) t
  back-IsChain next prev last before current (x ∷ xs) tail c t =
      back-IsChain next prev last x (next x) xs (x ∷ tail) c.3
        (refl, c.1, subst (λ b. IsChain cap prev b tail) (sym (c.2)) t)

  -- MoveToFront of a frame of the sequence.
  pub move_to_front-Represents :
      (l : FrameList) (xs : List ℕ) (frame : ℕ)
      → Represents cap l xs
      → elem frame xs ≡ true
      → Represents cap (move_to_front l frame) (frame ∷ Chains.remove frame xs)
  unfolding move_to_front
  move_to_front-Represents l xs frame r m =
      push_front-Represents (unlink l frame) (Chains.remove frame xs) frame
        (unlink-Represents l xs frame r m) (Chains.elem-remove_self frame xs)
        (Recency.member-lt cap small l.front_to_back l.back_to_front l.back invalid_frame_id l.front
          xs frame r.links m)

  elem-back_first :
      (f : ℕ) (xs tail : List ℕ) → elem f (back_first xs tail) ≡ (elem f xs || elem f tail)
  elem-back_first f [] tail = refl
  elem-back_first f (x ∷ xs) tail = ground (arith, elem-back_first f xs (x ∷ tail))

  back_first-Distinct :
      (xs tail : List ℕ)
      → Distinct xs
      → Distinct tail
      → ((f : ℕ) → elem f xs ≡ true → elem f tail ≡ false)
      → Distinct (back_first xs tail)
  back_first-Distinct [] tail d t apart = t
  back_first-Distinct (x ∷ xs) tail d t apart =
      back_first-Distinct xs (x ∷ tail) d.1 (apart x (ground arith), t)
        (λ f m. ground (arith, apart f))

  -- The loop of Victim gives the evictable frame that is nearest to the back.
  pub pick_from-find :
      (l : FrameList) (xs : List ℕ) (evictable : ℕ → Bool)
      → Represents cap l xs
      → pick_from l cap evictable ≡ find evictable (back_first xs [])
  unfolding pick_from
  pick_from-find l xs evictable r =
      let c =
        back-IsChain l.front_to_back l.back_to_front l.back invalid_frame_id l.front xs [] r.links
          refl in
      let d = back_first-Distinct xs [] r.distinct tt (λ f m. refl) in
      Chains.walk-find evictable cap l.back_to_front cap l.back (back_first xs []) small c
        (Chains.length-le cap l.back_to_front l.back (back_first xs []) d c)
