-- ===== src/FreeList/Steps.antt =====
-- Each access to the free list of src/cpp/lib/buffer/frame_free_list.h keeps the invariant.
use tele_path.Prelude.{
  ℕ, ◌+◌, ◌%◌, ◌≤◌, ◌<◌, ◌^◌, ◌≡◌, ◌≢◌, true, false, List, [], ◌∷◌, ◌==◌, store, arith, refl, subst,
  sym, ◌∙◌, ap, inl, inr, Bool-cases,
}
use tele_path.Common.Chains
use tele_path.Common.Chains.{elem, Distinct, IsChain}
use tele_path.FreeList.Ops.{none_index, index, version, push_link, push_head, pop_next, pop_head}
use tele_path.FreeList.System.{
  Local, idle, pushing, linked, popping, reading, Shared, pushes, tail, pop_loaded, fresh,
}
use tele_path.FreeList.Invariant.{
  Inv, IsSound, load, IsSound-start, IsSound-swap, IsSound-store, move-IsSound, move-IsAlone,
  pack-fields,
}

module _ (cap : ℕ) (small : cap ≤ none_index) where
  pub local_step :
      (s : Shared) (t : ℕ) (l : Local)
      → Inv cap s
      → IsSound cap s l
      → ((u f : ℕ) → u ≢ t → pushes l f ≡ true → pushes (s.locals u) f ≡ false)
      → Inv cap (record s { locals = store s.locals t l })
  local_step s t l i own apart =
      let locals = store s.locals t l in
      record {
        chain = i.chain;
        distinct = i.distinct;
        counted = i.counted;
        sound =
            move-IsSound cap (record s { locals = locals }) s.locals t l
              (λ u ne. IsSound-start cap s locals (s.locals u) (i.sound u))
              (IsSound-start cap s locals l own);
        alone = move-IsAlone s.locals t l i.alone apart;
      }

  -- A thread that goes on with the frame that it pushes.
  pub same_frame :
      (s : Shared) (t f : ℕ) (l : Local)
      → Inv cap s
      → s.locals t ≡ l
      → pushes l f ≡ true
      → (u g : ℕ) → u ≢ t
      → (g == f) ≡ true
      → pushes (s.locals u) g ≡ false
  same_frame s t f l i at p u g ne e =
      let same : g ≡ f = ground arith in rw same (i.alone t u f (λ q. ne (sym q)) (rw at p))

  pub pop_loaded-IsSound : (s : Shared) → Inv cap s → IsSound cap s (pop_loaded s.list.head s.clock)
  pop_loaded-IsSound s i = elim (Bool-cases (index s.list.head == none_index)) [
    | inl e ↦ rw e tt
    | inr e ↦ rw e (load cap s i, ground arith)
  ]

  pub pop_loaded-pushes : (head clock f : ℕ) → pushes (pop_loaded head clock) f ≡ false
  pop_loaded-pushes head clock f = ground arith

  pub store_step :
      (s : Shared) (t f head clock : ℕ)
      → Inv cap s
      → s.locals t ≡ pushing f head clock
      → Inv cap (record s {
        list = push_link s.list f head;
        locals = store s.locals t (linked f head clock);
      })
  unfolding push_link
  store_step s t f head clock i at =
      let own : IsSound cap s (pushing f head clock) = subst (IsSound cap s) at (i.sound t) in
      let locals = store s.locals t (linked f head clock) in
      let self : pushes (pushing f head clock) f ≡ true = ground arith in
      let apart = same_frame s t f (pushing f head clock) i at self in
      record {
        chain =
            Chains.store-IsChain cap s.list.next f (index head) (index s.list.head) s.stack own.2
              i.chain;
        distinct = i.distinct;
        counted = i.counted;
        sound =
            move-IsSound cap (record s { list = push_link s.list f head; locals = locals }) s.locals
              t (linked f head clock)
              (λ u ne.
                IsSound-store cap s f (index head) locals (s.locals u) i own.2
                  (apart u f ne (ground arith)) (i.sound u))
              (own.0, own.1, own.2, ground arith);
        alone = move-IsAlone s.locals t (linked f head clock) i.alone apart;
      }

  pub push_swapped :
      (s : Shared) (t f head clock : ℕ)
      → Inv cap s
      → s.locals t ≡ linked f head clock
      → s.list.head ≡ head
      → Inv cap (record s {
        list = record s.list { head = push_head f head };
        stack = f ∷ s.stack;
        clock = s.clock + 1;
        locals = store s.locals t idle;
      })
  unfolding push_head
  push_swapped s t f head clock i at eq =
      let own : IsSound cap s (linked f head clock) = subst (IsSound cap s) at (i.sound t) in
      let self : pushes (linked f head clock) f ≡ true = ground arith in
      let apart = same_frame s t f (linked f head clock) i at self in
      let fields = pack-fields f ((version head + 1) % 2 ^ 32) (omega arith) (omega arith) in
      let locals = store s.locals t idle in
      let link : s.list.next f ≡ index s.list.head = own.3 ∙ ap index (sym eq) in
      let count : version head ≡ s.clock % 2 ^ 32 = ap version (sym eq) ∙ i.counted in
      record {
        chain = (fields.0, own.1, rw link (i.chain));
        distinct = (own.2, i.distinct);
        counted = fields.1 ∙ omega arith;
        sound =
            move-IsSound cap
              (record s {
                list = record s.list { head = push_head f head };
                stack = f ∷ s.stack;
                clock = s.clock + 1;
                locals = locals;
              })
              s.locals t idle
              (λ u ne.
                IsSound-swap cap s (push_head f head) (f ∷ s.stack) locals (s.locals u)
                  (λ g h out. ground (arith, apart u g ne)) (i.sound u))
              tt;
        alone = move-IsAlone s.locals t idle i.alone (λ u g ne h. absurd (ground arith));
      }

  pop-IsChain :
      (links : ℕ → ℕ) (current : ℕ) (xs : List ℕ)
      → current ≢ none_index
      → IsChain cap links current xs
      → IsChain cap links (links current) (tail xs)
  pop-IsChain links current [] ne c = absurd (ne c)
  pop-IsChain links current (x ∷ xs) ne c = rw (c.0) (c.2)

  chain-lt :
      (links : ℕ → ℕ) (current : ℕ) (xs : List ℕ) → IsChain cap links current xs → current < 2 ^ 32
  chain-lt links current [] c = omega arith
  chain-lt links current (x ∷ xs) c = omega (arith, c.0)

  tail-Distinct : (xs : List ℕ) → Distinct xs → Distinct (tail xs)
  tail-Distinct [] d = tt
  tail-Distinct (x ∷ xs) d = d.1

  elem-tail : (f : ℕ) (xs : List ℕ) → elem f xs ≡ false → elem f (tail xs) ≡ false
  elem-tail f [] h = refl
  elem-tail f (x ∷ xs) h = ground arith

  pub pop_swapped :
      (s : Shared) (t head link clock : ℕ)
      → Inv cap s
      → s.locals t ≡ reading head link clock
      → s.list.head ≡ head
      → s.clock < clock + 2 ^ 32
      → Inv cap (record s {
        list = record s.list { head = pop_head link head };
        stack = tail s.stack;
        clock = s.clock + 1;
        locals = store s.locals t idle;
      })
  unfolding pop_head
  pop_swapped s t head link clock i at eq fresh =
      let own : IsSound cap s (reading head link clock) = subst (IsSound cap s) at (i.sound t) in
      let count : version head ≡ s.clock % 2 ^ 32 = ap version (sym eq) ∙ i.counted in
      let now : s.clock ≡ clock = omega arith in
      let at_head : index head ≡ index s.list.head = ap index (sym eq) in
      let step : link ≡ s.list.next (index s.list.head) = own.2 now ∙ ap (s.list.next) at_head in
      let c =
        pop-IsChain s.list.next (index s.list.head) s.stack (λ e. own.1 (at_head ∙ e)) i.chain in
      let lt : link < 2 ^ 32 =
        rw step (chain-lt s.list.next (s.list.next (index s.list.head)) (tail s.stack) c) in
      let fields = pack-fields link ((version head + 1) % 2 ^ 32) lt (omega arith) in
      let locals = store s.locals t idle in
      record {
        chain = subst (λ x. IsChain cap s.list.next x (tail s.stack)) (sym (fields.0 ∙ step)) c;
        distinct = tail-Distinct s.stack i.distinct;
        counted = fields.1 ∙ omega arith;
        sound =
            move-IsSound cap
              (record s {
                list = record s.list { head = pop_head link head };
                stack = tail s.stack;
                clock = s.clock + 1;
                locals = locals;
              })
              s.locals t idle
              (λ u ne.
                IsSound-swap cap s (pop_head link head) (tail s.stack) locals (s.locals u)
                  (λ g h out. elem-tail g s.stack out) (i.sound u))
              tt;
        alone = move-IsAlone s.locals t idle i.alone (λ u g ne h. absurd (ground arith));
      }

  pub read-IsSound :
      (s : Shared) (head clock : ℕ)
      → IsSound cap s (popping head clock)
      → IsSound cap s (reading head (pop_next s.list head) clock)
  unfolding pop_next
  read-IsSound s head clock o = (o.0, o.1, λ e. refl)

  pub sound-absent :
      (s : Shared) (f : ℕ) (l : Local)
      → IsSound cap s l
      → pushes l f ≡ true
      → elem f s.stack ≡ false
  sound-absent s f (pushing g head clock) o h = let same : f ≡ g = ground arith in rw same (o.2)
  sound-absent s f (linked g head clock) o h = let same : f ≡ g = ground arith in rw same (o.2)
  sound-absent s f _ o h = absurd (ground arith)

  pub top_of :
      (links : ℕ → ℕ) (current : ℕ) (xs : List ℕ)
      → current ≢ none_index
      → IsChain cap links current xs
      → xs ≡ current ∷ tail xs
  top_of links current [] ne c = absurd (ne c)
  top_of links current (x ∷ xs) ne c = rw (c.0) refl

  pub none_top :
      (links : ℕ → ℕ) (current : ℕ) (xs : List ℕ)
      → current ≡ none_index
      → IsChain cap links current xs
      → xs ≡ []
  none_top links current [] e c = refl
  none_top links current (x ∷ xs) e c = absurd (omega (arith, c.0))
