-- ===== src/FreeList/Safety.antt =====
-- What holds of the free list of src/cpp/lib/buffer/frame_free_list.h in every interleaving.
use tele_path.Prelude.{
  ℕ, ◌+◌, ◌≤◌, ◌<◌, ◌^◌, ◌≡◌, ◌≢◌, true, false, [], ◌∷◌, arith, refl, subst, sym, ◌∙◌, ap,
}
use tele_path.Common.Chains.{elem, Distinct, IsChain}
use tele_path.FreeList.Ops.{none_index, index, empty_list, pop_next, pop_head}
use tele_path.FreeList.System.{
  pushing, linked, popping, reading, Shared, pushes, tail, pop_loaded, Step, push_start, push_store,
  push_swap, push_retry, pop_start, pop_read, pop_swap, pop_retry, Reach, here, next, fresh,
}
use tele_path.FreeList.Invariant.{Inv, IsSound, load, pack-fields}
use tele_path.FreeList.Steps

module _ (cap : ℕ) (small : cap ≤ none_index) where
  -- Every access of every thread keeps the invariant.
  pub Step-Inv : {s s' : Shared} → Step cap s s' → Inv cap s → Inv cap s'
  Step-Inv {s} (push_start t f at room out free eq) i = rw eq (
      Steps.local_step cap small s t (pushing f s.list.head s.clock) i (load cap s i, room, out)
        (λ u g ne h. let same : g ≡ f = ground arith in rw same (free u)))
  Step-Inv {s} (push_store t f head clock at eq) i =
      rw eq (Steps.store_step cap small s t f head clock i at)
  Step-Inv {s} (push_swap t f head clock at now fresh eq) i =
      rw eq (Steps.push_swapped cap small s t f head clock i at now)
  Step-Inv {s} (push_retry t f head clock at eq) i =
      let own : IsSound cap s (linked f head clock) = subst (IsSound cap s) at (i.sound t) in
      let self : pushes (linked f head clock) f ≡ true = ground arith in
      rw eq (
        Steps.local_step cap small s t (pushing f s.list.head s.clock) i
          (load cap s i, own.1, own.2)
          (Steps.same_frame cap small s t f (linked f head clock) i at self))
  Step-Inv {s} (pop_start t at eq) i = rw eq (
      Steps.local_step cap small s t (pop_loaded s.list.head s.clock) i
        (Steps.pop_loaded-IsSound cap small s i)
        (λ u g ne h.
          absurd (ground (arith, Steps.pop_loaded-pushes cap small s.list.head s.clock g))))
  Step-Inv {s} (pop_read t head clock at eq) i =
      let own : IsSound cap s (popping head clock) = subst (IsSound cap s) at (i.sound t) in
      rw eq (
        Steps.local_step cap small s t (reading head (pop_next s.list head) clock) i
          (Steps.read-IsSound cap small s head clock own) (λ u g ne h. absurd (ground arith)))
  Step-Inv {s} (pop_swap t head link clock at now fresh eq) i =
      rw eq (Steps.pop_swapped cap small s t head link clock i at now fresh)
  Step-Inv {s} (pop_retry t head link clock at eq) i = rw eq (
      Steps.local_step cap small s t (pop_loaded s.list.head s.clock) i
        (Steps.pop_loaded-IsSound cap small s i)
        (λ u g ne h.
          absurd (ground (arith, Steps.pop_loaded-pushes cap small s.list.head s.clock g))))

  Reach-Inv : {s s' : Shared} → Inv cap s → Reach cap s s' → Inv cap s'
  Reach-Inv i here = i
  Reach-Inv i (next r st) = Step-Inv st (Reach-Inv i r)

  fresh-Inv : Inv cap fresh
  unfolding empty_list
  fresh-Inv =
      let fields = pack-fields none_index 0 (omega arith) (omega arith) in
      record {
        chain = fields.0;
        distinct = tt;
        counted = fields.1;
        sound = λ t. tt;
        alone = λ t u f ne h. refl;
      }

  -- In every interleaving the links from the head lead through distinct frames below the capacity
  -- to the end, a frame that a thread is pushing is not among them, and no two threads push the
  -- same frame.
  pub Reach-IsChain :
      {s : Shared}
      → Reach cap fresh s
      → IsChain cap s.list.next (index s.list.head) s.stack
        × Distinct s.stack
        × ((t f : ℕ) → pushes (s.locals t) f ≡ true → elem f s.stack ≡ false)
        × ((t u f : ℕ) → t ≢ u → pushes (s.locals t) f ≡ true → pushes (s.locals u) f ≡ false)
  Reach-IsChain {s} r =
      let i = Reach-Inv fresh-Inv r in
      (
        i.chain,
        i.distinct,
        λ t f h. Steps.sound-absent cap small s f (s.locals t) (i.sound t) h,
        i.alone,
      )

  -- In every interleaving a Pop whose swap succeeds, with fewer than 2 ^ 32 other swaps since its
  -- load of the head, takes the top frame of the stack and leaves the links leading through the
  -- others; and where the head has no frame the stack is empty.
  pub pop-Reach :
      {s : Shared} (t head link clock : ℕ)
      → Reach cap fresh s
      → s.clock < clock + 2 ^ 32
      → (s.locals t ≡ reading head link clock
          → s.list.head ≡ head
          → (s.stack ≡ index head ∷ tail s.stack)
            × IsChain cap s.list.next (index (pop_head link head)) (tail s.stack))
        × (index s.list.head ≡ none_index → s.stack ≡ [])
  pop-Reach {s} t head link clock r fresh =
      let i = Reach-Inv fresh-Inv r in
      (
        λ at now.
            let own : IsSound cap s (reading head link clock) =
              subst (IsSound cap s) at (i.sound t) in
            let top =
              Steps.top_of cap small s.list.next (index s.list.head) s.stack
                (λ e. own.1 (sym (ap index now) ∙ e)) i.chain in
            (
              subst (λ h. s.stack ≡ index h ∷ tail s.stack) now top,
              (Steps.pop_swapped cap small s t head link clock i at now fresh).chain,
            ),
        λ e. Steps.none_top cap small s.list.next (index s.list.head) s.stack e i.chain,
      )
