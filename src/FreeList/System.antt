-- ===== src/FreeList/System.antt =====
-- Many threads on one free list of src/cpp/lib/buffer/frame_free_list.h: each step is one atomic
-- access of one thread, in any order.
use tele_path.Prelude.{
  ℕ, ◌+◌, ◌<◌, ◌^◌, ◌≡◌, Bool, false, List, [], ◌∷◌, ◌==◌, if◌then◌else◌, store,
}
use tele_path.Common.Chains.{elem}
use tele_path.FreeList.Ops.{
  FreeList, none_index, index, empty_list, push_link, push_head, pop_next, pop_head,
}

-- Where a thread is. `clock` counts the swaps on the list before the thread loaded the head.
pub data Local : Type 0 where
  idle : Local
  -- In Push: after the load of the head, and after the store of the link.
  pushing linked : (frame head clock : ℕ) → Local
  -- In Pop: after the load of the head, and after the load of the link.
  popping : (head clock : ℕ) → Local
  reading : (head next clock : ℕ) → Local

-- `stack` and `clock` are no part of the program: the frames as a sequence, and the number of swaps.
pub record Shared : Type 0 where
  pub list : FreeList
  pub stack : List ℕ
  pub clock : ℕ
  pub locals : ℕ → Local

abbrev pub pushes : Local → ℕ → Bool
pushes idle f = false
pushes (pushing frame head clock) f = f == frame
pushes (linked frame head clock) f = f == frame
pushes (popping head clock) f = false
pushes (reading head next clock) f = false

abbrev pub tail : List ℕ → List ℕ
tail [] = []
tail (x ∷ xs) = xs

-- After a load of the head, Pop goes on or gives up.
abbrev pub pop_loaded : ℕ → ℕ → Local
pop_loaded head clock = if index head == none_index then idle else popping head clock

module _ (capacity : ℕ) where
  pub data Step : Shared → Shared → Type 0 where
    -- The caller of Push owns the frame: it is not in the list, and no other thread pushes it.
    push_start :
        {s s' : Shared} (t f : ℕ)
        → s.locals t ≡ idle
        → f < capacity
        → elem f s.stack ≡ false
        → ((u : ℕ) → pushes (s.locals u) f ≡ false)
        → s' ≡ record s { locals = store s.locals t (pushing f s.list.head s.clock) }
        → Step s s'
    push_store :
        {s s' : Shared} (t f head clock : ℕ)
        → s.locals t ≡ pushing f head clock
        → s' ≡ record s {
          list = push_link s.list f head;
          locals = store s.locals t (linked f head clock);
        }
        → Step s s'
    -- A thread is never overtaken by 2 ^ 32 swaps between its load and its swap.
    push_swap :
        {s s' : Shared} (t f head clock : ℕ)
        → s.locals t ≡ linked f head clock
        → s.list.head ≡ head
        → s.clock < clock + 2 ^ 32
        → s' ≡ record s {
          list = record s.list { head = push_head f head };
          stack = f ∷ s.stack;
          clock = s.clock + 1;
          locals = store s.locals t idle;
        }
        → Step s s'
    -- A failed swap, which may fail for no reason, loads the head again.
    push_retry :
        {s s' : Shared} (t f head clock : ℕ)
        → s.locals t ≡ linked f head clock
        → s' ≡ record s { locals = store s.locals t (pushing f s.list.head s.clock) }
        → Step s s'
    pop_start :
        {s s' : Shared} (t : ℕ)
        → s.locals t ≡ idle
        → s' ≡ record s { locals = store s.locals t (pop_loaded s.list.head s.clock) }
        → Step s s'
    pop_read :
        {s s' : Shared} (t head clock : ℕ)
        → s.locals t ≡ popping head clock
        → s' ≡ record s { locals = store s.locals t (reading head (pop_next s.list head) clock) }
        → Step s s'
    pop_swap :
        {s s' : Shared} (t head next clock : ℕ)
        → s.locals t ≡ reading head next clock
        → s.list.head ≡ head
        → s.clock < clock + 2 ^ 32
        → s' ≡ record s {
          list = record s.list { head = pop_head next head };
          stack = tail s.stack;
          clock = s.clock + 1;
          locals = store s.locals t idle;
        }
        → Step s s'
    pop_retry :
        {s s' : Shared} (t head next clock : ℕ)
        → s.locals t ≡ reading head next clock
        → s' ≡ record s { locals = store s.locals t (pop_loaded s.list.head s.clock) }
        → Step s s'

  pub data Reach (s : Shared) : Shared → Type 0 where
    here : Reach s s
    next : {t u : Shared} → Reach s t → Step t u → Reach s u

abbrev pub fresh : Shared
fresh = record { list = empty_list; stack = []; clock = 0; locals = λ t. idle }
