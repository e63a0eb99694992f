-- ===== src/FreeList/Examples.antt =====
-- A run of two threads on the free list of src/cpp/lib/buffer/frame_free_list.h.
use tele_path.Prelude.{
  ℕ, ◌+◌, ◌-◌, ◌^◌, ◌≡◌, ◌≢◌, true, false, none, some, [], ◌∷◌, store, arith, refl,
}
use tele_path.Common.Chains.{elem, Distinct, IsChain}
use tele_path.FreeList.Ops.{
  none_index, pack, index, version, empty_list, push_link, push_head, pop_next, pop_head, push, pop,
}
use tele_path.FreeList.System.{
  idle, pushing, linked, popping, reading, Shared, pushes, push_start, push_store, push_swap,
  pop_start, pop_read, Reach, here, next, fresh,
}
use tele_path.FreeList.Safety.{Reach-IsChain, pop-Reach}

pushed_twice : (pop (push (push empty_list 3) 5)).1 ≡ some 5
unfolding pop push empty_list pack index version push_link push_head pop_next pop_head
pushed_twice = refl

popped_twice : (pop ((pop (push (push empty_list 3) 5)).0)).1 ≡ some 3
unfolding pop push empty_list pack index version push_link push_head pop_next pop_head
popped_twice = refl

emptied : (pop ((pop (push empty_list 3)).0)).1 ≡ none
unfolding pop push empty_list pack index version push_link push_head pop_next pop_head
emptied = refl

abbrev head_0 : ℕ
head_0 = 2 ^ 32 - 1

abbrev head_1 : ℕ
head_1 = 2 ^ 32 + 3

abbrev started : Shared
started = record fresh { locals = store fresh.locals 0 (pushing 3 head_0 0) }

abbrev stored : Shared
stored = record started {
  list = push_link started.list 3 head_0;
  locals = store started.locals 0 (linked 3 head_0 0);
}

abbrev pushed : Shared
pushed = record stored {
  list = record stored.list { head = push_head 3 head_0 };
  stack = 3 ∷ [];
  clock = 1;
  locals = store stored.locals 0 idle;
}

abbrev loaded : Shared
loaded = record pushed { locals = store pushed.locals 1 (popping head_1 1) }

abbrev read_link : Shared
read_link = record loaded {
  locals = store loaded.locals 1 (reading head_1 (pop_next loaded.list head_1) 1);
}

run_pushed : Reach 8 fresh pushed
unfolding empty_list pack push_head push_link version index
run_pushed =
    next
      (next (next here (push_start 0 3 refl (omega arith) refl (λ u. refl) refl))
        (push_store 0 3 head_0 0 refl refl))
      (push_swap 0 3 head_0 0 refl refl (omega arith) refl)

run_read : Reach 8 fresh read_link
unfolding empty_list pack push_head version index push_link
run_read = next (next run_pushed (pop_start 1 refl refl)) (pop_read 1 head_1 1 refl refl)

Reach-IsChain_example :
    IsChain 8 read_link.list.next (index read_link.list.head) (3 ∷ [])
    × Distinct (3 ∷ [])
    × ((t f : ℕ) → pushes (read_link.locals t) f ≡ true → elem f (3 ∷ []) ≡ false)
    × ((t u f : ℕ)
        → t ≢ u
        → pushes (read_link.locals t) f ≡ true
        → pushes (read_link.locals u) f ≡ false)
Reach-IsChain_example = Reach-IsChain 8 (omega arith) run_read

pop-Reach_example :
    (read_link.locals 1 ≡ reading head_1 (pop_next loaded.list head_1) 1
      → read_link.list.head ≡ head_1
      → (read_link.stack ≡ index head_1 ∷ [])
        × IsChain 8 read_link.list.next (index (pop_head (pop_next loaded.list head_1) head_1)) [])
    × (index read_link.list.head ≡ none_index → read_link.stack ≡ [])
pop-Reach_example =
    pop-Reach 8 (omega arith) 1 head_1 (pop_next loaded.list head_1) 1 run_read (omega arith)
