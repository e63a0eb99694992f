-- ===== src/FreeList/Ops.antt =====
-- src/cpp/lib/buffer/frame_free_list.h: the data, and what the loops of Push and Pop load, store and
-- swap in.
use tele_path.Prelude.{
  ℕ, ◌+◌, ◌-◌, ◌*◌, ◌/◌, ◌%◌, ◌^◌, bit_or, Option, none, some, ◌==◌, if◌then◌else◌, store,
}

abbrev pub none_index : ℕ
none_index = 2 ^ 32 - 1

unfoldable pub pack : ℕ → ℕ → ℕ
pack index version = bit_or (version * 2 ^ 32) index

unfoldable pub index : ℕ → ℕ
index head = head % 2 ^ 32

unfoldable pub version : ℕ → ℕ
version head = head / 2 ^ 32 % 2 ^ 32

pub record FreeList : Type 0 where
  pub head : ℕ
  pub next : ℕ → ℕ

-- The constructor with `initialize`.
unfoldable pub empty_list : FreeList
unfolding pack
empty_list = record { head = pack none_index 0; next = λ frame. none_index }

-- Push: the store before the swap, and the word that the swap puts in. `version + 1` is uint32_t.
unfoldable pub push_link : FreeList → ℕ → ℕ → FreeList
unfolding index
push_link l frame head = record l { next = store l.next frame (index head) }

unfoldable pub push_head : ℕ → ℕ → ℕ
unfolding pack version
push_head frame head = pack frame ((version head + 1) % 2 ^ 32)

-- Pop: the load before the swap, and the word that the swap puts in.
unfoldable pub pop_next : FreeList → ℕ → ℕ
unfolding index
pop_next l head = l.next (index head)

unfoldable pub pop_head : ℕ → ℕ → ℕ
unfolding pack version
pop_head next head = pack next ((version head + 1) % 2 ^ 32)

-- Push and Pop with no other thread between their steps.
unfoldable pub push : FreeList → ℕ → FreeList
unfolding push_link push_head
push l frame = record (push_link l frame l.head) { head = push_head frame l.head }

unfoldable pub pop : FreeList → FreeList × Option ℕ
unfolding pop_next pop_head index
pop l =
    if index l.head == none_index
    then (l, none)
    else (record l { head = pop_head (pop_next l l.head) l.head }, some (index l.head))
