-- ===== src/PageTable/Ops.antt =====
-- src/cpp/lib/buffer/page_table.h and page_table.cc, the operations that change the table. Each
-- runs under the locks of the stripes of all buckets that it touches (StripeWriter).
use tele_path.Prelude.{
  ℕ, zero, suc, Bool, true, false, not, Option, none, some, ◌==◌, ◌&&◌, ◌||◌, if◌then◌else◌, store,
}
use tele_path.Common.Types.{BufferTag}
use tele_path.Common.Chains.{walk}
use tele_path.PageTable.Table.{Table, none_index, bucket_for, maps_to}

unfoldable pub link : Table → ℕ → BufferTag → ℕ → Table
link t bucket tag frame = record t {
  key_file_id = store t.key_file_id frame tag.file_id;
  key_block_id = store t.key_block_id frame tag.block_id;
  next = store t.next frame (t.heads bucket);
  bucket_of = store t.bucket_of frame bucket;
  heads = store t.heads bucket frame;
}

-- The loop of Unlink: the links once the one that leads to `frame` leads to `after`. The fuel
-- bounds the frames of the chain that it visits.
unfoldable pub bypass : ℕ → (ℕ → ℕ) → ℕ → ℕ → ℕ → ℕ → ℕ
bypass zero next current frame after = next
bypass (suc fuel) next current frame after =
    let rest = bypass fuel next (next current) frame after in
    if current == none_index
    then next
    else if next current == frame
    then store next current after
    else rest

unfoldable pub unlink : Table → ℕ → Table
unfolding bypass
unlink t frame =
    let bucket = t.bucket_of frame in
    let after = t.next frame in
    let at_head = t.heads bucket == frame in
    record t {
      heads = if at_head then store t.heads bucket after else t.heads;
      next =
          store
            (if at_head
              then t.next
              else bypass t.frame_capacity t.next (t.heads bucket) frame after)
            frame none_index;
      bucket_of = store t.bucket_of frame none_index;
    }

unfoldable pub replace : Table → BufferTag → BufferTag → ℕ → Table
unfolding link unlink maps_to bucket_for
replace t old_tag new_tag frame =
    let drops =
      not (t.bucket_of frame == none_index)
      && (maps_to t frame old_tag || not (maps_to t frame new_tag)) in
    let u = if drops then unlink t frame else t in
    if u.bucket_of frame == none_index then link u (bucket_for t new_tag) new_tag frame else u

unfoldable pub install : Table → BufferTag → ℕ → Table
unfolding replace
install t tag frame = replace t tag tag frame

unfoldable pub remove : Table → BufferTag → ℕ → Table
unfolding unlink maps_to
remove t tag frame =
    if t.bucket_of frame == none_index then t else if maps_to t frame tag then unlink t frame else t

-- The first loop of ReplaceUnlessLive; `live` is the caller's test.
unfoldable pub live_other : Table → BufferTag → ℕ → (ℕ → Bool) → Option ℕ
unfolding maps_to walk bucket_for
live_other t new_tag frame live =
    walk (λ other. not (other == frame) && maps_to t other new_tag && live other) t.next
      t.frame_capacity (t.heads (bucket_for t new_tag))

-- The rest of ReplaceUnlessLive. `old_tag` is none for the null pointer.
unfoldable pub settle : Table → Option BufferTag → BufferTag → ℕ → Option ℕ → Table × Option ℕ
unfolding link unlink maps_to bucket_for
settle t old_tag new_tag frame existing =
    let mapped = not (t.bucket_of frame == none_index) in
    let linked_under_new = mapped && maps_to t frame new_tag in
    let under_old : Bool = elim old_tag [ none ↦ false | some tag ↦ maps_to t frame tag ] in
    let found : Bool = elim existing [ none ↦ false | some other ↦ true ] in
    let u = if mapped && (under_old || not linked_under_new || found) then unlink t frame else t in
    let placed =
      if u.bucket_of frame == none_index then link u (bucket_for t new_tag) new_tag frame else u in
    (if found then u else placed, existing)

unfoldable pub replace_unless_live :
    Table → Option BufferTag → BufferTag → ℕ → (ℕ → Bool) → Table × Option ℕ
unfolding live_other settle
replace_unless_live t old_tag new_tag frame live =
    settle t old_tag new_tag frame (live_other t new_tag frame live)
