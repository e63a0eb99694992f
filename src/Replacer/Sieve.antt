-- ===== src/Replacer/Sieve.antt =====
-- src/cpp/lib/replacer/sieve_replacer.cc: a queue in which frames keep their place, and a hand that
-- moves from the oldest to the newest. Its links are those of a FrameList: `front` is `newest`, `back`
-- is `oldest`, `back_to_front` is `newer` and `front_to_back` is `older`.
use tele_path.Prelude.{
  ℕ, zero, suc, ◌+◌, ◌-◌, ◌*◌, Bool, true, false, not, Option, none, some, ◌==◌, if◌then◌else◌, leb,
  store,
}
use tele_path.Common.Types.{invalid_frame_id}
use tele_path.Replacer.FrameList
use tele_path.Replacer.FrameList.{FrameList, empty_list, contains, push_front}

pub record Sieve : Type 0 where
  pub capacity : ℕ
  pub links : FrameList
  pub hand : ℕ
  pub linked_count : ℕ
  pub visited : ℕ → Bool

unfoldable pub empty_sieve : ℕ → Sieve
unfolding empty_list
empty_sieve capacity = record {
  capacity = capacity;
  links = empty_list;
  hand = invalid_frame_id;
  linked_count = 0;
  visited = λ frame. false;
}

unfoldable pub unlink : Sieve → ℕ → Sieve
unfolding FrameList.unlink
unlink s frame = record s {
  hand = if s.hand == frame then s.links.back_to_front frame else s.hand;
  links = FrameList.unlink s.links frame;
  linked_count = s.linked_count - 1;
}

unfoldable pub push_newest : Sieve → ℕ → Sieve
unfolding push_front
push_newest s frame = record s {
  links = push_front s.links frame;
  linked_count = s.linked_count + 1;
}

unfoldable pub record_access : Sieve → ℕ → Sieve
record_access s frame =
    if leb s.capacity frame then s else record s { visited = store s.visited frame true }

-- `if (linked[frame_id]) Unlink(frame_id)`.
unfoldable pub forget : Sieve → ℕ → Sieve
unfolding unlink contains
forget s frame = if contains s.links frame then unlink s frame else s

unfoldable pub record_load : Sieve → ℕ → Sieve
unfolding forget push_newest
record_load s frame =
    let u = forget s frame in
    if leb s.capacity frame
    then s
    else push_newest (record u { visited = store u.visited frame false }) frame

unfoldable pub remove : Sieve → ℕ → Sieve
unfolding forget
remove s frame =
    let u = forget s frame in
    if leb s.capacity frame then s else record u { visited = store u.visited frame false }

-- The frame after `candidate`, round the end.
unfoldable pub next_of : Sieve → ℕ → ℕ
next_of s candidate =
    if s.links.back_to_front candidate == invalid_frame_id
    then s.links.back
    else s.links.back_to_front candidate

-- The loop of Victim.
unfoldable pub scan : (ℕ → Bool) → ℕ → Sieve → ℕ → Sieve × Option ℕ
unfolding next_of
scan evictable zero s candidate = (record s { hand = candidate }, none)
scan evictable (suc scans) s candidate =
    let next = next_of s candidate in
    let passed =
      if evictable candidate then record s { visited = store s.visited candidate false } else s in
    let rest = scan evictable scans passed next in
    if candidate == invalid_frame_id
    then (record s { hand = candidate }, none)
    else if not (evictable candidate)
    then rest
    else if s.visited candidate
    then rest
    else (record s { hand = next }, some candidate)

unfoldable pub victim : Sieve → (ℕ → Bool) → Sieve × Option ℕ
unfolding scan
victim s evictable =
    scan evictable (2 * s.linked_count) s
      (if s.hand == invalid_frame_id then s.links.back else s.hand)
