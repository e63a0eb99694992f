-- ===== src/Replacer/FrameList.antt =====
-- src/cpp/lib/replacer/frame_list.h: a doubly linked list in arrays that the frame id indexes.
use tele_path.Prelude.{ℕ, Bool, true, false, Option, ◌==◌, if◌then◌else◌, store}
use tele_path.Common.Types.{invalid_frame_id}
use tele_path.Common.Chains.{walk}

pub record FrameList : Type 0 where
  pub front : ℕ
  pub back : ℕ
  pub front_to_back : ℕ → ℕ
  pub back_to_front : ℕ → ℕ
  pub linked : ℕ → Bool

-- Place with `initialize`.
unfoldable pub empty_list : FrameList
empty_list = record {
  front = invalid_frame_id;
  back = invalid_frame_id;
  front_to_back = λ frame. invalid_frame_id;
  back_to_front = λ frame. invalid_frame_id;
  linked = λ frame. false;
}

unfoldable pub contains : FrameList → ℕ → Bool
contains l frame = l.linked frame

unfoldable pub push_front : FrameList → ℕ → FrameList
push_front l frame =
    let toward_front = store l.back_to_front frame invalid_frame_id in
    record {
      front = frame;
      back = if l.back == invalid_frame_id then frame else l.back;
      front_to_back = store l.front_to_back frame l.front;
      back_to_front =
          if l.front == invalid_frame_id then toward_front else store toward_front l.front frame;
      linked = store l.linked frame true;
    }

unfoldable pub unlink : FrameList → ℕ → FrameList
unlink l frame =
    let toward_back = l.front_to_back frame in
    let toward_front = l.back_to_front frame in
    let first = toward_front == invalid_frame_id in
    let last = toward_back == invalid_frame_id in
    record {
      front = if first then toward_back else l.front;
      back = if last then toward_front else l.back;
      front_to_back =
          if first then l.front_to_back else store l.front_to_back toward_front toward_back;
      back_to_front =
          if last then l.back_to_front else store l.back_to_front toward_back toward_front;
      linked = store l.linked frame false;
    }

unfoldable pub move_to_front : FrameList → ℕ → FrameList
unfolding push_front unlink
move_to_front l frame = push_front (unlink l frame) frame

-- The loop of Victim over the list, from the back toward the front. A list of frames below the
-- capacity is not longer than the capacity, the fuel.
unfoldable pub pick_from : FrameList → ℕ → (ℕ → Bool) → Option ℕ
unfolding walk
pick_from l capacity evictable = walk evictable l.back_to_front capacity l.back
