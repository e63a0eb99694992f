-- ===== src/Manager/Strategy.antt =====
-- src/cpp/lib/buffer/buffer_access_strategy.cc: the ring of frames that one scan recycles.
use tele_path.Prelude.{
  ℕ, ◌+◌, ◌%◌, Bool, true, false, List, [], length, get_or, set, replicate, ◌==◌, if◌then◌else◌,
}
use tele_path.Common.Types.{invalid_frame_id}

pub data StrategyType : Type 0 where
  normal bulk_read : StrategyType

pub record Strategy : Type 0 where
  pub type : StrategyType
  pub ring : List ℕ
  pub current : ℕ

abbrev pub default_bulk_read_ring_size : ℕ
default_bulk_read_ring_size = 32

-- The constructor.
unfoldable pub new_strategy : StrategyType → ℕ → Strategy
new_strategy normal ring_size = record { type = normal; ring = []; current = 0 }
new_strategy bulk_read ring_size = record {
  type = bulk_read;
  ring =
      replicate (if ring_size == 0 then default_bulk_read_ring_size else ring_size)
        invalid_frame_id;
  current = 0;
}

unfoldable pub records_accesses : Strategy → Bool
records_accesses s = elim (s.type) [ normal ↦ true | bulk_read ↦ false ]

unfoldable pub next_ring_frame : Strategy → Strategy × ℕ
next_ring_frame s =
    let next = (s.current + 1) % length s.ring in
    if length s.ring == 0
    then (s, invalid_frame_id)
    else (record s { current = next }, get_or s.ring next invalid_frame_id)

unfoldable pub remember_ring_frame : ℕ → Strategy → Strategy
remember_ring_frame frame s =
    if length s.ring == 0 then s else record s { ring = set s.ring s.current frame }
