-- ===== src/Common/Examples.antt =====
-- Tests of the layout of src/cpp/lib/common/state_layout.h, with a head word and then an array of 100
-- links, and of blocks of 8 KiB.
use tele_path.Prelude.{◌≡◌, List, [], ◌∷◌, refl, arith, true, false, ◌⊎◌, ◌+◌, ◌*◌, ◌^◌, ◌≤◌, ◌<◌}
use tele_path.Common.Types.{invalid_frame_id}
use tele_path.Common.Status.{ok}
use tele_path.Common.Results.{value, failure, invalid_argument}
use tele_path.Common.Geometry.{
  BlockGeometry, min_block_size, max_block_size, is_valid_block_size, create_geometry, block_size,
  block_mask, frame_offset, validate_pool, create_geometry-block_size, validate_pool-frame_offset,
}
use tele_path.Common.Layout.{Request, align, add, add_all, size_of, ArePlaced, add_all-ArePlaced}

abbrev free_list : List Request
free_list = record { bytes = 8; log_alignment = 6 } ∷ record { bytes = 400; log_alignment = 6 } ∷ []

placed :
    add_all 0 free_list
    ≡ (record { offset = 0; bytes = 8 } ∷ record { offset = 64; bytes = 400 } ∷ [], 464)
unfolding add_all add align
placed = refl

whole : size_of 464 ≡ 512
unfolding size_of align
whole = refl

add_all-ArePlaced_example :
    let (regions, end) = add_all 0 free_list in ArePlaced 0 free_list regions end
add_all-ArePlaced_example = add_all-ArePlaced 0 free_list (omega arith) (omega arith)

create_geometry-block_size_example :
    ((is_valid_block_size 8192 ≡ true)
      × ((g : BlockGeometry) × (create_geometry 8192 ≡ value g)
          × (block_size g ≡ 8192)
          × (block_mask g + 1 ≡ 8192)
          × (min_block_size ≤ 8192)
          × (8192 ≤ max_block_size)))
    ⊎ ((is_valid_block_size 8192 ≡ false)
        × (create_geometry 8192
            ≡ failure
                (invalid_argument "block size must be a power of two between 4 KiB and 4 MiB")))
create_geometry-block_size_example = create_geometry-block_size 8192

abbrev eight_kib : BlockGeometry
eight_kib = record { block_shift = 13 }

eight_kib_pool : validate_pool 1000 eight_kib ≡ ok
unfolding validate_pool
eight_kib_pool = refl

validate_pool-frame_offset_example :
    (frame_offset eight_kib 999 ≡ 999 * block_size eight_kib)
    × (frame_offset eight_kib 999 + block_size eight_kib < 2 ^ 64)
    × (1000 < invalid_frame_id)
    × (998 < 999 → frame_offset eight_kib 998 + block_size eight_kib ≤ frame_offset eight_kib 999)
validate_pool-frame_offset_example =
    validate_pool-frame_offset 1000 eight_kib 999 998 eight_kib_pool (omega arith)
