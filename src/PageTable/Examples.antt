-- ===== src/PageTable/Examples.antt =====
-- src/cpp/lib/buffer/page_table.cc run on a table of four frames.
use tele_path.Prelude.{
  ℕ, ◌≡◌, ◌≢◌, refl, true, false, none, some, ◌==◌, ◌||◌, ◌⊎◌, if◌then◌else◌, arith,
}
use tele_path.Common.Types.{BufferTag}
use tele_path.Common.Chains.{walk}
use tele_path.PageTable.Table.{
  Table, empty_table, lookup_frame_id, maps_to, bucket_for, mix_tag, bucket_count, bit_ceil_from,
}
use tele_path.PageTable.Ops.{
  install, remove, replace, replace_unless_live, link, unlink, bypass, settle, live_other,
}
use tele_path.PageTable.Invariant.{IsValid}
use tele_path.PageTable.Validity.{writers-IsValid, empty_table-IsValid}
use tele_path.PageTable.Entries.{
  entry, lookup-entry, writers-entry, replace_unless_live-entry, replace_unless_live-IsUnique,
  lookup-install, IsUnique,
}

abbrev tag_a : BufferTag
tag_a = record { file_id = 1; block_id = 7 }

abbrev tag_b : BufferTag
tag_b = record { file_id = 1; block_id = 8 }

abbrev tag_c : BufferTag
tag_c = record { file_id = 2; block_id = 7 }

abbrev four : Table
four = empty_table 4 2

abbrev one_mapped : Table
one_mapped = install four tag_a 0

abbrev two_mapped : Table
two_mapped = install one_mapped tag_b 1

lookup_b : lookup_frame_id two_mapped tag_b ≡ some 1
unfolding install replace link unlink maps_to bucket_for mix_tag empty_table bucket_count
    bit_ceil_from lookup_frame_id walk
lookup_b = refl

-- Frame 2 asks for the tag of frame 1: the live frame 1 wins, and a dead frame 1 does not.
refused : (replace_unless_live two_mapped none tag_b 2 (λ f. true)).1 ≡ some 1
unfolding install replace link unlink maps_to bucket_for mix_tag empty_table bucket_count
    bit_ceil_from replace_unless_live settle live_other walk
refused = refl

moved_over :
    lookup_frame_id ((replace_unless_live two_mapped none tag_b 2 (λ f. false)).0) tag_b ≡ some 2
unfolding install replace link unlink maps_to bucket_for mix_tag empty_table bucket_count
    bit_ceil_from replace_unless_live settle live_other walk lookup_frame_id bypass
moved_over = refl

dropped : lookup_frame_id (remove two_mapped tag_b 1) tag_b ≡ none
unfolding install replace link unlink maps_to bucket_for mix_tag empty_table bucket_count
    bit_ceil_from remove walk lookup_frame_id bypass
dropped = refl

four-IsValid : IsValid four
four-IsValid = empty_table-IsValid 4 2 (omega arith)

one_mapped-IsValid : IsValid one_mapped
unfolding empty_table
one_mapped-IsValid =
    (writers-IsValid four none tag_a tag_a 0 (λ f. true) (omega arith) four-IsValid).0

two_mapped-IsValid : IsValid two_mapped
unfolding install replace link unlink maps_to bucket_for mix_tag empty_table bucket_count
    bit_ceil_from
two_mapped-IsValid =
    (writers-IsValid one_mapped none tag_b tag_b 1 (λ f. true) (omega arith) one_mapped-IsValid).0

writers-IsValid_example :
    IsValid (install two_mapped tag_b 1)
    × IsValid (remove two_mapped tag_b 1)
    × IsValid (replace two_mapped tag_b tag_c 1)
    × IsValid ((replace_unless_live two_mapped (some tag_b) tag_c 1 (λ f. f == 0)).0)
unfolding install replace link unlink maps_to bucket_for mix_tag empty_table bucket_count
    bit_ceil_from
writers-IsValid_example =
    writers-IsValid two_mapped (some tag_b) tag_b tag_c 1 (λ f. f == 0) (omega arith)
      two_mapped-IsValid

lookup-entry_example :
    ((f : ℕ) × (lookup_frame_id two_mapped tag_b ≡ some f) × (entry two_mapped f ≡ some tag_b))
    ⊎ ((lookup_frame_id two_mapped tag_b ≡ none) × ((f : ℕ) → entry two_mapped f ≢ some tag_b))
lookup-entry_example = lookup-entry two_mapped tag_b two_mapped-IsValid

writers-entry_example :
    (entry (install two_mapped tag_b 2) 1 ≡ some tag_b)
    × (entry (replace two_mapped tag_b tag_c 2) 1 ≡ some tag_b)
    × (entry (remove two_mapped tag_b 2) 1 ≡ some tag_b)
unfolding install replace link unlink maps_to bucket_for mix_tag empty_table bucket_count
    bit_ceil_from
writers-entry_example = writers-entry two_mapped tag_b tag_c 2 1 two_mapped-IsValid

replace_unless_live-entry_example :
    ((g : ℕ) × ((replace_unless_live two_mapped none tag_b 2 (λ f. true)).1 ≡ some g)
      × (g ≢ 2)
      × (entry two_mapped g ≡ some tag_b)
      × (true ≡ true)
      × ((j : ℕ)
          → entry ((replace_unless_live two_mapped none tag_b 2 (λ f. true)).0) j
            ≡ (if j == 2 then none else entry two_mapped j)))
    ⊎ (((replace_unless_live two_mapped none tag_b 2 (λ f. true)).1 ≡ none)
        × ((g : ℕ) → g ≢ 2 → entry two_mapped g ≡ some tag_b → true ≡ false)
        × ((j : ℕ)
            → entry ((replace_unless_live two_mapped none tag_b 2 (λ f. true)).0) j
              ≡ (if j == 2 then some tag_b else entry two_mapped j)))
replace_unless_live-entry_example =
    replace_unless_live-entry two_mapped none tag_b 2 (λ f. true) two_mapped-IsValid

two_mapped-IsUnique : IsUnique (λ f. true) two_mapped
unfolding install replace link unlink maps_to bucket_for mix_tag empty_table bucket_count
    bit_ceil_from
two_mapped-IsUnique f g tag lf lg ef eg = ground arith

replace_unless_live-IsUnique_example :
    IsUnique (λ g. g == 2 || true) ((replace_unless_live two_mapped none tag_b 2 (λ f. true)).0)
replace_unless_live-IsUnique_example =
    replace_unless_live-IsUnique two_mapped none tag_b 2 (λ f. true) two_mapped-IsValid
      two_mapped-IsUnique

lookup-install_example : lookup_frame_id (install two_mapped tag_b 3) tag_b ≡ some 3
unfolding install replace link unlink maps_to bucket_for mix_tag empty_table bucket_count
    bit_ceil_from
lookup-install_example = lookup-install two_mapped tag_b 3 (omega arith) two_mapped-IsValid
