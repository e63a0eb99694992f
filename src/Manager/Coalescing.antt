-- ===== src/Manager/Coalescing.antt =====
-- How AppendAsyncLoad of src/cpp/lib/buffer/buffer_manager_async_read.cc groups pages into reads.
use tele_path.Prelude.{
  ℕ, ◌+◌, ◌%◌, ◌^◌, ◌≤◌, ◌<◌, ◌≡◌, inl, inr, refl, ap, ◌∙◌, sym, true, List, [], ◌∷◌, ◌++◌, length,
  arith, Bool-cases, length-append,
}
use mathlib.Core.List.{append_assoc, append-nil}
use tele_path.Manager.AsyncReads.{Entry, AsyncLoad, entries_of, extends_load, append_async_load}

-- All entries of the loads, in the order of the reads.
abbrev pub all_entries : List AsyncLoad → List Entry
all_entries [] = []
all_entries (load ∷ loads) = entries_of load ++ all_entries loads

-- Each entry is the block behind the one before, in one file.
abbrev pub IsRun : List Entry → Entry → Type 0
IsRun [] last = Unit {0}
IsRun (e ∷ []) last =
    (e.tag.file_id ≡ last.tag.file_id) × ((e.tag.block_id + 1) % 2 ^ 64 ≡ last.tag.block_id)
IsRun (e ∷ next ∷ more) last =
    (e.tag.file_id ≡ next.tag.file_id)
    × ((e.tag.block_id + 1) % 2 ^ 64 ≡ next.tag.block_id)
    × IsRun (next ∷ more) last

-- Every load is a run of blocks that one request may read.
abbrev pub AreReads : ℕ → List AsyncLoad → Type 0
AreReads most [] = Unit {0}
AreReads most (load ∷ loads) =
    IsRun load.before load.last × (length load.before + 1 ≤ most) × AreReads most loads

IsRun-extend :
    (before : List Entry) (last new : Entry)
    → IsRun before last
    → last.tag.file_id ≡ new.tag.file_id
    → (last.tag.block_id + 1) % 2 ^ 64 ≡ new.tag.block_id
    → IsRun (before ++ (last ∷ [])) new
IsRun-extend [] last new run file block = (file, block)
IsRun-extend (e ∷ []) last new run file block = (run.0, run.1, (file, block))
IsRun-extend (e ∷ next ∷ more) last new run file block =
    (run.0, run.1, IsRun-extend (next ∷ more) last new run.2 file block)

extends_parts :
    (most : ℕ) (load : AsyncLoad) (entry : Entry)
    → extends_load most load entry.tag ≡ true
    → (length load.before + 1 < most)
      × (load.last.tag.file_id ≡ entry.tag.file_id)
      × ((load.last.tag.block_id + 1) % 2 ^ 64 ≡ entry.tag.block_id)
unfolding extends_load
extends_parts most load entry h = ground arith

-- AppendAsyncLoad adds its page behind all others, in the order of the calls, and keeps every load a
-- run of consecutive blocks of one file, of at least one block and at most as many as one request
-- reads.
pub append_async_load-AreReads :
    (most : ℕ) (entry : Entry) (loads : List AsyncLoad)
    → 1 ≤ most
    → AreReads most loads
    → AreReads most (append_async_load most entry loads)
      × (all_entries (append_async_load most entry loads) ≡ all_entries loads ++ (entry ∷ []))
unfolding append_async_load
append_async_load-AreReads most entry [] some_block reads = ((tt, some_block, tt), refl)
append_async_load-AreReads most entry (load ∷ []) some_block reads =
    elim (Bool-cases (extends_load most load entry.tag)) [
      | inl joins ↦
          let (room, file, block) = extends_parts most load entry joins in
          rw (joins, append_async_load)
            (
              (
                IsRun-extend load.before load.last entry reads.0 file block,
                omega (arith, length-append load.before (load.last ∷ [])),
                tt,
              ),
              rw (append-nil, append-nil) refl,
            )
      | inr begins ↦
          rw (begins, append_async_load)
            ((reads.0, reads.1, (tt, some_block, tt)), rw (append-nil, append-nil) refl)
    ]
append_async_load-AreReads most entry (load ∷ next ∷ more) some_block reads =
    let (kept, all) = append_async_load-AreReads most entry (next ∷ more) some_block reads.2 in
    (
      (reads.0, reads.1, kept),
      ap (λ es. entries_of load ++ es) all ∙ sym (append_assoc (entries_of load) _ _),
    )
