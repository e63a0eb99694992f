-- ===== src/Io/Examples.antt =====
-- Tests of the file descriptor cache, and its theorem at a concrete cache: three open files, one of them
-- pinned.
use tele_path.Prelude.{◌≡◌, refl, List, [], ◌∷◌}
use tele_path.Io.FileDescriptors.{Entry, evict_idle, evict_from, oldest_idle, erase}
use tele_path.Io.Eviction.{IsEviction, evict_idle-IsEviction}

abbrev three_files : List Entry
three_files =
    (record { file_id = 1; fd = 10; last_used = 5; pins = 0 })
    ∷ (record { file_id = 2; fd = 11; last_used = 3; pins = 1 })
    ∷ (record { file_id = 3; fd = 12; last_used = 4; pins = 0 })
    ∷ []

evict_idle-IsEviction_example :
    let r = evict_idle 2 three_files in IsEviction 2 three_files r.kept r.closed
evict_idle-IsEviction_example = evict_idle-IsEviction 2 three_files (refl, (refl, (refl, tt)))

oldest_closed :
    (evict_idle 2 three_files).closed
    ≡ (record { file_id = 3; fd = 12; last_used = 4; pins = 0 }) ∷ []
unfolding evict_idle evict_from oldest_idle erase
oldest_closed = refl
