-- ===== src/PageTable.antt =====
-- src/cpp/lib/buffer/page_table.h and page_table.cc: the hash table from tags to frames. The arrays
-- are functions of the index; `Ops` has the writers as one holder of the stripe locks runs them.
pub mod Table
pub mod Ops
pub mod Chain
pub mod Invariant
pub mod Validity
pub mod Entries
mod Examples
