-- ===== src/Io/FileDescriptors.antt =====
-- src/cpp/lib/io/file_descriptor_cache.cc. Each operation runs under the cache's latch. open, fstat and
-- ftruncate are arguments, and the descriptors that are closed are a result.
use tele_path.Prelude.{
  ℕ, zero, suc, ◌+◌, ◌-◌, ◌%◌, ◌^◌, ◌⊎◌, inl, inr, Bool, true, false, ◌&&◌, Option, none, some,
  List, [], ◌∷◌, ◌++◌, length, ◌==◌, ltb, leb, if◌then◌else◌,
}
use tele_path.Common.Status.{Error}
use tele_path.Common.Results.{Result, value, failure, io_error}

pub record Entry : Type 0 where
  pub file_id : ℕ
  pub fd : ℕ
  pub last_used : ℕ
  pub pins : ℕ

pub record DescriptorCache : Type 0 where
  pub max_open_files : ℕ
  pub clock : ℕ
  pub entries : List Entry

-- The constructor.
unfoldable pub new_cache : ℕ → DescriptorCache
new_cache max_open_files = record {
  max_open_files = if max_open_files == 0 then 64 else max_open_files;
  clock = 0;
  entries = [];
}

unfoldable pub find_entry : ℕ → List Entry → Option Entry
find_entry file [] = none
find_entry file (e ∷ es) = if e.file_id == file then some e else find_entry file es

unfoldable pub erase : ℕ → List Entry → List Entry
erase file [] = []
erase file (e ∷ es) = if e.file_id == file then es else e ∷ erase file es

unfoldable pub replace_entry : Entry → List Entry → List Entry
replace_entry new [] = []
replace_entry new (e ∷ es) = if e.file_id == new.file_id then new ∷ es else e ∷ replace_entry new es

abbrev pub beats : Entry → Option Entry → Bool
beats e none = true
beats e (some victim) = ltb e.last_used victim.last_used

-- The inner loop of EvictIdleLocked.
unfoldable pub oldest_idle : List Entry → Option Entry → Option Entry
oldest_idle [] victim = victim
oldest_idle (e ∷ es) victim =
    oldest_idle es (if e.pins == 0 && beats e victim then some e else victim)

-- EvictIdleLocked: the entries that stay, and those that it closes. Each round closes one, so the
-- number of entries is fuel enough.
pub record Evicted : Type 0 where
  pub kept : List Entry
  pub closed : List Entry

unfoldable pub evict_from : ℕ → ℕ → List Entry → Evicted
unfolding oldest_idle erase
evict_from zero target entries = record { kept = entries; closed = [] }
evict_from (suc fuel) target entries = elim (leb (length entries) target) [
  | true ↦ record { kept = entries; closed = [] }
  | false ↦ elim (oldest_idle entries none) [
    | none ↦ record { kept = entries; closed = [] }
    | some victim ↦
        let rest = evict_from fuel target (erase victim.file_id entries) in
        record rest { closed = victim ∷ rest.closed }
  ]
]

unfoldable pub evict_idle : ℕ → List Entry → Evicted
unfolding evict_from
evict_idle target entries = evict_from (length entries) target entries

-- What an operation leaves, the descriptors that it closed, and what it returns.
pub record Outcome (A : Type 0) : Type 0 where
  pub cache : DescriptorCache
  pub closed : List Entry
  pub result : A

-- `++clock_` on 64 bits.
abbrev pub tick : DescriptorCache → ℕ
tick c = (c.clock + 1) % 2 ^ 64

abbrev pub pin_entry : DescriptorCache → Entry → Outcome (Result ℕ)
pin_entry c e = record {
  cache = record c {
    clock = tick c;
    entries =
        replace_entry (record e { pins = (e.pins + 1) % 2 ^ 64; last_used = tick c }) c.entries;
  };
  closed = [];
  result = value e.fd;
}

-- The rest of Acquire, from what open returned: a descriptor or an errno.
abbrev pub add_opened : DescriptorCache → ℕ → List Entry → ℕ ⊎ ℕ → Outcome (Result ℕ)
add_opened c file closed (inl fd) = record {
  cache = record c {
    clock = tick c;
    entries = (record { file_id = file; fd = fd; last_used = tick c; pins = 1 }) ∷ c.entries;
  };
  closed = closed;
  result = value fd;
}
add_opened c file closed (inr errno) = record {
  cache = c;
  closed = closed;
  result = failure (io_error "open failed" errno);
}

unfoldable pub acquire : (ℕ → ℕ ⊎ ℕ) → ℕ → DescriptorCache → Outcome (Result ℕ)
unfolding find_entry evict_idle replace_entry
acquire open_file file c =
    let evicted = evict_idle (c.max_open_files - 1) c.entries in
    elim (find_entry file c.entries) [
      | some e ↦ pin_entry c e
      | none ↦ add_opened (record c { entries = evicted.kept }) file evicted.closed (open_file file)
    ]

unfoldable pub release : ℕ → DescriptorCache → Outcome (Unit {0})
unfolding find_entry evict_idle replace_entry
release file c = elim (find_entry file c.entries) [
  | none ↦ record { cache = c; closed = []; result = tt }
  | some e ↦
      let unpinned = record e { pins = e.pins - 1; last_used = tick c } in
      let evicted = evict_idle c.max_open_files (replace_entry unpinned c.entries) in
      record {
        cache = record c { clock = tick c; entries = evicted.kept };
        closed = evicted.closed;
        result = tt;
      }
]

unfoldable pub close_idle : DescriptorCache → Outcome (Unit {0})
unfolding evict_idle
close_idle c =
    let evicted = evict_idle 0 c.entries in
    record { cache = record c { entries = evicted.kept }; closed = evicted.closed; result = tt }

-- FileSize and SetFileSize pin the descriptor for one system call, whose errno is `inr`.
abbrev pub stat_result : {A : Type 0} → Error → A ⊎ ℕ → Result A
stat_result e (inl a) = value a
stat_result e (inr errno) = failure (record e { system_error = errno })

abbrev pub with_descriptor :
    {A : Type 0} → Error → (ℕ → A ⊎ ℕ) → ℕ → Outcome (Result ℕ) → Outcome (Result A)
with_descriptor e call file acquired = elim (acquired.result) [
  | failure cause ↦ record {
    cache = acquired.cache;
    closed = acquired.closed;
    result = failure cause;
  }
  | value fd ↦
      let released = release file acquired.cache in
      record {
        cache = released.cache;
        closed = acquired.closed ++ released.closed;
        result = stat_result e (call fd);
      }
]

unfoldable pub file_size : (ℕ → ℕ ⊎ ℕ) → (ℕ → ℕ ⊎ ℕ) → ℕ → DescriptorCache → Outcome (Result ℕ)
unfolding acquire release
file_size open_file fstat file c =
    with_descriptor (io_error "fstat failed" 0) fstat file (acquire open_file file c)

unfoldable pub set_file_size :
    (ℕ → ℕ ⊎ ℕ) → (ℕ → ℕ → Unit {0} ⊎ ℕ) → ℕ → ℕ → DescriptorCache → Outcome (Result (Unit {0}))
unfolding acquire release
set_file_size open_file ftruncate file size c =
    with_descriptor (io_error "ftruncate failed" 0) (λ fd. ftruncate fd size) file
      (acquire open_file file c)
