-- ===== src/Io/Eviction.antt =====
-- What EvictIdleLocked of src/cpp/lib/io/file_descriptor_cache.cc closes and keeps.
use tele_path.Prelude.{
  ℕ, zero, suc, ◌+◌, ◌≤◌, ◌≡◌, ◌⊎◌, inl, inr, refl, subst, ◌∙◌, none, List, [], ◌∷◌, length, leb,
  arith, Bool-cases, Option-cases,
}
use tele_path.Io.FileDescriptors.{Entry, oldest_idle, erase, evict_from, evict_idle}
use tele_path.Io.Entries.{
  IsIn, IsUnique, pinned, oldest-none, IsOldest, oldest_idle-IsOldest, erase-in, erase-pinned,
}

-- What an eviction does to the entries of the cache.
pub record IsEviction (target : ℕ) (entries kept closed : List Entry) : Type 0 where
  pub bounded : (length kept ≤ target) ⊎ (pinned kept ≡ kept)
  pub pins_kept : pinned kept ≡ pinned entries
  pub counted : length kept + length closed ≡ length entries
  pub subset : (e : Entry) → IsIn e kept → IsIn e entries
  pub idle : (e : Entry) → IsIn e closed → (IsIn e entries) × (e.pins ≡ 0)
  pub oldest :
      (e e' : Entry) → IsIn e closed → IsIn e' kept → e'.pins ≡ 0 → e.last_used ≤ e'.last_used
  pub unique : IsUnique kept

nothing-IsEviction :
    (target : ℕ) (entries : List Entry)
    → IsUnique entries
    → (length entries ≤ target) ⊎ (pinned entries ≡ entries)
    → IsEviction target entries entries []
nothing-IsEviction target entries u done = record {
  bounded = done;
  pins_kept = refl;
  counted = omega arith;
  subset = λ e i. i;
  idle = λ e i. cc;
  oldest = λ e e' i. cc;
  unique = u;
}

one-IsEviction :
    (target : ℕ) (entries kept closed : List Entry) (v : Entry)
    → IsUnique entries
    → IsOldest entries none v
    → IsEviction target (erase v.file_id entries) kept closed
    → IsEviction target entries kept (v ∷ closed)
one-IsEviction target entries kept closed v u (from, below, under) r =
    let (member, free) : IsIn v entries × (v.pins ≡ 0) = elim from [
      | inl none_is_some ↦ cc
      | inr found ↦ found
    ] in
    let (same, shorter, unique) = erase-pinned v entries u member free in
    record {
      bounded = r.bounded;
      pins_kept = r.pins_kept ∙ same;
      counted = omega (arith, r.counted, shorter);
      subset = λ e i. erase-in v.file_id e entries (r.subset e i);
      idle = λ e i. elim i [
        | inl is_v ↦ subst (λ x. IsIn x entries × (x.pins ≡ 0)) is_v (member, free)
        | inr later ↦
            let (inside, unpinned) = r.idle e later in
            (erase-in v.file_id e entries inside, unpinned)
      ];
      oldest = λ e e' i i' free'. elim i [
        | inl is_v ↦
            subst (λ (x : Entry). x.last_used ≤ e'.last_used) is_v
              (below e' (erase-in v.file_id e' entries (r.subset e' i')) free')
        | inr later ↦ r.oldest e e' later i' free'
      ];
      unique = r.unique;
    }

evict-IsEviction :
    (fuel target : ℕ) (entries : List Entry)
    → IsUnique entries
    → length entries ≤ fuel
    → let r = evict_from fuel target entries in IsEviction target entries r.kept r.closed
unfolding evict_from
evict-IsEviction zero target entries u enough =
    nothing-IsEviction target entries u (inl (omega arith))
evict-IsEviction (suc fuel) target entries u enough =
    elim (Bool-cases (leb (length entries) target)) [
      | inl fits ↦ rw (fits, evict_from) (nothing-IsEviction target entries u (inl (ground arith)))
      | inr full ↦ elim (Option-cases (oldest_idle entries none)) [
        | inl all_pinned ↦
            rw (full, all_pinned, evict_from)
              (nothing-IsEviction target entries u (inr (oldest-none entries all_pinned)))
        | inr (v, found) ↦
            let is_oldest = oldest_idle-IsOldest entries none v found in
            let member : IsIn v entries × (v.pins ≡ 0) = elim (is_oldest.0) [
              | inl none_is_some ↦ cc
              | inr inside ↦ inside
            ] in
            let (same, shorter, unique) = erase-pinned v entries u member.0 member.1 in
            let rest = evict_from fuel target (erase v.file_id entries) in
            rw (full, found, evict_from)
              (one-IsEviction target entries rest.kept rest.closed v u is_oldest
                (evict-IsEviction fuel target (erase v.file_id entries) unique (omega arith)))
      ]
    ]

-- On entries for distinct files, the loop of EvictIdleLocked ends: no more entries than the target are
-- left, or only pinned ones. No pinned entry is closed, each entry is kept or closed, and an idle
-- entry that stays was used no earlier than any that is closed.
pub evict_idle-IsEviction :
    (target : ℕ) (entries : List Entry)
    → IsUnique entries
    → let r = evict_idle target entries in IsEviction target entries r.kept r.closed
unfolding evict_idle
evict_idle-IsEviction target entries u =
    evict-IsEviction (length entries) target entries u (omega arith)
