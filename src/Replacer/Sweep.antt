-- ===== src/Replacer/Sweep.antt =====
-- The loop of Victim that src/cpp/lib/replacer/clock_replacer.cc and
-- src/cpp/lib/replacer/clock_sweep_replacer.cc share: a hand goes round the frames and cools the marks
-- of evictable frames until it finds a cold one.
use tele_path.Prelude.{
  ℕ, zero, suc, ◌+◌, ◌%◌, ◌^◌, Bool, not, ◌||◌, Option, none, some, if◌then◌else◌, store,
}

pub record Marks : Type 0 where
  pub hand : ℕ
  pub mark : ℕ → ℕ

-- How a replacer reads and cools a mark.
pub record Policy : Type 0 where
  pub untracked : ℕ → Bool
  pub hot : ℕ → Bool
  pub cool : ℕ → ℕ

-- `hand->fetch_add(1)` on a std::size_t.
abbrev pub advance : Marks → Marks
advance m = record m { hand = (m.hand + 1) % 2 ^ 64 }

unfoldable pub sweep : Policy → ℕ → (ℕ → Bool) → ℕ → Marks → Marks × Option ℕ
sweep p capacity evictable zero m = (m, none)
sweep p capacity evictable (suc scans) m =
    let candidate = m.hand % capacity in
    let observed = m.mark candidate in
    let passed = p.untracked observed || not (evictable candidate) in
    let moved = advance m in
    let cooled = record moved { mark = store m.mark candidate (p.cool observed) } in
    let rest = sweep p capacity evictable scans (if passed then moved else cooled) in
    if passed then rest else if p.hot observed then rest else (moved, some candidate)
