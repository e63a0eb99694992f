-- ===== src/PageTable/Validity.antt =====
-- Every operation of src/cpp/lib/buffer/page_table.cc keeps the table's chains.
use tele_path.Prelude.{
  ℕ, zero, suc, ◌*◌, ◌^◌, ltb, max, tests, ◌≤◌, ◌<◌, ◌≡◌, ◌≢◌, inl, inr, refl, Bool, true, false,
  not, Option, none, some, List, [], ◌∷◌, ◌==◌, ◌&&◌, if◌then◌else◌, store, arith, Bool-cases,
  ℕ_discrete, subst,
}
use tele_path.Common.Types.{BufferTag}
use tele_path.PageTable.Table.{
  empty_table, bucket_count, bit_ceil_from, Table, none_index, bucket_for, maps_to,
}
use tele_path.PageTable.Ops.{
  link, unlink, replace, install, remove, replace_unless_live, settle, live_other,
}
use tele_path.Common.Chains
use tele_path.Common.Chains.{elem, find, Distinct, IsChain}
use tele_path.PageTable.Invariant.{Represents, IsValid, without, unlink-Represents}

-- Adding a frame at the front of a bucket's chain.
abbrev pub with_front : (ℕ → List ℕ) → ℕ → ℕ → ℕ → List ℕ
with_front chains bucket frame b = if b == bucket then frame ∷ chains b else chains b

module _ (t : Table) (chains : ℕ → List ℕ) (r : Represents t chains) (tag : BufferTag) (frame : ℕ)
    (room : frame < t.frame_capacity) (unmapped : t.bucket_of frame ≡ none_index) where
  unmapped_absent : (b : ℕ) → b ≤ t.bucket_mask → elem frame (chains b) ≡ false
  unmapped_absent b le = ground (arith, r.member b frame le, r.mask_small)

  link_linked :
      (b : ℕ)
      → b ≤ t.bucket_mask
      → IsChain t.frame_capacity
          ((link t (bucket_for t tag) tag frame).next)
          ((link t (bucket_for t tag) tag frame).heads b)
          (with_front chains (bucket_for t tag) frame b)
  unfolding link
  link_linked b le =
      let kept =
        Chains.store-IsChain t.frame_capacity t.next frame (t.heads (bucket_for t tag)) (t.heads b)
          (chains b) (unmapped_absent b le) (r.linked b le) in
      elim (ℕ_discrete b (bucket_for t tag)) [
        | yes e ↦
            let test : (b == bucket_for t tag) ≡ true = ground arith in
            let own : (frame == frame) ≡ true = ground arith in
            rw (test, own)
              (
                refl,
                room,
                subst
                    (λ c.
                      IsChain t.frame_capacity (store t.next frame (t.heads (bucket_for t tag)))
                        (t.heads c) (chains b))
                    e kept,
              )
        | no ne ↦ let test : (b == bucket_for t tag) ≡ false = ground arith in rw test kept
      ]

  link-Represents :
      Represents (link t (bucket_for t tag) tag frame) (with_front chains (bucket_for t tag) frame)
  unfolding link bucket_for
  link-Represents = record {
    small = r.small;
    mask_small = r.mask_small;
    linked = link_linked;
    distinct = λ b le. ground (arith, r.distinct b le, unmapped_absent b le);
    member = λ b f le. ground (arith, r.member b f le, r.mask_small);
    homed = λ f. ground (arith, r.homed f);
  }

-- Unlink leaves the frame unmapped, and the chains valid.
pub unlink-IsValid :
    (t : Table) (frame : ℕ) → t.bucket_of frame ≢ none_index → IsValid t → IsValid (unlink t frame)
unlink-IsValid t frame mapped (chains, r) =
    (without chains frame, unlink-Represents t chains r frame mapped)

pub link-IsValid :
    (t : Table) (tag : BufferTag) (frame : ℕ)
    → frame < t.frame_capacity
    → t.bucket_of frame ≡ none_index
    → IsValid t
    → IsValid (link t (bucket_for t tag) tag frame)
link-IsValid t tag frame room unmapped (chains, r) =
    (with_front chains (bucket_for t tag) frame, link-Represents t chains r tag frame room unmapped)

pub bucket_for-unlink :
    (t : Table) (tag : BufferTag) (frame : ℕ) → bucket_for (unlink t frame) tag ≡ bucket_for t tag
unfolding bucket_for unlink
bucket_for-unlink t tag frame = refl

pub unlink_unmapped : (t : Table) (frame : ℕ) → (unlink t frame).bucket_of frame ≡ none_index
unfolding unlink
unlink_unmapped t frame = ground arith

unlink_capacity : (t : Table) (frame : ℕ) → (unlink t frame).frame_capacity ≡ t.frame_capacity
unfolding unlink
unlink_capacity t frame = refl

-- Unlink and then Link, with the bucket from before.
pub relink-IsValid :
    (t : Table) (tag : BufferTag) (frame : ℕ)
    → frame < t.frame_capacity
    → t.bucket_of frame ≢ none_index
    → IsValid t
    → IsValid (link (unlink t frame) (bucket_for t tag) tag frame)
relink-IsValid t tag frame room mapped v =
    subst (λ b. IsValid (link (unlink t frame) b tag frame)) (bucket_for-unlink t tag frame)
      (link-IsValid (unlink t frame) tag frame (rw (unlink_capacity t frame) room)
        (unlink_unmapped t frame) (unlink-IsValid t frame mapped v))

-- The three results that the writers have.
data Written (t : Table) (tag : BufferTag) (frame : ℕ) (u : Table) : Type 0 where
  kept : u ≡ t → Written t tag frame u
  dropped : t.bucket_of frame ≢ none_index → u ≡ unlink t frame → Written t tag frame u
  added :
      t.bucket_of frame ≡ none_index
      → u ≡ link t (bucket_for t tag) tag frame
      → Written t tag frame u
  moved :
      t.bucket_of frame ≢ none_index
      → u ≡ link (unlink t frame) (bucket_for t tag) tag frame
      → Written t tag frame u

Written-IsValid :
    (t : Table) (tag : BufferTag) (frame : ℕ) (u : Table)
    → frame < t.frame_capacity
    → IsValid t
    → Written t tag frame u
    → IsValid u
Written-IsValid t tag frame u room v (kept e) = rw e v
Written-IsValid t tag frame u room v (dropped m e) = rw e (unlink-IsValid t frame m v)
Written-IsValid t tag frame u room v (added m e) = rw e (link-IsValid t tag frame room m v)
Written-IsValid t tag frame u room v (moved m e) = rw e (relink-IsValid t tag frame room m v)

-- The last step of Replace and ReplaceUnlessLive.
placed :
    (t : Table) (tag : BufferTag) (frame : ℕ) (drops : Bool)
    → (drops ≡ true → t.bucket_of frame ≢ none_index)
    → let u = if drops then unlink t frame else t in
      Written t tag frame
        (if u.bucket_of frame == none_index then link u (bucket_for t tag) tag frame else u)
placed t tag frame true m =
    let test : ((unlink t frame).bucket_of frame == none_index) ≡ true =
      ground (arith, unlink_unmapped t frame) in
    moved (m refl) (rw test refl)
placed t tag frame false m = elim (ℕ_discrete (t.bucket_of frame) none_index) [
  | yes e ↦
      let test : (t.bucket_of frame == none_index) ≡ true = ground arith in added e (rw test refl)
  | no ne ↦
      let test : (t.bucket_of frame == none_index) ≡ false = ground arith in kept (rw test refl)
]

replace-Written :
    (t : Table) (old_tag new_tag : BufferTag) (frame : ℕ)
    → Written t new_tag frame (replace t old_tag new_tag frame)
unfolding replace
replace-Written t old_tag new_tag frame = placed t new_tag frame _ (λ h. ground arith)

remove-Written :
    (t : Table) (tag : BufferTag) (frame : ℕ) → Written t tag frame (remove t tag frame)
unfolding remove
remove-Written t tag frame = elim (ℕ_discrete (t.bucket_of frame) none_index) [
  | yes e ↦
      let test : (t.bucket_of frame == none_index) ≡ true = ground arith in kept (rw test refl)
  | no ne ↦
      let test : (t.bucket_of frame == none_index) ≡ false = ground arith in
      elim (Bool-cases (maps_to t frame tag)) [
        | inl h ↦ dropped ne (rw (test, h) refl)
        | inr h ↦ kept (rw (test, h) refl)
      ]
]

drops_mapped :
    (t : Table) (frame : ℕ) (b : Bool)
    → (not (t.bucket_of frame == none_index) && b) ≡ true
    → t.bucket_of frame ≢ none_index
drops_mapped t frame b h = ground arith

settle-Written :
    (t : Table) (old_tag : Option BufferTag) (new_tag : BufferTag) (frame : ℕ) (existing : Option ℕ)
    → Written t new_tag frame ((settle t old_tag new_tag frame existing).0)
unfolding settle
settle-Written t old_tag new_tag frame none = placed t new_tag frame _ (drops_mapped t frame _)
settle-Written t old_tag new_tag frame (some g) = elim (ℕ_discrete (t.bucket_of frame) none_index) [
  | yes m ↦
      let test : (t.bucket_of frame == none_index) ≡ true = ground arith in kept (rw test refl)
  | no ne ↦ dropped ne (ground arith)
]

replace_unless_live-Written :
    (t : Table) (old_tag : Option BufferTag) (new_tag : BufferTag) (frame : ℕ) (live : ℕ → Bool)
    → Written t new_tag frame ((replace_unless_live t old_tag new_tag frame live).0)
unfolding replace_unless_live
replace_unless_live-Written t old_tag new_tag frame live =
    settle-Written t old_tag new_tag frame (live_other t new_tag frame live)

-- Install, Remove, Replace and ReplaceUnlessLive keep the chains of a valid table, whatever tags and
-- live test they are called with, for a frame below the capacity.
pub writers-IsValid :
    (t : Table) (old_tag : Option BufferTag) (tag new_tag : BufferTag) (frame : ℕ) (live : ℕ → Bool)
    → frame < t.frame_capacity
    → IsValid t
    → IsValid (install t tag frame)
      × IsValid (remove t tag frame)
      × IsValid (replace t tag new_tag frame)
      × IsValid ((replace_unless_live t old_tag new_tag frame live).0)
unfolding install
writers-IsValid t old_tag tag new_tag frame live room v = (
  Written-IsValid t tag frame _ room v (replace-Written t tag tag frame),
  Written-IsValid t tag frame _ room v (remove-Written t tag frame),
  Written-IsValid t new_tag frame _ room v (replace-Written t tag new_tag frame),
  Written-IsValid t new_tag frame _ room v
      (replace_unless_live-Written t old_tag new_tag frame live),
)

bit_ceil_from-le : (fuel power n : ℕ) → bit_ceil_from fuel power n ≤ max power (2 * n)
unfolding bit_ceil_from
bit_ceil_from-le zero power n = omega arith
bit_ceil_from-le (suc fuel) power n = elim (Bool-cases (ltb power n)) [
  | inl h ↦ rw h (omega (tests, bit_ceil_from-le fuel (power * 2) n))
  | inr h ↦ rw h (bit_ceil_from-le fuel power n)
]

-- The constructor gives a table with empty chains. A capacity of up to 2^31 - 1 frames keeps the
-- mask below the index that stands for no frame.
pub empty_table-IsValid :
    (frame_capacity stripe_count : ℕ)
    → frame_capacity < 2 ^ 31
    → IsValid (empty_table frame_capacity stripe_count)
unfolding empty_table bucket_count
empty_table-IsValid frame_capacity stripe_count small = (
  λ b. [],
  record {
    small = omega arith;
    mask_small = omega (arith, bit_ceil_from-le 64 1 (max frame_capacity 1));
    linked = λ b le. refl;
    distinct = λ b le. tt;
    member = λ b f le. ground arith;
    homed = λ f. inl refl;
  },
)
