-- ===== src/PageTable/Invariant.antt =====
-- What every operation of src/cpp/lib/buffer/page_table.cc keeps: each bucket's chain is a list of
-- distinct frames, a frame is in the chain of `bucket_of` and in no other, and that bucket is the
-- hash of the frame's tag.
use tele_path.Prelude.{
  ℕ, ◌≤◌, ◌<◌, ◌≡◌, ◌≢◌, ◌⊎◌, true, false, List, ◌==◌, if◌then◌else◌, subst, arith, ℕ_discrete,
}
use tele_path.Prelude.Bits.{and-le}
use tele_path.Common.Types.{BufferTag}
use tele_path.PageTable.Table.{Table, none_index, bucket_for, maps_to, lookup_frame_id, mix_tag}
use tele_path.PageTable.Ops.{unlink, bypass}
use tele_path.PageTable.Chain
use tele_path.Common.Chains
use tele_path.Common.Chains.{elem, find, Distinct, IsChain}

abbrev pub tag_of : Table → ℕ → BufferTag
tag_of t frame = record { file_id = t.key_file_id frame; block_id = t.key_block_id frame }

pub record Represents (t : Table) (chains : ℕ → List ℕ) : Type 0 where
  pub small : t.frame_capacity ≤ none_index
  pub mask_small : t.bucket_mask < none_index
  pub linked : (b : ℕ) → b ≤ t.bucket_mask → IsChain t.frame_capacity t.next (t.heads b) (chains b)
  pub distinct : (b : ℕ) → b ≤ t.bucket_mask → Distinct (chains b)
  pub member : (b f : ℕ) → b ≤ t.bucket_mask → elem f (chains b) ≡ (t.bucket_of f == b)
  pub homed : (f : ℕ) → (t.bucket_of f ≡ none_index) ⊎ (bucket_for t (tag_of t f) ≡ t.bucket_of f)

-- The table is the representation of some chains.
abbrev pub IsValid : Table → Type 0
IsValid t = (chains : ℕ → List ℕ) × Represents t chains

pub bucket_for-le : (t : Table) (tag : BufferTag) → bucket_for t tag ≤ t.bucket_mask
unfolding bucket_for
bucket_for-le t tag = and-le (mix_tag tag) t.bucket_mask

-- A lookup finds the first frame of the tag's chain that maps the tag.
pub lookup-find :
    (t : Table) (chains : ℕ → List ℕ) (tag : BufferTag)
    → Represents t chains
    → lookup_frame_id t tag ≡ find (λ frame. maps_to t frame tag) (chains (bucket_for t tag))
unfolding lookup_frame_id
lookup-find t chains tag r =
    let b = bucket_for t tag in
    let le = bucket_for-le t tag in
    Chains.walk-find (λ frame. maps_to t frame tag) t.frame_capacity t.next t.frame_capacity
      (t.heads b) (chains b) r.small (r.linked b le)
      (Chains.length-le t.frame_capacity t.next (t.heads b) (chains b) (r.distinct b le)
        (r.linked b le))

-- Removing a frame from the chains.
abbrev pub without : (ℕ → List ℕ) → ℕ → ℕ → List ℕ
without chains frame b = Chains.remove frame (chains b)

module _ (t : Table) (chains : ℕ → List ℕ) (r : Represents t chains) (frame : ℕ) where
  -- The chain of another bucket does not hold the frame.
  elsewhere : (b f : ℕ) → b ≤ t.bucket_mask → t.bucket_of f ≢ b → elem f (chains b) ≡ false
  elsewhere b f le ne = ground (arith, r.member b f le)

  home-le : t.bucket_of frame ≢ none_index → t.bucket_of frame ≤ t.bucket_mask
  home-le mapped = ground (arith, r.homed frame, bucket_for-le t (tag_of t frame))

  module _ (mapped : t.bucket_of frame ≢ none_index) where
    own_unlinked :
        let links =
          if t.heads (t.bucket_of frame) == frame
          then t.next
          else bypass t.frame_capacity t.next (t.heads (t.bucket_of frame)) frame (t.next frame) in
        IsChain t.frame_capacity links
          (if t.heads (t.bucket_of frame) == frame
            then t.next frame
            else t.heads (t.bucket_of frame))
          (without chains frame (t.bucket_of frame))
        × ((j : ℕ) → elem j (chains (t.bucket_of frame)) ≡ false → links j ≡ t.next j)
    own_unlinked =
        let le = home-le mapped in
        let b = t.bucket_of frame in
        let c = r.linked b le in
        let d = r.distinct b le in
        Chain.unlinked t.frame_capacity t.next frame r.small (t.heads b) (chains b) c d
          (ground (arith, r.member b frame le))
          (Chains.length-le t.frame_capacity t.next (t.heads b) (chains b) d c)

    heads_own : (unlink t frame).heads (t.bucket_of frame) ≡ (
        if t.heads (t.bucket_of frame) == frame then t.next frame else t.heads (t.bucket_of frame))
    unfolding unlink
    heads_own = ground arith

    unlink_own :
        IsChain t.frame_capacity
          ((unlink t frame).next)
          ((unlink t frame).heads (t.bucket_of frame))
          (without chains frame (t.bucket_of frame))
    unfolding unlink
    unlink_own =
        let gone = Chains.elem-remove_self frame (chains (t.bucket_of frame)) in
        rw heads_own (
          Chains.store-IsChain t.frame_capacity _ frame none_index _
            (without chains frame (t.bucket_of frame)) gone (own_unlinked.0))

    heads_other : (b : ℕ) → t.bucket_of frame ≢ b → (unlink t frame).heads b ≡ t.heads b
    unfolding unlink
    heads_other b ne = ground arith

    next_other :
        (b j : ℕ)
        → b ≤ t.bucket_mask
        → t.bucket_of frame ≢ b
        → elem j (chains b) ≡ true
        → (unlink t frame).next j ≡ t.next j
    unfolding unlink
    next_other b j le ne m =
        let away =
          elsewhere (t.bucket_of frame) j (home-le mapped) (ground (arith, r.member b j le)) in
        let apart : j ≢ frame = λ e. ground (arith, elsewhere b frame le ne) in
        ground (arith, own_unlinked.1 j away)

    unlink_other :
        (b : ℕ)
        → b ≤ t.bucket_mask
        → t.bucket_of frame ≢ b
        → IsChain t.frame_capacity
            ((unlink t frame).next)
            ((unlink t frame).heads b)
            (without chains frame b)
    unlink_other b le ne =
        rw (Chains.remove_absent frame (chains b) (elsewhere b frame le ne), heads_other b ne)
          (Chains.agree-IsChain t.frame_capacity t.next ((unlink t frame).next) (t.heads b)
            (chains b) (λ j m. next_other b j le ne m) (r.linked b le))

    unlink_linked :
        (b : ℕ)
        → b ≤ t.bucket_mask
        → IsChain t.frame_capacity
            ((unlink t frame).next)
            ((unlink t frame).heads b)
            (without chains frame b)
    unlink_linked b le = elim (ℕ_discrete (t.bucket_of frame) b) [
      | yes e ↦
          subst
            (λ c.
              IsChain t.frame_capacity ((unlink t frame).next) ((unlink t frame).heads c)
                (without chains frame c))
            e unlink_own
      | no ne ↦ unlink_other b le ne
    ]

    unlink_member :
        (b f : ℕ)
        → b ≤ t.bucket_mask
        → elem f (without chains frame b) ≡ ((unlink t frame).bucket_of f == b)
    unfolding unlink
    unlink_member b f le = ground (
      arith,
      r.member b f le,
      r.mask_small,
      Chains.elem-remove_self frame (chains b),
      Chains.elem-remove_ne frame f (chains b),
    )

    unlink_homed :
        (f : ℕ)
        → ((unlink t frame).bucket_of f ≡ none_index)
          ⊎ (bucket_for (unlink t frame) (tag_of (unlink t frame) f) ≡ (unlink t frame).bucket_of f)
    unfolding unlink bucket_for
    unlink_homed f = ground (arith, r.homed f)

    -- Unlink takes the frame out of its chain, and out of nothing else.
    pub unlink-Represents : Represents (unlink t frame) (without chains frame)
    unfolding unlink
    unlink-Represents = record {
      small = r.small;
      mask_small = r.mask_small;
      linked = unlink_linked;
      distinct = λ b le. Chains.remove-Distinct frame (chains b) (r.distinct b le);
      member = unlink_member;
      homed = unlink_homed;
    }
