-- ===== src/PageTable/Entries.antt =====
-- The abstract view of src/cpp/lib/buffer/page_table.cc: which tag each frame is installed under.
use tele_path.Prelude.{
  ℕ, zero, suc, ◌≤◌, ◌<◌, ◌≡◌, ◌≢◌, ◌⊎◌, inl, inr, refl, ap, ◌∙◌, Bool, true, false, not, Option,
  none, some, List, [], ◌∷◌, ◌==◌, ◌||◌, ◌&&◌, if◌then◌else◌, arith, ℕ_discrete, Option-cases,
}
use tele_path.Common.Types.{BufferTag}
use tele_path.Common.Chains.{walk}
use tele_path.PageTable.Table.{Table, none_index, bucket_for, maps_to, lookup_frame_id}
use tele_path.PageTable.Ops.{
  link, unlink, replace, install, remove, replace_unless_live, settle, live_other,
}
use tele_path.Common.Chains
use tele_path.Common.Chains.{elem, find, Distinct, IsChain}
use tele_path.PageTable.Invariant.{Represents, IsValid, tag_of, bucket_for-le, lookup-find}

abbrev pub entry : Table → ℕ → Option BufferTag
entry t frame = if t.bucket_of frame == none_index then none else some (tag_of t frame)

maps_to-tag_of : (t : Table) (f : ℕ) (tag : BufferTag) → maps_to t f tag ≡ true → tag_of t f ≡ tag
unfolding maps_to
maps_to-tag_of t f tag h = ground arith

find-miss : (p : ℕ → Bool) (xs : List ℕ) (f : ℕ) → find p xs ≡ none → elem f xs ≡ true → p f ≡ false
find-miss p [] f h m = cc
find-miss p (x ∷ xs) f h m = ground (arith, find-miss p xs f)

entry-elem :
    (t : Table) (chains : ℕ → List ℕ) (r : Represents t chains) (f : ℕ) (tag : BufferTag)
    → entry t f ≡ some tag
    → (elem f (chains (bucket_for t tag)) ≡ true) × (maps_to t f tag ≡ true)
unfolding maps_to
entry-elem t chains r f tag h =
    let e : tag_of t f ≡ tag = ground arith in
    let home : bucket_for t (tag_of t f) ≡ t.bucket_of f = ground (arith, r.homed f) in
    let b = bucket_for t tag in
    (ground (arith, r.member b f (bucket_for-le t tag), ap (bucket_for t) e), ground arith)

-- In a valid table LookupFrameId gives a frame that is installed under the tag, or none, and then no
-- frame is installed under it.
pub lookup-entry :
    (t : Table) (tag : BufferTag)
    → IsValid t
    → ((f : ℕ) × (lookup_frame_id t tag ≡ some f) × (entry t f ≡ some tag))
      ⊎ ((lookup_frame_id t tag ≡ none) × ((f : ℕ) → entry t f ≢ some tag))
lookup-entry t tag (chains, r) =
    let b = bucket_for t tag in
    let p : ℕ → Bool = λ frame. maps_to t frame tag in
    let e = lookup-find t chains tag r in
    elim (Option-cases (find p (chains b))) [
      | inr (f, h) ↦
          let (hit, m) = Chains.find-hit p (chains b) f h in
          let own = maps_to-tag_of t f tag hit in
          let bucket : t.bucket_of f ≢ none_index = λ z.
            ground (arith, r.member b f (bucket_for-le t tag), r.mask_small, bucket_for-le t tag) in
          inl (f, e ∙ h, ground arith)
      | inl h ↦ inr (
        e ∙ h,
        λ f m.
            let (inside, hit) = entry-elem t chains r f tag m in
            ground (arith, find-miss p (chains b) f h inside),
      )
    ]

-- Unlink and Link on the entries.
entry-unlink :
    (t : Table) (frame g : ℕ) → entry (unlink t frame) g ≡ (if g == frame then none else entry t g)
unfolding unlink
entry-unlink t frame g = ground arith

entry-link :
    (t : Table) (tag : BufferTag) (frame g : ℕ)
    → t.bucket_mask < none_index
    → entry (link t (bucket_for t tag) tag frame) g ≡ (if g == frame then some tag else entry t g)
unfolding link
entry-link t tag frame g small = ground (arith, bucket_for-le t tag)

entry-replace :
    (t : Table) (old_tag new_tag : BufferTag) (frame g : ℕ)
    → t.bucket_mask < none_index
    → entry (replace t old_tag new_tag frame) g ≡ (if g == frame then some new_tag else entry t g)
unfolding replace link unlink maps_to
entry-replace t old_tag new_tag frame g small = ground (arith, bucket_for-le t new_tag)

entry-remove :
    (t : Table) (tag : BufferTag) (frame g : ℕ)
    → entry (remove t tag frame) g ≡ (if g == frame && maps_to t frame tag then none else entry t g)
unfolding remove unlink
entry-remove t tag frame g = ground arith

entry-settle_free :
    (t : Table) (old_tag : Option BufferTag) (new_tag : BufferTag) (frame g : ℕ)
    → t.bucket_mask < none_index
    → entry ((settle t old_tag new_tag frame none).0) g
      ≡ (if g == frame then some new_tag else entry t g)
unfolding settle link unlink maps_to
entry-settle_free t old_tag new_tag frame g small = ground (arith, bucket_for-le t new_tag)

entry-settle_taken :
    (t : Table) (old_tag : Option BufferTag) (new_tag : BufferTag) (frame other g : ℕ)
    → entry ((settle t old_tag new_tag frame (some other)).0) g
      ≡ (if g == frame then none else entry t g)
unfolding settle link unlink maps_to
entry-settle_taken t old_tag new_tag frame other g = ground arith

-- In a valid table Replace, Install and Remove change the entry of their frame alone: Replace and
-- Install put it under the new tag, and Remove clears it when the frame maps the tag.
pub writers-entry :
    (t : Table) (tag new_tag : BufferTag) (frame g : ℕ)
    → IsValid t
    → (entry (install t tag frame) g ≡ (if g == frame then some tag else entry t g))
      × (entry (replace t tag new_tag frame) g ≡ (if g == frame then some new_tag else entry t g))
      × (entry (remove t tag frame) g
          ≡ (if g == frame && maps_to t frame tag then none else entry t g))
unfolding install
writers-entry t tag new_tag frame g (chains, r) = (
  entry-replace t tag tag frame g r.mask_small,
  entry-replace t tag new_tag frame g r.mask_small,
  entry-remove t tag frame g,
)

-- What the first loop of ReplaceUnlessLive looks for.
live_other-entry :
    (t : Table) (new_tag : BufferTag) (frame : ℕ) (live : ℕ → Bool)
    → IsValid t
    → ((g : ℕ) × (live_other t new_tag frame live ≡ some g)
        × (g ≢ frame)
        × (entry t g ≡ some new_tag)
        × (live g ≡ true))
      ⊎ ((live_other t new_tag frame live ≡ none)
          × ((g : ℕ) → g ≢ frame → entry t g ≡ some new_tag → live g ≡ false))
unfolding live_other
live_other-entry t new_tag frame live (chains, r) =
    let b = bucket_for t new_tag in
    let le = bucket_for-le t new_tag in
    let p : ℕ → Bool = λ other. not (other == frame) && maps_to t other new_tag && live other in
    let e =
      Chains.walk-find p t.frame_capacity t.next t.frame_capacity (t.heads b) (chains b) r.small
        (r.linked b le)
        (Chains.length-le t.frame_capacity t.next (t.heads b) (chains b) (r.distinct b le)
          (r.linked b le)) in
    elim (Option-cases (find p (chains b))) [
      | inr (g, h) ↦
          let (hit, m) = Chains.find-hit p (chains b) g h in
          let maps : maps_to t g new_tag ≡ true = ground arith in
          let own = maps_to-tag_of t g new_tag maps in
          let bucket : t.bucket_of g ≢ none_index =
            λ z. ground (arith, r.member b g le, r.mask_small) in
          inl (g, e ∙ h, ground arith, ground arith, ground arith)
      | inl h ↦ inr (
        e ∙ h,
        λ g ne m.
            let (inside, hit) = entry-elem t chains r g new_tag m in
            ground (arith, find-miss p (chains b) g h inside),
      )
    ]

-- In a valid table ReplaceUnlessLive gives back another live frame of the new tag and leaves the frame unmapped, or
-- gives none and puts the frame under the new tag, with no other live frame under it. The entries
-- of all other frames are left alone.
pub replace_unless_live-entry :
    (t : Table) (old_tag : Option BufferTag) (new_tag : BufferTag) (frame : ℕ) (live : ℕ → Bool)
    → IsValid t
    → let (u, existing) = replace_unless_live t old_tag new_tag frame live in
      ((g : ℕ) × (existing ≡ some g)
        × (g ≢ frame)
        × (entry t g ≡ some new_tag)
        × (live g ≡ true)
        × ((j : ℕ) → entry u j ≡ (if j == frame then none else entry t j)))
      ⊎ ((existing ≡ none)
          × ((g : ℕ) → g ≢ frame → entry t g ≡ some new_tag → live g ≡ false)
          × ((j : ℕ) → entry u j ≡ (if j == frame then some new_tag else entry t j)))
unfolding replace_unless_live settle
replace_unless_live-entry t old_tag new_tag frame live (chains, r) =
    elim (live_other-entry t new_tag frame live (chains, r)) [
      | inl (g, e, ne, m, h) ↦
          inl (g, e, ne, m, h, λ j. rw e (entry-settle_taken t old_tag new_tag frame g j))
      | inr (e, alone) ↦
          inr (e, alone, λ j. rw e (entry-settle_free t old_tag new_tag frame j r.mask_small))
    ]

-- At most one live frame is installed under a tag.
abbrev pub IsUnique : (ℕ → Bool) → Table → Type 0
IsUnique live t =
    (f g : ℕ) (tag : BufferTag)
    → live f ≡ true
    → live g ≡ true
    → entry t f ≡ some tag
    → entry t g ≡ some tag
    → f ≡ g

-- In a valid table ReplaceUnlessLive keeps at most one live frame under each tag, and it still does
-- when the frame itself counts as live from then on.
pub replace_unless_live-IsUnique :
    (t : Table) (old_tag : Option BufferTag) (new_tag : BufferTag) (frame : ℕ) (live : ℕ → Bool)
    → IsValid t
    → IsUnique live t
    → IsUnique (λ g. g == frame || live g) ((replace_unless_live t old_tag new_tag frame live).0)
replace_unless_live-IsUnique t old_tag new_tag frame live v u f g tag lf lg ef eg =
    elim (replace_unless_live-entry t old_tag new_tag frame live v) [
      | inl (other, e, ne, m, h, after) ↦ ground (arith, u f g tag, after f, after g)
      | inr (e, alone, after) ↦ ground (arith, u f g tag, alone f, alone g, after f, after g)
    ]

walk_hit :
    (wanted : ℕ → Bool) (next : ℕ → ℕ) (steps x : ℕ)
    → 0 < steps
    → x ≢ none_index
    → wanted x ≡ true
    → walk wanted next steps x ≡ some x
unfolding walk
walk_hit wanted next zero x pos ne h = absurd (omega arith)
walk_hit wanted next (suc steps) x pos ne h = ground arith

lookup-link :
    (t : Table) (tag : BufferTag) (frame : ℕ)
    → frame < t.frame_capacity
    → t.frame_capacity ≤ none_index
    → lookup_frame_id (link t (bucket_for t tag) tag frame) tag ≡ some frame
unfolding lookup_frame_id link maps_to bucket_for
lookup-link t tag frame room small =
    let head : (link t (bucket_for t tag) tag frame).heads (bucket_for t tag) ≡ frame =
      ground arith in
    rw head (walk_hit _ _ t.frame_capacity frame (omega arith) (λ e. omega arith) (ground arith))

install-link :
    (t : Table) (tag : BufferTag) (frame : ℕ)
    → (install t tag frame ≡ link t (bucket_for t tag) tag frame)
      ⊎ (install t tag frame ≡ link (unlink t frame) (bucket_for (unlink t frame) tag) tag frame)
unfolding install replace unlink bucket_for
install-link t tag frame = elim (ℕ_discrete (t.bucket_of frame) none_index) [
  | yes e ↦
      let test : (t.bucket_of frame == none_index) ≡ true = ground arith in
      inl (rw (test, test) refl)
  | no ne ↦
      let test : (t.bucket_of frame == none_index) ≡ false = ground arith in
      let drops : (maps_to t frame tag || not (maps_to t frame tag)) ≡ true = ground arith in
      let own : (frame == frame) ≡ true = ground arith in inr (rw (test, drops, own) refl)
]

-- In a valid table, a lookup of the tag right after Install finds the frame, which is below the
-- capacity.
pub lookup-install :
    (t : Table) (tag : BufferTag) (frame : ℕ)
    → frame < t.frame_capacity
    → IsValid t
    → lookup_frame_id (install t tag frame) tag ≡ some frame
unfolding unlink
lookup-install t tag frame room (chains, r) = elim (install-link t tag frame) [
  | inl e ↦ rw e (lookup-link t tag frame room r.small)
  | inr e ↦ rw e (lookup-link (unlink t frame) tag frame room r.small)
]
