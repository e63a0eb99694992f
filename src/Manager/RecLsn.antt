-- ===== src/Manager/RecLsn.antt =====
-- The recovery LSNs that src/cpp/lib/buffer/buffer_manager.cc and buffer_manager_flush.cc keep for the
-- pages whose changes are not on disk.
use tele_path.Prelude.{
  ℕ, zero, suc, ◌+◌, ◌≤◌, ◌<◌, ◌≡◌, ◌≢◌, ◌⊎◌, ◌↔◌, inl, inr, refl, sym, ◌∙◌, Bool, Option, none,
  some, not, ◌&&◌, ◌||◌, ◌==◌, ltb, if◌then◌else◌, arith, ℕ_discrete,
}
use tele_path.Common.Types.{invalid_lsn}
use tele_path.Common.Status.{Error, ok, error}
use tele_path.FrameControl.Errors.{lower_rec_lsn, lowered}
use tele_path.FrameControl.Ops
use tele_path.Manager.Types.{Env, Manager, Descriptor, operate}
use tele_path.Manager.Frames.{mark_descriptor}
use tele_path.Manager.Flushing.{queued_descriptor, failed_descriptor}
use tele_path.Manager.Writeback.{completed_descriptor}
use tele_path.Manager.Pool.{frame_rec_lsn, oldest_from, min_rec_lsn}

-- `oldest` is the least valid LSN of the frames from `frame` on and of `seen`, or invalid if none is
-- valid.
abbrev IsOldest : ℕ → ℕ → (ℕ → Descriptor) → ℕ → ℕ → Type 0
IsOldest left frame descriptors seen oldest =
    (oldest ≢ invalid_lsn
      → (oldest ≡ seen)
        ⊎ ((f : ℕ) × (frame ≤ f) × (f < frame + left) × (frame_rec_lsn (descriptors f) ≡ oldest)))
    × (seen ≢ invalid_lsn → (oldest ≢ invalid_lsn) × (oldest ≤ seen))
    × ((f : ℕ)
        → frame ≤ f
        → f < frame + left
        → frame_rec_lsn (descriptors f) ≢ invalid_lsn
        → (oldest ≢ invalid_lsn) × (oldest ≤ frame_rec_lsn (descriptors f)))

abbrev next_oldest : ℕ → ℕ → ℕ
next_oldest here seen =
    if not (here == invalid_lsn) && (seen == invalid_lsn || ltb here seen) then here else seen

extend-IsOldest :
    (left frame : ℕ) (descriptors : ℕ → Descriptor) (seen oldest : ℕ)
    → IsOldest left
        (frame + 1)
        descriptors
        (next_oldest (frame_rec_lsn (descriptors frame)) seen)
        oldest
    → IsOldest (suc left) frame descriptors seen oldest
extend-IsOldest left frame descriptors seen oldest (attained, below_seen, below_all) = (
  λ valid. elim (attained valid) [
    | inl at_seen ↦ elim (ℕ_discrete oldest seen) [
      | yes same ↦ inl same
      | no other ↦ inr (frame, omega arith, omega arith, ground arith)
    ]
    | inr (f, low, high, e) ↦ inr (f, omega arith, omega arith, e)
  ],
  λ valid. ground arith,
  λ f low high valid. elim (ℕ_discrete f frame) [
    | yes same ↦ rw same (ground arith)
    | no other ↦ below_all f (omega arith) (omega arith) valid
  ],
)

oldest_from-IsOldest :
    (left frame : ℕ) (descriptors : ℕ → Descriptor) (seen : ℕ)
    → IsOldest left frame descriptors seen (oldest_from left frame descriptors seen)
unfolding oldest_from
oldest_from-IsOldest zero frame descriptors seen =
    (λ valid. inl refl, λ valid. (valid, omega arith), λ f low high. absurd (omega arith))
oldest_from-IsOldest (suc left) frame descriptors seen =
    let next = next_oldest (frame_rec_lsn (descriptors frame)) seen in
    extend-IsOldest left frame descriptors seen (oldest_from left (frame + 1) descriptors next)
      (oldest_from-IsOldest left (frame + 1) descriptors next)

abbrev pub IsLeast : ℕ → (ℕ → Descriptor) → Option ℕ → Type 0
IsLeast size descriptors result =
    ((result ≡ none) ↔ ((f : ℕ) → f < size → frame_rec_lsn (descriptors f) ≡ invalid_lsn))
    × ((oldest : ℕ)
        → result ≡ some oldest
        → ((f : ℕ) × (f < size) × (frame_rec_lsn (descriptors f) ≡ oldest))
          × ((f : ℕ)
              → f < size
              → frame_rec_lsn (descriptors f) ≢ invalid_lsn
              → oldest ≤ frame_rec_lsn (descriptors f)))

oldest-IsLeast :
    (size : ℕ) (descriptors : ℕ → Descriptor) (oldest : ℕ)
    → IsOldest size 0 descriptors invalid_lsn oldest
    → IsLeast size descriptors (if oldest == invalid_lsn then none else some oldest)
oldest-IsLeast size descriptors zero (attained, below_seen, below_all) = (
  (
    λ e f low. elim (ℕ_discrete (frame_rec_lsn (descriptors f)) invalid_lsn) [
      | yes same ↦ same
      | no valid ↦ absurd ((below_all f (omega arith) (omega arith) valid).0 refl)
    ],
    λ all. refl,
  ),
  λ oldest e. absurd (ground arith),
)
oldest-IsLeast size descriptors (suc k) (attained, below_seen, below_all) =
    let valid : ◌≢◌ {A = ℕ} (suc k) invalid_lsn = λ e. absurd (omega arith) in
    elim (attained valid) [
      | inl e ↦ absurd (omega arith)
      | inr (f, low, high, e) ↦ (
        (λ e'. absurd (ground arith), λ all. absurd (valid (sym e ∙ all f (omega arith)))),
        λ oldest e'.
            let same : oldest ≡ suc k = ground arith in
            (
              (f, omega arith, ground arith),
              λ g bound valid'. ground (arith, below_all g (omega arith) (omega arith) valid'),
            ),
      )
    ]

-- MinRecLsn gives none exactly when no frame of the pool has a valid LSN, and else the LSN of some
-- frame that no frame's valid LSN is below.
pub min_rec_lsn-IsLeast :
    {Disk R : Type 0} (env : Env Disk R) (m : Manager Disk R)
    → IsLeast env.pool_size m.descriptors (min_rec_lsn env m)
unfolding min_rec_lsn
min_rec_lsn-IsLeast env m =
    oldest-IsLeast env.pool_size m.descriptors
      (oldest_from env.pool_size 0 m.descriptors invalid_lsn)
      (oldest_from-IsOldest env.pool_size 0 m.descriptors invalid_lsn)

-- Between two writebacks the LSN of the last failed one is not below the pending one.
abbrev pub IsSettled : Descriptor → Type 0
IsSettled d =
    (d.writeback_rec_lsn ≡ invalid_lsn)
    ⊎ ((d.rec_lsn ≢ invalid_lsn) × (d.rec_lsn ≤ d.writeback_rec_lsn))

-- What a writeback of `d` and what comes of the writeback of `writing` do to the recovery LSN.
abbrev pub KeepsLsn : Bool → Error → ℕ → Descriptor → Descriptor → Type 0
KeepsLsn cleaner_owned e lsn d writing =
    let lsn_of = frame_rec_lsn in
    let queued = queued_descriptor (operate (Ops.try_queue_writeback cleaner_owned) d) in
    let failed = completed_descriptor (error e) writing in
    let cancelled = operate Ops.cancel_queued_writeback (failed_descriptor (error e) writing) in
    let done = completed_descriptor ok writing in
    (lsn_of queued ≡ lsn_of d)
    × IsSettled (mark_descriptor lsn d)
    × (lsn_of (mark_descriptor lsn d) ≢ invalid_lsn)
    × (lsn_of (mark_descriptor lsn d) ≤ lsn)
    × (lsn_of (mark_descriptor lsn writing) ≢ invalid_lsn)
    × (lsn_of (mark_descriptor lsn writing) ≤ lsn)
    × (lsn_of failed ≡ lsn_of writing)
    × IsSettled failed
    × (lsn_of cancelled ≡ lsn_of writing)
    × IsSettled cancelled
    × (lsn_of done ≡ writing.rec_lsn)
    × IsSettled done

-- The recovery LSN of a frame between two writebacks survives the queueing of a writeback, and marking
-- the frame dirty at a valid LSN leaves it between two writebacks with an LSN no later than that. In a
-- writeback, marking it dirty does the same to its LSN; a writeback that fails or is rolled back
-- keeps the LSN, one that succeeds leaves that of the changes made since its copy was taken, and each
-- ends between two writebacks.
pub writeback-frame_rec_lsn :
    (cleaner_owned : Bool) (e : Error) (lsn : ℕ) (d writing : Descriptor)
    → IsSettled d
    → lsn ≢ invalid_lsn
    → KeepsLsn cleaner_owned e lsn d writing
unfolding frame_rec_lsn queued_descriptor completed_descriptor failed_descriptor mark_descriptor
    lowered lower_rec_lsn
writeback-frame_rec_lsn cleaner_owned e lsn d writing settled valid = (
  ground arith,
  ground arith,
  ground arith,
  ground arith,
  ground arith,
  ground arith,
  ground arith,
  ground arith,
  ground arith,
  ground arith,
  ground arith,
  ground arith,
)
