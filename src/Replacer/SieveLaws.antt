-- ===== src/Replacer/SieveLaws.antt =====
-- What src/cpp/lib/replacer/sieve_replacer.cc keeps, and what its victim is.
use tele_path.Prelude.{
  ℕ, zero, suc, ◌*◌, ◌<◌, ◌≡◌, ◌⊎◌, inl, inr, subst, ap, Bool, true, false, Option, some, List,
  length, ◌==◌, if◌then◌else◌, store, arith, Bool-cases, ℕ_discrete,
}
use tele_path.Common.Types.{invalid_frame_id}
use tele_path.Common.Chains
use tele_path.Common.Chains.{elem, Distinct}
use tele_path.Replacer.Waiting.{to_front}
use tele_path.Replacer.SieveTurns.{
  Turns, next_in, start_in, last_of-lem, next_of-next_in, scan-Turns,
}
use tele_path.Replacer.Sieve.{Sieve, record_load, remove, next_of, scan, victim}
use tele_path.Replacer.SieveQueue.{IsQueue, oldest-elem, next_of-elem, load-IsQueue, remove-IsQueue}

-- A frame that Victim gives is of the queue, evictable, and not visited since the hand came by.
abbrev pub IsVictim : (ℕ → Bool) → List ℕ → Sieve × Option ℕ → Type 0
IsVictim evictable xs (after, found) =
    IsQueue xs after
    × ((f : ℕ)
        → found ≡ some f
        → (elem f xs ≡ true) × (evictable f ≡ true) × (after.visited f ≡ false))

scan-IsVictim :
    (evictable : ℕ → Bool) (scans : ℕ) (s : Sieve) (xs : List ℕ) (candidate : ℕ)
    → IsQueue xs s
    → (candidate ≡ invalid_frame_id) ⊎ (elem candidate xs ≡ true)
    → IsVictim evictable xs (scan evictable scans s candidate)
unfolding scan
scan-IsVictim evictable zero s xs candidate q c = ((q.0, q.1, q.2, c), λ f e. absurd (ground arith))
scan-IsVictim evictable (suc scans) s xs candidate q c =
    elim (ℕ_discrete candidate invalid_frame_id) [
      | yes z ↦
          let test : (candidate == invalid_frame_id) ≡ true = ground arith in
          rw test ((q.0, q.1, q.2, c), λ f e. absurd (ground arith))
      | no nz ↦
          let test : (candidate == invalid_frame_id) ≡ false = ground arith in
          let m : elem candidate xs ≡ true = ground arith in
          let step = next_of-elem s xs candidate q m in
          elim (Bool-cases (evictable candidate)) [
            | inr held ↦
                rw (test, held) (scan-IsVictim evictable scans s xs (next_of s candidate) q step)
            | inl free ↦ elim (Bool-cases (s.visited candidate)) [
              | inl seen ↦
                  rw (test, free, seen)
                    (scan-IsVictim evictable scans
                      (record s { visited = store s.visited candidate false }) xs
                      (next_of s candidate) q step)
              | inr unseen ↦ rw (test, free, unseen) ((q.0, q.1, q.2, step), λ f e. ground arith)
            ]
          ]
    ]

victim-Turns :
    (s : Sieve) (xs : List ℕ) (evictable : ℕ → Bool)
    → IsQueue xs s
    → Turns evictable
        (next_in xs)
        (2 * length xs)
        s.visited
        (start_in xs s.hand)
        (victim s evictable)
unfolding victim
victim-Turns s xs evictable q =
    let oldest =
      last_of-lem s.capacity s.links.front_to_back s.links.back_to_front s.links.back
        invalid_frame_id s.links.front xs q.1.links in
    let from : ℕ = if s.hand == invalid_frame_id then s.links.back else s.hand in
    let start : from ≡ start_in xs s.hand =
      ap (λ b. if s.hand == invalid_frame_id then b else s.hand) oldest in
    let swept = scan evictable (2 * s.linked_count) s from in
    let turns =
      scan-Turns evictable s xs (next_in xs)
        (λ c m. (next_of-next_in s xs c q.1 m, next_of-elem s xs c q m)) (2 * s.linked_count)
        s.visited from (ground (arith, oldest-elem s xs q, q.3)) in
    subst (λ k. Turns evictable (next_in xs) (2 * length xs) s.visited k swept) start
      (subst (λ l. Turns evictable (next_in xs) (2 * l) s.visited from swept) q.2 turns)

-- Loads, removals and Victim keep the queue: a load puts its frame at the newest end, a removal takes
-- it out, and Victim changes no place in it and gives only a frame of the queue that is evictable and
-- no longer marked as visited. From its place, or from the oldest frame when it has none, the hand of
-- Victim takes a number of steps that take no frame, each to the next newer frame and from the newest
-- to the oldest: in them it was at an evictable frame at most once, and never when the frame was not
-- marked, and such a frame has lost its mark exactly when the hand was at it; the marks of other frames
-- stay. Then the frame that the hand is at is given, and the hand is at the next one, or the hand has
-- made two rounds or the queue is empty, and nothing is given. The frame that is loaded or removed is
-- below the capacity.
pub sieve-IsQueue :
    (s : Sieve) (xs : List ℕ) (frame : ℕ) (evictable : ℕ → Bool)
    → IsQueue xs s
    → frame < s.capacity
    → IsQueue (to_front xs frame) (record_load s frame)
      × IsQueue (Chains.remove frame xs) (remove s frame)
      × IsVictim evictable xs (victim s evictable)
      × Turns evictable
          (next_in xs)
          (2 * length xs)
          s.visited
          (start_in xs s.hand)
          (victim s evictable)
unfolding victim
sieve-IsQueue s xs frame evictable q lt = (
  load-IsQueue s xs frame q lt,
  remove-IsQueue s xs frame q lt,
  scan-IsVictim evictable (2 * s.linked_count) s xs
      (if s.hand == invalid_frame_id then s.links.back else s.hand) q
      (ground (arith, oldest-elem s xs q, q.3)),
  victim-Turns s xs evictable q,
)
