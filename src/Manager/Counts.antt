-- ===== src/Manager/Counts.antt =====
-- What a snapshot of the counters of src/cpp/include/telepath/telemetry/telemetry_sink.h says of the calls
-- of the observer.
use tele_path.Prelude.{
  ℕ, zero, suc, ◌+◌, ◌%◌, ◌^◌, ◌<◌, ◌≡◌, refl, sym, ap, ◌∙◌, Bool, ◌&&◌, List, [], ◌∷◌, ◌==◌, leb,
  ltb, if◌then◌else◌, arith,
}
use tele_path.Manager.Telemetry.{
  Counter, index_of, Counters, no_counts, shard_count, record_fast_path, read_from,
  read_counters_snapshot, counters_of, record_all, Call, record_calls,
}

-- How often the calls raise a counter.
abbrev pub occurrences : Counter → List Counter → ℕ
occurrences c [] = 0
occurrences c (d ∷ ds) = (if index_of c == index_of d then 1 else 0) + occurrences c ds

unfoldable pub raised : Counter → List Call → ℕ
unfolding counters_of
raised c [] = 0
raised c (call ∷ calls) = occurrences c (counters_of call.event) + raised c calls

abbrev pub AreSharded : List Call → Type 0
AreSharded [] = Unit {0}
AreSharded (call ∷ calls) = (call.shard < shard_count) × AreSharded calls

read-small :
    (left shard : ℕ) (c : Counter) (shards : Counters) (total : ℕ)
    → total < 2 ^ 64
    → read_from left shard c shards total < 2 ^ 64
unfolding read_from
read-small zero shard c shards total small = small
read-small (suc left) shard c shards total small =
    read-small left (shard + 1) c shards ((total + shards shard c) % 2 ^ 64) (omega arith)

read-shift :
    (left shard : ℕ) (c : Counter) (shards : Counters) (total more : ℕ)
    → read_from left shard c shards ((total + more) % 2 ^ 64)
      ≡ (read_from left shard c shards (total % 2 ^ 64) + more) % 2 ^ 64
unfolding read_from
read-shift zero shard c shards total more = omega arith
read-shift (suc left) shard c shards total more =
    let first : ((total + more) % 2 ^ 64 + shards shard c) % 2 ^ 64
        ≡ (total + shards shard c + more) % 2 ^ 64 =
      omega arith in
    let second : (total % 2 ^ 64 + shards shard c) % 2 ^ 64 ≡ (total + shards shard c) % 2 ^ 64 =
      omega arith in
    ap (read_from left (shard + 1) c shards) first
    ∙ read-shift left (shard + 1) c shards (total + shards shard c) more
    ∙ sym (ap (λ t. (read_from left (shard + 1) c shards t + more) % 2 ^ 64) second)

-- One access raises one counter of the snapshot by one.
read-record :
    (left shard own : ℕ) (c counter : Counter) (shards : Counters) (total : ℕ)
    → read_from left shard c (record_fast_path own counter shards) (total % 2 ^ 64)
      ≡ (read_from left shard c shards (total % 2 ^ 64)
          + (if leb shard own && ltb own (shard + left) && index_of c == index_of counter
              then 1
              else 0))
        % 2 ^ 64
unfolding read_from record_fast_path
read-record zero shard own c counter shards total = ground arith
read-record (suc left) shard own c counter shards total =
    let now : ℕ = if shard == own && index_of c == index_of counter then 1 else 0 in
    let later : ℕ =
      if leb (shard + 1) own && ltb own (shard + 1 + left) && index_of c == index_of counter
      then 1
      else 0 in
    let start = total % 2 ^ 64 + shards shard c in
    let raised_now : (total % 2 ^ 64 + record_fast_path own counter shards shard c) % 2 ^ 64
        ≡ (start + now) % 2 ^ 64 =
      ground arith in
    let both : (if leb shard own && ltb own (shard + suc left) && index_of c == index_of counter
          then 1
          else 0)
        ≡ now + later =
      ground arith in
    let rest = read_from left (shard + 1) c shards (start % 2 ^ 64) in
    let sum : ((rest + now) % 2 ^ 64 + later) % 2 ^ 64 ≡ (rest + (now + later)) % 2 ^ 64 =
      omega arith in
    read-record left (shard + 1) own c counter shards
      (total % 2 ^ 64 + record_fast_path own counter shards shard c)
    ∙ ap (λ t. (read_from left (shard + 1) c shards t + later) % 2 ^ 64) raised_now
    ∙ ap (λ r. (r + later) % 2 ^ 64) (read-shift left (shard + 1) c shards start now)
    ∙ sum
    ∙ sym (ap (λ b. (rest + b) % 2 ^ 64) both)

in_range :
    (shard n : ℕ) (b : Bool)
    → shard < n
    → ◌≡◌ {A = ℕ} (if leb 0 shard && ltb shard (0 + n) && b then 1 else 0) (if b then 1 else 0)
in_range shard n b low = ground arith

snapshot-small : (c : Counter) (shards : Counters) → read_counters_snapshot shards c < 2 ^ 64
unfolding read_counters_snapshot
snapshot-small c shards = read-small shard_count 0 c shards 0 (omega arith)

snapshot-record :
    (shard : ℕ) (d c : Counter) (shards : Counters)
    → shard < shard_count
    → read_counters_snapshot (record_fast_path shard d shards) c
      ≡ (read_counters_snapshot shards c + (if index_of c == index_of d then 1 else 0)) % 2 ^ 64
unfolding read_counters_snapshot
snapshot-record shard d c shards low =
    read-record shard_count 0 shard c d shards 0
    ∙ ap (λ b. (read_from shard_count 0 c shards 0 + b) % 2 ^ 64)
        (in_range shard shard_count (index_of c == index_of d) low)

snapshot-record_all :
    (shard : ℕ) (cs : List Counter) (c : Counter) (shards : Counters)
    → shard < shard_count
    → read_counters_snapshot (record_all shard cs shards) c
      ≡ (read_counters_snapshot shards c + occurrences c cs) % 2 ^ 64
unfolding record_all
snapshot-record_all shard [] c shards low = let small = snapshot-small c shards in omega arith
snapshot-record_all shard (d ∷ ds) c shards low =
    let rest = snapshot-record_all shard ds c (record_fast_path shard d shards) low in
    let one = snapshot-record shard d c shards low in omega (arith, rest, one)

snapshot-record_calls :
    (calls : List Call) (c : Counter) (shards : Counters)
    → AreSharded calls
    → read_counters_snapshot (record_calls calls shards) c
      ≡ (read_counters_snapshot shards c + raised c calls) % 2 ^ 64
unfolding record_calls raised
snapshot-record_calls [] c shards sharded = let small = snapshot-small c shards in omega arith
snapshot-record_calls (call ∷ calls) c shards (low, sharded) =
    let own = counters_of call.event in
    let rest = snapshot-record_calls calls c (record_all call.shard own shards) sharded in
    let first = snapshot-record_all call.shard own c shards low in omega (arith, rest, first)

snapshot-no_counts : (c : Counter) → read_counters_snapshot no_counts c ≡ 0
unfolding read_counters_snapshot read_from
snapshot-no_counts c = refl

-- Whatever calls of the observer the threads make, in any order and from any shards, each counter of a
-- snapshot of counters that started at zero is the number of times that the calls raise it, modulo
-- 2 ^ 64.
pub snapshot-raised :
    (calls : List Call) (c : Counter)
    → AreSharded calls
    → read_counters_snapshot (record_calls calls no_counts) c ≡ raised c calls % 2 ^ 64
snapshot-raised calls c sharded =
    omega (arith, snapshot-record_calls calls c no_counts sharded, snapshot-no_counts c)
