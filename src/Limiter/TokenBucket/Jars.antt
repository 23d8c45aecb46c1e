-- ===== src/Limiter/TokenBucket/Jars.antt =====
-- tokenbucket.go: the sharded table seen as one map of jars.
use limit_plane.Prelude.{
  ℤ, pos, ◌-ℤ◌, ◌≡◌, refl, ap, Option, none, some, List, [], ◌∷◌, String, ℕ, zero, suc, ◌-◌, ◌<◌,
  arith, length, get_elem?, set, length-set, get_elem?-set_self, get_elem?-set_ne, get_elem?-lt,
  if◌then◌else◌, str_eq, eq_iff,
}
use native.Mathlib.Decide.{ℕ_discrete}
use limit_plane.Prelude.Masks.{bit_and-le}
use limit_plane.Prelude.Assoc.{Assoc, lookup, lookup-insert, lookup-delete}
use limit_plane.Limiter.{Decision, cost_or_one}
use limit_plane.Limiter.TokenBucket.{
  Bucket, TokenBucketArgs, TokenBucket, check_jar, check_shard, keeps, sweep_shard, sweep_shards,
  sweep, shard_index, check,
}

-- The jar for a key in the shard at hand.
unfoldable pub shard_jar : Option (Assoc Bucket) → String → Option Bucket
shard_jar none k = none
shard_jar (some sh) k = lookup k sh

-- A call of the limiter, with its time. `Check` and `Sweep` are the calls that change a jar.
pub data Op : Type 0 where
  checks : ℤ → TokenBucketArgs → Op
  sweeps : ℤ → ℤ → Op

-- What a check takes out of its jar.
unfoldable pub paid : Decision → TokenBucketArgs → ℤ
paid d a = if d.allowed then cost_or_one a.cost else pos 0

-- What a sweep leaves of a jar.
unfoldable pub swept : ℤ → ℤ → Option Bucket → Option Bucket
swept now cutoff none = none
swept now cutoff (some b) = if keeps now cutoff b then some b else none

-- What a call takes out of one jar, and what it leaves there.
unfoldable pub step_jar : String → Option Bucket → Op → ℤ × Option Bucket
step_jar k o (checks now a) =
    if str_eq a.key k
    then (paid (check_jar o now a).0 a, some (check_jar o now a).1)
    else (pos 0, o)
step_jar k o (sweeps now idle_for) = (pos 0, swept now (now -ℤ idle_for) o)

-- What a call with this answer took out of the jar of a key.
unfoldable pub charge : String → Op → Option Decision → ℤ
charge k (checks now a) (some d) = if str_eq a.key k then paid d a else pos 0
charge k (checks now a) none = pos 0
charge k (sweeps now idle_for) d = pos 0

lookup-sweep_shard :
    (now cutoff : ℤ) (k : String) (m : Assoc Bucket)
    → lookup k (sweep_shard now cutoff m).1 ≡ swept now cutoff (lookup k m)
unfolding sweep_shard swept lookup
lookup-sweep_shard now cutoff k [] = refl
lookup-sweep_shard now cutoff k ((j, b) ∷ m) = ground (
  arith,
  lookup-sweep_shard now cutoff k m,
  lookup-delete j k (sweep_shard now cutoff m).1,
  eq_iff j k,
)

shard_jar-sweep_shards :
    (now cutoff : ℤ) (k : String) (i : ℕ) (shs : List (Assoc Bucket))
    → shard_jar (get_elem? (sweep_shards now cutoff shs).1 i) k
      ≡ swept now cutoff (shard_jar (get_elem? shs i) k)
unfolding sweep_shards shard_jar swept
shard_jar-sweep_shards now cutoff k i [] = refl
shard_jar-sweep_shards now cutoff k zero (sh ∷ shs) = lookup-sweep_shard now cutoff k sh
shard_jar-sweep_shards now cutoff k (suc i) (sh ∷ shs) = shard_jar-sweep_shards now cutoff k i shs

length-sweep_shards :
    (now cutoff : ℤ) (shs : List (Assoc Bucket))
    → length (sweep_shards now cutoff shs).1 ≡ length shs
unfolding sweep_shards
length-sweep_shards now cutoff [] = refl
length-sweep_shards now cutoff (sh ∷ shs) = ap suc (length-sweep_shards now cutoff shs)

check_shard-lookup :
    (sh : Assoc Bucket) (now : ℤ) (a : TokenBucketArgs) (k : String)
    → lookup k (check_shard sh now a).1
      ≡ (if str_eq a.key k then some (check_jar (lookup a.key sh) now a).1 else lookup k sh)
unfolding check_shard
check_shard-lookup sh now a k = lookup-insert a.key k (check_jar (lookup a.key sh) now a).1 sh

module _ (hash : String → ℕ) where
  -- The jar that the limiter holds for a key.
  unfoldable pub jar : TokenBucket → String → Option Bucket
  unfolding shard_jar
  jar t k = shard_jar (get_elem? t.shards (shard_index hash t k)) k

  -- One call on the sharded table; a sweep answers no decision.
  unfoldable pub step : TokenBucket → Op → Option (Option Decision × TokenBucket)
  step t (checks now a) = elim (check hash t now a) [
    | none ↦ none
    | some (d, t') ↦ some (some d, t')
  ]
  step t (sweeps now idle_for) = some (none, (sweep now idle_for t).1)

  -- The index is always in range.
  shard_index-lt :
      (t : TokenBucket) (k : String) → 0 < length t.shards → shard_index hash t k < length t.shards
  unfolding shard_index
  shard_index-lt t k h = omega (arith, bit_and-le (hash k) (length t.shards - 1))

  -- A check on the shard that its key falls to.
  check_lem :
      (t : TokenBucket) (now : ℤ) (a : TokenBucketArgs) (sh : Assoc Bucket)
      → get_elem? t.shards (shard_index hash t a.key) ≡ some sh
      → step t (checks now a)
        ≡ some (
          some (check_shard sh now a).0,
          record { shards = set t.shards (shard_index hash t a.key) (check_shard sh now a).1 },
        )
  unfolding step check
  check_lem t now a sh e = rw (e, step, check) refl

  -- A table with a shard answers every call.
  pub step_total :
      (t : TokenBucket) (op : Op)
      → 0 < length t.shards
      → (d : Option Decision) × (t' : TokenBucket) × (step t op ≡ some (d, t'))
        × (length t'.shards ≡ length t.shards)
  unfolding step sweep
  step_total t (checks now a) h =
      let (sh, e) = get_elem?-lt t.shards (shard_index hash t a.key) (shard_index-lt t a.key h) in
      (
        some (check_shard sh now a).0,
        record { shards = set t.shards (shard_index hash t a.key) (check_shard sh now a).1 },
        check_lem t now a sh e,
        length-set t.shards (shard_index hash t a.key) (check_shard sh now a).1,
      )
  step_total t (sweeps now idle_for) h =
      (none, (sweep now idle_for t).1, refl, length-sweep_shards now (now -ℤ idle_for) t.shards)

  abbrev after_check : TokenBucket → ℤ → TokenBucketArgs → Assoc Bucket → TokenBucket
  after_check t now a sh = record {
    shards = set t.shards (shard_index hash t a.key) (check_shard sh now a).1;
  }

  index_after :
      (t : TokenBucket) (now : ℤ) (a : TokenBucketArgs) (sh : Assoc Bucket) (k : String)
      → shard_index hash (after_check t now a sh) k ≡ shard_index hash t k
  unfolding shard_index
  index_after t now a sh k =
      rw (length-set t.shards (shard_index hash t a.key) (check_shard sh now a).1) refl

  -- A check steps the jar of its own key and leaves every other jar as it was.
  jar-check :
      (t : TokenBucket) (now : ℤ) (a : TokenBucketArgs) (sh : Assoc Bucket) (k : String)
      → get_elem? t.shards (shard_index hash t a.key) ≡ some sh
      → jar (after_check t now a sh) k ≡ (step_jar k (jar t k) (checks now a)).1
  unfolding jar step_jar shard_jar
  jar-check t now a sh k e =
      let i = shard_index hash t a.key in
      let j = shard_index hash t k in
      elim (ℕ_discrete i j) [
        | yes p ↦ rw (index_after t now a sh k) (
            ground (
              arith,
              p,
              e,
              get_elem?-set_self t.shards i (check_shard sh now a).1 sh e,
              check_shard-lookup sh now a k,
              eq_iff a.key k,
            ))
        | no p ↦ rw (index_after t now a sh k) (
            ground
              (arith, p, get_elem?-set_ne t.shards i j (check_shard sh now a).1 p, eq_iff a.key k))
      ]

  charge-check :
      (t : TokenBucket) (now : ℤ) (a : TokenBucketArgs) (sh : Assoc Bucket) (k : String)
      → get_elem? t.shards (shard_index hash t a.key) ≡ some sh
      → charge k (checks now a) (some (check_shard sh now a).0)
        ≡ (step_jar k (jar t k) (checks now a)).0
  unfolding jar step_jar shard_jar charge check_shard
  charge-check t now a sh k e = ground (arith, e, eq_iff a.key k)

  index_swept :
      (t : TokenBucket) (now idle_for : ℤ) (k : String)
      → shard_index hash (sweep now idle_for t).1 k ≡ shard_index hash t k
  unfolding shard_index sweep
  index_swept t now idle_for k = rw (length-sweep_shards now (now -ℤ idle_for) t.shards) refl

  jar-sweep :
      (t : TokenBucket) (now idle_for : ℤ) (k : String)
      → jar (sweep now idle_for t).1 k ≡ swept now (now -ℤ idle_for) (jar t k)
  unfolding jar sweep
  jar-sweep t now idle_for k =
      rw (index_swept t now idle_for k)
        (shard_jar-sweep_shards now (now -ℤ idle_for) k (shard_index hash t k) t.shards)

  -- A call on the sharded table does to the jar of each key, and charges for it, what the same
  -- call does on that jar alone: the shards are one map of independent jars.
  pub step-step_jar :
      (t t' : TokenBucket) (op : Op) (d : Option Decision) (k : String)
      → 0 < length t.shards
      → step t op ≡ some (d, t')
      → (jar t' k ≡ (step_jar k (jar t k) op).1) × (charge k op d ≡ (step_jar k (jar t k) op).0)
  unfolding step step_jar charge
  step-step_jar t t' (checks now a) d k h e =
      let (sh, f) = get_elem?-lt t.shards (shard_index hash t a.key) (shard_index-lt t a.key h) in
      (
        cc (check_lem t now a sh f, jar-check t now a sh k f),
        cc (check_lem t now a sh f, charge-check t now a sh k f),
      )
  step-step_jar t t' (sweeps now idle_for) d k h e = (cc (jar-sweep t now idle_for k), refl)
