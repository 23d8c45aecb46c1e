-- ===== src/Limiter/TokenBucket.antt =====
-- internal/limiter/tokenbucket.go: the sharded token bucket. Time is an argument of each call.
-- `maphash.String` with the process's seed is the parameter `hash`, and `runtime.GOMAXPROCS(0)`
-- the argument `procs`. A call on one shard stands for the code between its Lock and Unlock.
pub mod Jars
pub mod Shards
pub mod Budget
pub mod Eviction
pub mod Examples
use Prim.Native.Nat.{bit_and}
use limit_plane.Prelude.{
  ltb, if◌then◌else◌, ◌+ℤ◌, ◌-ℤ◌, ◌*ℤ◌, ltb_ℤ, leb_ℤ, min_ℤ, ℤ, pos, length, get_elem?, set, ℕ,
  zero, suc, ◌+◌, ◌-◌, ◌*◌, String, Bool, true, not, Option, none, some, List, [], ◌∷◌,
}
use limit_plane.Prelude.Assoc.{Assoc, lookup, insert, delete}
use limit_plane.Limiter.{floor, cost_or_one, Decision, BurstArgs}

pub record Bucket : Type 0 where
  pub tokens : ℤ
  pub last_refill : ℤ
  pub capacity : ℤ
  pub refill : ℤ

pub record TokenBucketArgs : Type 0 where
  pub key : String
  pub capacity : ℤ
  pub refill_rate_per_ms : ℤ
  pub cost : ℤ

pub record TokenBucket : Type 0 where
  pub shards : List (Assoc Bucket)

-- A new jar starts full.
unfoldable pub new_jar : ℤ → TokenBucketArgs → Bucket
new_jar now a = record {
  tokens = a.capacity;
  last_refill = now;
  capacity = a.capacity;
  refill = a.refill_rate_per_ms;
}

unfoldable pub jar_or_new : Option Bucket → ℤ → TokenBucketArgs → Bucket
unfolding new_jar
jar_or_new none now a = new_jar now a
jar_or_new (some b) now a = b

-- The jar with the current policy, refilled up to now.
unfoldable pub refilled : Bucket → ℤ → TokenBucketArgs → Bucket
refilled b now a = record {
  tokens = min_ℤ (b.tokens +ℤ (now -ℤ b.last_refill) *ℤ a.refill_rate_per_ms) a.capacity;
  last_refill = now;
  capacity = a.capacity;
  refill = a.refill_rate_per_ms;
}

-- Whether the jar can pay.
unfoldable pub affords : Bucket → ℤ → Bool
affords b c = leb_ℤ c b.tokens

unfoldable pub spend : Bucket → ℤ → Bucket
unfolding affords
spend b c = if affords b c then record b { tokens = b.tokens -ℤ c } else b

unfoldable pub decide_jar : Bucket → ℤ → Decision
unfolding affords spend
decide_jar b c = record {
  allowed = affords b c;
  remaining = floor (spend b c).tokens;
  reset_at = pos 0;
}

-- The read-modify-write of one jar.
unfoldable pub check_jar : Option Bucket → ℤ → TokenBucketArgs → Decision × Bucket
unfolding jar_or_new refilled decide_jar spend
check_jar o now a =
    let b = refilled (jar_or_new o now a) now a in
    let c = cost_or_one a.cost in (decide_jar b c, spend b c)

unfoldable pub check_shard : Assoc Bucket → ℤ → TokenBucketArgs → Decision × Assoc Bucket
unfolding check_jar
check_shard sh now a = let r = check_jar (lookup a.key sh) now a in (r.0, insert a.key r.1 sh)

-- Whether the sweep leaves a jar: it is warm, or would not be full by now.
pub keeps : ℤ → ℤ → Bucket → Bool
keeps now cutoff b =
    if ltb_ℤ cutoff b.last_refill
    then true
    else not (leb_ℤ b.capacity (b.tokens +ℤ (now -ℤ b.last_refill) *ℤ b.refill))

-- The jars left in a shard, with the number freed.
pub sweep_shard : ℤ → ℤ → Assoc Bucket → ℕ × Assoc Bucket
unfolding keeps
sweep_shard now cutoff [] = (0, [])
sweep_shard now cutoff ((k, b) ∷ m) =
    let (freed, rest) = sweep_shard now cutoff m in
    if keeps now cutoff b then (freed, (k, b) ∷ rest) else (freed + 1, delete k rest)

pub sweep_shards : ℤ → ℤ → List (Assoc Bucket) → ℕ × List (Assoc Bucket)
unfolding sweep_shard
sweep_shards now cutoff [] = (0, [])
sweep_shards now cutoff (sh ∷ shs) =
    let (freed, sh') = sweep_shard now cutoff sh in
    let (more, shs') = sweep_shards now cutoff shs in (freed + more, sh' ∷ shs')

unfoldable pub sweep : ℤ → ℤ → TokenBucket → ℕ × TokenBucket
unfolding sweep_shards
sweep now idle_for t =
    let (freed, shs) = sweep_shards now (now -ℤ idle_for) t.shards in
    (freed, record { shards = shs })

jars : List (Assoc Bucket) → ℕ
jars [] = 0
jars (sh ∷ shs) = length sh + jars shs

-- `Len`
pub tracked : TokenBucket → ℕ
unfolding jars
tracked t = jars t.shards

-- `for shards < target { shards *= 2 }`, on fuel.
double_up : ℕ → ℕ → ℕ → ℕ
double_up zero target n = n
double_up (suc fuel) target n =
    let more = double_up fuel target (n * 2) in if ltb n target then more else n

-- The shard count of `NewTokenBucketSharded` for a count asked for (zero: pick a default).
pub shard_count : ℕ → ℕ → ℕ
unfolding double_up
shard_count procs zero = let n = double_up (procs * 8) (procs * 8) 1 in if ltb n 32 then 32 else n
shard_count procs (suc k) = suc k

empty_shards : ℕ → List (Assoc Bucket)
empty_shards zero = []
empty_shards (suc n) = [] ∷ empty_shards n

unfoldable pub new_token_bucket_sharded : ℕ → ℕ → TokenBucket
unfolding empty_shards shard_count
new_token_bucket_sharded procs asked = record { shards = empty_shards (shard_count procs asked) }

-- `none` is an index out of range.
module _ (hash : String → ℕ) where
  pub shard_index : TokenBucket → String → ℕ
  shard_index t key = bit_and (hash key) (length t.shards - 1)

  pub check : TokenBucket → ℤ → TokenBucketArgs → Option (Decision × TokenBucket)
  unfolding check_shard shard_index
  check t now a = elim (get_elem? t.shards (shard_index t a.key)) [
    | none ↦ none
    | some sh ↦
        let (d, sh') = check_shard sh now a in
        some (d, record { shards = set t.shards (shard_index t a.key) sh' })
  ]

  pub check_burst : TokenBucket → ℤ → BurstArgs → Option (Decision × TokenBucket)
  unfolding check
  check_burst t now a = check t now (record {
    key = a.key;
    capacity = a.capacity;
    refill_rate_per_ms = a.refill_rate_per_ms;
    cost = a.cost;
  })
