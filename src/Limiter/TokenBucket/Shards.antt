-- ===== src/Limiter/TokenBucket/Shards.antt =====
-- tokenbucket.go: the table that `NewTokenBucketSharded` makes.
use native.Mathlib.Nat.{pow-suc}
use limit_plane.Prelude.{
  ltb, Bool-cases, ltb→lt, ltb-false, length, get_elem?, ℕ, zero, suc, ◌+◌, ◌*◌, ◌^◌, ◌≤◌, ◌<◌,
  String, ◌≡◌, refl, ap, ◌∙◌, ◌⊎◌, inl, inr, none, arith,
}
use limit_plane.Prelude.Assoc.{lookup}
use limit_plane.Limiter.TokenBucket.{
  double_up, shard_count, empty_shards, new_token_bucket_sharded, shard_index,
}
use limit_plane.Limiter.TokenBucket.Jars.{shard_jar, jar}

double_up_pos : (fuel target n : ℕ) → 0 < n → 0 < double_up fuel target n
unfolding double_up
double_up_pos zero target n h = h
double_up_pos (suc fuel) target n h = ground (arith, double_up_pos fuel target (n * 2))

double_up_reaches :
    (fuel target n : ℕ) → 0 < n → target ≤ fuel + n → target ≤ double_up fuel target n
unfolding double_up
double_up_reaches zero target n p h = omega arith
double_up_reaches (suc fuel) target n p h = ground (arith, double_up_reaches fuel target (n * 2))

double_up_stops : (fuel target n : ℕ) → n < 2 * target → double_up fuel target n < 2 * target
unfolding double_up
double_up_stops zero target n h = h
double_up_stops (suc fuel) target n h = ground (arith, double_up_stops fuel target (n * 2))

double_up_power : (fuel target e : ℕ) → (f : ℕ) × (double_up fuel target (2 ^ e) ≡ 2 ^ f)
unfolding double_up
double_up_power zero target e = (e, refl)
double_up_power (suc fuel) target e = elim (Bool-cases (ltb (2 ^ e) target)) [
  | inl h ↦
      let (f, q) = double_up_power fuel target (suc e) in
      (f, rw (h, double_up) (ap (double_up fuel target) (doubled e) ∙ q))
  | inr h ↦ (e, rw (h, double_up) refl)
]
  where
    doubled : (e : ℕ) → 2 ^ e * 2 ≡ 2 ^ suc e
    doubled e = rw (pow-suc 2 e) (omega arith)

-- The count picked by default is a power of two of at least 32 and of at least eight shards a
-- processor, and is less than twice that unless it is 32.
shard_count_default :
    (procs : ℕ)
    → 0 < procs
    → (32 ≤ shard_count procs 0)
      × (8 * procs ≤ shard_count procs 0)
      × ((shard_count procs 0 ≡ 32) ⊎ (shard_count procs 0 < 16 * procs))
      × (e : ℕ) × (shard_count procs 0 ≡ 2 ^ e)
unfolding shard_count
shard_count_default procs h =
    let reach = double_up_reaches (procs * 8) (procs * 8) 1 (omega arith) (omega arith) in
    let stop = double_up_stops (procs * 8) (procs * 8) 1 (omega arith) in
    let (f, q) = double_up_power (procs * 8) (procs * 8) 0 in
    elim (Bool-cases (ltb (double_up (procs * 8) (procs * 8) 1) 32)) [
      | inl e ↦
          rw (e, shard_count) (omega arith, omega (arith, reach, ltb→lt _ _ e), inl refl, 5, refl)
      | inr e ↦
          rw (e, shard_count)
            (omega (arith, ltb-false _ _ e), omega (arith, reach), inr (omega (arith, stop)), f, q)
    ]

length-empty_shards : (n : ℕ) → length (empty_shards n) ≡ n
unfolding empty_shards
length-empty_shards zero = refl
length-empty_shards (suc n) = ap suc (length-empty_shards n)

shard_count_asked : (procs n : ℕ) → shard_count procs (suc n) ≡ suc n
unfolding shard_count
shard_count_asked procs n = refl

empty_jar : (n i : ℕ) (k : String) → shard_jar (get_elem? (empty_shards n) i) k ≡ none
unfolding empty_shards shard_jar lookup
empty_jar zero i k = refl
empty_jar (suc n) zero k = refl
empty_jar (suc n) (suc i) k = empty_jar n i k

pub new_has_shard :
    (procs asked : ℕ) → 0 < procs → 0 < length (new_token_bucket_sharded procs asked).shards
unfolding new_token_bucket_sharded
new_has_shard procs zero h =
    omega (arith, (shard_count_default procs h).0, length-empty_shards (shard_count procs 0))
new_has_shard procs (suc n) h =
    omega (arith, length-empty_shards (shard_count procs (suc n)), shard_count_asked procs n)

module _ (hash : String → ℕ) where
  pub jar-new :
      (procs asked : ℕ) (k : String) → jar hash (new_token_bucket_sharded procs asked) k ≡ none
  unfolding jar new_token_bucket_sharded
  jar-new procs asked k =
      empty_jar (shard_count procs asked)
        (shard_index hash (new_token_bucket_sharded procs asked) k) k
