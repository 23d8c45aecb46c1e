-- ===== src/Limiter/TokenBucket/Examples.antt =====
-- tokenbucket.go: runs of the table on small inputs.
use limit_plane.Prelude.{
  ◌+ℤ◌, ◌-ℤ◌, ◌*ℤ◌, ◌≤ℤ◌, ℤ, pos, All, ℕ, String, ◌≡◌, refl, none, some, List, [], ◌∷◌, arith,
}
use limit_plane.Prelude.Assoc.{delete}
use limit_plane.Limiter.TokenBucket.{
  check_jar, keeps, sweep, new_token_bucket_sharded, Bucket, TokenBucketArgs, TokenBucket,
}
use limit_plane.Limiter.TokenBucket.Jars.{
  swept, step_jar, charge, jar, step, step-step_jar, Op, checks, sweeps,
}
use limit_plane.Limiter.TokenBucket.Budget.{OnPolicy, end_time, run, spent-le-budget}
use limit_plane.Limiter.TokenBucket.Eviction.{check_jar-swept}

-- A hash that puts every key in one shard.
abbrev flat_hash : String → ℕ
flat_hash k = 5

-- Ten tokens of room, a token a second.
abbrev ask : String → ℤ → TokenBucketArgs
ask k c = record { key = k; capacity = pos 10_000_000; refill_rate_per_ms = pos 1000; cost = c }

abbrev traffic : List Op
traffic =
    checks (pos 100) (ask "acme" (pos 5_000_000))
    ∷ checks (pos 200) (ask "other" (pos 0))
    ∷ checks (pos 300) (ask "acme" (pos 5_000_000))
    ∷ sweeps (pos 50_000) (pos 1000)
    ∷ checks (pos 60_000) (ask "acme" (pos 5_000_000))
    ∷ []

spent-le-budget_example :
    (total : ℤ) × (t' : TokenBucket) × (run flat_hash "acme"
        (pos 0)
        (new_token_bucket_sharded 4 1)
        traffic
      ≡ some (total, t'))
    × (total ≤ℤ pos 10_000_000 +ℤ (end_time (pos 0) traffic -ℤ pos 0) *ℤ pos 1000)
spent-le-budget_example =
    spent-le-budget flat_hash "acme" (pos 10_000_000) 1000 (pos 0) (omega arith) 4 1 traffic
      (omega arith) on_policy (omega arith)
  where
    on_policy : All (OnPolicy "acme" (pos 10_000_000) 1000) traffic
    on_policy =
        (λ e. (refl, refl), (λ e. (refl, refl), (λ e. (refl, refl), (tt, (λ e. (refl, refl), tt)))))

-- A jar left half empty at time 0.
abbrev half : Bucket
half = record {
  tokens = pos 5_000_000;
  last_refill = pos 0;
  capacity = pos 10_000_000;
  refill = pos 1000;
}

check_jar-swept_example :
    check_jar (swept (pos 50_000) (pos 49_000) (some half)) (pos 60_000) (ask "acme" (pos 0))
    ≡ check_jar (some half) (pos 60_000) (ask "acme" (pos 0))
check_jar-swept_example =
    check_jar-swept half (pos 50_000) (pos 49_000) (pos 60_000) 1000 (ask "acme" (pos 0)) refl refl
      refl (omega arith)

abbrev held : TokenBucket
held = record { shards = (("acme", half) ∷ []) ∷ [] }

abbrev released : TokenBucket
released = record { shards = [] ∷ [] }

step-step_jar_example :
    (jar flat_hash released "acme"
      ≡ (step_jar "acme" (jar flat_hash held "acme") (sweeps (pos 50_000) (pos 1000))).1)
    × (charge "acme" (sweeps (pos 50_000) (pos 1000)) none
        ≡ (step_jar "acme" (jar flat_hash held "acme") (sweeps (pos 50_000) (pos 1000))).0)
unfolding step sweep keeps delete ◌+ℤ◌ ◌-ℤ◌ ◌*ℤ◌
step-step_jar_example =
    step-step_jar flat_hash held released (sweeps (pos 50_000) (pos 1000)) none "acme" (omega arith)
      refl
