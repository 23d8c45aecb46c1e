-- ===== src/Limiter/TokenBucket/Eviction.antt =====
-- tokenbucket.go: what a client sees of the janitor's evictions.
use limit_plane.Prelude.{
  Bool-cases, ◌+ℤ◌, ◌-ℤ◌, ◌*ℤ◌, ◌≤ℤ◌, ltb_ℤ, leb_ℤ, min_ℤ-right, leb_ℤ→≤ℤ, *ℤ_telescope, *ℤ_nonneg,
  int_laws, ℤ, pos, ℕ, ◌≡◌, refl, sym, ap, ◌∙◌, inl, inr, true, none, some,
}
use limit_plane.Limiter.{cost_or_one}
use limit_plane.Limiter.TokenBucket.{
  new_jar, refilled, spend, decide_jar, check_jar, keeps, Bucket, TokenBucketArgs,
}
use limit_plane.Limiter.TokenBucket.Jars.{swept}

-- A new jar, and one that is full by now, are refilled to the same jar.
refilled-full :
    (b : Bucket) (swept_at now : ℤ) (rate : ℕ) (a : TokenBucketArgs)
    → b.refill ≡ pos rate
    → a.capacity ≡ b.capacity
    → a.refill_rate_per_ms ≡ pos rate
    → swept_at ≤ℤ now
    → b.capacity ≤ℤ b.tokens +ℤ (swept_at -ℤ b.last_refill) *ℤ b.refill
    → refilled (new_jar now a) now a ≡ refilled b now a
unfolding refilled new_jar
refilled-full b swept_at now rate a er ec ea h f =
    ap (λ (x : ℤ). full now a x)
      (min_ℤ-right (a.capacity +ℤ (now -ℤ now) *ℤ a.refill_rate_per_ms) a.capacity
          (rw ea (omega (int_laws, *ℤ_nonneg (now -ℤ now) rate (omega int_laws))))
        ∙ sym (
            min_ℤ-right (b.tokens +ℤ (now -ℤ b.last_refill) *ℤ a.refill_rate_per_ms) a.capacity (
              rw (ea, ec)
                (omega (
                  int_laws,
                  rw er at f,
                  *ℤ_telescope b.last_refill swept_at now rate,
                  *ℤ_nonneg (now -ℤ swept_at) rate (omega int_laws),
                )))))
  where
    full : ℤ → TokenBucketArgs → ℤ → Bucket
    full now a x = record {
      tokens = x;
      last_refill = now;
      capacity = a.capacity;
      refill = a.refill_rate_per_ms;
    }

recreated :
    (b : Bucket) (swept_at now : ℤ) (rate : ℕ) (a : TokenBucketArgs)
    → b.refill ≡ pos rate
    → a.capacity ≡ b.capacity
    → a.refill_rate_per_ms ≡ pos rate
    → swept_at ≤ℤ now
    → leb_ℤ b.capacity (b.tokens +ℤ (swept_at -ℤ b.last_refill) *ℤ b.refill) ≡ true
    → check_jar none now a ≡ check_jar (some b) now a
unfolding check_jar
recreated b swept_at now rate a er ec ea h f =
    let same =
      refilled-full b swept_at now rate a er ec ea h
        (leb_ℤ→≤ℤ b.capacity (b.tokens +ℤ (swept_at -ℤ b.last_refill) *ℤ b.refill) f) in
    ap (λ (x : Bucket). (decide_jar x (cost_or_one a.cost), spend x (cost_or_one a.cost))) same

-- A swept jar answers every later check that asks for the capacity and the rate which the jar
-- remembers exactly as the jar itself would have, and is left the same by it.
pub check_jar-swept :
    (b : Bucket) (swept_at cutoff now : ℤ) (rate : ℕ) (a : TokenBucketArgs)
    → b.refill ≡ pos rate
    → a.capacity ≡ b.capacity
    → a.refill_rate_per_ms ≡ pos rate
    → swept_at ≤ℤ now
    → check_jar (swept swept_at cutoff (some b)) now a ≡ check_jar (some b) now a
unfolding swept keeps
check_jar-swept b swept_at cutoff now rate a er ec ea h =
    elim (Bool-cases (ltb_ℤ cutoff b.last_refill)) [
      | inl e ↦ rw (e, swept, keeps) refl
      | inr e ↦
          elim (Bool-cases
            (leb_ℤ b.capacity (b.tokens +ℤ (swept_at -ℤ b.last_refill) *ℤ b.refill))) [
              | inl f ↦ rw (e, f, swept, keeps) (recreated b swept_at now rate a er ec ea h f)
              | inr f ↦ rw (e, f, swept, keeps) refl
            ]
    ]
