-- ===== src/Limiter/LeakyBucket/Duality.antt =====
-- windows.go and tokenbucket.go: the leaky bucket against the token bucket.
use limit_plane.Prelude.{
  pos_part, neg_part, ℤ, ◌+◌, String, ◌≡◌, Bool, Option, none, some, List, [], ◌∷◌,
}
use limit_plane.Prelude.Assoc.{Assoc, lookup}
use limit_plane.Limiter.LeakyBucket.{check, LeakyState, LeakyBucketArgs}
use limit_plane.Limiter.TokenBucket.{check_shard, Bucket, TokenBucketArgs}

-- The same question, asked of the leaky bucket.
abbrev pub to_leaky : TokenBucketArgs → LeakyBucketArgs
to_leaky a = record {
  key = a.key;
  capacity = a.capacity;
  leak_rate_per_ms = a.refill_rate_per_ms;
  cost = a.cost;
}

-- The sum of the first two is the third, in the parts of the three.
abbrev SumIs : ℤ → ℤ → ℤ → Type 0
SumIs x y c = pos_part x + pos_part y + neg_part c ≡ neg_part x + neg_part y + pos_part c

-- The jar's coins and the water make up the capacity.
abbrev pub Dual : ℤ → Option Bucket → Option LeakyState → Type 0
Dual cap none none = Unit {0}
Dual cap none (some l) = ⊥
Dual cap (some b) none = ⊥
Dual cap (some b) (some l) = SumIs b.tokens l.level cap × (b.last_refill ≡ l.last_leak)

-- What two tables answer to the same questions.
unfoldable pub token_answers : Assoc Bucket → List (ℤ × TokenBucketArgs) → List Bool
token_answers m [] = []
token_answers m ((now, a) ∷ ops) =
    (check_shard m now a).0.allowed ∷ token_answers (check_shard m now a).1 ops

unfoldable pub leaky_answers : Assoc LeakyState → List (ℤ × TokenBucketArgs) → List Bool
leaky_answers m [] = []
leaky_answers m ((now, a) ∷ ops) =
    (check m now (to_leaky a)).0.allowed ∷ leaky_answers (check m now (to_leaky a)).1 ops

abbrev pub CapOf : (String → ℤ) → ℤ × TokenBucketArgs → Type 0
CapOf caps (now, a) = a.capacity ≡ caps a.key

abbrev pub AllDual : (String → ℤ) → Assoc Bucket → Assoc LeakyState → Type 0
AllDual caps m n = (k : String) → Dual (caps k) (lookup k m) (lookup k n)
