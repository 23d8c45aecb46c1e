-- ===== src/Gateway/Waiting.antt =====
-- gateway.go: the wait that a burst block announces, against the token bucket that refused.
use native.Mathlib.Nat.{div-lt_iff_lt-mul}
use limit_plane.Prelude.{
  pos_part, ◌+ℤ◌, ◌-ℤ◌, ◌*ℤ◌, ◌≤ℤ◌, div_ℤ, min_ℤ, max_ℤ, eq_of_parts, max_ℤ_bounds, <ℤ→ltb_ℤ,
  ≤ℤ→leb_ℤ, *ℤ_pos_parts, int_laws, bound_laws, ℤ, pos, negsuc, ℕ, suc, ◌+◌, ◌-◌, ◌*◌, ◌≤◌, ◌<◌,
  String, ◌≡◌, refl, true, false, Option, some, arith,
}
use limit_plane.Gateway.{round_scaled, allowance, ceil_div, retry_after}
use limit_plane.Limiter.{unit, one, floor, cost_or_one}
use limit_plane.Limiter.TokenBucket.{
  jar_or_new, refilled, affords, spend, decide_jar, check_jar, Bucket, TokenBucketArgs,
}
use limit_plane.Fingerprint.{lane_for, Fingerprints}
use limit_plane.Policy.{Plan}

-- What the announced wait brings in at the rate is no less than what was missing.
ceil_div-enough : (m : ℤ) (r : ℕ) (n : ℕ) → 1 ≤ r → ceil_div m (pos r) ≤ℤ pos n → pos_part m ≤ n * r
unfolding ceil_div
ceil_div-enough m r n hr h =
    let below : pos_part m + (r - 1) < suc n * r = (div-lt_iff_lt-mul hr).0 (omega arith) in
    omega (arith, below)

floor-le : (x : ℤ) → floor x *ℤ pos unit ≤ℤ x
unfolding floor div_ℤ
floor-le (pos n) = omega (arith, *ℤ_pos_parts (floor (pos n)) unit)
floor-le (negsuc n) = omega (arith, *ℤ_pos_parts (floor (negsuc n)) unit)

-- A jar that is short of the cost has it once the missing part has come in.
waited :
    (tokens cost capacity now rate : ℤ) (wait r : ℕ)
    → rate ≡ pos r
    → cost ≤ℤ capacity
    → pos_part (max_ℤ (cost -ℤ floor tokens *ℤ pos unit) (pos 0)) ≤ wait * r
    → cost ≤ℤ min_ℤ (tokens +ℤ (now +ℤ pos wait -ℤ now) *ℤ rate) capacity
waited tokens cost capacity now rate wait r hr hc h =
    let gone : now +ℤ pos wait -ℤ now ≡ pos wait =
      eq_of_parts (now +ℤ pos wait -ℤ now) (pos wait) (omega int_laws) in
    rw (gone, hr) (omega (bound_laws, h, hc, floor-le tokens, *ℤ_pos_parts (pos wait) r))

-- The rate is positive, the request's cost is not zero and no more than the jar holds, and the jar has
-- refused it. The same request, asked with the same jar, capacity and rate after the announced wait or
-- later, with no request to the jar in between, is admitted.
pub retry_after-suffices :
    (o : Option Bucket) (now : ℤ) (wait : ℕ) (a : TokenBucketArgs) (r : ℕ)
    → a.refill_rate_per_ms ≡ pos r
    → 1 ≤ r
    → cost_or_one a.cost ≡ a.cost
    → a.cost ≤ℤ a.capacity
    → (check_jar o now a).0.allowed ≡ false
    → retry_after "burst" a.cost (check_jar o now a).0.remaining (pos r) ≤ℤ pos wait
    → (check_jar (some (check_jar o now a).1) (now +ℤ pos wait) a).0.allowed ≡ true
unfolding check_jar decide_jar affords spend retry_after refilled
retry_after-suffices o now wait a r hr h1 hc hcap hd hw =
    let b = refilled (jar_or_new o now a) now a in
    let same : spend b (cost_or_one a.cost) ≡ b = rw (spend, hd) refl in
    let left : pos_part (max_ℤ (a.cost -ℤ floor b.tokens *ℤ pos unit) (pos 0)) ≤ wait * r =
      ceil_div-enough (max_ℤ (a.cost -ℤ floor b.tokens *ℤ pos unit) (pos 0)) r wait h1
        (rw (<ℤ→ltb_ℤ (pos 0) (pos r) (omega arith), same) at hw) in
    rw (same, hc)
      (≤ℤ→leb_ℤ a.cost (refilled b (now +ℤ pos wait) a).tokens
        (waited b.tokens a.cost a.capacity now a.refill_rate_per_ms wait r hr hcap left))

-- What the gateway asks of a token bucket for a client in a lane.
unfoldable pub asked_in_lane : Fingerprints → String → Plan → TokenBucketArgs
asked_in_lane f t p = record {
  key = p.key;
  capacity = (allowance (some f) t p).capacity;
  refill_rate_per_ms = (allowance (some f) t p).refill;
  cost = p.cost;
}

priced : (c : ℤ) → one ≤ℤ c → cost_or_one c ≡ c
unfolding cost_or_one
priced c h = ground arith

at_rate :
    (x y cost left bound : ℤ)
    → x ≡ y
    → retry_after "burst" cost left x ≤ℤ bound
    → retry_after "burst" cost left y ≤ℤ bound
at_rate x y cost left bound e h = rw e at h

lane_covers :
    (f : Fingerprints) (t : String) (p : Plan) → p.cost ≤ℤ (allowance (some f) t p).capacity
unfolding allowance
lane_covers f t p =
    omega (arith, max_ℤ_bounds p.cost (round_scaled p.capacity (lane_for t f).burst_mult))

-- No lane locks a client out: whatever its lane makes of its plan, if a token still comes back and the
-- cost is one token at least, a request that the client's jar has refused is admitted after the announced
-- wait, with no request to the jar in between and the client still in the lane.
pub lane_wait-suffices :
    (f : Fingerprints) (t : String) (p : Plan) (o : Option Bucket) (now : ℤ) (wait r : ℕ)
    → (allowance (some f) t p).refill ≡ pos r
    → 1 ≤ r
    → one ≤ℤ p.cost
    → (check_jar o now (asked_in_lane f t p)).0.allowed ≡ false
    → retry_after "burst" p.cost
        (check_jar o now (asked_in_lane f t p)).0.remaining
        (allowance (some f) t p).refill
      ≤ℤ pos wait
    → (check_jar
        (some (check_jar o now (asked_in_lane f t p)).1)
        (now +ℤ pos wait)
        (asked_in_lane f t p)).0.allowed
      ≡ true
unfolding asked_in_lane
lane_wait-suffices f t p o now wait r hr h1 hc hd hw =
    retry_after-suffices o now wait (asked_in_lane f t p) r hr h1 (priced p.cost hc)
      (lane_covers f t p) hd
      (at_rate (allowance (some f) t p).refill (pos r) p.cost
        (check_jar o now (asked_in_lane f t p)).0.remaining (pos wait) hr hw)
