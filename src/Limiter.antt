-- ===== src/Limiter.antt =====
-- internal/limiter: what the rate limiters share (limiter.go).
-- An amount (tokens, costs, limits, quotas; float64 in the code) is a whole number of millionths
-- of a token, so that sums and products are exact and a division by 1000 keeps three more digits.
pub mod Keyed
pub mod Examples
pub mod TokenBucket
pub mod FixedWindow
pub mod SlidingWindowCounter
pub mod SlidingWindowLog
pub mod LeakyBucket
pub mod MonthlyQuota
use limit_plane.Prelude.{if◌then◌else◌, ◌≤ℤ◌, eqb_ℤ, div_ℤ, ℤ, pos, ℕ, String, Bool, arith}

-- One token.
abbrev pub unit : ℕ
unit = 1_000_000

abbrev pub one : ℤ
one = pos 1_000_000

-- `int(math.Floor(x))`
unfoldable pub floor : ℤ → ℤ
unfolding div_ℤ
floor a = div_ℤ a unit

pub record Decision : Type 0 where
  pub allowed : Bool
  pub remaining : ℤ
  pub reset_at : ℤ

pub record BurstArgs : Type 0 where
  pub key : String
  pub capacity : ℤ
  pub refill_rate_per_ms : ℤ
  pub window_ms : ℤ
  pub cost : ℤ

-- A cost of zero is the cost that the caller left out, and counts as one token.
unfoldable pub cost_or_one : ℤ → ℤ
cost_or_one c = if eqb_ℤ c (pos 0) then one else c

pub cost_or_one-nonneg : (c : ℤ) → pos 0 ≤ℤ c → pos 0 ≤ℤ cost_or_one c
unfolding cost_or_one
cost_or_one-nonneg c h = ground arith

-- The question that the window limiters are asked (windows.go).
pub record WindowArgs : Type 0 where
  pub key : String
  pub limit : ℤ
  pub window_ms : ℤ
  pub cost : ℤ
