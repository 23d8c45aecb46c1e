-- ===== src/Limiter/LeakyBucket.antt =====
-- internal/limiter/windows.go: the leaky bucket.
pub mod Duality
use limit_plane.Prelude.{
  if◌then◌else◌, ◌+ℤ◌, ◌-ℤ◌, ◌*ℤ◌, leb_ℤ, max_ℤ, ℤ, pos, String, Bool, Option, none, some,
}
use limit_plane.Prelude.Assoc.{Assoc}
use limit_plane.Limiter.{floor, cost_or_one, Decision}
use limit_plane.Limiter.Keyed.{on_key}

pub record LeakyState : Type 0 where
  pub level : ℤ
  pub last_leak : ℤ

pub record LeakyBucketArgs : Type 0 where
  pub key : String
  pub capacity : ℤ
  pub leak_rate_per_ms : ℤ
  pub cost : ℤ

-- A new jar starts empty.
leaky_or_new : Option LeakyState → ℤ → LeakyState
leaky_or_new none now = record { level = pos 0; last_leak = now }
leaky_or_new (some b) now = b

leaked : LeakyState → ℤ → ℤ → LeakyState
leaked b now rate = record {
  level = max_ℤ (b.level -ℤ (now -ℤ b.last_leak) *ℤ rate) (pos 0);
  last_leak = now;
}

fits : LeakyState → ℤ → ℤ → Bool
fits b c cap = leb_ℤ (b.level +ℤ c) cap

pour : LeakyState → ℤ → ℤ → LeakyState
unfolding fits
pour b c cap = if fits b c cap then record b { level = b.level +ℤ c } else b

pub check_leaky : Option LeakyState → ℤ → LeakyBucketArgs → Decision × LeakyState
unfolding leaky_or_new leaked pour
check_leaky o now a =
    let b = leaked (leaky_or_new o now) now a.leak_rate_per_ms in
    let c = cost_or_one a.cost in
    (
      record {
        allowed = fits b c a.capacity;
        remaining = max_ℤ (floor (a.capacity -ℤ (pour b c a.capacity).level)) (pos 0);
        reset_at = pos 0;
      },
      pour b c a.capacity,
    )

abbrev pub leaky_key : LeakyBucketArgs → String
leaky_key a = a.key

pub check : Assoc LeakyState → ℤ → LeakyBucketArgs → Decision × Assoc LeakyState
unfolding check_leaky
check = on_key leaky_key check_leaky
