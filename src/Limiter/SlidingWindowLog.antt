-- ===== src/Limiter/SlidingWindowLog.antt =====
-- internal/limiter/windows.go: the sliding window log.
pub mod Exact
use limit_plane.Prelude.{
  if◌then◌else◌, ◌-ℤ◌, ltb_ℤ, max_ℤ, ℤ, pos, length, ◌*◌, String, Option, none, some, List, [], ◌∷◌,
  ◌++◌,
}
use limit_plane.Prelude.Assoc.{Assoc}
use limit_plane.Limiter.{unit, floor, Decision, WindowArgs}
use limit_plane.Limiter.Keyed.{on_key}

-- The stamps after a point in time, in their order.
pub since : ℤ → List ℤ → List ℤ
since window_start [] = []
since window_start (ts ∷ stamps) =
    let rest = since window_start stamps in if ltb_ℤ window_start ts then ts ∷ rest else rest

stamps_of : Option (List ℤ) → List ℤ
stamps_of none = []
stamps_of (some stamps) = stamps

-- `float64(len(recent))`
count_of : List ℤ → ℤ
count_of stamps = pos (length stamps * unit)

pub check_log : Option (List ℤ) → ℤ → WindowArgs → Decision × List ℤ
unfolding since stamps_of count_of
check_log o now a =
    let recent = since (now -ℤ a.window_ms) (stamps_of o) in
    let allowed = ltb_ℤ (count_of recent) a.limit in
    let recent' : List ℤ = if allowed then recent ++ now ∷ [] else recent in
    (
      record {
        allowed = allowed;
        remaining = floor (max_ℤ (a.limit -ℤ count_of recent') (pos 0));
        reset_at = pos 0;
      },
      recent',
    )

abbrev pub log_key : WindowArgs → String
log_key a = a.key

pub check : Assoc (List ℤ) → ℤ → WindowArgs → Decision × Assoc (List ℤ)
unfolding check_log
check = on_key log_key check_log
