-- ===== src/Limiter/MonthlyQuota.antt =====
-- internal/limiter/monthlyquota.go: the monthly plan meter. The calendar (`time.UnixMilli(…).UTC()`
-- with its formatting and its date arithmetic) is the parameters `month_id` and `resets_at`.
pub mod Plan
use limit_plane.Prelude.{
  if◌then◌else◌, ◌+ℤ◌, ◌-ℤ◌, leb_ℤ, max_ℤ, ℤ, pos, String, Bool, Option, none, some, str_eq,
}
use limit_plane.Prelude.Assoc.{Assoc}
use limit_plane.Limiter.{cost_or_one}
use limit_plane.Limiter.Keyed.{on_key}

pub record Meter : Type 0 where
  pub month : String
  pub used : ℤ

pub record MonthlyDecision : Type 0 where
  pub allowed : Bool
  pub used : ℤ
  pub remaining : ℤ
  pub resets_at : ℤ

pub record MonthlyArgs : Type 0 where
  pub key : String
  pub quota : ℤ
  pub cost : ℤ

-- A new month starts a fresh meter.
current_meter : Option Meter → String → Meter
current_meter none month = record { month = month; used = pos 0 }
current_meter (some mt) month =
    if str_eq mt.month month then mt else record { month = month; used = pos 0 }

abbrev pub monthly_key : MonthlyArgs → String
monthly_key a = a.key

module _ (month_id : ℤ → String) (resets_at : ℤ → ℤ) where
  pub check_meter : Option Meter → ℤ → MonthlyArgs → MonthlyDecision × Meter
  unfolding current_meter
  check_meter o now a =
      let mt = current_meter o (month_id now) in
      let c = cost_or_one a.cost in
      let allowed = leb_ℤ (mt.used +ℤ c) a.quota in
      let mt' : Meter = if allowed then record mt { used = mt.used +ℤ c } else mt in
      (
        record {
          allowed = allowed;
          used = mt'.used;
          remaining = max_ℤ (a.quota -ℤ mt'.used) (pos 0);
          resets_at = resets_at now;
        },
        mt',
      )

  pub check : Assoc Meter → ℤ → MonthlyArgs → MonthlyDecision × Assoc Meter
  unfolding check_meter
  check = on_key monthly_key check_meter
