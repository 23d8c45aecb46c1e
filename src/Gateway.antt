-- ===== src/Gateway.antt =====
-- internal/gateway/gateway.go: the admission decision that the other components are composed into.
-- The two meters are the interfaces that the code has, as functions on a state of their own type, so
-- the local and the distributed ones fit; `none` is an error. The clock is read once for a call. The
-- events that OnDecision gets are the ones written to the diary. Headers and bodies are not modelled.
pub mod Check
pub mod Waiting
use limit_plane.Prelude.{
  if◌then◌else◌, pos_part, ◌-ℤ◌, ◌*ℤ◌, ltb_ℤ, div_ℤ, max_ℤ, ℤ, pos, negsuc, ℕ, suc, ◌+◌, ◌-◌, ◌*◌,
  ◌/◌, String, Bool, true, not, ◌&&◌, Option, none, some, List, [], str_eq,
}
use limit_plane.Limiter.{unit}
use limit_plane.Limiter.MonthlyQuota.{MonthlyDecision}
use limit_plane.Policy.{Policy, Error, Plan}
use limit_plane.Audit.{Event, Log}
use limit_plane.Automations.{ban_remaining_ms, on_decision, Action, Config, Automations}
use limit_plane.Fingerprint.{
  observe_event, lane_for, Label, Fingerprints, human, ai_agent, crawler, retry_bug, warming,
}

-- What goes wrong: the policy does not resolve, or a meter is out of reach.
pub data Fault : Type 0 where
  bad_plan : Error → Fault
  monthly_down burst_down : Fault

pub record Verdict : Type 0 where
  pub allowed : Bool
  pub reason : String
  pub remaining : ℤ
  pub limit : ℤ
  pub tier_limit : ℤ
  pub cost : ℤ
  pub cost_class : String
  pub retry_after_ms : ℤ
  pub tenant_id : String
  pub tier : String
  pub lane : String
  pub monthly : Option MonthlyDecision
  pub monthly_quota : Option ℤ
  pub fault : Option Fault

pub record CheckArgs : Type 0 where
  pub api_key : String
  pub ip : String
  pub route : String
  pub ua : String

-- The state that the parts keep; the autopilot and the classifier are optional.
pub record Gateway (B M : Type 0) : Type 0 where
  pub policy : Policy
  pub limiter : B
  pub monthly : M
  pub audit : Log
  pub automations : Option Automations
  pub fingerprints : Option Fingerprints

label_name : Label → String
label_name human = "human"
label_name ai_agent = "ai_agent"
label_name crawler = "crawler"
label_name retry_bug = "retry_bug"
label_name warming = "warming"

-- `math.Round(x * mult)` to a whole token, half a token away from zero; `mult` is in tenths.
round_scaled : ℤ → ℕ → ℤ
unfolding ◌-ℤ◌
round_scaled (pos n) mult = pos ((n * mult + 5 * unit) / (10 * unit) * unit)
round_scaled (negsuc n) mult = pos 0 -ℤ pos ((suc n * mult + 5 * unit) / (10 * unit) * unit)

-- The capacity and the rate in the client's lane, with the lane's name.
pub record Allowance : Type 0 where
  pub capacity : ℤ
  pub refill : ℤ
  pub lane : String

unfoldable pub allowance : Option Fingerprints → String → Plan → Allowance
unfolding label_name round_scaled
allowance none t p = record { capacity = p.capacity; refill = p.refill_rate_per_ms; lane = "" }
allowance (some f) t p =
    let lane = lane_for t f in
    record {
      capacity = max_ℤ p.cost (round_scaled p.capacity lane.burst_mult);
      refill = div_ℤ (p.refill_rate_per_ms *ℤ pos lane.refill_mult) 10;
      lane = label_name lane.label;
    }

-- The plan's meter has no objection; a tier with no quota has no meter.
unfoldable pub month_allows : Option MonthlyDecision → Bool
month_allows none = true
month_allows (some m) = m.allowed

unfoldable pub reason_of : Bool → Option MonthlyDecision → String
unfolding month_allows
reason_of allowed month =
    if allowed then "" else if not (month_allows month) then "monthly_quota" else "burst"

-- `math.Ceil(missing / refill)`
ceil_div : ℤ → ℤ → ℤ
ceil_div missing refill = pos ((pos_part missing + (pos_part refill - 1)) / pos_part refill)

-- How long the jar needs for what is missing; `remaining` counts whole tokens.
unfoldable pub retry_after : String → ℤ → ℤ → ℤ → ℤ
unfolding ceil_div
retry_after reason cost remaining refill =
    if str_eq reason "burst" && ltb_ℤ (pos 0) refill
    then ceil_div (max_ℤ (cost -ℤ remaining *ℤ pos unit) (pos 0)) refill
    else pos 0

-- What a call leaves: the decision, the event if one was recorded, the autopilot's actions.
pub record Outcome (B M : Type 0) : Type 0 where
  pub verdict : Verdict
  pub event : Option Event
  pub actions : List Action
  pub after : Gateway B M

pub month_used : Option MonthlyDecision → Option ℤ
month_used none = none
month_used (some m) = some m.used

pub month_remaining : Option MonthlyDecision → Option ℤ
month_remaining none = none
month_remaining (some m) = some m.remaining

-- What is left of the client's ban, with a lapsed one dropped.
unfoldable pub ban_left : ℤ → String → Option Automations → ℤ × Option Automations
ban_left now t none = (pos 0, none)
ban_left now t (some s) = let (left, s') = ban_remaining_ms now t s in (left, some s')

learn : Event → Option Fingerprints → Option Fingerprints
learn e none = none
learn e (some f) = some (observe_event e f)

module _ (month_of : ℤ → String) where
  feed : Config → ℤ → Event → Option Automations → List Action × Option Automations
  feed cfg now e none = ([], none)
  feed cfg now e (some s) = let (xs, s') = on_decision month_of cfg now e s in (xs, some s')
