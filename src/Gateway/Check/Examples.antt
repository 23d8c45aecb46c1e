-- ===== src/Gateway/Check/Examples.antt =====
-- gateway.go: runs of the gateway with a policy of one tier, a single jar and a monthly meter.
use limit_plane.Prelude.{
  ◌+ℤ◌, ◌-ℤ◌, ◌*ℤ◌, div_ℤ, min_ℤ, max_ℤ, ℤ, pos, ℕ, zero, suc, String, ◌≡◌, refl, true, false,
  Option, none, some, [], ◌∷◌, arith,
}
use limit_plane.Prelude.Assoc.{lookup, contains}
use limit_plane.Gateway.Check.{
  report, banned, failed_open, unresolved, settled, burst_step, monthly_step, planned, check,
}
use limit_plane.Gateway.Check.Refusals.{refused-RefusedBy, RefusedBy}
use limit_plane.Gateway.Check.Promises.{
  month_spares_burst, ban_spares_meters, Reported, decided-Reported, allowed-Agreed, Agreed,
}
use limit_plane.Gateway.Waiting.{retry_after-suffices, asked_in_lane, lane_wait-suffices}
use limit_plane.Limiter.{floor, cost_or_one, Decision, BurstArgs}
use limit_plane.Limiter.MonthlyQuota.{MonthlyDecision, MonthlyArgs}
use limit_plane.Limiter.TokenBucket.{
  refilled, affords, decide_jar, check_jar, Bucket, TokenBucketArgs,
}
use limit_plane.Policy.{classify_cost, identify, make_plan, resolve, Policy, Plan}
use limit_plane.Audit.{stamped, write, append_event, Event}
use limit_plane.Automations.{ban_remaining_ms, Config, Automations}
use limit_plane.Fingerprint.{lanes, lane_for, Fingerprints}
use limit_plane.Gateway.{
  allowance, month_allows, reason_of, retry_after, ban_left, CheckArgs, Gateway,
}

abbrev one_month : ℤ → String
one_month t = "2026-11"

abbrev storms : Config
storms = record {
  storm_threshold = pos 10;
  storm_window_ms = pos 60_000;
  cooldown_ms = pos 300_000;
}

-- A limiter that keeps a number of whole tokens, and is out of reach when it has run out of them.
abbrev ask_count : ℤ → BurstArgs → ℕ → Option Decision × ℕ
ask_count now a zero = (none, zero)
ask_count now a (suc n) = (some (record { allowed = true; remaining = pos n; reset_at = pos 0 }), n)

-- A meter that refuses all.
abbrev ask_refusal : ℤ → MonthlyArgs → ℕ → Option MonthlyDecision × ℕ
ask_refusal now a n =
    (some (record { allowed = false; used = a.quota; remaining = pos 0; resets_at = now }), suc n)

abbrev small : Option ℤ → Policy
small quota = record {
  tiers =
      (
        "free",
        record {
          capacity = pos 10_000_000;
          refill_per_second = pos 1_000_000;
          monthly_quota = quota;
        },
      )
      ∷ [];
  routes = [];
  tenants = [];
}

abbrev gateway : Option ℤ → ℕ → Option Automations → Gateway ℕ ℕ
gateway quota tokens autopilot = record {
  policy = small quota;
  limiter = tokens;
  monthly = 0;
  audit = record { max = 2; buf = []; start = 0; count = 0 };
  automations = autopilot;
  fingerprints = none;
}

abbrev request : CheckArgs
request = record { api_key = ""; ip = "10.0.0.1"; route = "/v1"; ua = "curl" }

abbrev ban_list : Automations
ban_list = record {
  actions = [];
  fired_once = [];
  cap_hits = [];
  storm_log = [];
  bans = ("anon:10.0.0.1", pos 9000) ∷ [];
}

refused-RefusedBy_example :
    RefusedBy one_month storms ask_count ask_refusal
      (pos 1000)
      request
      (gateway (some (pos 5_000_000)) 3 none)
      (check one_month storms ask_count ask_refusal
        (pos 1000)
        request
        (gateway (some (pos 5_000_000)) 3 none)).verdict
unfolding check planned monthly_step burst_step settled report failed_open banned unresolved resolve
    identify classify_cost make_plan allowance month_allows reason_of lookup contains append_event
    stamped write ban_left ban_remaining_ms
refused-RefusedBy_example =
    refused-RefusedBy one_month storms ask_count ask_refusal (pos 1000) request
      (gateway (some (pos 5_000_000)) 3 none) refl

allowed-Agreed_example :
    Agreed one_month storms ask_count ask_refusal (pos 1000) request (gateway none 3 none)
unfolding check planned monthly_step burst_step settled report failed_open banned unresolved resolve
    identify classify_cost make_plan allowance month_allows reason_of lookup contains append_event
    stamped write ban_left ban_remaining_ms
allowed-Agreed_example =
    allowed-Agreed one_month storms ask_count ask_refusal (pos 1000) request (gateway none 3 none)
      refl refl

decided-Reported_example :
    (e : Event) × Reported one_month storms ask_count ask_refusal
      (gateway none 3 none)
      (check one_month storms ask_count ask_refusal (pos 1000) request (gateway none 3 none))
      e
unfolding check planned monthly_step burst_step settled report failed_open banned unresolved resolve
    identify classify_cost make_plan allowance month_allows reason_of lookup contains append_event
    stamped write ban_left ban_remaining_ms
decided-Reported_example =
    decided-Reported one_month storms ask_count ask_refusal (pos 1000) request (gateway none 3 none)
      refl

month_spares_burst_example :
    (check one_month storms ask_count ask_refusal
      (pos 1000)
      request
      (gateway (some (pos 5_000_000)) 3 none)).after.limiter
    ≡ 3
unfolding check planned monthly_step burst_step settled report failed_open banned unresolved resolve
    identify classify_cost make_plan allowance month_allows reason_of lookup contains append_event
    stamped write ban_left ban_remaining_ms
month_spares_burst_example =
    month_spares_burst one_month storms ask_count ask_refusal (pos 1000) request
      (gateway (some (pos 5_000_000)) 3 none) refl

ban_spares_meters_example :
    ((check one_month storms ask_count ask_refusal
        (pos 1000)
        request
        (gateway none 3 (some ban_list))).after.limiter
      ≡ 3)
    × ((check one_month storms ask_count ask_refusal
          (pos 1000)
          request
          (gateway none 3 (some ban_list))).after.monthly
        ≡ 0)
    × ((check one_month storms ask_count ask_refusal
          (pos 1000)
          request
          (gateway none 3 (some ban_list))).after.fingerprints
        ≡ none)
unfolding check planned monthly_step burst_step settled report failed_open banned unresolved resolve
    identify classify_cost make_plan allowance month_allows reason_of lookup contains append_event
    stamped write ban_left ban_remaining_ms
ban_spares_meters_example =
    ban_spares_meters one_month storms ask_count ask_refusal (pos 1000) request
      (gateway none 3 (some ban_list)) refl

-- A token a second, an empty jar of ten, and a request that costs two.
abbrev two_tokens : TokenBucketArgs
two_tokens = record {
  key = "acme";
  capacity = pos 10_000_000;
  refill_rate_per_ms = pos 1000;
  cost = pos 2_000_000;
}

abbrev empty_jar : Option Bucket
empty_jar = some (record {
  tokens = pos 0;
  last_refill = pos 1000;
  capacity = pos 10_000_000;
  refill = pos 1000;
})

retry_after-suffices_example :
    (check_jar
      (some (check_jar empty_jar (pos 1000) two_tokens).1)
      (pos 1000 +ℤ pos 2000)
      two_tokens).0.allowed
    ≡ true
unfolding check_jar decide_jar affords retry_after refilled cost_or_one floor min_ℤ ◌+ℤ◌ ◌*ℤ◌ ◌-ℤ◌
    max_ℤ
retry_after-suffices_example =
    retry_after-suffices empty_jar (pos 1000) 2000 two_tokens 1000 refl (omega arith) refl
      (omega arith) refl (omega arith)

-- A client whose plan holds half a token, and whose lane is the default one.
abbrev tiny : Plan
tiny = record {
  key = "acme:free:/";
  capacity = pos 500_000;
  refill_rate_per_ms = pos 1000;
  cost = pos 2_000_000;
  cost_class = "standard";
  monthly_quota = none;
  monthly_key = "acme:free:monthly";
}

abbrev unseen : Fingerprints
unseen = record { window = 30; clients = []; order = [] }

lane_wait-suffices_example :
    (check_jar
      (some (check_jar empty_jar (pos 1000) (asked_in_lane unseen "acme" tiny)).1)
      (pos 1000 +ℤ pos 2000)
      (asked_in_lane unseen "acme" tiny)).0.allowed
    ≡ true
unfolding asked_in_lane allowance check_jar decide_jar affords retry_after refilled cost_or_one
    floor min_ℤ ◌+ℤ◌ ◌*ℤ◌ ◌-ℤ◌ max_ℤ lane_for lookup lanes div_ℤ
lane_wait-suffices_example =
    lane_wait-suffices unseen "acme" tiny empty_jar (pos 1000) 2000 1000 refl (omega arith)
      (omega arith) refl (omega arith)
