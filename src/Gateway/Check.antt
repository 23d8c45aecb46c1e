-- ===== src/Gateway/Check.antt =====
-- gateway.go: the decision on one request, `Check`, in the order of its steps.
pub mod Examples
pub mod Outcomes
pub mod Promises
pub mod Refusals
use limit_plane.Prelude.{
  if◌then◌else◌, ltb_ℤ, ℤ, pos, String, true, false, ◌&&◌, Option, none, some, List, [],
}
use limit_plane.Limiter.{Decision, BurstArgs}
use limit_plane.Limiter.MonthlyQuota.{monthly_key, MonthlyDecision, MonthlyArgs}
use limit_plane.Policy.{identify, resolve, Tenant, Error, Result, Plan, ok, err}
use limit_plane.Audit.{append_event, Event}
use limit_plane.Automations.{Action, Config}
use limit_plane.Gateway.{
  bad_plan, allowance, month_allows, reason_of, retry_after, month_used, month_remaining, ban_left,
  learn, feed, Fault, CheckArgs, Gateway, Allowance, Outcome, monthly_down, burst_down,
}

-- The diary's line on a request that a ban refuses, and on one that the meters have decided.
unfoldable pub ban_event : ℤ → CheckArgs → Tenant → Plan → Event
ban_event now a t p = record {
  at = now;
  allowed = false;
  key = p.key;
  route = a.route;
  tenant_id = t.tenant_id;
  ip = a.ip;
  tier = t.tier;
  cost_class = p.cost_class;
  cost = p.cost;
  remaining = pos 0;
  reason = "auto_cooldown";
  monthly_used = none;
  monthly_remaining = none;
  label = "";
  ua = a.ua;
}

unfoldable pub settled_event :
    ℤ → CheckArgs → Tenant → Plan → Allowance → Option MonthlyDecision → Decision → Event
settled_event now a t p w month d = record {
  at = now;
  allowed = month_allows month && d.allowed;
  key = p.key;
  route = a.route;
  tenant_id = t.tenant_id;
  ip = a.ip;
  tier = t.tier;
  cost_class = p.cost_class;
  cost = p.cost;
  remaining = d.remaining;
  reason = reason_of (month_allows month && d.allowed) month;
  monthly_used = month_used month;
  monthly_remaining = month_remaining month;
  label = w.lane;
  ua = a.ua;
}

module _ {B M : Type 0} (month_of : ℤ → String) (cfg : Config)
    (ask_burst : ℤ → BurstArgs → B → Option Decision × B)
    (ask_monthly : ℤ → MonthlyArgs → M → Option MonthlyDecision × M) where
  -- The diary, then the classifier, then the autopilot learn of a decision.
  pub report : ℤ → Event → Gateway B M → Event × List Action × Gateway B M
  unfolding learn feed
  report now e g =
      let (e', log) = append_event g.audit now e in
      let (xs, autopilot) = feed month_of cfg now e' g.automations in
      (
        e',
        xs,
        record g { audit = log; automations = autopilot; fingerprints = learn e' g.fingerprints },
      )

  -- A client that serves a ban: the classifier does not learn of it.
  pub banned : ℤ → CheckArgs → Tenant → Plan → ℤ → Gateway B M → Outcome B M
  unfolding feed
  banned now a t p left g =
      let e = ban_event now a t p in
      let (e', log) = append_event g.audit now e in
      let (xs, autopilot) = feed month_of cfg now e' g.automations in
      record {
        verdict = record {
          allowed = false;
          reason = "auto_cooldown";
          remaining = pos 0;
          limit = p.capacity;
          tier_limit = p.capacity;
          cost = p.cost;
          cost_class = p.cost_class;
          retry_after_ms = left;
          tenant_id = t.tenant_id;
          tier = t.tier;
          lane = "";
          monthly = none;
          monthly_quota = p.monthly_quota;
          fault = none;
        };
        event = some e';
        actions = xs;
        after = record g { audit = log; automations = autopilot };
      }

  -- Fail open: the request passes, the fault is surfaced and nothing is written down.
  pub failed_open : Tenant → Plan → ℤ → String → Fault → Gateway B M → Outcome B M
  failed_open t p limit lane fault g = record {
    verdict = record {
      allowed = true;
      reason = "";
      remaining = pos 0;
      limit = limit;
      tier_limit = p.capacity;
      cost = p.cost;
      cost_class = p.cost_class;
      retry_after_ms = pos 0;
      tenant_id = t.tenant_id;
      tier = t.tier;
      lane = lane;
      monthly = none;
      monthly_quota = p.monthly_quota;
      fault = some fault;
    };
    event = none;
    actions = [];
    after = g;
  }

  pub unresolved : Tenant → Error → Gateway B M → Outcome B M
  unresolved t e g = record {
    verdict = record {
      allowed = true;
      reason = "";
      remaining = pos 0;
      limit = pos 0;
      tier_limit = pos 0;
      cost = pos 0;
      cost_class = "";
      retry_after_ms = pos 0;
      tenant_id = t.tenant_id;
      tier = t.tier;
      lane = "";
      monthly = none;
      monthly_quota = none;
      fault = some (bad_plan e);
    };
    event = none;
    actions = [];
    after = g;
  }

  -- The two meters have answered.
  pub settled :
      ℤ
      → CheckArgs
      → Tenant
      → Plan
      → Allowance
      → Option MonthlyDecision
      → Decision
      → Gateway B M
      → Outcome B M
  settled now a t p w month d g =
      let allowed = month_allows month && d.allowed in
      let reason = reason_of allowed month in
      let e = settled_event now a t p w month d in
      let (e', xs, g') = report now e g in
      record {
        verdict = record {
          allowed = allowed;
          reason = reason;
          remaining = d.remaining;
          limit = w.capacity;
          tier_limit = p.capacity;
          cost = p.cost;
          cost_class = p.cost_class;
          retry_after_ms = retry_after reason p.cost d.remaining w.refill;
          tenant_id = t.tenant_id;
          tier = t.tier;
          lane = w.lane;
          monthly = month;
          monthly_quota = p.monthly_quota;
          fault = none;
        };
        event = some e';
        actions = xs;
        after = g';
      }

  -- The burst limiter's answer, or its failure.
  answered :
      ℤ
      → CheckArgs
      → Tenant
      → Plan
      → Allowance
      → Option MonthlyDecision
      → Option Decision × B
      → Gateway B M
      → Outcome B M
  answered now a t p w month (none, b) g =
      failed_open t p w.capacity w.lane burst_down (record g { limiter = b })
  answered now a t p w month (some d, b) g = settled now a t p w month d (record g { limiter = b })

  -- Step 3b, the burst limiter, in the client's lane and only if the plan said yes.
  pub burst_step :
      ℤ → CheckArgs → Tenant → Plan → Option MonthlyDecision → Gateway B M → Outcome B M
  unfolding answered
  burst_step now a t p month g =
      let w = allowance g.fingerprints t.tenant_id p in
      if month_allows month
      then answered now a t p w month
          (ask_burst now
            (record {
              key = p.key;
              capacity = w.capacity;
              refill_rate_per_ms = w.refill;
              window_ms = pos 0;
              cost = p.cost;
            })
            g.limiter)
          g
      else settled now a t p w month
          (record { allowed = false; remaining = pos 0; reset_at = pos 0 }) g

  metered : ℤ → CheckArgs → Tenant → Plan → Option MonthlyDecision × M → Gateway B M → Outcome B M
  unfolding burst_step
  metered now a t p (none, m) g =
      failed_open t p p.capacity "" monthly_down (record g { monthly = m })
  metered now a t p (some d, m) g = burst_step now a t p (some d) (record g { monthly = m })

  -- Step 3a, the monthly meter, skipped for a tier with no quota.
  pub monthly_step : ℤ → CheckArgs → Tenant → Plan → Option ℤ → Gateway B M → Outcome B M
  unfolding burst_step metered
  monthly_step now a t p none g = burst_step now a t p none g
  monthly_step now a t p (some quota) g =
      metered now a t p
        (ask_monthly now (record { key = p.monthly_key; quota = quota; cost = p.cost }) g.monthly) g

  -- Step 0, the cooldown, before any meter is spent.
  pub planned : ℤ → CheckArgs → Tenant → Result Plan → Gateway B M → Outcome B M
  unfolding monthly_step banned ban_left
  planned now a t (err e) g = unresolved t e g
  planned now a t (ok p) g =
      let (left, autopilot) = ban_left now t.tenant_id g.automations in
      let g' : Gateway B M = record g { automations = autopilot } in
      if ltb_ℤ (pos 0) left
      then banned now a t p left g'
      else monthly_step now a t p p.monthly_quota g'

  pub check : ℤ → CheckArgs → Gateway B M → Outcome B M
  unfolding planned
  check now a g =
      let t = identify g.policy a.api_key a.ip in
      planned now a t (resolve g.policy t.tenant_id t.tier a.route) g
