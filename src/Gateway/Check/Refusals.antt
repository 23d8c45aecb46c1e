-- ===== src/Gateway/Check/Refusals.antt =====
-- gateway.go: who refuses a request that `Check` does not let through, and what the caller is told.
use limit_plane.Prelude.{
  ltb_ℤ, ℤ, pos, String, ◌≡◌, refl, ◌≢◌, Bool, true, false, ◌&&◌, Option, none, some, arith,
}
use limit_plane.Gateway.Check.{banned, failed_open, unresolved, settled, check}
use limit_plane.Limiter.{Decision, BurstArgs}
use limit_plane.Limiter.MonthlyQuota.{MonthlyDecision, MonthlyArgs}
use limit_plane.Policy.{resolve, Plan, ok}
use limit_plane.Automations.{Config}
use limit_plane.Gateway.{
  allowance, month_allows, reason_of, retry_after, ban_left, CheckArgs, Gateway, Verdict, Outcome,
}
use limit_plane.Gateway.Check.Outcomes.{
  caller, question, check-Ends, MonthSays, Ends, unmetered, metered_by, ends_unresolved,
  ends_banned, ends_monthly_down, ends_over_quota, ends_burst_down, ends_answered,
}

true≢false : true ≢ false
true≢false q = ground arith

module _ {B M : Type 0} (month_of : ℤ → String) (cfg : Config)
    (ask_burst : ℤ → BurstArgs → B → Option Decision × B)
    (ask_monthly : ℤ → MonthlyArgs → M → Option MonthlyDecision × M) where
  -- One of three refuses: a ban with time left; the plan's meter, with no ban left; or the burst limiter,
  -- asked in the client's lane with no ban left and the meter's yes.
  pub data RefusedBy (now : ℤ) (a : CheckArgs) (g : Gateway B M) (v : Verdict) : Type 0 where
    by_ban :
        (p : Plan) (left : ℤ)
        → resolve g.policy (caller a g).tenant_id (caller a g).tier a.route ≡ ok p
        → (ban_left now (caller a g).tenant_id g.automations).0 ≡ left
        → ltb_ℤ (pos 0) left ≡ true
        → v.reason ≡ "auto_cooldown"
        → v.retry_after_ms ≡ left
        → v.remaining ≡ pos 0
        → RefusedBy now a g v
    by_month :
        (p : Plan) (quota : ℤ) (d : MonthlyDecision) (m : M)
        → resolve g.policy (caller a g).tenant_id (caller a g).tier a.route ≡ ok p
        → ltb_ℤ (pos 0) (ban_left now (caller a g).tenant_id g.automations).0 ≡ false
        → p.monthly_quota ≡ some quota
        → ask_monthly now (record { key = p.monthly_key; quota = quota; cost = p.cost }) g.monthly
          ≡ (some d, m)
        → d.allowed ≡ false
        → v.reason ≡ "monthly_quota"
        → v.monthly ≡ some d
        → v.remaining ≡ pos 0
        → v.retry_after_ms ≡ pos 0
        → RefusedBy now a g v
    by_burst :
        (p : Plan) (month : Option MonthlyDecision) (m : M) (d : Decision) (b : B)
        → resolve g.policy (caller a g).tenant_id (caller a g).tier a.route ≡ ok p
        → ltb_ℤ (pos 0) (ban_left now (caller a g).tenant_id g.automations).0 ≡ false
        → MonthSays month_of cfg ask_burst ask_monthly now p g month m
        → month_allows month ≡ true
        → ask_burst now (question p (allowance g.fingerprints (caller a g).tenant_id p)) g.limiter
          ≡ (some d, b)
        → d.allowed ≡ false
        → v.reason ≡ "burst"
        → v.monthly ≡ month
        → v.remaining ≡ d.remaining
        → RefusedBy now a g v

  answer_no : (x y : Bool) → x ≡ true → x && y ≡ false → y ≡ false
  answer_no x y e h = ground (arith, e, h)

  over-RefusedBy :
      (now : ℤ) (a : CheckArgs) (g : Gateway B M) (v : Verdict) (p : Plan)
      (month : Option MonthlyDecision) (m : M)
      → resolve g.policy (caller a g).tenant_id (caller a g).tier a.route ≡ ok p
      → ltb_ℤ (pos 0) (ban_left now (caller a g).tenant_id g.automations).0 ≡ false
      → MonthSays month_of cfg ask_burst ask_monthly now p g month m
      → month_allows month ≡ false
      → v.reason ≡ "monthly_quota"
      → v.monthly ≡ month
      → v.remaining ≡ pos 0
      → v.retry_after_ms ≡ pos 0
      → RefusedBy now a g v
  unfolding month_allows
  over-RefusedBy now a g v p none _ hp hb (unmetered hq) ha r vm rem wait = absurd (true≢false ha)
  over-RefusedBy now a g v p (some d) m hp hb (metered_by quota _ _ hq hm) ha r vm rem wait =
      by_month p quota d m hp hb hq hm ha r vm rem wait

  Ends-RefusedBy :
      (now : ℤ) (a : CheckArgs) (g : Gateway B M) (o : Outcome B M)
      → Ends month_of cfg ask_burst ask_monthly now a g o
      → o.verdict.allowed ≡ false
      → RefusedBy now a g o.verdict
  unfolding unresolved banned failed_open settled reason_of retry_after
  Ends-RefusedBy now a g _ (ends_unresolved e hp) h = absurd (true≢false h)
  Ends-RefusedBy now a g _ (ends_banned p left hp hb hl) h = by_ban p left hp hb hl refl refl refl
  Ends-RefusedBy now a g _ (ends_monthly_down p quota m hp hb hq hm) h = absurd (true≢false h)
  Ends-RefusedBy now a g _ (ends_over_quota p month m hp hb hm ha) h =
      over-RefusedBy now a g _ p month m hp hb hm ha (rw ha refl) refl refl (rw ha refl)
  Ends-RefusedBy now a g _ (ends_burst_down p month m b hp hb hm ha hr) h = absurd (true≢false h)
  Ends-RefusedBy now a g _ (ends_answered p month m d b hp hb hm ha hr) h =
      let no = answer_no (month_allows month) d.allowed ha h in
      by_burst p month m d b hp hb hm ha hr no (rw (ha, no) refl) refl refl

  -- A request that `Check` does not let through is refused by one of three, and the caller is told which: a
  -- ban, with the time that is left of it to wait; the meter of a metered tier, with no ban left, which is
  -- shown with nothing remaining and no wait; or the burst limiter, asked in the client's lane after the
  -- meter's yes, with what it says remains.
  pub refused-RefusedBy :
      (now : ℤ) (a : CheckArgs) (g : Gateway B M)
      → (check month_of cfg ask_burst ask_monthly now a g).verdict.allowed ≡ false
      → RefusedBy now a g (check month_of cfg ask_burst ask_monthly now a g).verdict
  refused-RefusedBy now a g =
      Ends-RefusedBy now a g (check month_of cfg ask_burst ask_monthly now a g)
        (check-Ends month_of cfg ask_burst ask_monthly now a g)
