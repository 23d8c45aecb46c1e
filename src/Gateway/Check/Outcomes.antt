-- ===== src/Gateway/Check/Outcomes.antt =====
-- gateway.go: the ways in which `Check` ends, and what each leaves of the parts.
use limit_plane.Prelude.{
  Bool-cases, ltb_ℤ, ℤ, pos, String, ◌≡◌, refl, inl, inr, true, false, Option, none, some,
}
use limit_plane.Gateway.Check.{
  banned, failed_open, unresolved, settled, answered, burst_step, metered, monthly_step, planned,
  check,
}
use limit_plane.Limiter.{Decision, BurstArgs}
use limit_plane.Limiter.MonthlyQuota.{MonthlyDecision, MonthlyArgs}
use limit_plane.Policy.{identify, resolve, Tenant, Error, Result, Plan, ok, err}
use limit_plane.Automations.{Config}
use limit_plane.Gateway.{
  allowance, month_allows, ban_left, CheckArgs, Gateway, Allowance, Outcome, monthly_down,
  burst_down,
}

-- The caller, the parts once a lapsed ban is dropped, and the question for the burst limiter.
unfoldable pub caller : {B M : Type 0} → CheckArgs → Gateway B M → Tenant
caller a g = identify g.policy a.api_key a.ip

unfoldable pub lapsed : {B M : Type 0} → ℤ → String → Gateway B M → Gateway B M
lapsed now t g = record g { automations = (ban_left now t g.automations).1 }

unfoldable pub question : Plan → Allowance → BurstArgs
question p w = record {
  key = p.key;
  capacity = w.capacity;
  refill_rate_per_ms = w.refill;
  window_ms = pos 0;
  cost = p.cost;
}

module _ {B M : Type 0} (month_of : ℤ → String) (cfg : Config)
    (ask_burst : ℤ → BurstArgs → B → Option Decision × B)
    (ask_monthly : ℤ → MonthlyArgs → M → Option MonthlyDecision × M) where
  -- The monthly meter's part: a tier with no quota is not metered.
  pub data MonthSays (now : ℤ) (p : Plan) (g : Gateway B M)
      : Option MonthlyDecision → M → Type 0 where
    unmetered : p.monthly_quota ≡ none → MonthSays now p g none g.monthly
    metered_by :
        (quota : ℤ) (d : MonthlyDecision) (m : M)
        → p.monthly_quota ≡ some quota
        → ask_monthly now (record { key = p.monthly_key; quota = quota; cost = p.cost }) g.monthly
          ≡ (some d, m)
        → MonthSays now p g (some d) m

  -- `Ends now a g o`: the request `a` in the state `g` ends in `o`.
  pub data Ends (now : ℤ) (a : CheckArgs) (g : Gateway B M) : Outcome B M → Type 0 where
    ends_unresolved :
        (e : Error)
        → resolve g.policy (caller a g).tenant_id (caller a g).tier a.route ≡ err e
        → Ends now a g (unresolved month_of cfg ask_burst ask_monthly (caller a g) e g)
    ends_banned :
        (p : Plan) (left : ℤ)
        → resolve g.policy (caller a g).tenant_id (caller a g).tier a.route ≡ ok p
        → (ban_left now (caller a g).tenant_id g.automations).0 ≡ left
        → ltb_ℤ (pos 0) left ≡ true
        → Ends now a g (
            banned month_of cfg ask_burst ask_monthly now a
              (caller a g)
              p
              left
              (lapsed now (caller a g).tenant_id g))
    ends_monthly_down :
        (p : Plan) (quota : ℤ) (m : M)
        → resolve g.policy (caller a g).tenant_id (caller a g).tier a.route ≡ ok p
        → ltb_ℤ (pos 0) (ban_left now (caller a g).tenant_id g.automations).0 ≡ false
        → p.monthly_quota ≡ some quota
        → ask_monthly now (record { key = p.monthly_key; quota = quota; cost = p.cost }) g.monthly
          ≡ (none, m)
        → Ends now a g (
            failed_open month_of cfg ask_burst ask_monthly
              (caller a g)
              p
              p.capacity
              ""
              monthly_down
              (record (lapsed now (caller a g).tenant_id g) { monthly = m }))
    ends_over_quota :
        (p : Plan) (month : Option MonthlyDecision) (m : M)
        → resolve g.policy (caller a g).tenant_id (caller a g).tier a.route ≡ ok p
        → ltb_ℤ (pos 0) (ban_left now (caller a g).tenant_id g.automations).0 ≡ false
        → MonthSays now p g month m
        → month_allows month ≡ false
        → Ends now a g (
            settled month_of cfg ask_burst ask_monthly now a
              (caller a g)
              p
              (allowance g.fingerprints (caller a g).tenant_id p)
              month
              (record { allowed = false; remaining = pos 0; reset_at = pos 0 })
              (record (lapsed now (caller a g).tenant_id g) { monthly = m }))
    ends_burst_down :
        (p : Plan) (month : Option MonthlyDecision) (m : M) (b : B)
        → resolve g.policy (caller a g).tenant_id (caller a g).tier a.route ≡ ok p
        → ltb_ℤ (pos 0) (ban_left now (caller a g).tenant_id g.automations).0 ≡ false
        → MonthSays now p g month m
        → month_allows month ≡ true
        → ask_burst now (question p (allowance g.fingerprints (caller a g).tenant_id p)) g.limiter
          ≡ (none, b)
        → Ends now a g (
            failed_open month_of cfg ask_burst ask_monthly
              (caller a g)
              p
              (allowance g.fingerprints (caller a g).tenant_id p).capacity
              (allowance g.fingerprints (caller a g).tenant_id p).lane
              burst_down
              (record (lapsed now (caller a g).tenant_id g) { limiter = b; monthly = m }))
    ends_answered :
        (p : Plan) (month : Option MonthlyDecision) (m : M) (d : Decision) (b : B)
        → resolve g.policy (caller a g).tenant_id (caller a g).tier a.route ≡ ok p
        → ltb_ℤ (pos 0) (ban_left now (caller a g).tenant_id g.automations).0 ≡ false
        → MonthSays now p g month m
        → month_allows month ≡ true
        → ask_burst now (question p (allowance g.fingerprints (caller a g).tenant_id p)) g.limiter
          ≡ (some d, b)
        → Ends now a g (
            settled month_of cfg ask_burst ask_monthly now a
              (caller a g)
              p
              (allowance g.fingerprints (caller a g).tenant_id p)
              month
              d
              (record (lapsed now (caller a g).tenant_id g) { limiter = b; monthly = m }))

  answered-Ends :
      (now : ℤ) (a : CheckArgs) (g : Gateway B M) (p : Plan) (month : Option MonthlyDecision)
      (m : M) (r : Option Decision × B)
      → resolve g.policy (caller a g).tenant_id (caller a g).tier a.route ≡ ok p
      → ltb_ℤ (pos 0) (ban_left now (caller a g).tenant_id g.automations).0 ≡ false
      → MonthSays now p g month m
      → month_allows month ≡ true
      → ask_burst now (question p (allowance g.fingerprints (caller a g).tenant_id p)) g.limiter ≡ r
      → Ends now a g (
          answered month_of cfg ask_burst ask_monthly now a
            (caller a g)
            p
            (allowance g.fingerprints (caller a g).tenant_id p)
            month
            r
            (record (lapsed now (caller a g).tenant_id g) { monthly = m }))
  unfolding answered
  answered-Ends now a g p month m (none, b) hp hb hm ha hr =
      ends_burst_down p month m b hp hb hm ha hr
  answered-Ends now a g p month m (some d, b) hp hb hm ha hr =
      ends_answered p month m d b hp hb hm ha hr

  burst_step-Ends :
      (now : ℤ) (a : CheckArgs) (g : Gateway B M) (p : Plan) (month : Option MonthlyDecision)
      (m : M)
      → resolve g.policy (caller a g).tenant_id (caller a g).tier a.route ≡ ok p
      → ltb_ℤ (pos 0) (ban_left now (caller a g).tenant_id g.automations).0 ≡ false
      → MonthSays now p g month m
      → Ends now a g (
          burst_step month_of cfg ask_burst ask_monthly now a
            (caller a g)
            p
            month
            (record (lapsed now (caller a g).tenant_id g) { monthly = m }))
  unfolding burst_step lapsed question
  burst_step-Ends now a g p month m hp hb hm = elim (Bool-cases (month_allows month)) [
    | inl f ↦ rw f (
        answered-Ends now a g p month m
          (ask_burst now (question p (allowance g.fingerprints (caller a g).tenant_id p)) g.limiter)
          hp hb hm f refl)
    | inr f ↦ rw f (ends_over_quota p month m hp hb hm f)
  ]

  metered-Ends :
      (now : ℤ) (a : CheckArgs) (g : Gateway B M) (p : Plan) (quota : ℤ)
      (r : Option MonthlyDecision × M)
      → resolve g.policy (caller a g).tenant_id (caller a g).tier a.route ≡ ok p
      → ltb_ℤ (pos 0) (ban_left now (caller a g).tenant_id g.automations).0 ≡ false
      → p.monthly_quota ≡ some quota
      → ask_monthly now (record { key = p.monthly_key; quota = quota; cost = p.cost }) g.monthly ≡ r
      → Ends now a g (
          metered month_of cfg ask_burst ask_monthly now a
            (caller a g)
            p
            r
            (lapsed now (caller a g).tenant_id g))
  unfolding metered
  metered-Ends now a g p quota (none, m) hp hb hq hr = ends_monthly_down p quota m hp hb hq hr
  metered-Ends now a g p quota (some d, m) hp hb hq hr =
      burst_step-Ends now a g p (some d) m hp hb (metered_by quota d m hq hr)

  monthly_step-Ends :
      (now : ℤ) (a : CheckArgs) (g : Gateway B M) (p : Plan) (q : Option ℤ)
      → resolve g.policy (caller a g).tenant_id (caller a g).tier a.route ≡ ok p
      → ltb_ℤ (pos 0) (ban_left now (caller a g).tenant_id g.automations).0 ≡ false
      → p.monthly_quota ≡ q
      → Ends now a g (
          monthly_step month_of cfg ask_burst ask_monthly now a
            (caller a g)
            p
            q
            (lapsed now (caller a g).tenant_id g))
  unfolding monthly_step lapsed
  monthly_step-Ends now a g p none hp hb hq =
      burst_step-Ends now a g p none g.monthly hp hb (unmetered hq)
  monthly_step-Ends now a g p (some quota) hp hb hq =
      metered-Ends now a g p quota
        (ask_monthly now (record { key = p.monthly_key; quota = quota; cost = p.cost }) g.monthly)
        hp hb hq refl

  planned-Ends :
      (now : ℤ) (a : CheckArgs) (g : Gateway B M) (r : Result Plan)
      → resolve g.policy (caller a g).tenant_id (caller a g).tier a.route ≡ r
      → Ends now a g (planned month_of cfg ask_burst ask_monthly now a (caller a g) r g)
  unfolding planned lapsed
  planned-Ends now a g (err e) hp = ends_unresolved e hp
  planned-Ends now a g (ok p) hp =
      elim (Bool-cases (ltb_ℤ (pos 0) (ban_left now (caller a g).tenant_id g.automations).0)) [
        | inl f ↦
            rw f (ends_banned p (ban_left now (caller a g).tenant_id g.automations).0 hp refl f)
        | inr f ↦ rw f (monthly_step-Ends now a g p p.monthly_quota hp f refl)
      ]

  -- Every request, in every state, ends in one of the ways of `Ends`: each names the answers of the
  -- policy, the ban list and the meters that lead to it, in the order in which they are asked, and the
  -- state that the asked parts are left in.
  pub check-Ends :
      (now : ℤ) (a : CheckArgs) (g : Gateway B M)
      → Ends now a g (check month_of cfg ask_burst ask_monthly now a g)
  unfolding check caller
  check-Ends now a g =
      planned-Ends now a g (resolve g.policy (caller a g).tenant_id (caller a g).tier a.route) refl
