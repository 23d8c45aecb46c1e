-- ===== src/Gateway/Check/Promises.antt =====
-- gateway.go: what `Check` promises to the meters, the diary and the site behind it.
use limit_plane.Prelude.{
  Bool-cases, ltb_ℤ, ℤ, pos, String, ◌≡◌, refl, ap, ◌≢◌, ◌↔◌, inl, inr, Bool, true, false, ◌&&◌,
  Option, none, some, arith, str_eq, eq_iff,
}
use limit_plane.Gateway.Check.{
  ban_event, settled_event, report, banned, failed_open, unresolved, settled, check,
}
use limit_plane.Limiter.{Decision, BurstArgs}
use limit_plane.Limiter.MonthlyQuota.{MonthlyDecision, MonthlyArgs}
use limit_plane.Policy.{resolve, Tenant, Plan, ok}
use limit_plane.Audit.{stamped, write, append_event, Event, Log}
use limit_plane.Automations.{Config}
use limit_plane.Gateway.{
  allowance, month_allows, reason_of, ban_left, Fault, CheckArgs, Gateway, Allowance, Outcome,
}
use limit_plane.Gateway.Check.Outcomes.{
  caller, lapsed, question, check-Ends, MonthSays, Ends, ends_unresolved, ends_banned,
  ends_monthly_down, ends_over_quota, ends_burst_down, ends_answered,
}

unequal : (a b : String) → str_eq a b ≡ false → a ≢ b
unequal a b h = ground (arith, eq_iff a b)

reason_of-paid :
    (x : Bool) (month : Option MonthlyDecision)
    → month_allows month ≡ true
    → (reason_of x month ≢ "monthly_quota") × (reason_of x month ≢ "auto_cooldown")
unfolding reason_of
reason_of-paid true month h = (unequal "" "monthly_quota" refl, unequal "" "auto_cooldown" refl)
reason_of-paid false month h =
    rw h (unequal "burst" "monthly_quota" refl, unequal "burst" "auto_cooldown" refl)

reason_of-over :
    (x : Bool) (month : Option MonthlyDecision)
    → month_allows month ≡ false
    → reason_of x month ≢ "auto_cooldown"
unfolding reason_of
reason_of-over true month h = unequal "" "auto_cooldown" refl
reason_of-over false month h = rw h (unequal "monthly_quota" "auto_cooldown" refl)

reason_of-empty :
    (x : Bool) (month : Option MonthlyDecision) → (reason_of x month ≡ "") ↔ (x ≡ true)
unfolding reason_of
reason_of-empty true month = (λ q. refl, λ q. refl)
reason_of-empty false month = elim (Bool-cases (month_allows month)) [
  | inl f ↦ rw f ((λ q. absurd (unequal "burst" "" refl q)), λ q. ground arith)
  | inr f ↦ rw f ((λ q. absurd (unequal "monthly_quota" "" refl q)), λ q. ground arith)
]

none≢some {ℓ} : {A : Type ℓ} (x : A) → none ≢ some x
none≢some x q = ground arith

some≢none {ℓ} : {A : Type ℓ} {x : A} → some x ≢ none
some≢none q = ground arith

false≢true : false ≢ true
false≢true q = ground arith

stamped-keeps :
    (now : ℤ) (e : Event)
    → ((stamped now e).allowed ≡ e.allowed)
      × ((stamped now e).reason ≡ e.reason)
      × ((stamped now e).tenant_id ≡ e.tenant_id)
unfolding stamped
stamped-keeps now e = ground arith

module _ {B M : Type 0} (month_of : ℤ → String) (cfg : Config)
    (ask_burst : ℤ → BurstArgs → B → Option Decision × B)
    (ask_monthly : ℤ → MonthlyArgs → M → Option MonthlyDecision × M) where
  abbrev Untouched : Gateway B M → Outcome B M → Type 0
  Untouched g o =
      (o.verdict.reason ≡ "monthly_quota" → o.after.limiter ≡ g.limiter)
      × (o.verdict.reason ≡ "auto_cooldown"
          → (o.after.limiter ≡ g.limiter)
            × (o.after.monthly ≡ g.monthly)
            × (o.after.fingerprints ≡ g.fingerprints))

  Ends-Untouched :
      (now : ℤ) (a : CheckArgs) (g : Gateway B M) (o : Outcome B M)
      → Ends month_of cfg ask_burst ask_monthly now a g o
      → Untouched g o
  unfolding unresolved banned failed_open settled report lapsed
  Ends-Untouched now a g _ (ends_unresolved e hp) = ((λ q. refl), (λ q. cc))
  Ends-Untouched now a g _ (ends_banned p left hp hb hl) = ((λ q. cc), λ q. (refl, refl, refl))
  Ends-Untouched now a g _ (ends_monthly_down p quota m hp hb hq hm) = (λ q. refl, λ q. cc)
  Ends-Untouched now a g _ (ends_over_quota p month m hp hb hm ha) =
      (λ q. refl, λ q. absurd (reason_of-over (month_allows month && false) month ha q))
  Ends-Untouched now a g _ (ends_burst_down p month m b hp hb hm ha hr) = (λ q. cc, λ q. cc)
  Ends-Untouched now a g _ (ends_answered p month m d b hp hb hm ha hr) = (
    λ q. absurd ((reason_of-paid (month_allows month && d.allowed) month ha).0 q),
    λ q. absurd ((reason_of-paid (month_allows month && d.allowed) month ha).1 q),
  )

  -- A request that the plan's meter refuses leaves the burst limiter's state alone.
  pub month_spares_burst :
      (now : ℤ) (a : CheckArgs) (g : Gateway B M)
      → (check month_of cfg ask_burst ask_monthly now a g).verdict.reason ≡ "monthly_quota"
      → (check month_of cfg ask_burst ask_monthly now a g).after.limiter ≡ g.limiter
  month_spares_burst now a g h =
      (Ends-Untouched now a g (check month_of cfg ask_burst ask_monthly now a g)
          (check-Ends month_of cfg ask_burst ask_monthly now a g)).0
        h

  -- A request that a ban refuses leaves the states of both meters and of the classifier alone.
  pub ban_spares_meters :
      (now : ℤ) (a : CheckArgs) (g : Gateway B M)
      → (check month_of cfg ask_burst ask_monthly now a g).verdict.reason ≡ "auto_cooldown"
      → ((check month_of cfg ask_burst ask_monthly now a g).after.limiter ≡ g.limiter)
        × ((check month_of cfg ask_burst ask_monthly now a g).after.monthly ≡ g.monthly)
        × ((check month_of cfg ask_burst ask_monthly now a g).after.fingerprints ≡ g.fingerprints)
  ban_spares_meters now a g h =
      (Ends-Untouched now a g (check month_of cfg ask_burst ask_monthly now a g)
          (check-Ends month_of cfg ask_burst ask_monthly now a g)).1
        h

  -- The event is in the diary and says what the caller is told.
  abbrev pub Reported : Gateway B M → Outcome B M → Event → Type 0
  Reported g o e =
      (o.event ≡ some e)
      × (o.after.audit ≡ write g.audit e)
      × (e.allowed ≡ o.verdict.allowed)
      × (e.reason ≡ o.verdict.reason)
      × (e.tenant_id ≡ o.verdict.tenant_id)

  abbrev Accounted : Gateway B M → Outcome B M → Type 0
  Accounted g o =
      ((f : Fault)
        → o.verdict.fault ≡ some f
        → (o.verdict.allowed ≡ true)
          × (o.event ≡ none)
          × (o.after.audit ≡ g.audit)
          × (o.after.fingerprints ≡ g.fingerprints))
      × (o.verdict.fault ≡ none → ((e : Event) × Reported g o e))

  settled-Accounted :
      (now : ℤ) (a : CheckArgs) (t : Tenant) (p : Plan) (w : Allowance)
      (month : Option MonthlyDecision) (d : Decision) (g g' : Gateway B M)
      → g'.audit ≡ g.audit
      → Accounted g (settled month_of cfg ask_burst ask_monthly now a t p w month d g')
  unfolding settled report append_event stamped settled_event
  settled-Accounted now a t p w month d g g' h =
      let e = settled_event now a t p w month d in
      (
        (λ f q. absurd (none≢some f q)),
        λ q. (
          stamped now e,
          (
            refl,
            ap (λ (l : Log). write l (stamped now e)) h,
            (stamped-keeps now e).0,
            (stamped-keeps now e).1,
            (stamped-keeps now e).2,
          ),
        ),
      )

  Ends-Accounted :
      (now : ℤ) (a : CheckArgs) (g : Gateway B M) (o : Outcome B M)
      → Ends month_of cfg ask_burst ask_monthly now a g o
      → Accounted g o
  unfolding unresolved banned failed_open lapsed append_event ban_event
  Ends-Accounted now a g _ (ends_unresolved e hp) =
      (λ f q. (refl, refl, refl, refl), λ q. absurd (some≢none q))
  Ends-Accounted now a g _ (ends_banned p left hp hb hl) = (
    (λ f q. absurd (none≢some f q)),
    λ q. (
      stamped now (ban_event now a (caller a g) p),
      (
        refl,
        refl,
        (stamped-keeps now (ban_event now a (caller a g) p)).0,
        (stamped-keeps now (ban_event now a (caller a g) p)).1,
        (stamped-keeps now (ban_event now a (caller a g) p)).2,
      ),
    ),
  )
  Ends-Accounted now a g _ (ends_monthly_down p quota m hp hb hq hm) =
      (λ f q. (refl, refl, refl, refl), λ q. absurd (some≢none q))
  Ends-Accounted now a g _ (ends_over_quota p month m hp hb hm ha) =
      settled-Accounted now a (caller a g) p (allowance g.fingerprints (caller a g).tenant_id p)
        month (record { allowed = false; remaining = pos 0; reset_at = pos 0 }) g
        (record (lapsed now (caller a g).tenant_id g) { monthly = m }) refl
  Ends-Accounted now a g _ (ends_burst_down p month m b hp hb hm ha hr) =
      (λ f q. (refl, refl, refl, refl), λ q. absurd (some≢none q))
  Ends-Accounted now a g _ (ends_answered p month m d b hp hb hm ha hr) =
      settled-Accounted now a (caller a g) p (allowance g.fingerprints (caller a g).tenant_id p)
        month d g (record (lapsed now (caller a g).tenant_id g) { limiter = b; monthly = m }) refl

  -- A call with no fault writes one event, in the diary's next place, with the verdict, the reason and
  -- the client that the caller is told.
  pub decided-Reported :
      (now : ℤ) (a : CheckArgs) (g : Gateway B M)
      → (check month_of cfg ask_burst ask_monthly now a g).verdict.fault ≡ none
      → (e : Event) × Reported g (check month_of cfg ask_burst ask_monthly now a g) e
  decided-Reported now a g h =
      (Ends-Accounted now a g (check month_of cfg ask_burst ask_monthly now a g)
          (check-Ends month_of cfg ask_burst ask_monthly now a g)).1
        h

  -- Everyone that was asked agreed: no ban is left, the plan's meter and the limiter said yes.
  pub data Agreed (now : ℤ) (a : CheckArgs) (g : Gateway B M) : Type 0 where
    agreed :
        (p : Plan) (month : Option MonthlyDecision) (m : M) (d : Decision) (b : B)
        → resolve g.policy (caller a g).tenant_id (caller a g).tier a.route ≡ ok p
        → ltb_ℤ (pos 0) (ban_left now (caller a g).tenant_id g.automations).0 ≡ false
        → MonthSays month_of cfg ask_burst ask_monthly now p g month m
        → month_allows month ≡ true
        → ask_burst now (question p (allowance g.fingerprints (caller a g).tenant_id p)) g.limiter
          ≡ (some d, b)
        → d.allowed ≡ true
        → Agreed now a g

  and_true : (x y : Bool) → x && y ≡ true → y ≡ true
  and_true x y h = ground arith

  Ends-Agreed :
      (now : ℤ) (a : CheckArgs) (g : Gateway B M) (o : Outcome B M)
      → Ends month_of cfg ask_burst ask_monthly now a g o
      → o.verdict.fault ≡ none
      → o.verdict.allowed ≡ true
      → Agreed now a g
  unfolding unresolved banned failed_open settled
  Ends-Agreed now a g _ (ends_unresolved e hp) hf hq = absurd (some≢none hf)
  Ends-Agreed now a g _ (ends_banned p left hp hb hl) hf hq = ground arith
  Ends-Agreed now a g _ (ends_monthly_down p quota m hp hb hq hm) hf h = absurd (some≢none hf)
  Ends-Agreed now a g _ (ends_over_quota p month m hp hb hm ha) hf hq =
      absurd (false≢true (and_true (month_allows month) false hq))
  Ends-Agreed now a g _ (ends_burst_down p month m b hp hb hm ha hr) hf hq = absurd (some≢none hf)
  Ends-Agreed now a g _ (ends_answered p month m d b hp hb hm ha hr) hf hq =
      agreed p month m d b hp hb hm ha hr (and_true (month_allows month) d.allowed hq)

  -- A request passes with no fault only if its plan resolves, its client has no ban left, the monthly
  -- meter of a metered tier admits it, and so does the burst limiter, asked in the client's lane.
  pub allowed-Agreed :
      (now : ℤ) (a : CheckArgs) (g : Gateway B M)
      → (check month_of cfg ask_burst ask_monthly now a g).verdict.fault ≡ none
      → (check month_of cfg ask_burst ask_monthly now a g).verdict.allowed ≡ true
      → Agreed now a g
  allowed-Agreed now a g hf ha =
      Ends-Agreed now a g (check month_of cfg ask_burst ask_monthly now a g)
        (check-Ends month_of cfg ask_burst ask_monthly now a g) hf ha
