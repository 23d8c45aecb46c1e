-- ===== src/Automations/Alerts.antt =====
-- automations.go: the quota alert fires once a month.
use limit_plane.Prelude.{
  if◌then◌else◌, Bool-cases, ℤ, ℕ, suc, ◌≤◌, String, ◌≡◌, refl, inl, inr, Bool, true, false, ◌&&◌,
  ◌||◌, List, [], ◌∷◌, ◌++◌, arith, str_eq, eq_iff, eq_refl,
}
use limit_plane.Prelude.Assoc.{lookup, insert, lookup-insert}
use limit_plane.Audit.{Event}
use limit_plane.Automations.{
  act, is_fired, claim_once, act_once, once_key, hit_again, rule_quota, rule_nudge, rule_storm,
  on_decision, ActionType, Action, Config, Automations, quota_alert, upgrade_nudge,
}

is_quota : ActionType → Bool
is_quota quota_alert = true
is_quota _ = false

unfoldable pub has_alert : List Action → Bool
unfolding is_quota
has_alert [] = false
has_alert (a ∷ xs) = is_quota a.type || has_alert xs

-- Whether a key has been claimed.
unfoldable pub claimed : String → Automations → Bool
claimed key s = is_fired (lookup key s.fired_once)

abbrev Claims : String → String → ActionType → Automations → List Action × Automations → Type 0
Claims key k type s r =
    (claimed k s ≡ true → claimed k r.1 ≡ true)
    × (has_alert r.0 ≡ true
        → (is_quota type ≡ true) × (claimed key s ≡ false) × (claimed key r.1 ≡ true))

act_once-Claims :
    (now : ℤ) (key k : String) (type : ActionType) (t : String) (s : Automations)
    → Claims key k type s (act_once now key type t s)
unfolding act_once claim_once act claimed is_fired has_alert
act_once-Claims now key k type t s = ground (
  arith,
  lookup-insert key k true s.fired_once,
  lookup-insert key key true s.fired_once,
  eq_refl key,
  eq_iff key k,
)

has_alert-append : (xs ys : List Action) → has_alert (xs ++ ys) ≡ (has_alert xs || has_alert ys)
unfolding has_alert
has_alert-append [] ys = refl
has_alert-append (x ∷ xs) ys = ground (arith, has_alert-append xs ys)

rule_storm-quiet :
    (cfg : Config) (now : ℤ) (e : Event) (s : Automations)
    → (has_alert (rule_storm cfg now e s).0 ≡ false)
      × ((rule_storm cfg now e s).1.fired_once ≡ s.fired_once)
unfolding rule_storm act has_alert
rule_storm-quiet cfg now e s = ground arith

module _ (month_of : ℤ → String) where
  rule_nudge-quiet :
      (now : ℤ) (e : Event) (s : Automations) (k : String)
      → (has_alert (rule_nudge month_of now e s).0 ≡ false)
        × (claimed k s ≡ true → claimed k (rule_nudge month_of now e s).1 ≡ true)
  unfolding rule_nudge claimed has_alert
  rule_nudge-quiet now e s k = ground (
    arith,
    act_once-Claims now (once_key e.tenant_id (month_of e.at) "nudge") k upgrade_nudge e.tenant_id
        (record s {
          cap_hits =
              insert e.tenant_id (hit_again (lookup e.tenant_id s.cap_hits) (month_of e.at))
                s.cap_hits;
        }),
  )

  rule_quota-Claims :
      (now : ℤ) (e : Event) (s : Automations) (k : String)
      → Claims
          (once_key e.tenant_id (month_of e.at) "80pct")
          k
          quota_alert
          s
          (rule_quota month_of now e s)
  unfolding rule_quota has_alert
  rule_quota-Claims now e s k = ground (
    arith,
    act_once-Claims now (once_key e.tenant_id (month_of e.at) "80pct") k quota_alert e.tenant_id s,
  )

  -- The alerts of a tenant for a month, over a sequence of events.
  unfoldable pub count_alerts : Config → String → String → Automations → List (ℤ × Event) → ℕ
  count_alerts cfg t month s [] = 0
  count_alerts cfg t month s ((now, e) ∷ es) =
      let rest = count_alerts cfg t month (on_decision month_of cfg now e s).1 es in
      if str_eq e.tenant_id t
        && str_eq (month_of e.at) month
        && has_alert (on_decision month_of cfg now e s).0
      then suc rest
      else rest

  -- One event: what is claimed stays claimed, and an alert claims its key, which was not claimed.
  on_decision-Claims :
      (cfg : Config) (now : ℤ) (e : Event) (s : Automations) (k : String)
      → Claims
          (once_key e.tenant_id (month_of e.at) "80pct")
          k
          quota_alert
          s
          (on_decision month_of cfg now e s)
  unfolding on_decision claimed has_alert
  on_decision-Claims cfg now e s k =
      let key = once_key e.tenant_id (month_of e.at) "80pct" in
      let (xs, s₁) = rule_quota month_of now e s in
      let (ys, s₂) = rule_nudge month_of now e s₁ in
      let (zs, s₃) = rule_storm cfg now e s₂ in
      let q = rule_quota-Claims now e s k in
      let n = rule_nudge-quiet now e s₁ k in
      let m = rule_nudge-quiet now e s₁ key in
      let z = rule_storm-quiet cfg now e s₂ in
      elim (Bool-cases (str_eq e.reason "auto_cooldown")) [
        | inl f ↦ rw (f, on_decision) (λ h. h, λ h. cc)
        | inr f ↦
            rw (f, on_decision)
              (
                λ h. rw z.1 (n.1 (q.0 h)),
                λ h. (
                  refl,
                  (q.1 (alerted xs ys zs n.0 z.0 h)).1,
                  rw z.1 (m.1 (q.1 (alerted xs ys zs n.0 z.0 h)).2),
                ),
              )
      ]
    where
      alerted :
          (xs ys zs : List Action)
          → has_alert ys ≡ false
          → has_alert zs ≡ false
          → has_alert (xs ++ ys ++ zs) ≡ true
          → has_alert xs ≡ true
      alerted xs ys zs p q h =
          ground (arith, p, q, h, has_alert-append (xs ++ ys) zs, has_alert-append xs ys)

  count_alerts-claimed :
      (cfg : Config) (t month : String) (s : Automations) (es : List (ℤ × Event))
      → count_alerts cfg t month s es ≤ (if claimed (once_key t month "80pct") s then 0 else 1)
  unfolding count_alerts
  count_alerts-claimed cfg t month s [] = ground arith
  count_alerts-claimed cfg t month s ((now, e) ∷ es) = ground (
    arith,
    eq_iff e.tenant_id t,
    eq_iff (month_of e.at) month,
    on_decision-Claims cfg now e s (once_key t month "80pct"),
    count_alerts-claimed cfg t month (on_decision month_of cfg now e s).1 es,
  )

  -- However many events of a tenant in a month are near its cap, they raise one quota alert at most.
  pub count_alerts-le-one :
      (cfg : Config) (t month : String) (s : Automations) (es : List (ℤ × Event))
      → count_alerts cfg t month s es ≤ 1
  count_alerts-le-one cfg t month s es = ground (arith, count_alerts-claimed cfg t month s es)
