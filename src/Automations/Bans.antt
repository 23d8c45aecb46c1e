-- ===== src/Automations/Bans.antt =====
-- automations.go: the storm rule and its cooldown.
use mathlib.Core.Path.{ap₂}
use limit_plane.Prelude.{
  if◌then◌else◌, Bool-cases, ◌+ℤ◌, ◌-ℤ◌, leb_ℤ, max_ℤ, eq_of_parts, leb_ℤ→≤ℤ, leb_ℤ-false,
  bound_laws, ℤ, pos, length, String, ◌≡◌, refl, ◌∙◌, ◌⊎◌, inl, inr, Bool, true, false, not, ◌&&◌,
  Option, none, some, List, arith, str_eq, eq_iff, eq_refl,
}
use limit_plane.Prelude.Assoc.{Assoc, lookup, insert, lookup-insert, lookup-delete}
use limit_plane.Audit.{Event}
use limit_plane.Automations.{
  act, left_of, ban_remaining_ms, claim_once, act_once, once_key, hit_again, stamps, storm_of,
  is_live, rule_quota, rule_nudge, rule_storm, on_decision, ban, ActionType, Config, Automations,
  quota_alert, upgrade_nudge,
}

act_once-keeps :
    (now : ℤ) (key : String) (type : ActionType) (t : String) (s : Automations)
    → ((act_once now key type t s).1.bans ≡ s.bans)
      × ((act_once now key type t s).1.storm_log ≡ s.storm_log)
unfolding act_once claim_once act
act_once-keeps now key type t s = ground arith

rule_quota-keeps :
    (month_of : ℤ → String) (now : ℤ) (e : Event) (s : Automations)
    → ((rule_quota month_of now e s).1.bans ≡ s.bans)
      × ((rule_quota month_of now e s).1.storm_log ≡ s.storm_log)
unfolding rule_quota
rule_quota-keeps month_of now e s = ground (
  arith,
  act_once-keeps now (once_key e.tenant_id (month_of e.at) "80pct") quota_alert e.tenant_id s,
)

rule_nudge-keeps :
    (month_of : ℤ → String) (now : ℤ) (e : Event) (s : Automations)
    → ((rule_nudge month_of now e s).1.bans ≡ s.bans)
      × ((rule_nudge month_of now e s).1.storm_log ≡ s.storm_log)
unfolding rule_nudge
rule_nudge-keeps month_of now e s = ground (
  arith,
  act_once-keeps now (once_key e.tenant_id (month_of e.at) "nudge") upgrade_nudge e.tenant_id
      (record s {
        cap_hits =
            insert e.tenant_id (hit_again (lookup e.tenant_id s.cap_hits) (month_of e.at))
              s.cap_hits;
      }),
)

-- The blocks of the client that count at this event, after those that are on record.
unfoldable pub evidence : Config → Event → Option (List ℤ) → List ℤ
evidence cfg e log = storm_of e.at cfg.storm_window_ms (stamps log)

-- The event is one block too many, and no ban is live.
unfoldable pub trips : Config → ℤ → Event → Option (List ℤ) → Option ℤ → Bool
trips cfg now e log ban =
    leb_ℤ cfg.storm_threshold (pos (length (evidence cfg e log))) && not (is_live ban now)

abbrev banned_after : Config → ℤ → Event → String → Assoc (List ℤ) → Assoc ℤ → Option ℤ
banned_after cfg now e k logs bans =
    if str_eq e.tenant_id k && trips cfg now e (lookup e.tenant_id logs) (lookup e.tenant_id bans)
    then some (now +ℤ cfg.cooldown_ms)
    else lookup k bans

abbrev logged_after : Config → ℤ → Event → String → Assoc (List ℤ) → Assoc ℤ → Option (List ℤ)
logged_after cfg now e k logs bans =
    if str_eq e.tenant_id k
    then (if trips cfg now e (lookup e.tenant_id logs) (lookup e.tenant_id bans)
        then none
        else some (evidence cfg e (lookup e.tenant_id logs)))
    else lookup k logs

rule_storm-bans :
    (cfg : Config) (now : ℤ) (e : Event) (s : Automations) (k : String)
    → e.allowed ≡ false
    → e.reason ≡ "burst"
    → (lookup k (rule_storm cfg now e s).1.bans ≡ banned_after cfg now e k s.storm_log s.bans)
      × (lookup k (rule_storm cfg now e s).1.storm_log
          ≡ logged_after cfg now e k s.storm_log s.bans)
unfolding rule_storm trips evidence act
rule_storm-bans cfg now e s k ha hr = ground (
  arith,
  eq_iff e.reason "burst",
  eq_iff e.tenant_id k,
  lookup-insert e.tenant_id k (now +ℤ cfg.cooldown_ms) s.bans,
  lookup-insert e.tenant_id k (evidence cfg e (lookup e.tenant_id s.storm_log)) s.storm_log,
  lookup-delete e.tenant_id k s.storm_log,
)

module _ (month_of : ℤ → String) where
  on_decision-bans :
      (cfg : Config) (now : ℤ) (e : Event) (s : Automations) (k : String)
      → e.allowed ≡ false
      → e.reason ≡ "burst"
      → (lookup k (on_decision month_of cfg now e s).1.bans
          ≡ banned_after cfg now e k s.storm_log s.bans)
        × (lookup k (on_decision month_of cfg now e s).1.storm_log
            ≡ logged_after cfg now e k s.storm_log s.bans)
  unfolding on_decision
  on_decision-bans cfg now e s k ha hr =
      let s₁ = (rule_quota month_of now e s).1 in
      let s₂ = (rule_nudge month_of now e s₁).1 in
      let q = rule_quota-keeps month_of now e s in
      let n = rule_nudge-keeps month_of now e s₁ in
      let r = rule_storm-bans cfg now e s₂ k ha hr in
      let b : s₂.bans ≡ s.bans = n.0 ∙ q.0 in
      let l : s₂.storm_log ≡ s.storm_log = n.1 ∙ q.1 in
      let f : str_eq e.reason "auto_cooldown" ≡ false = rw hr refl in
      rw (f, on_decision)
        (r.0 ∙ ap₂ (banned_after cfg now e k) l b, r.1 ∙ ap₂ (logged_after cfg now e k) l b)

  -- What is left of a ban by `later`.
  abbrev left_at : ℤ → ℤ → ℤ
  left_at until later = max_ℤ (until -ℤ later) (pos 0)

  ban_remaining_lem :
      (until later : ℤ) (t : String) (s : Automations)
      → lookup t s.bans ≡ some until
      → (ban_remaining_ms later t s).0 ≡ left_at until later
  unfolding ban_remaining_ms left_of
  ban_remaining_lem until later t s e = elim (Bool-cases (leb_ℤ (until -ℤ later) (pos 0))) [
    | inl f ↦
        rw (e, ban_remaining_ms, left_of)
          (rw f (
            eq_of_parts (pos 0) (left_at until later)
              (omega (bound_laws, leb_ℤ→≤ℤ (until -ℤ later) (pos 0) f))))
    | inr f ↦
        rw (e, ban_remaining_ms, left_of)
          (rw f (
            eq_of_parts (until -ℤ later) (left_at until later)
              (omega (bound_laws, leb_ℤ-false (until -ℤ later) (pos 0) f))))
  ]

  -- A burst block that is one too many for a client with no live ban (a lapsed one does not count)
  -- bans the client for the cooldown from now: at any time the ban asked for is what is left of the
  -- cooldown, and nothing after it. The evidence is dropped, and other clients' bans stay.
  pub on_decision-cooldown :
      (cfg : Config) (now later : ℤ) (e : Event) (s : Automations) (k : String)
      → e.allowed ≡ false
      → e.reason ≡ "burst"
      → trips cfg now e (lookup e.tenant_id s.storm_log) (lookup e.tenant_id s.bans) ≡ true
      → ((ban_remaining_ms later e.tenant_id (on_decision month_of cfg now e s).1).0
          ≡ max_ℤ (now +ℤ cfg.cooldown_ms -ℤ later) (pos 0))
        × (lookup e.tenant_id (on_decision month_of cfg now e s).1.storm_log ≡ none)
        × ((e.tenant_id ≡ k)
            ⊎ (lookup k (on_decision month_of cfg now e s).1.bans ≡ lookup k s.bans))
  on_decision-cooldown cfg now later e s k ha hr h =
      let own = on_decision-bans cfg now e s e.tenant_id ha hr in
      (
        ban_remaining_lem (now +ℤ cfg.cooldown_ms) later e.tenant_id
            (on_decision month_of cfg now e s).1 (own.0 ∙ rw (eq_refl e.tenant_id, h) refl),
        own.1 ∙ rw (eq_refl e.tenant_id, h) refl,
        elim (Bool-cases (str_eq e.tenant_id k)) [
          | inl f ↦ inl (ground (arith, eq_iff e.tenant_id k))
          | inr f ↦ inr ((on_decision-bans cfg now e s k ha hr).0 ∙ rw f refl)
        ],
      )
