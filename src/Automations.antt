-- ===== src/Automations.antt =====
-- internal/automations/automations.go: the autopilot. The clock's time is an argument of each call,
-- `monthOf` (the calendar) the parameter `month_of`. The messages, their explanations and the
-- webhook are not modelled: an action is what happened, to whom and for how long. What a call
-- reports through OnAction is the list that it returns beside the state.
pub mod Bans
pub mod Alerts
pub mod Review
pub mod Guardrails
pub mod Examples
use mathlib.Core.List.{reverse}
use limit_plane.Prelude.{
  ltb, ◌==◌, if◌then◌else◌, pos_part, ◌+ℤ◌, ◌-ℤ◌, ◌*ℤ◌, ltb_ℤ, leb_ℤ, eqb_ℤ, ℤ, pos, length, take,
  drop, keep_if, ℕ, ◌+◌, ◌-◌, String, Bool, true, false, not, ◌&&◌, ◌||◌, Option, none, some, List,
  [], ◌∷◌, ◌++◌, str_append, str_eq,
}
use limit_plane.Prelude.Assoc.{Assoc, lookup, insert, delete}
use limit_plane.Audit.{Event}

pub data ActionType : Type 0 where
  quota_alert upgrade_nudge auto_cooldown manual_ban manual_unban ai_ban : ActionType

pub record Action : Type 0 where
  pub at : ℤ
  pub type : ActionType
  pub tenant_id : String
  pub cooldown_ms : ℤ

pub record Config : Type 0 where
  pub storm_threshold : ℤ
  pub storm_window_ms : ℤ
  pub cooldown_ms : ℤ

pub record Hits : Type 0 where
  pub month : String
  pub count : ℕ

pub record Automations : Type 0 where
  pub actions : List Action
  pub fired_once : Assoc Bool
  pub cap_hits : Assoc Hits
  pub storm_log : Assoc (List ℤ)
  pub bans : Assoc ℤ

or_default : ℤ → ℤ → ℤ
or_default v d = if eqb_ℤ v (pos 0) then d else v

-- The defaults of `New`.
unfoldable pub configured : Config → Config
unfolding or_default
configured c = record {
  storm_threshold = or_default c.storm_threshold (pos 10);
  storm_window_ms = or_default c.storm_window_ms (pos 60_000);
  cooldown_ms = or_default c.cooldown_ms (pos 300_000);
}

unfoldable pub fresh : Automations
fresh = record { actions = []; fired_once = []; cap_hits = []; storm_log = []; bans = [] }

-- At most 500 actions are kept.
kept : List Action → List Action
kept xs = if ltb 500 (length xs) then take 500 (drop 1 xs) else xs

unfoldable pub act : ℤ → ActionType → String → ℤ → Automations → List Action × Automations
unfolding kept
act now type tenant_id cooldown_ms s =
    let a : Action = record {
      at = now;
      type = type;
      tenant_id = tenant_id;
      cooldown_ms = cooldown_ms;
    } in
    (a ∷ [], record s { actions = kept (s.actions ++ a ∷ []) })

-- What is left of a ban, and the bans with a lapsed one removed.
left_of : Option ℤ → ℤ → String → Assoc ℤ → ℤ × Assoc ℤ
left_of none now tenant_id bans = (pos 0, bans)
left_of (some until) now tenant_id bans =
    if leb_ℤ (until -ℤ now) (pos 0) then (pos 0, delete tenant_id bans) else (until -ℤ now, bans)

unfoldable pub ban_remaining_ms : ℤ → String → Automations → ℤ × Automations
unfolding left_of
ban_remaining_ms now tenant_id s =
    let (left, bans) = left_of (lookup tenant_id s.bans) now tenant_id s.bans in
    (left, record s { bans = bans })

pub is_fired : Option Bool → Bool
is_fired none = false
is_fired (some b) = b

-- True the first time for a key, and never again.
unfoldable pub claim_once : String → Automations → Bool × Automations
unfolding is_fired
claim_once key s =
    if is_fired (lookup key s.fired_once)
    then (false, s)
    else (true, record s { fired_once = insert key true s.fired_once })

-- A claim, and the action if it is granted.
act_once : ℤ → String → ActionType → String → Automations → List Action × Automations
act_once now key type tenant_id s =
    let (claimed, s') = claim_once key s in
    if claimed then act now type tenant_id (pos 0) s' else ([], s')

once_key : String → String → String → String
once_key tenant_id month rule =
    str_append tenant_id (str_append ":" (str_append month (str_append ":" rule)))

-- 80% of a quota that is positive.
near_cap : Option ℤ → Option ℤ → Bool
near_cap none remaining = false
near_cap (some used) none = false
near_cap (some used) (some remaining) =
    let quota = used +ℤ remaining in ltb_ℤ (pos 0) quota && leb_ℤ (quota *ℤ pos 8) (used *ℤ pos 10)

hit_again : Option Hits → String → Hits
hit_again none month = record { month = month; count = 1 }
hit_again (some h) month =
    if str_eq h.month month
    then record h { count = h.count + 1 }
    else record { month = month; count = 1 }

unfoldable pub stamps : Option (List ℤ) → List ℤ
stamps none = []
stamps (some ts) = ts

-- The blocks of a client in the window, the latest one last.
unfoldable pub storm_of : ℤ → ℤ → List ℤ → List ℤ
storm_of at window ts = keep_if (λ t. ltb_ℤ (at -ℤ t) window) ts ++ at ∷ []

unfoldable pub is_live : Option ℤ → ℤ → Bool
is_live none now = false
is_live (some until) now = ltb_ℤ now until

module _ (month_of : ℤ → String) where
  -- Rule 1, the quota alert.
  rule_quota : ℤ → Event → Automations → List Action × Automations
  unfolding near_cap once_key act_once
  rule_quota now e s =
      if near_cap e.monthly_used e.monthly_remaining
      then act_once now (once_key e.tenant_id (month_of e.at) "80pct") quota_alert e.tenant_id s
      else ([], s)

  -- Rule 2, the upgrade nudge.
  rule_nudge : ℤ → Event → Automations → List Action × Automations
  unfolding hit_again once_key act_once
  rule_nudge now e s =
      if not e.allowed && str_eq e.reason "monthly_quota"
      then (let month = month_of e.at in
          let h = hit_again (lookup e.tenant_id s.cap_hits) month in
          let s' : Automations = record s { cap_hits = insert e.tenant_id h s.cap_hits } in
          if h.count == 3
          then act_once now (once_key e.tenant_id month "nudge") upgrade_nudge e.tenant_id s'
          else ([], s'))
      else ([], s)

-- Rule 3, the storm cooldown.
rule_storm : Config → ℤ → Event → Automations → List Action × Automations
unfolding stamps storm_of is_live
rule_storm cfg now e s =
    if not e.allowed && str_eq e.reason "burst"
    then (let ts = storm_of e.at cfg.storm_window_ms (stamps (lookup e.tenant_id s.storm_log)) in
        if leb_ℤ cfg.storm_threshold (pos (length ts))
          && not (is_live (lookup e.tenant_id s.bans) now)
        then act now auto_cooldown e.tenant_id cfg.cooldown_ms (record s {
          storm_log = delete e.tenant_id s.storm_log;
          bans = insert e.tenant_id (now +ℤ cfg.cooldown_ms) s.bans;
        })
        else ([], record s { storm_log = insert e.tenant_id ts s.storm_log }))
    else ([], s)

module _ (month_of : ℤ → String) where
  pub on_decision : Config → ℤ → Event → Automations → List Action × Automations
  unfolding rule_quota rule_nudge rule_storm
  on_decision cfg now e s =
      if str_eq e.reason "auto_cooldown"
      then ([], s)
      else (let (xs, s₁) = rule_quota month_of now e s in
          let (ys, s₂) = rule_nudge month_of now e s₁ in
          let (zs, s₃) = rule_storm cfg now e s₂ in (xs ++ ys ++ zs, s₃))

unfoldable pub ban : Config → ℤ → String → ℤ → Automations → List Action × Automations
ban cfg now tenant_id ms s =
    let ms' = if leb_ℤ ms (pos 0) then cfg.cooldown_ms else ms in
    act now manual_ban tenant_id ms' (record s { bans = insert tenant_id (now +ℤ ms') s.bans })

unfoldable pub unban : ℤ → String → Automations → List Action × Automations
unban now tenant_id s =
    act now manual_unban tenant_id (pos 0) (record s { bans = delete tenant_id s.bans })

-- The latest `n` actions, newest first.
pub recent_actions : ℤ → Automations → List Action
recent_actions n s =
    let total = length s.actions in
    let pages : ℕ = if leb_ℤ n (pos 0) || ltb total (pos_part n) then total else pos_part n in
    reverse (drop (total - pages) s.actions)
