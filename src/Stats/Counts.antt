-- ===== src/Stats/Counts.antt =====
-- stats.go: the counters against the events that they have seen.
use limit_plane.Prelude.{
  if◌then◌else◌, Bool-cases, length, ℕ, suc, ◌+◌, String, ◌≡◌, refl, ap, ◌≢◌, inl, inr, Bool, not,
  ◌&&◌, List, [], ◌∷◌, arith, str_eq, eq_iff,
}
use limit_plane.Prelude.Assoc.{lookup, lookup-insert}
use limit_plane.Audit.{Event}
use limit_plane.Stats.{
  or_zero, count_reason, count_total, card_or_new, count_card, on_decision, TenantCard, Stats,
}

unfoldable pub on_all : List Event → Stats → Stats
on_all [] s = s
on_all (e ∷ es) s = on_all es (on_decision e s)

-- How many of the events pass a test.
unfoldable pub count_if : (Event → Bool) → List Event → ℕ
count_if p [] = 0
count_if p (e ∷ es) = let rest = count_if p es in if p e then suc rest else rest

unfoldable pub is_allowed : Event → Bool
is_allowed e = e.allowed

unfoldable pub is_blocked : Event → Bool
is_blocked e = not e.allowed

unfoldable pub blocked_for : String → Event → Bool
blocked_for reason e = not e.allowed && str_eq e.reason reason

unfoldable pub is_of : String → Event → Bool
is_of t e = str_eq e.tenant_id t

unfoldable pub allowed_of : String → Event → Bool
allowed_of t e = str_eq e.tenant_id t && e.allowed

unfoldable pub blocked_of : String → Event → Bool
blocked_of t e = str_eq e.tenant_id t && not e.allowed

-- The count of a reason, and the card of a client, as a reader of the maps finds them.
unfoldable pub reason_count : String → Stats → ℕ
unfolding or_zero
reason_count reason s = or_zero (lookup reason s.totals.by_reason)

unfoldable pub card : String → Stats → TenantCard
card t s = card_or_new (lookup t s.per_tenant) t

-- What the counters say, over what they said before, after some events.
pub record Counted (es : List Event) (t reason : String) (s s' : Stats) : Type 0 where
  pub checks : s'.totals.checks ≡ length es + s.totals.checks
  pub allowed : s'.totals.allowed ≡ count_if is_allowed es + s.totals.allowed
  pub blocked : s'.totals.blocked ≡ count_if is_blocked es + s.totals.blocked
  pub reasons : reason_count reason s' ≡ count_if (blocked_for reason) es + reason_count reason s
  pub card_checks : (card t s').checks ≡ count_if (is_of t) es + (card t s).checks
  pub card_allowed : (card t s').allowed ≡ count_if (allowed_of t) es + (card t s).allowed
  pub card_blocked : (card t s').blocked ≡ count_if (blocked_of t) es + (card t s).blocked

reason-step :
    (e : Event) (reason : String) (s : Stats)
    → reason ≢ ""
    → reason_count reason (on_decision e s)
      ≡ (if blocked_for reason e then suc (reason_count reason s) else reason_count reason s)
unfolding on_decision count_total count_reason reason_count or_zero blocked_for
reason-step e reason s ne = ground (
  arith,
  lookup-insert e.reason reason (or_zero (lookup e.reason s.totals.by_reason) + 1)
      s.totals.by_reason,
  eq_iff e.reason reason,
  eq_iff e.reason "",
)

card-step :
    (e : Event) (t : String) (s : Stats)
    → card t (on_decision e s)
      ≡ (if str_eq e.tenant_id t then count_card e (card t s) else card t s)
unfolding on_decision card card_or_new
card-step e t s =
    let counted = count_card e (card_or_new (lookup e.tenant_id s.per_tenant) e.tenant_id) in
    elim (Bool-cases (str_eq e.tenant_id t)) [
      | inl f ↦
          rw (lookup-insert e.tenant_id t counted s.per_tenant, f)
            (ap (λ (k : String). count_card e (card_or_new (lookup k s.per_tenant) k))
              ((eq_iff e.tenant_id t).0 f))
      | inr f ↦ rw (lookup-insert e.tenant_id t counted s.per_tenant, f) refl
    ]

totals-step :
    (e : Event) (s : Stats)
    → ((on_decision e s).totals.checks ≡ suc s.totals.checks)
      × ((on_decision e s).totals.allowed
          ≡ (if e.allowed then suc s.totals.allowed else s.totals.allowed))
      × ((on_decision e s).totals.blocked
          ≡ (if e.allowed then s.totals.blocked else suc s.totals.blocked))
unfolding on_decision count_total
totals-step e s = ground arith

-- After any events, whatever the counters said before: the checks are up by the number of events, the
-- allowed and the blocked ones by the numbers of those; the count of a reason that is not empty by the
-- blocked events with that reason; and the checks, the allowed and the blocked of the client's card by its
-- own such events.
pub on_all-Counted :
    (es : List Event) (t reason : String) (s : Stats)
    → reason ≢ ""
    → Counted es t reason s (on_all es s)
unfolding on_all count_if is_allowed is_blocked is_of allowed_of blocked_of count_card
on_all-Counted [] t reason s ne = record {
  checks = omega arith;
  allowed = omega arith;
  blocked = omega arith;
  reasons = omega arith;
  card_checks = omega arith;
  card_allowed = omega arith;
  card_blocked = omega arith;
}
on_all-Counted (e ∷ es) t reason s ne =
    let h = on_all-Counted es t reason (on_decision e s) ne in
    let k = totals-step e s in
    record {
      checks = omega (arith, h.checks, k.0);
      allowed = ground (arith, h.allowed, k.1);
      blocked = ground (arith, h.blocked, k.2);
      reasons = ground (arith, h.reasons, reason-step e reason s ne);
      card_checks =
          ground (arith, h.card_checks, ap (λ (c : TenantCard). c.checks) (card-step e t s));
      card_allowed =
          ground (arith, h.card_allowed, ap (λ (c : TenantCard). c.allowed) (card-step e t s));
      card_blocked =
          ground (arith, h.card_blocked, ap (λ (c : TenantCard). c.blocked) (card-step e t s));
    }
