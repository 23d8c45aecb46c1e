-- ===== src/Billing/Payments.antt =====
-- billing.go: what a payment does to the requests that follow.
use limit_plane.Prelude.{
  if◌then◌else◌, Bool-cases, Option-cases, String, ◌≡◌, refl, inl, inr, Bool, true, false, ◌||◌,
  Option, none, some, [], ◌∷◌, arith, str_eq, eq_iff,
}
use limit_plane.Prelude.Assoc.{
  Assoc, lookup, lookup-delete, lookup-insert_self, lookup-insert_ne, Unique,
}
use limit_plane.Policy.{identify, resolve, set_tenant, get_tenant, delete_tenant, Tenant, Policy}
use limit_plane.Billing.{
  plans, site_of, set_tier, sweep_keys, remove_by_tenant_id, ignored, completed, promote, demote,
  handle_event, StripeEvent,
}

-- The tenant that a request with this key is, after the key is put on a tier.
identify-set_tier :
    (p : Policy) (api_key tier ip : String)
    → str_eq api_key "" ≡ false
    → identify (set_tier api_key tier "" p).1 api_key ip
      ≡ record { tenant_id = site_of api_key (lookup api_key p.tenants); tier = tier }
unfolding identify set_tier set_tenant get_tenant
identify-set_tier p api_key tier ip h =
    rw
      (
        h,
        lookup-insert_self api_key
            (record { tenant_id = site_of api_key (lookup api_key p.tenants); tier = tier })
            p.tenants,
      )
      refl

-- And a request with another key, or with none, is who it was.
identify-set_tier_other :
    (p : Policy) (api_key tier other ip : String)
    → str_eq api_key other ≡ false
    → identify (set_tier api_key tier "" p).1 other ip ≡ identify p other ip
unfolding identify set_tier set_tenant get_tenant
identify-set_tier_other p api_key tier other ip h =
    rw
      (lookup-insert_ne api_key other
        (record { tenant_id = site_of api_key (lookup api_key p.tenants); tier = tier }) p.tenants
        h)
      refl

resolve-set_tier :
    (p : Policy) (api_key tier tenant_id tier' route : String)
    → resolve (set_tier api_key tier "" p).1 tenant_id tier' route ≡ resolve p tenant_id tier' route
unfolding resolve set_tier set_tenant
resolve-set_tier p api_key tier tenant_id tier' route = refl

-- An event that puts a key on a tier, if it does: the completed payments of plans that are in the
-- catalogue, the cancellations and the failed payments, with a key.
unfoldable pub tier_by : StripeEvent → Option String
tier_by e =
    if str_eq e.api_key ""
    then none
    else if str_eq e.type "checkout.session.completed"
    then elim (lookup e.plan plans) [ none ↦ none | some plan ↦ some plan.tier ]
    else if str_eq e.type "customer.subscription.deleted" || str_eq e.type "invoice.payment_failed"
    then some "free"
    else none

handle_event-none :
    (e : StripeEvent) (p : Policy)
    → tier_by e ≡ none
    → ((handle_event (some e) p).0.handled ≡ false) × ((handle_event (some e) p).1 ≡ p)
unfolding handle_event tier_by promote demote ignored
handle_event-none e p h = elim (Option-cases (lookup e.plan plans)) [
  | inl q ↦ ground (arith, h, q)
  | inr (plan, q) ↦ ground (arith, h, q)
]

handle_event-some :
    (e : StripeEvent) (p : Policy) (tier : String)
    → tier_by e ≡ some tier
    → ((handle_event (some e) p).0.handled ≡ true)
      × ((handle_event (some e) p).1 ≡ (set_tier e.api_key tier "" p).1)
      × (str_eq e.api_key "" ≡ false)
unfolding handle_event tier_by promote demote completed
handle_event-some e p tier h = elim (Option-cases (lookup e.plan plans)) [
  | inl q ↦ ground (arith, h, q)
  | inr (plan, q) ↦ ground (arith, h, q)
]

-- An event that puts a key on a tier is felt by the very next request with that key, which is resolved
-- under that tier for the site that the key was bound to, or for the key where it was bound to none;
-- requests with another key, or with none, are who they were.
pub paid_next_request :
    (p : Policy) (e : StripeEvent) (tier ip route other : String)
    → tier_by e ≡ some tier
    → str_eq e.api_key other ≡ false
    → (resolve
          (handle_event (some e) p).1
          (identify (handle_event (some e) p).1 e.api_key ip).tenant_id
          (identify (handle_event (some e) p).1 e.api_key ip).tier
          route
        ≡ resolve p (site_of e.api_key (lookup e.api_key p.tenants)) tier route)
      × (identify (handle_event (some e) p).1 other ip ≡ identify p other ip)
paid_next_request p e tier ip route other h ne =
    let (_, same, key) = handle_event-some e p tier h in
    let who = identify-set_tier p e.api_key tier ip key in
    let t : Tenant = record {
      tenant_id = site_of e.api_key (lookup e.api_key p.tenants);
      tier = tier;
    } in
    (
      rw (same, who) (resolve-set_tier p e.api_key tier t.tenant_id tier route),
      rw same (identify-set_tier_other p e.api_key tier other ip ne),
    )

-- The keys of a site, as the table has them.
unfoldable pub belongs : String → Option Tenant → Bool
belongs tenant_id none = false
belongs tenant_id (some t) = str_eq t.tenant_id tenant_id

sweep_keys-lookup :
    (tenant_id key : String) (m : Assoc Tenant) (p : Policy)
    → Unique m
    → lookup key (sweep_keys tenant_id m p).1.tenants
      ≡ (if belongs tenant_id (lookup key m) then none else lookup key p.tenants)
unfolding sweep_keys belongs lookup delete_tenant
sweep_keys-lookup tenant_id key [] p u = refl
sweep_keys-lookup tenant_id key ((api_key, t) ∷ m) p u =
    let gone = sweep_keys-lookup tenant_id key m (delete_tenant p api_key) u.1 in
    let others = sweep_keys-lookup tenant_id key m p u.1 in
    let left = lookup-delete api_key key p.tenants in
    elim (Bool-cases (str_eq api_key key)) [
      | inl same ↦
          let once : lookup key m ≡ none = rw ((eq_iff api_key key).0 same) at u.0 in
          ground (arith, same, gone, others, left, once)
      | inr other ↦ ground (arith, other, gone, others, left)
    ]

-- In a table that has each key once: after a site is removed no key of it is left, whichever and however
-- many they are, and every other key is bound as it was.
pub remove_by_tenant_id_lem :
    (tenant_id key : String) (p : Policy)
    → Unique p.tenants
    → lookup key (remove_by_tenant_id tenant_id p).1.tenants
      ≡ (if belongs tenant_id (lookup key p.tenants) then none else lookup key p.tenants)
unfolding remove_by_tenant_id
remove_by_tenant_id_lem tenant_id key p u = sweep_keys-lookup tenant_id key p.tenants p u
