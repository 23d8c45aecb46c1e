-- ===== src/Billing/Examples.antt =====
-- billing.go: the theorems at concrete events, and tests.
use limit_plane.Prelude.{if◌then◌else◌, ◌≡◌, refl, true, none, some, [], ◌∷◌}
use limit_plane.Prelude.Assoc.{delete, insert, lookup, Unique}
use limit_plane.Policy.{identify, resolve, set_tenant, get_tenant, delete_tenant, Policy}
use limit_plane.Wshub.{Bytes}
use limit_plane.Billing.{
  site_of, set_tier, sweep_keys, remove_by_tenant_id, promote, demote, handle_event, read_part,
  read_parts, verify_signature, StripeEvent,
}
use limit_plane.Billing.Payments.{tier_by, paid_next_request, belongs, remove_by_tenant_id_lem}
use limit_plane.Prelude.Strings.{join_first, split_at, cut_at, bytes_eq}

abbrev rulebook : Policy
rulebook = record {
  tiers = [];
  routes = [];
  tenants =
      ("k1", record { tenant_id = "shop"; tier = "free" })
      ∷ ("k2", record { tenant_id = "shop"; tier = "free" })
      ∷ ("k3", record { tenant_id = "blog"; tier = "free" })
      ∷ [];
}

abbrev paid : StripeEvent
paid = record { type = "checkout.session.completed"; api_key = "k1"; plan = "pro" }

abbrev cancelled : StripeEvent
cancelled = record { type = "customer.subscription.deleted"; api_key = "k1"; plan = "" }

paid-tier : tier_by paid ≡ some "pro"
unfolding tier_by lookup
paid-tier = refl

paid_next_request_example :
    (resolve
        (handle_event (some paid) rulebook).1
        (identify (handle_event (some paid) rulebook).1 "k1" "10.0.0.1").tenant_id
        (identify (handle_event (some paid) rulebook).1 "k1" "10.0.0.1").tier
        "/search"
      ≡ resolve rulebook (site_of "k1" (lookup "k1" rulebook.tenants)) "pro" "/search")
    × (identify (handle_event (some paid) rulebook).1 "k2" "10.0.0.1"
        ≡ identify rulebook "k2" "10.0.0.1")
paid_next_request_example =
    paid_next_request rulebook paid "pro" "10.0.0.1" "/search" "k2" paid-tier refl

rulebook-Unique : Unique rulebook.tenants
unfolding lookup
rulebook-Unique = (refl, (refl, (refl, tt)))

remove_by_tenant_id_lem_example :
    lookup "k3" (remove_by_tenant_id "shop" rulebook).1.tenants
    ≡ (if belongs "shop" (lookup "k3" rulebook.tenants) then none else lookup "k3" rulebook.tenants)
remove_by_tenant_id_lem_example = remove_by_tenant_id_lem "shop" "k3" rulebook rulebook-Unique

removed : (remove_by_tenant_id "shop" rulebook).0 ≡ 2
unfolding remove_by_tenant_id sweep_keys delete_tenant delete
removed = refl

-- The signed event of a payment, delivered again after the cancellation: the key is on the plan again.
replayed :
    lookup "k1"
      (handle_event
        (some paid)
        (handle_event (some cancelled) (handle_event (some paid) rulebook).1).1).1.tenants
    ≡ some (record { tenant_id = "shop"; tier = "pro" })
unfolding handle_event promote demote set_tier site_of set_tenant get_tenant insert lookup
replayed = refl

abbrev plain_hmac : Bytes → Bytes → Bytes
plain_hmac secret message = message

signed :
    verify_signature plain_hmac
      (1 ∷ [])
      (7 ∷ [])
      (b't' ∷ b'=' ∷ b'9' ∷ b',' ∷ b'v' ∷ b'1' ∷ b'=' ∷ b'9' ∷ b'.' ∷ 7 ∷ [])
    ≡ true
unfolding verify_signature read_parts read_part split_at join_first cut_at bytes_eq
signed = refl
