-- ===== src/Billing.antt =====
-- internal/billing/billing.go: the price list, the tenants' tiers that payments set, and the webhook. The
-- tenants are those of the policy. The file, the calls of Stripe and the parsing of JSON are not modelled;
-- the HMAC, in hexadecimal digits, is an argument. An amount of units is in millionths, as in the policy.
pub mod Payments
pub mod Examples
use limit_plane.Prelude.{
  if◌then◌else◌, ℤ, pos, ℕ, suc, String, Bool, true, false, not, ◌||◌, Option, none, some, List, [],
  ◌∷◌, ◌++◌, str_append, str_eq,
}
use limit_plane.Prelude.Assoc.{Assoc, lookup, contains}
use limit_plane.Wshub.{Bytes}
use limit_plane.Policy.{set_tenant, get_tenant, delete_tenant, Tenant, Policy}
use limit_plane.Prelude.Strings.{split_at, cut_at, bytes_eq}

pub record PricedPlan : Type 0 where
  pub tier : String
  pub usd_per_month : ℕ
  pub monthly_quota : ℤ
  pub blurb : String

abbrev pub plans : Assoc PricedPlan
plans =
    (
      "free",
      record {
        tier = "free";
        usd_per_month = 0;
        monthly_quota = pos 1_000_000_000;
        blurb = "Try it out";
      },
    )
    ∷ (
      "pro",
      record {
        tier = "pro";
        usd_per_month = 19;
        monthly_quota = pos 50_000_000_000;
        blurb = "For real products";
      },
    )
    ∷ (
      "enterprise",
      record {
        tier = "enterprise";
        usd_per_month = 199;
        monthly_quota = pos 1_000_000_000_000;
        blurb = "For platforms";
      },
    )
    ∷ []

-- The saved tenants over the configured ones.
unfoldable pub load_tenants : Assoc Tenant → Policy → Policy
load_tenants [] p = p
load_tenants ((api_key, t) ∷ m) p = load_tenants m (set_tenant p api_key t)

-- The site that a key is bound to, or the key.
unfoldable pub site_of : String → Option Tenant → String
site_of api_key none = api_key
site_of api_key (some t) = if str_eq t.tenant_id "" then api_key else t.tenant_id

unfoldable pub set_tier : String → String → String → Policy → Tenant × Policy
unfolding site_of
set_tier api_key tier tenant_id p =
    let site = if str_eq tenant_id "" then site_of api_key (get_tenant p api_key) else tenant_id in
    let t : Tenant = record { tenant_id = site; tier = tier } in (t, set_tenant p api_key t)

-- Over a snapshot of the tenants: how many keys go, and what is left.
unfoldable pub sweep_keys : String → Assoc Tenant → Policy → ℕ × Policy
sweep_keys tenant_id [] p = (0, p)
sweep_keys tenant_id ((api_key, t) ∷ m) p =
    let (n, swept) = sweep_keys tenant_id m (delete_tenant p api_key) in
    let others = sweep_keys tenant_id m p in
    if str_eq t.tenant_id tenant_id then (suc n, swept) else others

unfoldable pub remove_by_tenant_id : String → Policy → ℕ × Policy
unfolding sweep_keys
remove_by_tenant_id tenant_id p = sweep_keys tenant_id p.tenants p

pub record EventOutcome : Type 0 where
  pub handled : Bool
  pub action : String
  pub why : String

pub record StripeEvent : Type 0 where
  pub type : String
  pub api_key : String
  pub plan : String

unfoldable pub ignored : String → EventOutcome
ignored why = record { handled = false; action = ""; why = why }

unfoldable pub completed : String → String → String → EventOutcome
completed verb api_key result = record {
  handled = true;
  action = str_append verb (str_append api_key result);
  why = "";
}

-- The tier is the catalogue's, and never the event's word for it.
unfoldable pub promote : StripeEvent → Option PricedPlan → Policy → EventOutcome × Policy
unfolding ignored completed set_tier
promote e none p = (ignored "missing metadata", p)
promote e (some plan) p = if str_eq e.api_key "" then (ignored "missing metadata", p) else (
  completed "upgraded " e.api_key (str_append " -> " e.plan),
  (set_tier e.api_key plan.tier "" p).1,
)

unfoldable pub demote : String → String → StripeEvent → Policy → EventOutcome × Policy
unfolding ignored completed set_tier
demote verb result e p =
    if str_eq e.api_key ""
    then (ignored "missing metadata", p)
    else (completed verb e.api_key result, (set_tier e.api_key "free" "" p).1)

-- `none` is a body that is no event.
unfoldable pub handle_event : Option StripeEvent → Policy → EventOutcome × Policy
unfolding promote demote ignored
handle_event none p = (ignored "malformed event json", p)
handle_event (some e) p =
    if str_eq e.type "checkout.session.completed"
    then promote e (lookup e.plan plans) p
    else if str_eq e.type "customer.subscription.deleted"
    then demote "downgraded " " -> free" e p
    else if str_eq e.type "invoice.payment_failed"
    then demote "suspended " " -> free (payment failed)" e p
    else (ignored (str_append "ignored event type " e.type), p)

pub data Checkout : Type 0 where
  unknown_plan no_price simulated : Checkout
  ask_stripe : String → Checkout

-- What is asked for a customer who wants a plan.
unfoldable pub checkout : String → Assoc String → String → Checkout
checkout secret_key prices plan =
    let price : String = elim (lookup plan prices) [ none ↦ "" | some id ↦ id ] in
    if not (contains plan plans)
    then unknown_plan
    else if str_eq secret_key ""
    then simulated
    else if str_eq price ""
    then no_price
    else ask_stripe price

-- The last time stamp and the last signature of the parts.
unfoldable pub read_part : Option (Bytes × Bytes) → Bytes × Bytes → Bytes × Bytes
unfolding bytes_eq
read_part none read = read
read_part (some part) read =
    if bytes_eq part.0 (b't' ∷ [])
    then (part.1, read.1)
    else if bytes_eq part.0 (b'v' ∷ b'1' ∷ [])
    then (read.0, part.1)
    else read

unfoldable pub read_parts : List Bytes → Bytes × Bytes → Bytes × Bytes
unfolding read_part cut_at
read_parts [] read = read
read_parts (part ∷ parts) read = read_parts parts (read_part (cut_at b'=' part) read)

unfoldable pub verify_signature : (hmac : Bytes → Bytes → Bytes) → Bytes → Bytes → Bytes → Bool
unfolding read_parts split_at bytes_eq
verify_signature hmac secret raw_body header =
    let (ts, v1) = read_parts (split_at b',' header) ([], []) in
    if bytes_eq secret [] || bytes_eq header []
    then false
    else if bytes_eq ts [] || bytes_eq v1 []
    then false
    else bytes_eq (hmac secret (ts ++ b'.' ∷ raw_body)) v1
