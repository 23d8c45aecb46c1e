-- ===== src/Policy.antt =====
-- internal/policy/policy.go: tiers, routes and tenants, and what they ask of the limiters. The
-- methods' locks make each one step; a tier is a value, so a snapshot is a copy.
pub mod Edits
pub mod Resolution
pub mod Examples
use limit_plane.Prelude.{
  ◌==◌, if◌then◌else◌, div_ℤ, ℤ, pos, length, String, Bool, true, false, not, ◌||◌, Option, none,
  some, [], ◌∷◌, str_append, str_eq,
}
use limit_plane.Prelude.Assoc.{Assoc, lookup, insert, delete, contains}

pub record Tier : Type 0 where
  pub capacity : ℤ
  pub refill_per_second : ℤ
  pub monthly_quota : Option ℤ

pub record Route : Type 0 where
  pub cost_class : String

pub record Tenant : Type 0 where
  pub tenant_id : String
  pub tier : String

pub record Policy : Type 0 where
  pub tiers : Assoc Tier
  pub routes : Assoc Route
  pub tenants : Assoc Tenant

pub data Error : Type 0 where
  no_tiers : Error
  unknown_tier unknown_cost_class : String → Error

pub data Result {ℓ} (A : Type ℓ) : Type ℓ where
  ok : A → Result A
  err : Error → Result A

infixl 5 ◌>>=◌
abbrev pub ◌>>=◌ {ℓ κ} : {X : Type ℓ} {Y : Type κ} → Result X → (X → Result Y) → Result Y
err why >>= next = err why
ok x >>= next = next x

abbrev pub cost_classes : Assoc ℤ
cost_classes =
    ("light", pos 1_000_000) ∷ ("standard", pos 2_000_000) ∷ ("heavy", pos 5_000_000) ∷ []

-- A nil map is the empty map.
or_empty {ℓ} : {V : Type ℓ} → Option (Assoc V) → Assoc V
or_empty none = []
or_empty (some m) = m

unfoldable pub new : Assoc Tier → Option (Assoc Route) → Option (Assoc Tenant) → Result Policy
unfolding or_empty
new [] routes tenants = err no_tiers
new (t ∷ ts) routes tenants =
    ok (record { tiers = t ∷ ts; routes = or_empty routes; tenants = or_empty tenants })

-- The class that a route names; a route that is missing, or names none, is light.
class_of : Option Route → String
class_of none = "light"
class_of (some r) = if str_eq r.cost_class "" then "light" else r.cost_class

unfoldable pub classify_cost : Option Route → Result String
unfolding class_of
classify_cost r =
    if contains (class_of r) cost_classes
    then ok (class_of r)
    else err (unknown_cost_class (class_of r))

anonymous : String → Tenant
anonymous ip = record {
  tenant_id = str_append "anon:" (if str_eq ip "" then "unknown" else ip);
  tier = "free";
}

unfoldable pub identify : Policy → String → String → Tenant
unfolding anonymous
identify p api_key ip =
    if str_eq api_key ""
    then anonymous ip
    else elim (lookup api_key p.tenants) [ some t ↦ t | none ↦ anonymous ip ]

pub record Plan : Type 0 where
  pub key : String
  pub capacity : ℤ
  pub refill_rate_per_ms : ℤ
  pub cost : ℤ
  pub cost_class : String
  pub monthly_quota : Option ℤ
  pub monthly_key : String

-- One jar for each tenant, tier and route; one meter for each tenant and tier.
plan_key : String → String → String → String
plan_key tenant_id tier route =
    str_append tenant_id (str_append ":" (str_append tier (str_append ":" route)))

find_tier : Policy → String → Result Tier
find_tier p tier = elim (lookup tier p.tiers) [ some t ↦ ok t | none ↦ err (unknown_tier tier) ]

-- The exact route, or else the wildcard.
pub find_route : Policy → String → Option Route
find_route p route = elim (lookup route p.routes) [ some r ↦ some r | none ↦ lookup "*" p.routes ]

-- A missing entry of a map of numbers reads as zero.
cost_of : String → ℤ
cost_of class = elim (lookup class cost_classes) [ some c ↦ c | none ↦ pos 0 ]

unfoldable pub make_plan : Tier → String → String → String → String → Plan
unfolding plan_key cost_of
make_plan tc class tenant_id tier route = record {
  key = plan_key tenant_id tier route;
  capacity = tc.capacity;
  refill_rate_per_ms = div_ℤ tc.refill_per_second 1000;
  cost = cost_of class;
  cost_class = class;
  monthly_quota = tc.monthly_quota;
  monthly_key = plan_key tenant_id tier "monthly";
}

unfoldable pub resolve : Policy → String → String → String → Result Plan
unfolding find_tier find_route
resolve p tenant_id tier route = do
  tc ← find_tier p tier
  class ← classify_cost (find_route p route)
  ok (make_plan tc class tenant_id tier route)

unfoldable pub has_tier : Policy → String → Bool
has_tier p name = contains name p.tiers

pub tier_snapshot : Policy → String → Option Tier
tier_snapshot p name = lookup name p.tiers

given : Option ℤ → ℤ → ℤ
given none old = old
given (some v) old = v

given_quota : Option ℤ → Option ℤ → Option ℤ
given_quota none old = old
given_quota (some v) old = some v

patched : Tier → Option ℤ → Option ℤ → Option ℤ → Tier
unfolding given given_quota
patched t capacity refill monthly = record {
  capacity = given capacity t.capacity;
  refill_per_second = given refill t.refill_per_second;
  monthly_quota = given_quota monthly t.monthly_quota;
}

unfoldable pub update_tier : Policy → String → Option ℤ → Option ℤ → Option ℤ → Option Tier × Policy
unfolding patched
update_tier p name capacity refill monthly = elim (lookup name p.tiers) [
  | none ↦ (none, p)
  | some t ↦ (
    some (patched t capacity refill monthly),
    record p { tiers = insert name (patched t capacity refill monthly) p.tiers },
  )
]

unfoldable pub set_tenant : Policy → String → Tenant → Policy
set_tenant p api_key t = record p { tenants = insert api_key t p.tenants }

unfoldable pub get_tenant : Policy → String → Option Tenant
get_tenant p api_key = lookup api_key p.tenants

unfoldable pub delete_tenant : Policy → String → Policy
delete_tenant p api_key = record p { tenants = delete api_key p.tenants }

-- The first key, in the order of the entries, of a tenant with the id. Go's order is not fixed.
pub api_key_for : String → Assoc Tenant → Option String
api_key_for tenant_id [] = none
api_key_for tenant_id ((k, t) ∷ m) =
    let rest = api_key_for tenant_id m in if str_eq t.tenant_id tenant_id then some k else rest

pub put_tier : Policy → String → Tier → Policy
put_tier p name t = record p { tiers = insert name t p.tiers }

-- The last tier stays.
pub remove_tier : Policy → String → Bool × Policy
remove_tier p name =
    if not (contains name p.tiers) || length p.tiers == 1
    then (false, p)
    else (true, record p { tiers = delete name p.tiers })

pub set_routes : Policy → Option (Assoc Route) → Policy
unfolding or_empty
set_routes p routes = record p { routes = or_empty routes }
