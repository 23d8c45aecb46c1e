-- ===== src/Policy/Resolution.antt =====
-- policy.go: what a resolved plan says, and which edits it feels.
use text.Mathlib.TextLemmas.{append_cancel_left, append_cancel_right}
use limit_plane.Prelude.{
  Bool-cases, Option-cases, div_ℤ, ℤ, pos, String, ◌≡◌, refl, sym, ◌≢◌, ◌⊎◌, inl, inr, true, false,
  none, some, arith, str_append, str_eq, eq_iff,
}
use limit_plane.Prelude.Assoc.{lookup, contains}
use limit_plane.Policy.{
  ok, err, cost_classes, class_of, classify_cost, anonymous, identify, plan_key, find_tier,
  find_route, cost_of, make_plan, resolve, Tier, Route, Policy, Plan, unknown_tier,
  unknown_cost_class,
}

-- The entry of a route: its own, or else the wildcard's.
pub data RouteFor (p : Policy) (route : String) (r : Route) : Type 0 where
  exact : lookup route p.routes ≡ some r → RouteFor p route r
  wildcard : lookup route p.routes ≡ none → lookup "*" p.routes ≡ some r → RouteFor p route r

-- The class of a route: the one that its entry names, or light.
pub data ClassFor (p : Policy) (route c : String) : Type 0 where
  class_named : (r : Route) → RouteFor p route r → r.cost_class ≡ c → c ≢ "" → ClassFor p route c
  class_left_out :
      (r : Route) → RouteFor p route r → r.cost_class ≡ "" → c ≡ "light" → ClassFor p route c
  no_entry :
      lookup route p.routes ≡ none → lookup "*" p.routes ≡ none → c ≡ "light" → ClassFor p route c

-- The price list, in millionths of a token, and the classes that are not on it.
abbrev pub Price : String → ℤ → Type 0
Price c n =
    ((c ≡ "light") × (n ≡ pos 1_000_000))
    ⊎ ((c ≡ "standard") × (n ≡ pos 2_000_000))
    ⊎ ((c ≡ "heavy") × (n ≡ pos 5_000_000))

abbrev pub Unpriced : String → Type 0
Unpriced c = (c ≢ "light") × (c ≢ "standard") × (c ≢ "heavy")

-- The plan of a tier for a tenant on a route, at a class and its price.
abbrev pub plan_of : Tier → String → String → String → String → ℤ → Plan
plan_of t tenant_id tier route c n = record {
  key = str_append tenant_id (str_append ":" (str_append tier (str_append ":" route)));
  capacity = t.capacity;
  refill_rate_per_ms = div_ℤ t.refill_per_second 1000;
  cost = n;
  cost_class = c;
  monthly_quota = t.monthly_quota;
  monthly_key = str_append tenant_id (str_append ":" (str_append tier (str_append ":" "monthly")));
}

unequal : (a b : String) → str_eq a b ≡ false → a ≢ b
unequal a b h = ground (arith, eq_iff a b)

find_route-RouteFor :
    (p : Policy) (route : String)
    → ((lookup route p.routes ≡ none) × (lookup "*" p.routes ≡ none) × (find_route p route ≡ none))
      ⊎ ((r : Route) × RouteFor p route r × (find_route p route ≡ some r))
unfolding find_route
find_route-RouteFor p route = elim (Option-cases (lookup route p.routes)) [
  | inl e ↦ elim (Option-cases (lookup "*" p.routes)) [
    | inl f ↦ inl (e, f, rw (e, find_route) f)
    | inr (r, f) ↦ inr (r, wildcard e f, rw (e, find_route) f)
  ]
  | inr (r, e) ↦ inr (r, exact e, rw (e, find_route) refl)
]

class_of-ClassFor : (p : Policy) (route : String) → ClassFor p route (class_of (find_route p route))
unfolding class_of
class_of-ClassFor p route = elim (find_route-RouteFor p route) [
  | inl (e, f, g) ↦ rw g (no_entry e f refl)
  | inr (r, e, g) ↦ elim (Bool-cases (str_eq r.cost_class "")) [
    | inl h ↦ rw g (rw h (class_left_out r e ((eq_iff r.cost_class "").0 h) refl))
    | inr h ↦ rw g (rw h (class_named r e refl (unequal r.cost_class "" h)))
  ]
]

priced :
    (c listed : String) (n : ℤ)
    → lookup listed cost_classes ≡ some n
    → Price listed n
    → str_eq listed c ≡ true
    → ((contains c cost_classes ≡ true) × Price c (cost_of c))
      ⊎ ((contains c cost_classes ≡ false) × Unpriced c)
unfolding contains cost_of
priced c listed n e p h =
    let same = (eq_iff listed c).0 h in
    let found : lookup c cost_classes ≡ some n = rw same at e in
    inl (rw (found, contains) refl, rw (found, cost_of) (rw same at p))

unlisted :
    (c : String)
    → str_eq "light" c ≡ false
    → str_eq "standard" c ≡ false
    → str_eq "heavy" c ≡ false
    → contains c cost_classes ≡ false
unfolding contains lookup
unlisted c e f g = ground (arith, e, f, g)

-- A class is on the table at its price, or not on it.
priced_cases :
    (c : String)
    → ((contains c cost_classes ≡ true) × Price c (cost_of c))
      ⊎ ((contains c cost_classes ≡ false) × Unpriced c)
unfolding lookup
priced_cases c = elim (Bool-cases (str_eq "light" c)) [
  | inl e ↦ priced c "light" (pos 1_000_000) refl (inl (refl, refl)) e
  | inr e ↦ elim (Bool-cases (str_eq "standard" c)) [
    | inl f ↦ priced c "standard" (pos 2_000_000) refl (inr (inl (refl, refl))) f
    | inr f ↦ elim (Bool-cases (str_eq "heavy" c)) [
      | inl g ↦ priced c "heavy" (pos 5_000_000) refl (inr (inr (refl, refl))) g
      | inr g ↦ inr (
        unlisted c e f g,
        (
          λ q. unequal "light" c e (sym q),
          λ q. unequal "standard" c f (sym q),
          λ q. unequal "heavy" c g (sym q),
        ),
      )
    ]
  ]
]

abbrev pub NoTier : Policy → String → String → String → Type 0
NoTier p tenant_id tier route =
    (lookup tier p.tiers ≡ none) × (resolve p tenant_id tier route ≡ err (unknown_tier tier))

abbrev pub BadClass : Policy → String → String → String → Type 0
BadClass p tenant_id tier route =
    (t : Tier) × (c : String) × (lookup tier p.tiers ≡ some t)
    × ClassFor p route c
    × Unpriced c
    × (resolve p tenant_id tier route ≡ err (unknown_cost_class c))

abbrev pub Priced : Policy → String → String → String → Type 0
Priced p tenant_id tier route =
    (t : Tier) × (c : String) × (n : ℤ) × (lookup tier p.tiers ≡ some t)
    × ClassFor p route c
    × Price c n
    × (resolve p tenant_id tier route ≡ ok (plan_of t tenant_id tier route c n))

with_tier_cases :
    (p : Policy) (tenant_id tier route : String) (t : Tier)
    → lookup tier p.tiers ≡ some t
    → BadClass p tenant_id tier route ⊎ Priced p tenant_id tier route
unfolding resolve find_tier classify_cost make_plan plan_key
with_tier_cases p tenant_id tier route t e =
    let c = class_of (find_route p route) in
    elim (priced_cases c) [
      | inl (f, price) ↦ inr (
        t,
        c,
        cost_of c,
        e,
        class_of-ClassFor p route,
        price,
        rw (e, resolve, find_tier) (rw f refl),
      )
      | inr (f, off) ↦
          inl (t, c, e, class_of-ClassFor p route, off, rw (e, resolve, find_tier) (rw f refl))
    ]

-- A request resolves in one of three ways. With no such tier, the answer is an error that names it. With a
-- route whose class, the one that its entry or the wildcard's names, is not on the price list, it is an
-- error that names the class. Else it is the plan with the tier's capacity, refill and quota, at the price
-- of the class; a route with no entry, or with no class in it, is light.
pub resolve_cases :
    (p : Policy) (tenant_id tier route : String)
    → NoTier p tenant_id tier route
      ⊎ BadClass p tenant_id tier route
      ⊎ Priced p tenant_id tier route
unfolding resolve find_tier
resolve_cases p tenant_id tier route = elim (Option-cases (lookup tier p.tiers)) [
  | inl e ↦ inl (e, rw (e, resolve, find_tier) refl)
  | inr (t, e) ↦ inr (with_tier_cases p tenant_id tier route t e)
]

-- The caller presents no key, or one that is not registered.
abbrev pub Stranger : Policy → String → Type 0
Stranger p api_key = (str_eq api_key "" ≡ true) ⊎ (lookup api_key p.tenants ≡ none)

identify-Stranger :
    (p : Policy) (api_key ip : String)
    → str_eq ip "" ≡ false
    → Stranger p api_key
    → identify p api_key ip ≡ record { tenant_id = str_append "anon:" ip; tier = "free" }
unfolding identify anonymous
identify-Stranger p api_key ip h (inl e) = rw (e, h) refl
identify-Stranger p api_key ip h (inr e) = ground (arith, e, h)

-- Two callers that present no registered key, at two addresses that are not empty, get two jars on
-- every route where their requests resolve.
strangers_apart :
    (p : Policy) (k₁ k₂ ip₁ ip₂ route : String) (t₁ t₂ : Tier) (c₁ c₂ : String)
    → Stranger p k₁
    → Stranger p k₂
    → str_eq ip₁ "" ≡ false
    → str_eq ip₂ "" ≡ false
    → ip₁ ≢ ip₂
    → (make_plan t₁ c₁ (identify p k₁ ip₁).tenant_id (identify p k₁ ip₁).tier route).key
      ≢ (make_plan t₂ c₂ (identify p k₂ ip₂).tenant_id (identify p k₂ ip₂).tier route).key
unfolding make_plan plan_key
strangers_apart p k₁ k₂ ip₁ ip₂ route t₁ t₂ c₁ c₂ s₁ s₂ h₁ h₂ ne e = ne (
    append_cancel_left "anon:" ip₁ ip₂ (
      append_cancel_right (str_append "anon:" ip₁) (str_append "anon:" ip₂)
        (str_append ":" (str_append "free" (str_append ":" route)))
        (rw (identify-Stranger p k₁ ip₁ h₁ s₁, identify-Stranger p k₂ ip₂ h₂ s₂) at e)))
