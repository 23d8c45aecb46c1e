-- ===== src/Policy/Examples.antt =====
-- policy.go: edits of a small rulebook, and what it resolves.
use limit_plane.Prelude.{pos, refl, ◌⊎◌, none, [], ◌∷◌, arith}
use limit_plane.Prelude.Assoc.{lookup}
use limit_plane.Policy.{Tier, Policy}
use limit_plane.Policy.Edits.{apply_all, apply_all-HasTiers, HasTiers, puts, removes}
use limit_plane.Policy.Resolution.{NoTier, BadClass, Priced, resolve_cases}

abbrev free : Tier
free = record { capacity = pos 10_000_000; refill_per_second = pos 1_000_000; monthly_quota = none }

abbrev rulebook : Policy
rulebook = record {
  tiers = ("free", free) ∷ [];
  routes = ("/search", record { cost_class = "heavy" }) ∷ [];
  tenants = ("key-1", record { tenant_id = "acme"; tier = "free" }) ∷ [];
}

apply_all-HasTiers_example :
    HasTiers (apply_all rulebook (puts "pro" free ∷ removes "free" ∷ removes "pro" ∷ []))
apply_all-HasTiers_example =
    apply_all-HasTiers rulebook (puts "pro" free ∷ removes "free" ∷ removes "pro" ∷ [])
      (record { some_tier = omega arith; distinct = unfold lookup in (refl, tt) })

resolve_cases_example :
    NoTier rulebook "acme" "free" "/search"
    ⊎ BadClass rulebook "acme" "free" "/search"
    ⊎ Priced rulebook "acme" "free" "/search"
resolve_cases_example = resolve_cases rulebook "acme" "free" "/search"
