-- ===== src/Policy/Edits.antt =====
-- policy.go: live edits keep the rulebook usable.
use limit_plane.Prelude.{
  ◌==◌, Bool-cases, Option-cases, ℤ, length, ◌<◌, String, inl, inr, not, ◌||◌, Option, List, [],
  ◌∷◌, arith,
}
use limit_plane.Prelude.Assoc.{
  Assoc, lookup, contains, length-insert-pos, Unique, insert-Unique, delete-Unique, length-delete,
}
use limit_plane.Policy.{
  patched, update_tier, set_tenant, delete_tenant, put_tier, remove_tier, set_routes, Tier, Route,
  Tenant, Policy,
}

-- The calls that change a policy.
pub data Edit : Type 0 where
  updates : String → Option ℤ → Option ℤ → Option ℤ → Edit
  puts : String → Tier → Edit
  removes : String → Edit
  routes_to : Option (Assoc Route) → Edit
  sets : String → Tenant → Edit
  forgets : String → Edit

unfoldable pub apply : Policy → Edit → Policy
apply p (updates name capacity refill monthly) = (update_tier p name capacity refill monthly).1
apply p (puts name t) = put_tier p name t
apply p (removes name) = (remove_tier p name).1
apply p (routes_to routes) = set_routes p routes
apply p (sets api_key t) = set_tenant p api_key t
apply p (forgets api_key) = delete_tenant p api_key

unfoldable pub apply_all : Policy → List Edit → Policy
apply_all p [] = p
apply_all p (e ∷ es) = apply_all (apply p e) es

-- The tiers have distinct names, and there is one.
pub record HasTiers (p : Policy) : Type 0 where
  pub some_tier : 0 < length p.tiers
  pub distinct : Unique p.tiers

update-HasTiers :
    (p : Policy) (name : String) (capacity refill monthly : Option ℤ)
    → HasTiers p
    → HasTiers (update_tier p name capacity refill monthly).1
unfolding update_tier
update-HasTiers p name capacity refill monthly h = elim (Option-cases (lookup name p.tiers)) [
  | inl e ↦ rw (e, update_tier) h
  | inr (t, e) ↦
      rw (e, update_tier)
        (record {
          some_tier = length-insert-pos name (patched t capacity refill monthly) p.tiers;
          distinct = insert-Unique name (patched t capacity refill monthly) p.tiers h.distinct;
        })
]

remove-HasTiers : (p : Policy) (name : String) → HasTiers p → HasTiers (remove_tier p name).1
unfolding remove_tier
remove-HasTiers p name h = elim (Bool-cases (not (contains name p.tiers) || length p.tiers == 1)) [
  | inl e ↦ rw (e, remove_tier) h
  | inr e ↦
      rw (e, remove_tier)
        (record {
          some_tier = ground (arith, length-delete name p.tiers h.distinct, h.some_tier);
          distinct = delete-Unique name p.tiers h.distinct;
        })
]

-- Every sequence of edits of a rulebook with a tier, its tiers' names distinct, leaves one like it.
pub apply_all-HasTiers : (p : Policy) (es : List Edit) → HasTiers p → HasTiers (apply_all p es)
unfolding apply_all apply put_tier set_routes set_tenant delete_tenant
apply_all-HasTiers p [] h = h
apply_all-HasTiers p (updates name capacity refill monthly ∷ es) h =
    apply_all-HasTiers (update_tier p name capacity refill monthly).1 es
      (update-HasTiers p name capacity refill monthly h)
apply_all-HasTiers p (puts name t ∷ es) h = apply_all-HasTiers (put_tier p name t) es (record {
  some_tier = length-insert-pos name t p.tiers;
  distinct = insert-Unique name t p.tiers h.distinct;
})
apply_all-HasTiers p (removes name ∷ es) h =
    apply_all-HasTiers (remove_tier p name).1 es (remove-HasTiers p name h)
apply_all-HasTiers p (routes_to routes ∷ es) h =
    apply_all-HasTiers (set_routes p routes) es
      (record { some_tier = h.some_tier; distinct = h.distinct })
apply_all-HasTiers p (sets api_key t ∷ es) h =
    apply_all-HasTiers (set_tenant p api_key t) es
      (record { some_tier = h.some_tier; distinct = h.distinct })
apply_all-HasTiers p (forgets api_key ∷ es) h =
    apply_all-HasTiers (delete_tenant p api_key) es
      (record { some_tier = h.some_tier; distinct = h.distinct })
