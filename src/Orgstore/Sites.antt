-- ===== src/Orgstore/Sites.antt =====
-- orgstore.go: which sites a user may see.
use limit_plane.Prelude.{
  Bool-cases, String, ◌≡◌, refl, ◌↔◌, inl, inr, true, ◌&&◌, ◌||◌, none, some, List, [], ◌∷◌, ◌++◌,
  arith, str_eq, eq_iff, eq_refl,
}
use limit_plane.Prelude.Assoc.{Assoc, lookup, contains, Unique}
use limit_plane.Orgstore.{holds, Org, Store}
use limit_plane.Orgstore.Lookups.{visible_among, visible_tenant_ids}

-- Some organisation has the user as a member, and holds the site.
pub record IsVisible (email site : String) (orgs : Assoc Org) : Type 0 where
  pub org_id : String
  pub org : Org
  pub there : lookup org_id orgs ≡ some org
  pub is_member : contains email org.members ≡ true
  pub has_site : holds org.sites site ≡ true

holds-append :
    (xs ys : List String) (site : String) → holds (xs ++ ys) site ≡ (holds xs site || holds ys site)
unfolding holds
holds-append [] ys site = refl
holds-append (x ∷ xs) ys site = ground (arith, holds-append xs ys site)

-- The first organisation's sites, if the user is in it, or those of the others.
visible_among-holds :
    (email site id : String) (o : Org) (os : Assoc Org)
    → holds (visible_among email ((id, o) ∷ os)) site
      ≡ ((contains email o.members && holds o.sites site) || holds (visible_among email os) site)
unfolding visible_among
visible_among-holds email site id o os = elim (Bool-cases (contains email o.members)) [
  | inl e ↦ rw e (holds-append o.sites (visible_among email os) site)
  | inr e ↦ rw e refl
]

-- A later entry is looked up past the first, which has another key.
lookup-later :
    (id id' : String) (o o' : Org) (os : Assoc Org)
    → lookup id os ≡ none
    → lookup id' os ≡ some o'
    → lookup id' ((id, o) ∷ os) ≡ some o'
unfolding lookup
lookup-later id id' o o' os gone there = elim (Bool-cases (str_eq id id')) [
  | inl same ↦ absurd (cc (gone, there, (eq_iff id id').0 same))
  | inr other ↦ rw other there
]

none_visible : (email site : String) → ¬ (holds (visible_among email []) site ≡ true)
unfolding visible_among holds
none_visible email site h = cc h

lookup-first : (id : String) (o : Org) (os : Assoc Org) → lookup id ((id, o) ∷ os) ≡ some o
unfolding lookup
lookup-first id o os = simp eq_refl

visible_among-IsVisible :
    (email site : String) (os : Assoc Org)
    → Unique os
    → holds (visible_among email os) site ≡ true
    → IsVisible email site os
visible_among-IsVisible email site [] u h = absurd (none_visible email site h)
visible_among-IsVisible email site ((id, o) ∷ os) u h =
    elim (Bool-cases (contains email o.members && holds o.sites site)) [
      | inl e ↦ record {
        org_id = id;
        org = o;
        there = lookup-first id o os;
        is_member = ground (arith, e);
        has_site = ground (arith, e);
      }
      | inr e ↦
          let later =
            visible_among-IsVisible email site os u.1
              (ground (arith, e, h, visible_among-holds email site id o os)) in
          record {
            org_id = later.org_id;
            org = later.org;
            there = lookup-later id later.org_id o later.org os u.0 later.there;
            is_member = later.is_member;
            has_site = later.has_site;
          }
    ]

IsVisible-visible_among :
    (email site : String) (os : Assoc Org) (id : String) (o : Org)
    → lookup id os ≡ some o
    → contains email o.members ≡ true
    → holds o.sites site ≡ true
    → holds (visible_among email os) site ≡ true
unfolding lookup
IsVisible-visible_among email site [] id o there member has = absurd cc
IsVisible-visible_among email site ((name, x) ∷ os) id o there member has =
    elim (Bool-cases (str_eq name id)) [
      | inl same ↦
          let is : x ≡ o = ground (arith, same, there) in
          rw (visible_among-holds email site name x os, is) (ground (arith, member, has))
      | inr other ↦
          let later =
            IsVisible-visible_among email site os id o (ground (arith, other, there)) member has in
          rw (visible_among-holds email site name x os) (ground (arith, later))
    ]

-- Where no two organisations have one identifier: the set of the sites that a user may see has a site just
-- if some organisation has the user as a member and holds the site.
pub visible_tenant_ids_iff :
    (email site : String) (s : Store)
    → Unique s.orgs
    → holds (visible_tenant_ids email s) site ≡ true ↔ IsVisible email site s.orgs
unfolding visible_tenant_ids
visible_tenant_ids_iff email site s u = (
  visible_among-IsVisible email site s.orgs u,
  λ v. IsVisible-visible_among email site s.orgs v.org_id v.org v.there v.is_member v.has_site,
)
