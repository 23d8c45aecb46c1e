-- ===== src/Orgstore/Managed.antt =====
-- orgstore.go: each call leaves an organisation with an owner.
use limit_plane.Prelude.{
  ◌==◌, Bool-cases, Option-cases, if_cases, ◌<◌, String, ◌≡◌, refl, ap, ◌∙◌, inl, inr, Bool, true,
  false, not, ◌&&◌, Option, none, some, List, [], ◌∷◌, ◌++◌, arith, str_eq,
}
use limit_plane.Prelude.Assoc.{
  Assoc, delete, insert, lookup, contains, Unique, insert-Unique, delete-Unique,
}
use limit_plane.Orgstore.{
  role_owner, create_org, valid_role, add_member, owners, without_member, remove_member, holds,
  add_site, sorted_org_ids, Org, Store,
}
use limit_plane.Orgstore.Lookups.{holder_among, without_site, remove_site}
use limit_plane.Orgstore.Counts.{one_if, owners-insert_new, owners-insert_old, owners-delete}

-- The calls that change the directory of organisations.
pub data Op : Type 0 where
  create : String → String → Op
  add : String → String → String → Op
  remove : String → String → Op
  connect : String → String → Op
  disconnect : String → Op

unfoldable pub step : (id_of : String → String) → Op → Store → Store
step id_of (create name owner_email) s = (create_org id_of name owner_email s).1
step id_of (add org_id email role) s = (add_member org_id email role s).1
step id_of (remove org_id email) s = (remove_member org_id email s).1
step id_of (connect org_id tenant_id) s = (add_site org_id tenant_id s).1
step id_of (disconnect tenant_id) s = (remove_site tenant_id s).1

-- A role that is given to the only owner, and is not an owner's.
demotes : String → String → Org → Bool
demotes email role o = elim (lookup email o.members) [
  | none ↦ false
  | some old ↦ str_eq old role_owner && (owners o.members == 1 && not (str_eq role role_owner))
]

unfoldable pub demotes_last : Op → Store → Bool
unfolding demotes
demotes_last (create name owner_email) s = false
demotes_last (add org_id email role) s = elim (lookup org_id s.orgs) [
  | none ↦ false
  | some o ↦ demotes email role o
]
demotes_last (remove org_id email) s = false
demotes_last (connect org_id tenant_id) s = false
demotes_last (disconnect tenant_id) s = false

-- An organisation that somebody can manage: its members stand once, and one at least is an owner.
unfoldable pub IsManaged : Org → Type 0
IsManaged o = Unique o.members × (0 < owners o.members)

unfoldable pub AllManaged : Assoc Org → Type 0
AllManaged [] = Unit {0}
AllManaged ((id, o) ∷ os) = IsManaged o × AllManaged os

AllManaged-lookup :
    (id : String) (o : Org) (os : Assoc Org) → AllManaged os → lookup id os ≡ some o → IsManaged o
unfolding AllManaged lookup
AllManaged-lookup id o [] m e = absurd cc
AllManaged-lookup id o ((name, x) ∷ os) m e = elim (Bool-cases (str_eq name id)) [
  | inl same ↦ let is : x ≡ o = ground (arith, same, e) in rw is at m.0
  | inr other ↦ AllManaged-lookup id o os m.1 (ground (arith, other, e))
]

AllManaged-insert :
    (id : String) (o : Org) (os : Assoc Org)
    → IsManaged o
    → AllManaged os
    → AllManaged (insert id o os)
unfolding AllManaged insert
AllManaged-insert id o [] g m = (g, tt)
AllManaged-insert id o ((name, x) ∷ os) g m =
    if_cases AllManaged (str_eq name id) _ _ (λ _. (g, m.1))
      (λ _. (m.0, AllManaged-insert id o os g m.1))

add_member-IsManaged :
    (email role : String) (o : Org)
    → IsManaged o
    → demotes email role o ≡ false
    → IsManaged (record o { members = insert email role o.members })
unfolding IsManaged demotes
add_member-IsManaged email role o g h = elim (Option-cases (lookup email o.members)) [
  | inl e ↦ (
    insert-Unique email role o.members g.0,
    omega (arith, g.1, owners-insert_new email role o.members e),
  )
  | inr (old, e) ↦
      let kept : (str_eq old role_owner && (owners o.members == 1 && not (str_eq role role_owner)))
          ≡ false =
        rw (e, demotes) at h in
      (
        insert-Unique email role o.members g.0,
        unfold one_if in ground (arith, g.1, kept, owners-insert_old email role old o.members e),
      )
]

without_member-IsManaged :
    (email : String) (o : Org) (members : Assoc String)
    → IsManaged o
    → without_member email o.members ≡ some members
    → IsManaged (record o { members = members })
unfolding IsManaged without_member
without_member-IsManaged email o members g h = elim (Option-cases (lookup email o.members)) [
  | inl e ↦ absurd (cc (rw (e, without_member) at h))
  | inr (role, e) ↦ elim (Bool-cases (str_eq role role_owner && owners o.members == 1)) [
    | inl last ↦ absurd (cc (rw (e, without_member, last) at h))
    | inr fine ↦
        let same : delete email o.members ≡ members = cc (rw (e, without_member, fine) at h) in
        let left : Unique (delete email o.members) × (0 < owners (delete email o.members)) = (
          delete-Unique email o.members g.0,
          unfold one_if in ground (arith, g.1, fine, owners-delete email role o.members g.0 e),
        ) in
        rw same at left
  ]
]

created-IsManaged :
    (id name owner_email : String)
    → IsManaged
        (record { id = id; name = name; members = (owner_email, role_owner) ∷ []; sites = [] })
unfolding IsManaged owners lookup
created-IsManaged id name owner_email = ((refl, tt), omega arith)

-- A change of the sites alone.
resited-IsManaged :
    (o : Org) (sites' : List String) → IsManaged o → IsManaged (record o { sites = sites' })
unfolding IsManaged
resited-IsManaged o sites' g = g

module _ (id_of : String → String) where
  pub create_org-AllManaged :
      (name owner_email : String) (s : Store)
      → AllManaged s.orgs
      → AllManaged (create_org id_of name owner_email s).1.orgs
  unfolding create_org
  create_org-AllManaged name owner_email s m =
      if_cases (λ (p : Option Org × Store). AllManaged p.1.orgs) (contains (id_of name) s.orgs) _ _
        (λ _. m) (λ _. AllManaged-insert _ _ s.orgs (created-IsManaged _ name owner_email) m)

pub add_member-AllManaged :
    (org_id email role : String) (s : Store)
    → AllManaged s.orgs
    → demotes_last (add org_id email role) s ≡ false
    → AllManaged (add_member org_id email role s).1.orgs
unfolding demotes_last add_member AllManaged
add_member-AllManaged org_id email role s m h = elim (Option-cases (lookup org_id s.orgs)) [
  | inl e ↦ rw (e, add_member) m
  | inr (o, e) ↦
      let g = AllManaged-lookup org_id o s.orgs m e in
      rw (e, add_member)
        (if_cases (λ (p : Option Org × Store). AllManaged p.1.orgs) (valid_role role) _ _
          (λ _.
            AllManaged-insert org_id _ s.orgs
              (add_member-IsManaged email role o g (rw (e, demotes_last) at h)) m)
          (λ _. m))
]

pub remove_member-AllManaged :
    (org_id email : String) (s : Store)
    → AllManaged s.orgs
    → AllManaged (remove_member org_id email s).1.orgs
unfolding remove_member AllManaged
remove_member-AllManaged org_id email s m = elim (Option-cases (lookup org_id s.orgs)) [
  | inl e ↦ rw (e, remove_member) m
  | inr (o, e) ↦ elim (Option-cases (without_member email o.members)) [
    | inl e' ↦ rw (e, remove_member, e') m
    | inr (members, e') ↦
        rw (e, remove_member, e')
          (AllManaged-insert org_id _ s.orgs
            (without_member-IsManaged email o members (AllManaged-lookup org_id o s.orgs m e) e') m)
  ]
]

pub add_site-AllManaged :
    (org_id tenant_id : String) (s : Store)
    → AllManaged s.orgs
    → AllManaged (add_site org_id tenant_id s).1.orgs
unfolding add_site AllManaged
add_site-AllManaged org_id tenant_id s m = elim (Option-cases (lookup org_id s.orgs)) [
  | inl e ↦ rw (e, add_site) m
  | inr (o, e) ↦
      let g = AllManaged-lookup org_id o s.orgs m e in
      rw (e, add_site)
        (AllManaged-insert org_id _ s.orgs
          (if_cases IsManaged (holds o.sites tenant_id) _ _ (λ _. g)
            (λ _. resited-IsManaged o (o.sites ++ tenant_id ∷ []) g))
          m)
]

-- The holder that is found is in the directory, and holds the site.
pub holder_among-holds :
    (tenant_id : String) (orgs : Assoc Org) (ids : List String) (id : String) (o : Org)
    → holder_among tenant_id orgs ids ≡ some (id, o)
    → (lookup id orgs ≡ some o) × (holds o.sites tenant_id ≡ true)
unfolding holder_among
holder_among-holds t orgs [] id o h = absurd cc
holder_among-holds t orgs (x ∷ ids) id o h = elim (Option-cases (lookup x orgs)) [
  | inl e ↦ holder_among-holds t orgs ids id o (rw (e, holder_among) at h)
  | inr (y, e) ↦ elim (Bool-cases (holds y.sites t)) [
    | inl has ↦
        let found : ◌≡◌ {A = Option (String × Org)} (some (x, y)) (some (id, o)) =
          rw (e, holder_among, has) at h in
        let same_id : x ≡ id = cc in
        let same : y ≡ o = cc in (rw same_id at (e ∙ ap some same), rw same at has)
    | inr other ↦ holder_among-holds t orgs ids id o (rw (e, holder_among, other) at h)
  ]
]

pub remove_site-AllManaged :
    (tenant_id : String) (s : Store)
    → AllManaged s.orgs
    → AllManaged (remove_site tenant_id s).1.orgs
unfolding remove_site AllManaged
remove_site-AllManaged t s m = elim (Option-cases (holder_among t s.orgs (sorted_org_ids s.orgs))) [
  | inl e ↦ rw (e, remove_site) m
  | inr (p, e) ↦
      let there = holder_among-holds t s.orgs (sorted_org_ids s.orgs) p.0 p.1 e in
      rw (e, remove_site)
        (AllManaged-insert p.0 _ s.orgs
          (resited-IsManaged p.1 (without_site t p.1.sites)
            (AllManaged-lookup p.0 p.1 s.orgs m there.0))
          m)
]
