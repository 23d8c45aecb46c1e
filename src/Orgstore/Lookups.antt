-- ===== src/Orgstore/Lookups.antt =====
-- orgstore.go: the lookups that the server asks for, and the removal of a site, which looks it up.
use limit_plane.Prelude.{
  if◌then◌else◌, length, String, Option, none, some, List, [], ◌∷◌, ◌++◌, str_eq,
}
use limit_plane.Prelude.Assoc.{Assoc, insert, lookup, contains}
use limit_plane.Orgstore.{holds, sorted_org_ids, Org, OrgSummary, Store}

-- The first of the organisations, in the order of the identifiers, that holds the site.
unfoldable pub holder_among : String → Assoc Org → List String → Option (String × Org)
holder_among tenant_id orgs [] = none
holder_among tenant_id orgs (id ∷ ids) =
    let later = holder_among tenant_id orgs ids in
    elim (lookup id orgs) [
      | none ↦ later
      | some o ↦ if holds o.sites tenant_id then some (id, o) else later
    ]

unfoldable pub without_site : String → List String → List String
without_site tenant_id [] = []
without_site tenant_id (x ∷ xs) =
    let rest = without_site tenant_id xs in if str_eq x tenant_id then xs else x ∷ rest

-- The answer is the identifier that the organisation carries, "" where there is none.
unfoldable pub remove_site : String → Store → String × Store
remove_site tenant_id s = elim (holder_among tenant_id s.orgs (sorted_org_ids s.orgs)) [
  | none ↦ ("", s)
  | some p ↦
      let (id, o) = p in
      let o' : Org = record o { sites = without_site tenant_id o.sites } in
      (o.id, record s { orgs = insert id o' s.orgs })
]

unfoldable pub org_of : String → Store → Option Org
org_of tenant_id s = elim (holder_among tenant_id s.orgs (sorted_org_ids s.orgs)) [
  | none ↦ none
  | some p ↦ some p.1
]

unfoldable pub orgs_among : String → Assoc Org → List String → List Org
orgs_among email orgs [] = []
orgs_among email orgs (id ∷ ids) =
    let later = orgs_among email orgs ids in
    elim (lookup id orgs) [
      | none ↦ later
      | some o ↦ if contains email o.members then o ∷ later else later
    ]

unfoldable pub orgs_for : String → Store → List Org
orgs_for email s = orgs_among email s.orgs (sorted_org_ids s.orgs)

unfoldable pub role_in : String → String → Store → String
role_in org_id email s = elim (lookup org_id s.orgs) [
  | none ↦ ""
  | some o ↦ elim (lookup email o.members) [ none ↦ "" | some role ↦ role ]
]

-- The set is the list of its members.
unfoldable pub visible_among : String → Assoc Org → List String
visible_among email [] = []
visible_among email ((id, o) ∷ os) =
    let later = visible_among email os in
    if contains email o.members then o.sites ++ later else later

unfoldable pub visible_tenant_ids : String → Store → List String
visible_tenant_ids email s = visible_among email s.orgs

unfoldable pub summary_of : Org → OrgSummary
summary_of o = record {
  id = o.id;
  name = o.name;
  members = o.members;
  sites = o.sites;
  member_count = length o.members;
  site_count = length o.sites;
}

unfoldable pub summaries : Assoc Org → List String → List OrgSummary
summaries orgs [] = []
summaries orgs (id ∷ ids) =
    let later = summaries orgs ids in
    elim (lookup id orgs) [ none ↦ later | some o ↦ summary_of o ∷ later ]

unfoldable pub summary : Store → List OrgSummary
summary s = summaries s.orgs (sorted_org_ids s.orgs)
