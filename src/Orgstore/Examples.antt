-- ===== src/Orgstore/Examples.antt =====
-- orgstore.go: the theorems at concrete directories, and tests.
use limit_plane.Prelude.{String, ◌≡◌, refl, ◌↔◌, true, false, none, List, [], ◌∷◌, ◌++◌, map}
use limit_plane.Prelude.Assoc.{delete, insert, lookup, contains, Unique}
use limit_plane.Wshub.{Bytes}
use limit_plane.Orgstore.{
  new, fold_name, trim_left, cut_after, trim_right, slug, create_org, valid_role, add_member,
  owners, without_member, remove_member, holds, add_site, place, sorted_org_ids, Store,
}
use limit_plane.Orgstore.Lookups.{holder_among, without_site, remove_site, visible_tenant_ids}
use limit_plane.Orgstore.Slug.{is_tidy, ends_plain, org_prefix, slug-tidy}
use limit_plane.Orgstore.Sites.{visible_tenant_ids_iff, IsVisible}
use limit_plane.Orgstore.Owners.{run, demotes_on_the_way, run-AllManaged}
use limit_plane.Orgstore.Managed.{
  step, demotes_last, AllManaged, Op, create, add, remove, connect, disconnect,
}

abbrev same_name : String → String
same_name name = name

-- The second owner lets the first go, and is then the last.
abbrev ops : List Op
ops =
    create "lab" "ann"
    ∷ add "lab" "bob" "owner"
    ∷ remove "lab" "ann"
    ∷ remove "lab" "bob"
    ∷ connect "lab" "shop"
    ∷ disconnect "shop"
    ∷ []

ops_spare_owners : demotes_on_the_way same_name ops (new none) ≡ false
unfolding demotes_on_the_way demotes_last step create_org add_member remove_member without_member
    add_site remove_site owners valid_role holds holder_among sorted_org_ids place without_site
    insert delete lookup contains new
ops_spare_owners = refl

run-AllManaged_example : AllManaged (run same_name ops (new none)).orgs
run-AllManaged_example = run-AllManaged same_name ops ops_spare_owners

abbrev anshu_labs : Bytes
anshu_labs = b'-' ∷ b'a' ∷ b' ' ∷ b'&' ∷ b'b' ∷ b'!' ∷ []

slug-tidy_example :
    (body : Bytes) × (slug anshu_labs ≡ org_prefix ++ body)
    × (is_tidy true body ≡ true)
    × (ends_plain body ≡ true)
    × (slug body ≡ slug anshu_labs)
slug-tidy_example = slug-tidy anshu_labs

slug_of_name : slug anshu_labs ≡ org_prefix ++ (b'a' ∷ b'-' ∷ b'b' ∷ [])
unfolding slug fold_name trim_left trim_right cut_after
slug_of_name = refl

abbrev directory : Store
directory = record {
  orgs =
      (
        "lab",
        record { id = "lab"; name = "lab"; members = ("ann", "owner") ∷ []; sites = "shop" ∷ [] },
      )
      ∷ [];
  users = [];
}

directory-Unique : Unique directory.orgs
unfolding lookup
directory-Unique = (refl, tt)

visible_tenant_ids_iff_example :
    holds (visible_tenant_ids "ann" directory) "shop" ≡ true ↔ IsVisible "ann" "shop" directory.orgs
visible_tenant_ids_iff_example = visible_tenant_ids_iff "ann" "shop" directory directory-Unique

-- The only owner made a viewer: nobody is left who can manage the organisation.
demoted :
    map
      (λ p. owners p.1.members)
      (run same_name (create "lab" "ann" ∷ add "lab" "ann" "viewer" ∷ []) (new none)).orgs
    ≡ 0 ∷ []
unfolding run step create_org add_member owners valid_role insert lookup contains new
demoted = refl

-- One site, connected to two organisations.
shared :
    map
      (λ p. p.1.sites)
      (run same_name
        (create "a" "ann" ∷ create "b" "bob" ∷ connect "a" "shop" ∷ connect "b" "shop" ∷ [])
        (new none)).orgs
    ≡ ("shop" ∷ []) ∷ ("shop" ∷ []) ∷ []
unfolding run step create_org add_site holds insert lookup contains new
shared = refl
