-- ===== src/Orgstore/Owners.antt =====
-- orgstore.go: an organisation keeps an owner.
use limit_plane.Prelude.{String, ◌≡◌, Bool, false, ◌||◌, none, List, [], ◌∷◌, arith}
use limit_plane.Orgstore.{new, Store}
use limit_plane.Orgstore.Managed.{
  step, demotes_last, AllManaged, create_org-AllManaged, add_member-AllManaged,
  remove_member-AllManaged, add_site-AllManaged, remove_site-AllManaged, Op, create, add, remove,
  connect, disconnect,
}

-- The calls in their order, and whether one of them demotes an only owner.
unfoldable pub run : (id_of : String → String) → List Op → Store → Store
run id_of [] s = s
run id_of (op ∷ ops) s = run id_of ops (step id_of op s)

unfoldable pub demotes_on_the_way : (id_of : String → String) → List Op → Store → Bool
demotes_on_the_way id_of [] s = false
demotes_on_the_way id_of (op ∷ ops) s =
    demotes_last op s || demotes_on_the_way id_of ops (step id_of op s)

module _ (id_of : String → String) where
  step-AllManaged :
      (op : Op) (s : Store)
      → AllManaged s.orgs
      → demotes_last op s ≡ false
      → AllManaged (step id_of op s).orgs
  unfolding step
  step-AllManaged (create name owner_email) s m h = create_org-AllManaged id_of name owner_email s m
  step-AllManaged (add org_id email role) s m h = add_member-AllManaged org_id email role s m h
  step-AllManaged (remove org_id email) s m h = remove_member-AllManaged org_id email s m
  step-AllManaged (connect org_id tenant_id) s m h = add_site-AllManaged org_id tenant_id s m
  step-AllManaged (disconnect tenant_id) s m h = remove_site-AllManaged tenant_id s m

  run-AllManaged_from :
      (ops : List Op) (s : Store)
      → AllManaged s.orgs
      → demotes_on_the_way id_of ops s ≡ false
      → AllManaged (run id_of ops s).orgs
  unfolding run demotes_on_the_way
  run-AllManaged_from [] s m h = m
  run-AllManaged_from (op ∷ ops) s m h =
      run-AllManaged_from ops (step id_of op s) (step-AllManaged op s m (ground (arith, h)))
        (ground (arith, h))

-- In a directory that starts empty, whatever calls follow, every organisation has an owner and no member
-- twice, as long as no call of AddMember gives the only owner of an organisation a lesser role.
pub run-AllManaged :
    (id_of : String → String) (ops : List Op)
    → demotes_on_the_way id_of ops (new none) ≡ false
    → AllManaged (run id_of ops (new none)).orgs
unfolding new AllManaged
run-AllManaged id_of ops h = run-AllManaged_from id_of ops (new none) tt h
