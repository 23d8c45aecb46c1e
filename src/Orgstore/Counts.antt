-- ===== src/Orgstore/Counts.antt =====
-- orgstore.go: the number of the owners, when a membership is set or goes.
use limit_plane.Prelude.{
  if◌then◌else◌, Bool-cases, ℕ, ◌+◌, String, ◌≡◌, inl, inr, Bool, none, some, [], ◌∷◌, arith,
  str_eq, eq_iff,
}
use limit_plane.Prelude.Assoc.{Assoc, delete, insert, lookup, Unique, delete_absent}
use limit_plane.Orgstore.{role_owner, owners}

unfoldable pub one_if : Bool → ℕ
one_if b = if b then 1 else 0

pub owners-insert_new :
    (email role : String) (m : Assoc String)
    → lookup email m ≡ none
    → owners (insert email role m) ≡ owners m + one_if (str_eq role role_owner)
unfolding owners insert lookup one_if
owners-insert_new email role [] e = ground arith
owners-insert_new email role ((name, r) ∷ m) e = ground (arith, e, owners-insert_new email role m)

pub owners-insert_old :
    (email role old : String) (m : Assoc String)
    → lookup email m ≡ some old
    → owners (insert email role m) + one_if (str_eq old role_owner)
      ≡ owners m + one_if (str_eq role role_owner)
unfolding owners insert lookup one_if
owners-insert_old email role old [] e = cc
owners-insert_old email role old ((name, r) ∷ m) e =
    ground (arith, e, owners-insert_old email role old m)

-- A membership that goes takes at most one owner with it.
pub owners-delete :
    (email role : String) (m : Assoc String)
    → Unique m
    → lookup email m ≡ some role
    → owners m ≡ owners (delete email m) + one_if (str_eq role role_owner)
unfolding owners delete lookup one_if
owners-delete email role [] u e = cc
owners-delete email role ((name, r) ∷ m) u e = elim (Bool-cases (str_eq name email)) [
  | inl same ↦
      let gone : delete email m ≡ m =
        delete_absent email m (rw ((eq_iff name email).0 same) at u.0) in
      let role_is : r ≡ role = ground (arith, same, e) in
      rw (same, gone, role_is, delete) (ground arith)
  | inr other ↦ ground (arith, other, e, owners-delete email role m u.1)
]
