-- ===== src/Orgstore.antt =====
-- internal/orgstore/orgstore.go: organisations, their members and sites, and the logins. The file is not
-- modelled but for what a boot makes of it; the salt, the hash and the lower case of a name are arguments.
pub mod Lookups
pub mod Counts
pub mod Slug
pub mod Managed
pub mod Owners
pub mod Sites
pub mod Examples
use Prim.Native.String.{compare}
use Prim.Native.Nat.{Ordering}
use limit_plane.Prelude.{
  leb, ◌==◌, if◌then◌else◌, length, keep_if, ℕ, String, Bool, true, false, ◌&&◌, ◌||◌, Option, none,
  some, List, [], ◌∷◌, ◌++◌, str_eq,
}
use limit_plane.Prelude.Assoc.{Assoc, delete, insert, lookup, contains}
use limit_plane.Wshub.{Bytes}

abbrev pub role_owner : String
role_owner = "owner"

abbrev pub role_admin : String
role_admin = "admin"

abbrev pub role_viewer : String
role_viewer = "viewer"

pub record Org : Type 0 where
  pub id : String
  pub name : String
  pub members : Assoc String
  pub sites : List String

pub record User : Type 0 where
  pub salt : String
  pub hash : String
  pub platform_role : String

pub record OrgSummary : Type 0 where
  pub id : String
  pub name : String
  pub members : Assoc String
  pub sites : List String
  pub member_count : ℕ
  pub site_count : ℕ

pub record Store : Type 0 where
  pub orgs : Assoc Org
  pub users : Assoc User

-- An organisation as the file has it; a part that the file lacks is `none`.
pub record FileOrg : Type 0 where
  pub id : String
  pub name : String
  pub members : Option (Assoc String)
  pub sites : Option (List String)

pub record FileWorld : Type 0 where
  pub orgs : Assoc (Option FileOrg)
  pub users : Assoc User

abbrev or_else : {A : Type 0} → Option A → A → A
or_else none a = a
or_else (some b) a = b

load_org : String → FileOrg → Org
load_org id o = record {
  id = if str_eq o.id "" then id else o.id;
  name = o.name;
  members = or_else o.members [];
  sites = or_else o.sites [];
}

load_orgs : Assoc (Option FileOrg) → Assoc Org
unfolding load_org
load_orgs [] = []
load_orgs ((id, none) ∷ os) = load_orgs os
load_orgs ((id, some o) ∷ os) = (id, load_org id o) ∷ load_orgs os

-- A file that is missing or cannot be read is `none`.
unfoldable pub new : Option FileWorld → Store
unfolding load_orgs load_org
new none = record { orgs = []; users = [] }
new (some w) = record { orgs = load_orgs w.orgs; users = w.users }

module _ (hash_password : String → String → String) where
  unfoldable pub create_user : String → String → String → String → Store → User × Store
  create_user salt email password platform_role s = elim (lookup email s.users) [
    | some u ↦ (u, s)
    | none ↦
        let role = if str_eq platform_role "" then "user" else platform_role in
        let u : User = record {
          salt = salt;
          hash = hash_password salt password;
          platform_role = role;
        } in
        (u, record s { users = insert email u s.users })
  ]

  unfoldable pub verify_user : String → String → Store → Bool
  verify_user email password s = elim (lookup email s.users) [
    | none ↦ false
    | some u ↦ str_eq (hash_password u.salt password) u.hash
  ]

unfoldable pub has_user : String → Store → Bool
has_user email s = contains email s.users

unfoldable pub delete_user : String → Store → Store
delete_user email s =
    if contains email s.users then record s { users = delete email s.users } else s

-- A run of other bytes is one dash.
unfoldable pub fold_name : Bool → Bytes → Bytes
fold_name dash [] = []
fold_name dash (c ∷ cs) =
    let plain = c ∷ fold_name false cs in
    let skipped = fold_name true cs in
    if (leb b'a' c && leb c b'z') || (leb b'0' c && leb c b'9')
    then plain
    else if dash
    then skipped
    else b'-' ∷ skipped

unfoldable pub trim_left : Bytes → Bytes
trim_left [] = []
trim_left (c ∷ cs) = let rest = trim_left cs in if c == b'-' then rest else c ∷ cs

-- A byte in front of what is left behind it, and the bytes without the dashes at their end.
unfoldable pub cut_after : ℕ → Bytes → Bytes
cut_after c [] = if c == b'-' then [] else c ∷ []
cut_after c (d ∷ ds) = c ∷ d ∷ ds

unfoldable pub trim_right : Bytes → Bytes
unfolding cut_after
trim_right [] = []
trim_right (c ∷ cs) = cut_after c (trim_right cs)

unfoldable pub slug : (lower : Bytes) → Bytes
unfolding fold_name trim_left trim_right
slug lower = b'o' ∷ b'r' ∷ b'g' ∷ b'_' ∷ trim_right (trim_left (fold_name false lower))

-- The identifier is the slug of the name, as `id_of` puts it into a string.
unfoldable pub create_org : (id_of : String → String) → String → String → Store → Option Org × Store
create_org id_of name owner_email s =
    let id = id_of name in
    let o : Org = record {
      id = id;
      name = name;
      members = (owner_email, role_owner) ∷ [];
      sites = [];
    } in
    if contains id s.orgs then (none, s) else (some o, record s { orgs = insert id o s.orgs })

unfoldable pub valid_role : String → Bool
valid_role role = str_eq role role_owner || str_eq role role_admin || str_eq role role_viewer

unfoldable pub add_member : String → String → String → Store → Option Org × Store
add_member org_id email role s = elim (lookup org_id s.orgs) [
  | none ↦ (none, s)
  | some o ↦
      let o' : Org = record o { members = insert email role o.members } in
      if valid_role role then (some o', record s { orgs = insert org_id o' s.orgs }) else (none, s)
]

abbrev is_owner : String × String → Bool
is_owner (email, role) = str_eq role role_owner

unfoldable pub owners : Assoc String → ℕ
owners members = length (keep_if is_owner members)

-- What is left of the members, if one may go.
unfoldable pub without_member : String → Assoc String → Option (Assoc String)
unfolding owners
without_member email members = elim (lookup email members) [
  | none ↦ none
  | some role ↦
      if str_eq role role_owner && owners members == 1 then none else some (delete email members)
]

unfoldable pub remove_member : String → String → Store → Bool × Store
remove_member org_id email s = elim (lookup org_id s.orgs) [
  | none ↦ (false, s)
  | some o ↦ elim (without_member email o.members) [
    | none ↦ (false, s)
    | some members ↦
        (true, record s { orgs = insert org_id (record o { members = members }) s.orgs })
  ]
]

unfoldable pub holds : List String → String → Bool
holds [] site = false
holds (x ∷ xs) site = str_eq x site || holds xs site

unfoldable pub add_site : String → String → Store → Option Org × Store
add_site org_id tenant_id s = elim (lookup org_id s.orgs) [
  | none ↦ (none, s)
  | some o ↦
      let o' : Org =
        if holds o.sites tenant_id then o else record o { sites = o.sites ++ tenant_id ∷ [] } in
      (some o', record s { orgs = insert org_id o' s.orgs })
]

-- `sort.Strings`, and the identifiers in its order.
unfoldable pub is_before : String → String → Bool
is_before a b = elim (compare a b) [ Ordering.lt ↦ true | Ordering.eq ↦ true | Ordering.gt ↦ false ]

unfoldable pub place : String → List String → List String
place a [] = a ∷ []
place a (b ∷ bs) = let later = place a bs in if is_before a b then a ∷ b ∷ bs else b ∷ later

unfoldable pub sorted_org_ids : Assoc Org → List String
sorted_org_ids [] = []
sorted_org_ids ((id, o) ∷ os) = place id (sorted_org_ids os)
