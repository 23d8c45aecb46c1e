-- ===== src/Visitors.antt =====
-- internal/live/visitors.go: the client addresses on the dashboard's map. `net` is what the standard
-- library says of an address: `none` if it does not parse, else whether it is loopback, private,
-- link-local or unspecified. The lookup's answer is an argument, `none` for every failure. The device
-- that the user agent names is not modelled.
pub mod Bounds
pub mod Examples
use limit_plane.Prelude.{
  ltb, if◌then◌else◌, pos_part, leb_ℤ, ℤ, pos, length, ℕ, ◌+◌, String, Bool, true, false, not, ◌||◌,
  Option, none, some, List, [], ◌∷◌, ◌++◌, str_eq,
}
use limit_plane.Prelude.Assoc.{Assoc, lookup, insert, delete, contains}

pub data Geo : Type 0 where
  local pending located unknown : Geo

pub record Place : Type 0 where
  pub city : String
  pub country : String
  pub lat : ℤ
  pub lon : ℤ

pub record Visitor : Type 0 where
  pub ip : String
  pub count : ℕ
  pub last_seen : ℤ
  pub geo : Geo
  pub place : Option Place
  pub label : Option String

pub record Visitors : Type 0 where
  pub max_ips : ℕ
  pub by_ip : Assoc Visitor
  pub order : List String

unfoldable pub new : ℤ → Visitors
new max_ips = record {
  max_ips = if leb_ℤ max_ips (pos 0) then 500 else pos_part max_ips;
  by_ip = [];
  order = [];
}

not_public : Option Bool → Bool
not_public none = true
not_public (some b) = b

-- Evicts the oldest address.
evicted : List String → Assoc Visitor → Visitors → Visitors
evicted [] by_ip v = record v { by_ip = by_ip; order = [] }
evicted (oldest ∷ rest) by_ip v = record v { by_ip = delete oldest by_ip; order = rest }

-- A new address at the end of the order; past the cap the oldest gives way.
unfoldable pub admitted : String → Visitor → Visitors → Visitors
unfolding evicted
admitted ip x v =
    let order = v.order ++ ip ∷ [] in
    if ltb v.max_ips (length order)
    then evicted order (insert ip x v.by_ip) v
    else record v { by_ip = insert ip x v.by_ip; order = order }

unfoldable pub hit : ℤ → Visitor → Visitor
hit now x = record x { count = x.count + 1; last_seen = now }

-- The hit is counted on the entry, which a cap of zero would have evicted at once.
counted : ℤ → String → Visitor → Visitors → Visitors
counted now ip x v =
    if contains ip v.by_ip then record v { by_ip = insert ip (hit now x) v.by_ip } else v

module _ (net : String → Option Bool) where
  unfoldable pub is_private : String → Bool
  unfolding not_public
  is_private ip = if str_eq ip "" || str_eq ip "unknown" then true else not_public (net ip)

  new_visitor : String → Visitor
  new_visitor ip = record {
    ip = ip;
    count = 0;
    last_seen = pos 0;
    geo = if is_private ip then local else pending;
    place = none;
    label = none;
  }

  -- The hit on an address that is known, or on a new one.
  hit_on : ℤ → String → Option Visitor → Visitors → Bool × Visitors
  unfolding new_visitor counted
  hit_on now ip (some x) v = (false, counted now ip x v)
  hit_on now ip none v =
      (not (is_private ip), counted now ip (new_visitor ip) (admitted ip (new_visitor ip) v))

  -- Whether the address is to be looked up, and the table.
  unfoldable pub track : ℤ → String → Visitors → Bool × Visitors
  unfolding hit_on
  track now ip v = if str_eq ip "" then (false, v) else hit_on now ip (lookup ip v.by_ip) v

located_visitor : Option Place → Visitor → Visitor
located_visitor none x = record x { geo = unknown }
located_visitor (some p) x = record x { geo = located; place = some p }

-- The lookup's answer, for an address that may have been evicted meanwhile.
unfoldable pub answer_lookup : String → Option Place → Visitors → Visitors
unfolding located_visitor
answer_lookup ip place v = elim (lookup ip v.by_ip) [
  | none ↦ v
  | some x ↦ record v { by_ip = insert ip (located_visitor place x) v.by_ip }
]

labelled : (String → Option String) → Assoc Visitor → List Visitor
labelled label [] = []
labelled label ((k, x) ∷ m) = record x { label = label x.ip } ∷ labelled label m

visitors_of : Assoc Visitor → List Visitor
visitors_of [] = []
visitors_of ((k, x) ∷ m) = x ∷ visitors_of m

pub snapshot : Option (String → Option String) → Visitors → List Visitor
unfolding labelled visitors_of
snapshot none v = visitors_of v.by_ip
snapshot (some label) v = labelled label v.by_ip

pub count : Visitors → ℕ
count v = length v.by_ip
