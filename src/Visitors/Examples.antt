-- ===== src/Visitors/Examples.antt =====
-- visitors.go: a third address in a table for two.
use limit_plane.Prelude.{pos, String, ◌≡◌, Bool, true, false, Option, none, some, [], ◌∷◌, arith}
use limit_plane.Prelude.Assoc.{lookup}
use limit_plane.Prelude.Listed.{seen}
use limit_plane.Visitors.{track, Visitor, Visitors, pending}
use limit_plane.Visitors.Bounds.{track-IsCapped, IsCapped}

abbrev seen_from : String → Visitor
seen_from ip = record {
  ip = ip;
  count = 1;
  last_seen = pos 1000;
  geo = pending;
  place = none;
  label = none;
}

abbrev one_address : Visitors
one_address = record {
  max_ips = 1;
  by_ip = ("203.0.113.7", seen_from "203.0.113.7") ∷ [];
  order = "203.0.113.7" ∷ [];
}

all_public : String → Option Bool
all_public ip = some false

track-IsCapped_example : IsCapped (track all_public (pos 2000) "203.0.113.8" one_address).1
unfolding lookup seen
track-IsCapped_example =
    track-IsCapped all_public (pos 2000) "203.0.113.8" one_address
      (record { room = omega arith; few = omega arith; listed = λ k x e. own k x e })
  where
    own :
        (k : String) (x : Visitor)
        → lookup k one_address.by_ip ≡ some x
        → seen k one_address.order ≡ true
    own k x e = ground arith
