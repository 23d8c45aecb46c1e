-- ===== src/Visitors/Bounds.antt =====
-- visitors.go: the cap on the addresses that are tracked.
use limit_plane.Prelude.{
  ltb, Bool-cases, ltb-false, ℤ, length, length-append, suc, ◌+◌, ◌≤◌, String, ◌≡◌, inl, inr, Bool,
  Option, none, some, List, [], ◌∷◌, ◌++◌, arith, str_eq,
}
use limit_plane.Prelude.Assoc.{Assoc, lookup, insert, contains}
use limit_plane.Prelude.Listed.{Listed, append-Listed, delete-Listed, update-Listed}
use limit_plane.Visitors.{
  evicted, admitted, hit, counted, new_visitor, hit_on, track, Visitor, Visitors,
}

-- There is room for an address; the order is within the cap, and has every address of the table.
pub record IsCapped (v : Visitors) : Type 0 where
  pub room : 1 ≤ v.max_ips
  pub few : length v.order ≤ v.max_ips
  pub listed : Listed v.by_ip v.order

evicted-IsCapped :
    (order : List String) (by_ip : Assoc Visitor) (v : Visitors)
    → 1 ≤ v.max_ips
    → length order ≤ suc v.max_ips
    → Listed by_ip order
    → IsCapped (evicted order by_ip v)
unfolding evicted
evicted-IsCapped [] by_ip v r h s = record { room = r; few = omega arith; listed = s }
evicted-IsCapped (oldest ∷ rest) by_ip v r h s = record {
  room = r;
  few = omega arith;
  listed = delete-Listed oldest rest by_ip s;
}

admitted-IsCapped :
    (ip : String) (y : Visitor) (v : Visitors) → IsCapped v → IsCapped (admitted ip y v)
unfolding admitted
admitted-IsCapped ip y v b =
    let order = v.order ++ ip ∷ [] in
    let long : length order ≡ length v.order + 1 = length-append v.order (ip ∷ []) in
    elim (Bool-cases (ltb v.max_ips (length order))) [
      | inl e ↦ rw e (
          evicted-IsCapped order (insert ip y v.by_ip) v b.room (omega (arith, long, b.few))
            (append-Listed ip y v.by_ip v.order b.listed))
      | inr e ↦ rw e (record {
        room = b.room;
        few = ltb-false v.max_ips (length order) e;
        listed = append-Listed ip y v.by_ip v.order b.listed;
      })
    ]

counted-IsCapped :
    (now : ℤ) (ip : String) (y : Visitor) (v : Visitors)
    → IsCapped v
    → IsCapped (counted now ip y v)
unfolding counted
counted-IsCapped now ip y v b = elim (Bool-cases (contains ip v.by_ip)) [
  | inl e ↦
      rw (e, counted)
        (record {
          room = b.room;
          few = b.few;
          listed = update-Listed ip (hit now y) v.by_ip v.order e b.listed;
        })
  | inr e ↦ rw (e, counted) b
]

module _ (net : String → Option Bool) where
  hit_on-IsCapped :
      (now : ℤ) (ip : String) (o : Option Visitor) (v : Visitors)
      → IsCapped v
      → IsCapped (hit_on net now ip o v).1
  unfolding hit_on
  hit_on-IsCapped now ip (some x) v b = counted-IsCapped now ip x v b
  hit_on-IsCapped now ip none v b =
      counted-IsCapped now ip (new_visitor net ip) (admitted ip (new_visitor net ip) v)
        (admitted-IsCapped ip (new_visitor net ip) v b)

  -- A hit, on a known address or a new one, keeps the addresses in the order of arrival within the cap,
  -- and every address of the table among them.
  pub track-IsCapped :
      (now : ℤ) (ip : String) (v : Visitors) → IsCapped v → IsCapped (track net now ip v).1
  unfolding track
  track-IsCapped now ip v b = elim (Bool-cases (str_eq ip "")) [
    | inl e ↦ rw (e, track) b
    | inr e ↦ rw (e, track) (hit_on-IsCapped now ip (lookup ip v.by_ip) v b)
  ]
