-- ===== src/Audit.antt =====
-- internal/audit/audit.go: the diary, a ring of events.
use mathlib.Core.Option
pub mod Ring
pub mod History
pub mod Examples
use limit_plane.Prelude.{
  ltb, ◌==◌, if◌then◌else◌, pos_part, leb_ℤ, eqb_ℤ, ℤ, pos, length, get_elem?, set, ℕ, zero, suc,
  ◌+◌, ◌-◌, ◌%◌, String, Bool, ◌||◌, Option, none, some, List, [], ◌∷◌, ◌++◌, map,
}

pub record Event : Type 0 where
  pub at : ℤ
  pub allowed : Bool
  pub key : String
  pub route : String
  pub tenant_id : String
  pub ip : String
  pub tier : String
  pub cost_class : String
  pub cost : ℤ
  pub remaining : ℤ
  pub reason : String
  pub monthly_used : Option ℤ
  pub monthly_remaining : Option ℤ
  pub label : String
  pub ua : String

-- `max`, `start` and `count` are Go ints that stay between 0 and the length of the buffer.
pub record Log : Type 0 where
  pub max : ℕ
  pub buf : List Event
  pub start : ℕ
  pub count : ℕ

-- A size of zero or less is the default.
unfoldable pub new : ℤ → Log
new max = record {
  max = if leb_ℤ max (pos 0) then 1000 else pos_part max;
  buf = [];
  start = 0;
  count = 0;
}

-- An event with no time gets that of the clock.
unfoldable pub stamped : ℤ → Event → Event
stamped now e = if eqb_ℤ e.at (pos 0) then record e { at = now } else e

unfoldable pub write : Log → Event → Log
write l e =
    if ltb l.count l.max
    then record l { buf = l.buf ++ e ∷ []; count = l.count + 1 }
    else record l {
      buf = set l.buf l.start e;
      start = if l.start + 1 == l.max then 0 else l.start + 1;
    }

unfoldable pub append_event : Log → ℤ → Event → Event × Log
unfolding stamped write
append_event l now e = (stamped now e, write l (stamped now e))

-- `out[i] = l.buf[idx % len(l.buf)]` with `idx` going down; `none` is an index out of range.
walk : List Event → ℕ → ℕ → Option (List Event)
walk buf zero idx = some []
walk buf (suc n) idx =
    let rest = walk buf n (idx - 1) in
    elim (get_elem? buf (idx % length buf)) [ none ↦ none | some e ↦ Option.map (◌∷◌ e) rest ]

pub recent : Log → ℤ → Option (List Event)
unfolding walk
recent l n =
    let pages : ℕ = if leb_ℤ n (pos 0) || ltb l.count (pos_part n) then l.count else pos_part n in
    walk l.buf pages (l.start + l.count - 1)

pub len : Log → ℕ
len l = l.count
