-- ===== src/Stats.antt =====
-- internal/stats/stats.go: the dashboard's live counters. The counters are int64 in the code.
-- The ban check of a snapshot is an argument, and so are the site's visitors, which the server adds.
pub mod Counts
pub mod Examples
use limit_plane.Prelude.{
  if◌then◌else◌, ◌+ℤ◌, ◌-ℤ◌, ltb_ℤ, eqb_ℤ, quot_ℤ, ℤ, pos, take, ℕ, zero, suc, ◌+◌, String, Bool,
  Option, none, some, List, [], ◌∷◌, map, str_eq,
}
use limit_plane.Prelude.Assoc.{Assoc, lookup, insert, delete, contains}
use limit_plane.Audit.{Event}

pub record Totals : Type 0 where
  pub checks : ℕ
  pub allowed : ℕ
  pub blocked : ℕ
  pub by_reason : Assoc ℕ

pub record MonthlyUse : Type 0 where
  pub used : ℤ
  pub quota : ℤ

pub record TenantCard : Type 0 where
  pub tenant_id : String
  pub tier : String
  pub checks : ℕ
  pub allowed : ℕ
  pub blocked : ℕ
  pub last_seen : ℤ
  pub monthly : Option MonthlyUse
  pub banned_ms : ℤ

-- A map from seconds, which the code keeps in no order.
pub record Tally : Type 0 where
  pub sec : ℤ
  pub allowed : ℕ
  pub blocked : ℕ

pub record Stats : Type 0 where
  pub started_at : ℤ
  pub totals : Totals
  pub per_tenant : Assoc TenantCard
  pub buckets : List Tally

unfoldable pub new : ℤ → Stats
new now = record {
  started_at = now;
  totals = record { checks = 0; allowed = 0; blocked = 0; by_reason = [] };
  per_tenant = [];
  buckets = [];
}

or_zero : Option ℕ → ℕ
or_zero none = 0
or_zero (some n) = n

unfoldable pub count_reason : String → Assoc ℕ → Assoc ℕ
unfolding or_zero
count_reason reason m =
    if str_eq reason "" then m else insert reason (or_zero (lookup reason m) + 1) m

unfoldable pub count_total : Event → Totals → Totals
count_total e t =
    if e.allowed then record t { checks = t.checks + 1; allowed = t.allowed + 1 } else record t {
      checks = t.checks + 1;
      blocked = t.blocked + 1;
      by_reason = count_reason e.reason t.by_reason;
    }

unfoldable pub card_or_new : Option TenantCard → String → TenantCard
card_or_new (some c) t = c
card_or_new none t = record {
  tenant_id = t;
  tier = "";
  checks = 0;
  allowed = 0;
  blocked = 0;
  last_seen = pos 0;
  monthly = none;
  banned_ms = pos 0;
}

-- The plan's use, if the event has it; else the one before.
month_of_event : Option ℤ → Option ℤ → Option MonthlyUse → Option MonthlyUse
month_of_event (some used) (some left) old = some (record { used = used; quota = used +ℤ left })
month_of_event (some used) none old = old
month_of_event none left old = old

unfoldable pub count_card : Event → TenantCard → TenantCard
unfolding month_of_event
count_card e c = record c {
  tier = e.tier;
  checks = c.checks + 1;
  allowed = if e.allowed then c.allowed + 1 else c.allowed;
  blocked = if e.allowed then c.blocked else c.blocked + 1;
  last_seen = e.at;
  monthly = month_of_event e.monthly_used e.monthly_remaining c.monthly;
}

unfoldable pub find_tally : ℤ → List Tally → Option Tally
find_tally sec [] = none
find_tally sec (b ∷ bs) = let rest = find_tally sec bs in if eqb_ℤ b.sec sec then some b else rest

-- The second's bucket with the event counted.
bump : Event → ℤ → List Tally → List Tally
bump e sec [] = []
bump e sec (b ∷ bs) =
    let rest = bump e sec bs in
    if eqb_ℤ b.sec sec
    then (if e.allowed
        then record b { allowed = b.allowed + 1 } ∷ bs
        else record b { blocked = b.blocked + 1 } ∷ bs)
    else b ∷ rest

-- The buckets of the last two minutes.
pub pruned : ℤ → List Tally → List Tally
pruned sec [] = []
pruned sec (b ∷ bs) =
    let rest = pruned sec bs in if ltb_ℤ (pos 120) (sec -ℤ b.sec) then rest else b ∷ rest

-- The buckets with one for the second: a new one prunes the others.
unfoldable pub opened : Option Tally → ℤ → List Tally → List Tally
unfolding pruned
opened (some b) sec bs = bs
opened none sec bs = record { sec = sec; allowed = 0; blocked = 0 } ∷ pruned sec bs

unfoldable pub count_second : Event → List Tally → List Tally
unfolding bump opened
count_second e bs = let sec = quot_ℤ e.at 1000 in bump e sec (opened (find_tally sec bs) sec bs)

unfoldable pub on_decision : Event → Stats → Stats
on_decision e s = record s {
  totals = count_total e s.totals;
  per_tenant =
      insert e.tenant_id (count_card e (card_or_new (lookup e.tenant_id s.per_tenant) e.tenant_id))
        s.per_tenant;
  buckets = count_second e s.buckets;
}

pub record SeriesPoint : Type 0 where
  pub sec_ago : ℕ
  pub allowed : ℕ
  pub blocked : ℕ

pub record Snapshot : Type 0 where
  pub started_at : ℤ
  pub uptime_ms : ℤ
  pub totals : Totals
  pub tenants : List TenantCard
  pub series : List SeriesPoint

point_of : Option Tally → ℕ → SeriesPoint
point_of none ago = record { sec_ago = ago; allowed = 0; blocked = 0 }
point_of (some b) ago = record { sec_ago = ago; allowed = b.allowed; blocked = b.blocked }

-- The points from `ago` seconds ago to now, the oldest first.
unfoldable pub series_of : ℕ → ℤ → List Tally → List SeriesPoint
unfolding point_of
series_of zero now_sec bs = []
series_of (suc ago) now_sec bs =
    point_of (find_tally (now_sec -ℤ pos ago) bs) ago ∷ series_of ago now_sec bs

-- The cards, the latest seen first. `sort.Slice` leaves the order of equals open.
pub place : TenantCard → List TenantCard → List TenantCard
place c [] = c ∷ []
place c (d ∷ ds) =
    let rest = place c ds in if ltb_ℤ c.last_seen d.last_seen then d ∷ rest else c ∷ d ∷ ds

pub cards_of : Assoc TenantCard → List TenantCard
unfolding place
cards_of [] = []
cards_of ((k, c) ∷ m) = place c (cards_of m)

stamp_ban : (String → ℤ) → TenantCard → TenantCard
stamp_ban ban_check c = record c { banned_ms = ban_check c.tenant_id }

pub snapshot : Option (String → ℤ) → ℤ → Stats → Snapshot
unfolding stamp_ban cards_of
snapshot ban_check now s = record {
  started_at = s.started_at;
  uptime_ms = now -ℤ s.started_at;
  totals = s.totals;
  tenants = elim ban_check [
    | none ↦ take 24 (cards_of s.per_tenant)
    | some f ↦ map (stamp_ban f) (take 24 (cards_of s.per_tenant))
  ];
  series = series_of 60 (quot_ℤ now 1000) s.buckets;
}

unfoldable pub forget : String → Stats → Bool × Stats
forget t s = (contains t s.per_tenant, record s { per_tenant = delete t s.per_tenant })
