-- ===== src/Lease.antt =====
-- internal/k8s/lease.go: the leader election. The API server is the list of the writes that it accepted,
-- newest first; which version it gives to a write is a parameter. A resource version is opaque, and only
-- compared: it is a number, and 0 is the empty string. A time is a number of milliseconds, as the elector
-- measures it and as it is stamped.
pub mod World
pub mod Spacing
pub mod Decisions
pub mod Runs
pub mod Elections
pub mod Examples
use limit_plane.Prelude.{
  leb, ◌==◌, if◌then◌else◌, ℕ, suc, ◌-◌, ◌/◌, String, Bool, false, not, ◌&&◌, ◌||◌, Option, none,
  some, str_eq,
}

pub record LeaseSpec : Type 0 where
  pub holder_identity : Option String
  pub lease_duration_seconds : Option ℕ
  pub acquire_time : Option ℕ
  pub renew_time : Option ℕ
  pub lease_transitions : Option ℕ

pub record Lease : Type 0 where
  pub resource_version : ℕ
  pub spec : LeaseSpec

pub record LeaderElector : Type 0 where
  pub identity : String
  pub lease_duration : ℕ
  pub is_leader : Bool
  pub observed_rv : ℕ
  pub observed_at : ℕ
  pub transitions : ℕ

-- What an attempt asks of the server next.
pub data Request : Type 0 where
  create update : Lease → Request
  wait : Request

unfoldable pub holder_of : Lease → String
holder_of cur = elim cur.spec.holder_identity [ none ↦ "" | some h ↦ h ]

unfoldable pub is_mine : LeaderElector → Lease → Bool
is_mine l cur = str_eq (holder_of cur) l.identity

-- The lease that the first replica creates.
unfoldable pub first_lease : ℕ → LeaderElector → Lease
first_lease now l = record {
  resource_version = 0;
  spec = record {
    holder_identity = some l.identity;
    lease_duration_seconds = some (l.lease_duration / 1000);
    acquire_time = some now;
    renew_time = some now;
    lease_transitions = some 0;
  };
}

-- The version and the time of its first sight, and the count that the lease carries.
unfoldable pub observe : ℕ → Lease → LeaderElector → LeaderElector
observe now cur l =
    let count : ℕ = elim cur.spec.lease_transitions [ none ↦ l.transitions | some n ↦ n ] in
    if cur.resource_version == l.observed_rv
    then record l { transitions = count }
    else record l { observed_rv = cur.resource_version; observed_at = now; transitions = count }

unfoldable pub is_expired : ℕ → LeaderElector → Bool
is_expired now l = leb l.lease_duration (now - l.observed_at)

-- The lease as this replica writes it, over the one that it read.
unfoldable pub renewed : ℕ → LeaderElector → Lease → Lease
renewed now l cur =
    let spec = record cur.spec {
      holder_identity = some l.identity;
      lease_duration_seconds = some (l.lease_duration / 1000);
      renew_time = some now;
    } in
    if is_mine l cur then record cur { spec = spec } else record cur {
      spec = record spec { acquire_time = some now; lease_transitions = some (suc l.transitions) };
    }

-- An attempt behind its read: `none` is a lease that is not there.
unfoldable pub decide : ℕ → Option Lease → LeaderElector → LeaderElector × Request
decide now none l = (l, create (first_lease now l))
decide now (some cur) l =
    let l' = observe now cur l in
    if not (is_mine l cur) && not (is_expired now l')
    then (l', wait)
    else (l', update (renewed now l' cur))

-- There is a holder, and it is this replica.
unfoldable pub is_held : LeaderElector → Lease → Bool
is_held l cur = elim cur.spec.holder_identity [ none ↦ false | some h ↦ str_eq h l.identity ]

-- The lease without a holder, for the one who holds it.
unfoldable pub released : ℕ → Option Lease → LeaderElector → Request
released now none l = wait
released now (some cur) l =
    if not l.is_leader || not (is_held l cur)
    then wait
    else update (record cur {
      spec = record cur.spec {
        holder_identity = some "";
        renew_time = some (now - l.lease_duration);
      };
    })
