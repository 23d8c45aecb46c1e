-- ===== src/Lease/World.antt =====
-- lease.go: the replicas and the API server, with the steps of their attempts in any order.
use limit_plane.Prelude.{
  leb, ◌==◌, if◌then◌else◌, get_elem?, set, ℕ, ◌+◌, String, Bool, true, false, ◌&&◌, ◌||◌, Option,
  none, some, List, [], ◌∷◌, map,
}
use limit_plane.Lease.{wait, decide, released, Lease, LeaderElector, Request, create, update}

-- An accepted write: the lease with the version that it got, who wrote it, and when.
pub record Written : Type 0 where
  pub lease : Lease
  pub by : String
  pub at : ℕ

-- Between its steps an attempt has taken the time, or has decided on a request; a release is told apart.
pub data Phase : Type 0 where
  idle : Phase
  asking : ℕ → Phase
  writing : Bool → Request → Phase

pub record Replica : Type 0 where
  pub elector : LeaderElector
  pub phase : Phase

pub record World : Type 0 where
  pub clock : ℕ
  pub history : List Written
  pub replicas : List Replica

unfoldable pub current : List Written → Option Lease
current [] = none
current (w ∷ ws) = some w.lease

-- A version that some write has.
unfoldable pub is_version : ℕ → List Written → Bool
is_version rv [] = false
is_version rv (w ∷ ws) = (w.lease.resource_version == rv) || is_version rv ws

-- What the API server documents: a create is accepted where there is no object, an update where the
-- object has still the version that the update carries.
unfoldable pub accepts : List Written → Request → Bool
accepts h (create lease) = elim (current h) [ none ↦ true | some cur ↦ false ]
accepts h (update lease) = elim (current h) [
  | none ↦ false
  | some cur ↦ cur.resource_version == lease.resource_version
]
accepts h wait = false

-- What a replica does, or what happens to its request: a reply that is lost leaves the replica in the
-- belief that its write failed.
pub data Action : Type 0 where
  start get fail release write lose_reply : Action

unfoldable pub stand_down : Replica → Replica
stand_down r = record { elector = record r.elector { is_leader = false }; phase = idle }

unfoldable pub start_attempt : ℕ → Replica → Phase → Replica
start_attempt now r idle = record r { phase = asking now }
start_attempt now r (asking t) = r
start_attempt now r (writing leads request) = r

unfoldable pub start_release : ℕ → List Written → Replica → Phase → Replica
start_release now h r idle = record r { phase = writing false (released now (current h) r.elector) }
start_release now h r (asking t) = r
start_release now h r (writing leads request) = r

-- The lease is read at the time `now`, for an attempt that took the time before, at most `delay` ago.
unfoldable pub get_reply : ℕ → ℕ → List Written → Replica → Phase → Replica
unfolding stand_down
get_reply delay now h r idle = r
get_reply delay now h r (asking t) =
    let (l, request) = decide t (current h) r.elector in
    if leb now (t + delay)
    then record { elector = l; phase = writing true request }
    else stand_down r
get_reply delay now h r (writing leads request) = r

pub data Event : Type 0 where
  tick : ℕ → Event
  turn : ℕ → Action → Event

module _ (fresh_rv : List Written → ℕ) where
  -- The server's history after a request, which it refuses or gives a version.
  unfoldable pub served : ℕ → String → Request → List Written → List Written
  served now by (create lease) h =
      if accepts h (create lease)
      then record { lease = record lease { resource_version = fresh_rv h }; by = by; at = now } ∷ h
      else h
  served now by (update lease) h =
      if accepts h (update lease)
      then record { lease = record lease { resource_version = fresh_rv h }; by = by; at = now } ∷ h
      else h
  served now by wait h = h

  -- A replica whose write was accepted leads, unless it released.
  unfoldable pub write_reply : ℕ → List Written → Replica → Phase → List Written × Replica
  unfolding served stand_down
  write_reply now h r idle = (h, r)
  write_reply now h r (asking t) = (h, r)
  write_reply now h r (writing leads request) = (
    served now r.elector.identity request h,
    record { elector = record r.elector { is_leader = leads && accepts h request }; phase = idle },
  )

  unfoldable pub act : ℕ → Action → ℕ → List Written → Replica → List Written × Replica
  unfolding write_reply start_attempt start_release get_reply stand_down
  act delay start now h r = (h, start_attempt now r r.phase)
  act delay get now h r = (h, get_reply delay now h r r.phase)
  act delay fail now h r = (h, stand_down r)
  act delay release now h r = (h, start_release now h r r.phase)
  act delay write now h r = write_reply now h r r.phase
  act delay lose_reply now h r = let (h', r') = write_reply now h r r.phase in (h', stand_down r')

  unfoldable pub turn_of : Option Replica → ℕ → ℕ → Action → World → World
  turn_of none delay i a w = w
  turn_of (some r) delay i a w =
      let (h, r') = act delay a w.clock w.history r in
      record w { history = h; replicas = set w.replicas i r' }

  unfoldable pub step : ℕ → Event → World → World
  unfolding turn_of act
  step delay (tick d) w = record w { clock = w.clock + d }
  step delay (turn i a) w = turn_of (get_elem? w.replicas i) delay i a w

  unfoldable pub run : ℕ → List Event → World → World
  run delay [] w = w
  run delay (e ∷ es) w = run delay es (step delay e w)

unfoldable pub new_replica : ℕ → String → Replica
new_replica duration name = record {
  elector = record {
    identity = name;
    lease_duration = duration;
    is_leader = false;
    observed_rv = 0;
    observed_at = 0;
    transitions = 0;
  };
  phase = idle;
}

-- No lease yet, and a replica for each name, with one lease duration.
unfoldable pub start_world : ℕ → List String → World
unfolding new_replica
start_world duration names = record {
  clock = 0;
  history = [];
  replicas = map (new_replica duration) names;
}
