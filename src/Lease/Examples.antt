-- ===== src/Lease/Examples.antt =====
-- lease.go: the theorems at a run of two replicas, and tests.
use limit_plane.Prelude.{
  ◌==◌, ℕ, suc, ◌+◌, ◌<◌, String, ◌≡◌, refl, false, ◌||◌, List, [], ◌∷◌, map, arith,
}
use limit_plane.Lease.{holder_of, is_mine, first_lease, observe, is_expired, renewed, decide}
use limit_plane.Lease.World.{
  current, is_version, accepts, stand_down, start_attempt, get_reply, served, write_reply, act,
  turn_of, step, run, new_replica, start_world, Written, Event, start, get, write, tick, turn,
}
use limit_plane.Lease.Spacing.{IsSpaced, IsCounted}
use limit_plane.Lease.Elections.{run-IsSpaced, run-IsCounted}

-- Versions that are sums: each is above all that were given.
total : List Written → ℕ
total [] = 0
total (w ∷ ws) = w.lease.resource_version + total ws

next_version : List Written → ℕ
unfolding total
next_version h = suc (total h)

above_total : (rv : ℕ) (h : List Written) → total h < rv → is_version rv h ≡ false
unfolding is_version total
above_total rv [] e = refl
above_total rv (w ∷ ws) e = ground (arith, above_total rv ws (omega (arith, e)), e)

next_version-fresh :
    (h : List Written) → (next_version h == 0 || is_version (next_version h) h) ≡ false
unfolding next_version
next_version-fresh h = ground (arith, above_total (suc (total h)) h (omega arith))

-- The first replica creates the lease and dies; the second sees it, and takes it after its duration.
abbrev events : List Event
events =
    turn 0 start
    ∷ turn 0 get
    ∷ turn 0 write
    ∷ tick 20_000
    ∷ turn 1 start
    ∷ tick 5
    ∷ turn 1 get
    ∷ turn 1 write
    ∷ tick 15_000
    ∷ turn 1 start
    ∷ turn 1 get
    ∷ turn 1 write
    ∷ []

abbrev names : List String
names = "a" ∷ "b" ∷ []

took_over :
    map (λ w. w.at) (run next_version 100 events (start_world 15_000 names)).history
    ≡ 35_005 ∷ 0 ∷ []
unfolding run step turn_of act write_reply served accepts current start_attempt get_reply stand_down
    decide first_lease observe is_expired renewed is_mine holder_of is_version start_world
    new_replica next_version
took_over = refl

run-IsSpaced_example :
    IsSpaced 15_000 100 (run next_version 100 events (start_world 15_000 names)).history
run-IsSpaced_example = run-IsSpaced next_version next_version-fresh 15_000 100 names events

run-IsCounted_example : IsCounted (run next_version 100 events (start_world 15_000 names)).history
run-IsCounted_example = run-IsCounted next_version next_version-fresh 15_000 100 names events
