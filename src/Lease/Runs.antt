-- ===== src/Lease/Runs.antt =====
-- lease.go: the invariant of the replicas and the server, kept by every step.
use limit_plane.Prelude.{
  leb, ◌==◌, leb→le, if_cases, ℕ, ◌+◌, ◌≤◌, String, ◌≡◌, refl, Bool, true, false, ◌||◌, List, [],
  ◌∷◌, arith,
}
use limit_plane.Lease.{wait, first_lease, decide, released, LeaderElector, Request, create, update}
use limit_plane.Lease.World.{
  current, is_version, stand_down, start_attempt, start_release, get_reply, Written, Phase, Replica,
  idle, asking, writing,
}
use limit_plane.Lease.Spacing.{IsDistinct, IsFitting, IsTimely, IsInformed, IsSafe}
use limit_plane.Lease.Decisions.{
  All-imp, decide-IsInformed, decide-IsFitting, decide-identity, released-IsFitting,
}

-- What holds of a replica: it knows what it saw, and what it asks fits.
pub record IsGood (duration delay clock : ℕ) (h : List Written) (r : Replica) : Type 0 where
  pub informed : IsInformed duration delay h r.elector
  pub timely : IsTimely duration delay clock h r.elector.identity r.phase

module _ (duration delay clock clock' : ℕ) (later : clock ≤ clock') (h : List Written) where
  pub later-IsSafe : IsSafe duration delay clock h → IsSafe duration delay clock' h
  later-IsSafe s = record {
    past = All-imp h (λ w p. omega (arith, p, later)) s.past;
    distinct = s.distinct;
    spaced = s.spaced;
    counted = s.counted;
  }

  later-IsFitting :
      (by : String) (request : Request)
      → IsFitting duration delay clock h by request
      → IsFitting duration delay clock' h by request
  unfolding IsFitting
  later-IsFitting by (create lease) f = f
  later-IsFitting by (update lease) f = (
    f.0,
    All-imp h
        (λ w fits same. record {
          kept = (fits same).kept;
          counted = (fits same).counted;
          spaced = λ e. omega (arith, later, (fits same).spaced e);
        })
        f.1,
  )
  later-IsFitting by wait f = tt

  later-IsTimely :
      (by : String) (phase : Phase)
      → IsTimely duration delay clock h by phase
      → IsTimely duration delay clock' h by phase
  unfolding IsTimely
  later-IsTimely by idle f = tt
  later-IsTimely by (asking t) f = omega (arith, f, later)
  later-IsTimely by (writing leads request) f = later-IsFitting by request f

  pub later-IsGood :
      (r : Replica) → IsGood duration delay clock h r → IsGood duration delay clock' h r
  later-IsGood r g = record {
    informed = g.informed;
    timely = later-IsTimely r.elector.identity r.phase g.timely;
  }

-- The history grows by a write with a version that no write had.
module _ (duration delay clock : ℕ) (h : List Written) (w : Written)
    (unseen : (w.lease.resource_version == 0 || is_version w.lease.resource_version h)
      ≡ false) where
  grown-IsInformed :
      (l : LeaderElector) → IsInformed duration delay h l → IsInformed duration delay (w ∷ h) l
  unfolding is_version
  grown-IsInformed l k = record {
    same_duration = k.same_duration;
    known = ground (arith, k.known);
    seen = (λ same. absurd (cc (unseen, k.known, same)), k.seen);
  }

  grown-IsFitting :
      (by : String) (request : Request)
      → IsFitting duration delay clock h by request
      → IsFitting duration delay clock (w ∷ h) by request
  unfolding IsFitting is_version
  grown-IsFitting by (create lease) f = f
  grown-IsFitting by (update lease) (known, fits) = (
    ground (arith, known),
    (
      λ same.
          let seen : is_version w.lease.resource_version h ≡ true = rw same known in
          absurd (ground (arith, unseen, seen)),
      fits,
    ),
  )
  grown-IsFitting by wait f = tt

  grown-IsTimely :
      (by : String) (phase : Phase)
      → IsTimely duration delay clock h by phase
      → IsTimely duration delay clock (w ∷ h) by phase
  unfolding IsTimely
  grown-IsTimely by idle f = tt
  grown-IsTimely by (asking t) f = f
  grown-IsTimely by (writing leads request) f = grown-IsFitting by request f

  pub grown-IsGood :
      (r : Replica) → IsGood duration delay clock h r → IsGood duration delay clock (w ∷ h) r
  grown-IsGood r g = record {
    informed = grown-IsInformed r.elector g.informed;
    timely = grown-IsTimely r.elector.identity r.phase g.timely;
  }

module _ (duration delay clock : ℕ) (h : List Written) where
  -- The replica's steps that ask nothing of the server.
  pub changed :
      (r : Replica) (leads : Bool) (phase : Phase)
      → IsGood duration delay clock h r
      → IsTimely duration delay clock h r.elector.identity phase
      → IsGood duration delay clock h
          (record { elector = record r.elector { is_leader = leads }; phase = phase })
  changed r leads phase g f = record {
    informed = record {
      same_duration = g.informed.same_duration;
      known = g.informed.known;
      seen = g.informed.seen;
    };
    timely = f;
  }

  pub stand_down-IsGood :
      (r : Replica) → IsGood duration delay clock h r → IsGood duration delay clock h (stand_down r)
  unfolding stand_down IsTimely
  stand_down-IsGood r g = changed r false idle g tt

  pub start_attempt-IsGood :
      (r : Replica) (phase : Phase)
      → IsGood duration delay clock h r
      → IsGood duration delay clock h (start_attempt clock r phase)
  unfolding start_attempt IsTimely
  start_attempt-IsGood r idle g = changed r r.elector.is_leader (asking clock) g (omega arith)
  start_attempt-IsGood r (asking t) g = g
  start_attempt-IsGood r (writing leads request) g = g

  pub start_release-IsGood :
      (r : Replica) (phase : Phase)
      → IsDistinct h
      → IsGood duration delay clock h r
      → IsGood duration delay clock h (start_release clock h r phase)
  unfolding start_release IsTimely
  start_release-IsGood r idle distinct g =
      changed r r.elector.is_leader (writing false (released clock (current h) r.elector)) g
        (released-IsFitting duration delay clock clock h r.elector distinct)
  start_release-IsGood r (asking t) distinct g = g
  start_release-IsGood r (writing leads request) distinct g = g

-- A read of the server's lease, in time.
decided-IsGood :
    (duration delay clock : ℕ) (h : List Written) (r : Replica) (t : ℕ)
    → IsSafe duration delay clock h
    → IsGood duration delay clock h r
    → t ≤ clock
    → clock ≤ t + delay
    → IsGood duration delay clock h (record {
      elector = (decide t (current h) r.elector).0;
      phase = writing true (decide t (current h) r.elector).1;
    })
unfolding current IsTimely IsFitting decide first_lease
decided-IsGood duration delay clock [] r t s g begun late = record {
  informed = g.informed;
  timely = refl;
}
decided-IsGood duration delay clock (w ∷ ws) r t s g begun late = record {
  informed = decide-IsInformed duration delay clock w ws t r.elector s begun late g.informed;
  timely =
      rw (decide-identity duration delay clock w ws t r.elector s begun late g.informed)
        (decide-IsFitting duration delay clock w ws t r.elector s begun late g.informed);
}

pub get_reply-IsGood :
    (duration delay clock : ℕ) (h : List Written) (r : Replica) (phase : Phase)
    → IsSafe duration delay clock h
    → IsGood duration delay clock h r
    → IsTimely duration delay clock h r.elector.identity phase
    → IsGood duration delay clock h (get_reply delay clock h r phase)
unfolding get_reply IsTimely
get_reply-IsGood duration delay clock h r idle s g f = g
get_reply-IsGood duration delay clock h r (asking t) s g f =
    if_cases (IsGood duration delay clock h) (leb clock (t + delay)) _ _
      (λ late. decided-IsGood duration delay clock h r t s g f (leb→le _ _ late))
      (λ _. stand_down-IsGood duration delay clock h r g)
get_reply-IsGood duration delay clock h r (writing leads request) s g f = g
