-- ===== src/Lease/Elections.antt =====
-- lease.go: over any run, the writes that changed hands are spaced, and counted.
use limit_plane.Prelude.{
  ◌==◌, Bool-cases, ==→eq, if_cases, get_elem?, All, All-map, All-set, All-get_elem?, ℕ, ◌+◌, ◌≤◌,
  String, ◌≡◌, refl, ◌∙◌, inl, inr, false, ◌||◌, Option, none, some, List, [], ◌∷◌, arith, str_eq,
}
use limit_plane.Lease.{wait, holder_of, Lease, Request, create, update}
use limit_plane.Lease.World.{
  current, is_version, accepts, served, write_reply, act, turn_of, step, run, new_replica,
  start_world, Written, Phase, Replica, World, Action, Event, idle, asking, writing, start, get,
  fail, release, write, lose_reply, tick, turn,
}
use limit_plane.Lease.Spacing.{
  changes_hands, changes, IsSpaced, IsCounted, IsDistinct, IsFitting, IsTimely, Fits, IsSafe,
}
use limit_plane.Lease.Runs.{
  later-IsSafe, later-IsGood, grown-IsGood, changed, stand_down-IsGood, start_attempt-IsGood,
  start_release-IsGood, get_reply-IsGood, IsGood,
}
use limit_plane.Lease.Decisions.{All-imp}

module _ (fresh_rv : List Written → ℕ)
    (fresh : (h : List Written) → (fresh_rv h == 0 || is_version (fresh_rv h) h) ≡ false)
    (duration delay : ℕ) where
  -- The write that an accepted request becomes.
  abbrev written : ℕ → String → Lease → List Written → Written
  written now by lease h = record {
    lease = record lease { resource_version = fresh_rv h };
    by = by;
    at = now;
  }

  fresh_unseen : (h : List Written) → is_version (fresh_rv h) h ≡ false
  fresh_unseen h = ground (arith, fresh h)

  created-IsSafe :
      (clock : ℕ) (by : String) (lease : Lease)
      → lease.spec.lease_transitions ≡ some 0
      → IsSafe duration delay clock (written clock by lease [] ∷ [])
  unfolding IsDistinct IsSpaced IsCounted is_version changes
  created-IsSafe clock by lease f = record {
    past = (omega arith, tt);
    distinct = (refl, tt);
    spaced = tt;
    counted = (f, tt);
  }

  updated-IsSafe :
      (clock : ℕ) (by : String) (lease : Lease) (w : Written) (ws : List Written)
      → Fits duration delay clock by lease w
      → IsSafe duration delay clock (w ∷ ws)
      → IsSafe duration delay clock (written clock by lease (w ∷ ws) ∷ w ∷ ws)
  unfolding IsDistinct IsSpaced IsCounted changes changes_hands
  updated-IsSafe clock by lease w ws f s = record {
    past = (omega arith, s.past);
    distinct = (fresh_unseen (w ∷ ws), s.distinct);
    spaced = (λ took. f.spaced (ground (arith, took)), s.spaced);
    counted = (
      elim (Bool-cases (str_eq (holder_of w.lease) by)) [
        | inl mine ↦ rw mine (f.kept mine ∙ s.counted.0)
        | inr other ↦ rw other (f.counted (changes (w ∷ ws)) other s.counted.0)
      ],
      s.counted,
    );
  }

  served-IsSafe :
      (clock : ℕ) (by : String) (request : Request) (h : List Written)
      → IsFitting duration delay clock h by request
      → IsSafe duration delay clock h
      → IsSafe duration delay clock (served fresh_rv clock by request h)
  unfolding served accepts current IsFitting
  served-IsSafe clock by (create lease) [] f s = created-IsSafe clock by lease f
  served-IsSafe clock by (create lease) (w ∷ ws) f s = s
  served-IsSafe clock by (update lease) [] f s = s
  served-IsSafe clock by (update lease) (w ∷ ws) f s =
      if_cases (IsSafe duration delay clock) (w.lease.resource_version == lease.resource_version) _
        _ (λ same. updated-IsSafe clock by lease w ws (f.1.0 (==→eq _ _ same)) s) (λ _. s)
  served-IsSafe clock by wait h f s = s

  served-IsGood :
      (clock now : ℕ) (by : String) (request : Request) (h : List Written) (r : Replica)
      → IsGood duration delay clock h r
      → IsGood duration delay clock (served fresh_rv now by request h) r
  unfolding served
  served-IsGood clock now by (create lease) h r g =
      if_cases (λ h'. IsGood duration delay clock h' r) (accepts h (create lease)) _ _
        (λ _. grown-IsGood duration delay clock h (written now by lease h) (fresh h) r g) (λ _. g)
  served-IsGood clock now by (update lease) h r g =
      if_cases (λ h'. IsGood duration delay clock h' r) (accepts h (update lease)) _ _
        (λ _. grown-IsGood duration delay clock h (written now by lease h) (fresh h) r g) (λ _. g)
  served-IsGood clock now by wait h r g = g

  -- What a step of one replica keeps: the history safe, every other replica good, and itself.
  IsKept : ℕ → List Written → List Written × Replica → Type 0
  IsKept clock h p =
      IsSafe duration delay clock p.0
      × IsGood duration delay clock p.0 p.1
      × ((r : Replica) → IsGood duration delay clock h r → IsGood duration delay clock p.0 r)

  write_reply-IsKept :
      (clock : ℕ) (h : List Written) (r : Replica) (phase : Phase)
      → IsSafe duration delay clock h
      → IsGood duration delay clock h r
      → IsTimely duration delay clock h r.elector.identity phase
      → IsKept clock h (write_reply fresh_rv clock h r phase)
  unfolding write_reply IsKept IsTimely
  write_reply-IsKept clock h r idle s g f = (s, g, λ r' g'. g')
  write_reply-IsKept clock h r (asking t) s g f = (s, g, λ r' g'. g')
  write_reply-IsKept clock h r (writing leads request) s g f =
      let others = served-IsGood clock clock r.elector.identity request h in
      (
        served-IsSafe clock r.elector.identity request h f s,
        changed duration delay clock _ r _ idle (others r g) tt,
        others,
      )

  act-IsKept :
      (a : Action) (clock : ℕ) (h : List Written) (r : Replica)
      → IsSafe duration delay clock h
      → IsGood duration delay clock h r
      → IsKept clock h (act fresh_rv delay a clock h r)
  unfolding act IsKept
  act-IsKept start clock h r s g =
      (s, start_attempt-IsGood duration delay clock h r r.phase g, λ r' g'. g')
  act-IsKept get clock h r s g =
      (s, get_reply-IsGood duration delay clock h r r.phase s g g.timely, λ r' g'. g')
  act-IsKept fail clock h r s g = (s, stand_down-IsGood duration delay clock h r g, λ r' g'. g')
  act-IsKept release clock h r s g =
      (s, start_release-IsGood duration delay clock h r r.phase s.distinct g, λ r' g'. g')
  act-IsKept write clock h r s g = write_reply-IsKept clock h r r.phase s g g.timely
  act-IsKept lose_reply clock h r s g =
      let (s', g', others) = write_reply-IsKept clock h r r.phase s g g.timely in
      (s', stand_down-IsGood duration delay clock _ _ g', others)

  -- The world's invariant.
  IsSound : World → Type 0
  IsSound w =
      IsSafe duration delay w.clock w.history
      × All (IsGood duration delay w.clock w.history) w.replicas

  turn_of-IsSound :
      (o : Option Replica) (i : ℕ) (a : Action) (w : World)
      → get_elem? w.replicas i ≡ o
      → IsSound w
      → IsSound (turn_of fresh_rv o delay i a w)
  unfolding turn_of IsSound IsKept
  turn_of-IsSound none i a w e s = s
  turn_of-IsSound (some r) i a w e (s, good) =
      let g = All-get_elem? _ w.replicas i r good e in
      let (s', g', others) = act-IsKept a w.clock w.history r s g in
      (s', All-set _ w.replicas i _ g' (All-imp w.replicas others good))

  step-IsSound : (e : Event) (w : World) → IsSound w → IsSound (step fresh_rv delay e w)
  unfolding step IsSound
  step-IsSound (tick d) w (s, good) =
      let later : w.clock ≤ w.clock + d = omega arith in
      (
        later-IsSafe duration delay w.clock (w.clock + d) later w.history s,
        All-imp w.replicas (later-IsGood duration delay w.clock (w.clock + d) later w.history) good,
      )
  step-IsSound (turn i a) w s = turn_of-IsSound (get_elem? w.replicas i) i a w refl s

  run-IsSound : (es : List Event) (w : World) → IsSound w → IsSound (run fresh_rv delay es w)
  unfolding run
  run-IsSound [] w s = s
  run-IsSound (e ∷ es) w s = run-IsSound es (step fresh_rv delay e w) (step-IsSound e w s)

  start_world-IsSound : (names : List String) → IsSound (start_world duration names)
  unfolding start_world new_replica IsSound IsDistinct IsSpaced IsCounted IsTimely
  start_world-IsSound names = (
    record { past = tt; distinct = tt; spaced = tt; counted = tt },
    All-map _ (new_replica duration) names (λ name. record {
      informed = record { same_duration = refl; known = refl; seen = tt };
      timely = tt;
    }),
  )

-- Replicas with one lease duration, in any order of their steps: a write that takes the lease from another
-- holder, or from nobody, is accepted at least the duration after the write before it, less the longest
-- time that a read may take. A server that never gives a version twice, and never the empty one, is
-- enough; the clocks of the holders are not used.
pub run-IsSpaced :
    (fresh_rv : List Written → ℕ)
    → ((h : List Written) → (fresh_rv h == 0 || is_version (fresh_rv h) h) ≡ false)
    → (duration delay : ℕ) (names : List String) (es : List Event)
    → IsSpaced duration delay (run fresh_rv delay es (start_world duration names)).history
unfolding IsSound
run-IsSpaced fresh_rv fresh duration delay names es =
    (run-IsSound fresh_rv fresh duration delay es (start_world duration names)
      (start_world-IsSound fresh_rv fresh duration delay names)).0.spaced

-- Under the same conditions, the transitions that each accepted write carries are the number of times that
-- the lease has changed hands up to it: no change is lost when replicas race, nor counted twice.
pub run-IsCounted :
    (fresh_rv : List Written → ℕ)
    → ((h : List Written) → (fresh_rv h == 0 || is_version (fresh_rv h) h) ≡ false)
    → (duration delay : ℕ) (names : List String) (es : List Event)
    → IsCounted (run fresh_rv delay es (start_world duration names)).history
unfolding IsSound
run-IsCounted fresh_rv fresh duration delay names es =
    (run-IsSound fresh_rv fresh duration delay es (start_world duration names)
      (start_world-IsSound fresh_rv fresh duration delay names)).0.counted
