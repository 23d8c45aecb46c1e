-- ===== src/Lease/Decisions.antt =====
-- lease.go: a decision leaves the replica informed, and its request fits the history.
use limit_plane.Prelude.{
  ◌==◌, Bool-cases, Option-cases, ==→eq, if_cases, tests, All, ℕ, suc, ◌+◌, ◌≤◌, String, ◌≡◌, refl,
  sym, ◌∙◌, inl, inr, true, false, not, ◌&&◌, ◌||◌, some, List, [], ◌∷◌, arith,
}
use limit_plane.Lease.{
  holder_of, is_mine, observe, is_expired, renewed, decide, is_held, released, Lease, LeaderElector,
  Request, update,
}
use limit_plane.Lease.World.{current, is_version, Written}
use limit_plane.Lease.Spacing.{IsCounted, IsDistinct, IsFitting, Fits, IsInformed, IsSafe}

is_version-All :
    (P : Written → Type 0) (h : List Written) (rv : ℕ)
    → is_version rv h ≡ false
    → All (λ w. w.lease.resource_version ≡ rv → P w) h
unfolding is_version
is_version-All P [] rv e = tt
is_version-All P (w ∷ ws) rv e =
    (λ same. absurd (ground (arith, e, same)), is_version-All P ws rv (ground (arith, e)))

pub All-imp :
    {A : Type 0} {P Q : A → Type 0} (h : List A) → ((w : A) → P w → Q w) → All P h → All Q h
All-imp [] f hs = tt
All-imp (w ∷ ws) f hs = (f w hs.0, All-imp ws f hs.1)

module _ (duration delay clock : ℕ) (w : Written) (ws : List Written)
    (distinct : IsDistinct (w ∷ ws)) where
  -- Only the newest write has the newest version.
  newest :
      (P : Written → Type 0) (rv : ℕ)
      → rv ≡ w.lease.resource_version
      → P w
      → All (λ v. v.lease.resource_version ≡ rv → P v) (w ∷ ws)
  unfolding IsDistinct
  newest P rv e p = (λ _. p, is_version-All P ws rv (rw e distinct.0))

  -- A request on top of the newest write.
  update-IsFitting :
      (by : String) (lease : Lease)
      → lease.resource_version ≡ w.lease.resource_version
      → Fits duration delay clock by lease w
      → IsFitting duration delay clock (w ∷ ws) by (update lease)
  unfolding IsFitting is_version
  update-IsFitting by lease e fits =
      (ground (arith, e), newest (Fits duration delay clock by lease) lease.resource_version e fits)

  observe-IsInformed :
      (t : ℕ) (l : LeaderElector)
      → w.at ≤ t + delay
      → IsInformed duration delay (w ∷ ws) l
      → IsInformed duration delay (w ∷ ws) (observe t w.lease l)
  unfolding observe is_version
  observe-IsInformed t l late k = elim (Bool-cases (w.lease.resource_version == l.observed_rv)) [
    | inl e ↦ rw e (record { same_duration = k.same_duration; known = k.known; seen = k.seen })
    | inr e ↦ rw e (record {
      same_duration = k.same_duration;
      known = ground arith;
      seen = newest (λ v. v.at ≤ t + delay) w.lease.resource_version refl late;
    })
  ]

observe_lem :
    (t : ℕ) (cur : Lease) (l : LeaderElector) (n : ℕ)
    → cur.spec.lease_transitions ≡ some n
    → ((observe t cur l).observed_rv ≡ cur.resource_version)
      × ((observe t cur l).transitions ≡ n)
      × ((observe t cur l).identity ≡ l.identity)
unfolding observe
observe_lem t cur l n e = elim (Bool-cases (cur.resource_version == l.observed_rv)) [
  | inl same ↦ rw (same, e) (sym (==→eq _ _ same), refl, refl)
  | inr other ↦ rw (other, e) (refl, refl, refl)
]

renewed-version :
    (t : ℕ) (l : LeaderElector) (cur : Lease)
    → (renewed t l cur).resource_version ≡ cur.resource_version
unfolding renewed
renewed-version t l cur = elim (Bool-cases (is_mine l cur)) [
  | inl e ↦ rw e refl
  | inr e ↦ rw e refl
]

renewed-transitions :
    (t : ℕ) (l : LeaderElector) (cur : Lease)
    → (is_mine l cur ≡ true → (renewed t l cur).spec.lease_transitions ≡ cur.spec.lease_transitions)
      × (is_mine l cur ≡ false
          → (renewed t l cur).spec.lease_transitions ≡ some (suc l.transitions))
unfolding renewed
renewed-transitions t l cur = (λ e. rw e refl, λ e. rw e refl)

-- What a decision on the newest write leaves: the replica informed, and a request that fits.
module _ (duration delay clock : ℕ) (w : Written) (ws : List Written) (t : ℕ) (l : LeaderElector)
    (safe : IsSafe duration delay clock (w ∷ ws)) (begun : t ≤ clock) (late : clock ≤ t + delay)
    (k : IsInformed duration delay (w ∷ ws) l) where
  look : LeaderElector
  look = observe t w.lease l

  look-IsInformed : IsInformed duration delay (w ∷ ws) look
  unfolding look
  look-IsInformed =
      observe-IsInformed duration delay clock w ws safe.distinct t l
        (omega (arith, safe.past.0, late)) k

  taken_over_late : is_expired t look ≡ true → w.at + duration ≤ clock + delay
  unfolding is_expired look IsCounted
  taken_over_late e =
      let (rv, _, _) = observe_lem t w.lease l _ safe.counted.0 in
      let informed = look-IsInformed in
      let first = informed.seen.0 (sym rv) in
      omega (tests, e, informed.same_duration, first, safe.past.0, begun)

  renewed-Fits :
      (is_mine l w.lease ≡ false → is_expired t look ≡ true)
      → Fits duration delay clock l.identity (renewed t look w.lease) w
  unfolding is_mine look IsCounted
  renewed-Fits expired =
      let (_, n, same) = observe_lem t w.lease l _ safe.counted.0 in
      let (kept', counted') = renewed-transitions t (observe t w.lease l) w.lease in
      record {
        kept = λ e. kept' (rw same e);
        counted = λ m e e'. counted' (rw same e) ∙ cc (n, e', safe.counted.0);
        spaced = λ e. taken_over_late (expired e);
      }

  pub decide-IsInformed : IsInformed duration delay (w ∷ ws) (decide t (some w.lease) l).0
  unfolding decide look
  decide-IsInformed =
      if_cases (λ (p : LeaderElector × Request). IsInformed duration delay (w ∷ ws) p.0) _ _ _
        (λ _. look-IsInformed) (λ _. look-IsInformed)

  pub decide-IsFitting :
      IsFitting duration delay clock (w ∷ ws) l.identity (decide t (some w.lease) l).1
  unfolding decide look IsFitting
  decide-IsFitting =
      if_cases
        (λ (p : LeaderElector × Request). IsFitting duration delay clock (w ∷ ws) l.identity p.1)
        (not (is_mine l w.lease) && not (is_expired t (observe t w.lease l))) _ _ (λ _. tt)
        (λ tried.
          update-IsFitting duration delay clock w ws safe.distinct l.identity _
            (renewed-version t (observe t w.lease l) w.lease)
            (renewed-Fits (λ e. ground (arith, e, tried))))

  pub decide-identity : (decide t (some w.lease) l).0.identity ≡ l.identity
  unfolding decide look IsCounted
  decide-identity =
      let (_, _, same) = observe_lem t w.lease l _ safe.counted.0 in
      if_cases (λ (p : LeaderElector × Request). p.0.identity ≡ l.identity) _ _ _ (λ _. same)
        (λ _. same)

is_held-is_mine : (l : LeaderElector) (cur : Lease) → is_held l cur ≡ true → is_mine l cur ≡ true
unfolding is_held is_mine holder_of
is_held-is_mine l cur h = elim (Option-cases cur.spec.holder_identity) [
  | inl e ↦ absurd (cc (rw e at h))
  | inr (name, e) ↦ rw e (rw e at h)
]

-- A release leaves the count as it was, and comes from the holder.
pub released-IsFitting :
    (duration delay clock now : ℕ) (h : List Written) (l : LeaderElector)
    → IsDistinct h
    → IsFitting duration delay clock h l.identity (released now (current h) l)
unfolding released current IsFitting is_mine
released-IsFitting duration delay clock now [] l distinct = tt
released-IsFitting duration delay clock now (w ∷ ws) l distinct =
    if_cases (IsFitting duration delay clock (w ∷ ws) l.identity)
      (not l.is_leader || not (is_held l w.lease)) _ _ (λ _. tt)
      (λ held.
        let mine = is_held-is_mine l w.lease (ground (arith, held)) in
        update-IsFitting duration delay clock w ws distinct l.identity _ refl (record {
          kept = λ _. refl;
          counted = λ n e _. absurd (cc (mine, e));
          spaced = λ e. absurd (cc (mine, e));
        }))
