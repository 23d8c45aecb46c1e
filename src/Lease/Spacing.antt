-- ===== src/Lease/Spacing.antt =====
-- lease.go: what the history of a lease promises, and what the replicas know of it.
use limit_plane.Prelude.{
  ◌==◌, if◌then◌else◌, All, ℕ, suc, ◌+◌, ◌≤◌, String, ◌≡◌, Bool, true, false, not, ◌||◌, some, List,
  [], ◌∷◌, str_eq,
}
use limit_plane.Lease.{wait, holder_of, Lease, LeaderElector, Request, create, update}
use limit_plane.Lease.World.{is_version, Written, Phase, idle, asking, writing}

-- Whether the write took the lease from another holder, or from nobody.
unfoldable pub changes_hands : Written → Written → Bool
changes_hands before w = not (str_eq (holder_of before.lease) w.by)

-- How often the lease changed hands.
unfoldable pub changes : List Written → ℕ
changes [] = 0
changes (w ∷ []) = 0
changes (w ∷ before ∷ ws) =
    let earlier = changes (before ∷ ws) in if changes_hands before w then suc earlier else earlier

-- Each write that changed hands came at least the duration after the write before it, less the delay of
-- a read.
unfoldable pub IsSpaced : ℕ → ℕ → List Written → Type 0
IsSpaced duration delay [] = Unit {0}
IsSpaced duration delay (w ∷ []) = Unit {0}
IsSpaced duration delay (w ∷ before ∷ ws) =
    (changes_hands before w ≡ true → before.at + duration ≤ w.at + delay)
    × IsSpaced duration delay (before ∷ ws)

-- Each write carries the number of changes up to it.
unfoldable pub IsCounted : List Written → Type 0
IsCounted [] = Unit {0}
IsCounted (w ∷ ws) = (w.lease.spec.lease_transitions ≡ some (changes (w ∷ ws))) × IsCounted ws

unfoldable pub IsDistinct : List Written → Type 0
IsDistinct [] = Unit {0}
IsDistinct (w ∷ ws) = (is_version w.lease.resource_version ws ≡ false) × IsDistinct ws

-- A write of this version, and what it means for a request on top of it.
pub record Fits (duration delay clock : ℕ) (by : String) (next : Lease) (w : Written) : Type 0 where
  pub kept :
      str_eq (holder_of w.lease) by ≡ true
      → next.spec.lease_transitions ≡ w.lease.spec.lease_transitions
  pub counted :
      (n : ℕ)
      → str_eq (holder_of w.lease) by ≡ false
      → w.lease.spec.lease_transitions ≡ some n
      → next.spec.lease_transitions ≡ some (suc n)
  pub spaced : str_eq (holder_of w.lease) by ≡ false → w.at + duration ≤ clock + delay

unfoldable pub IsFitting : ℕ → ℕ → ℕ → List Written → String → Request → Type 0
IsFitting duration delay clock h by (create lease) = lease.spec.lease_transitions ≡ some 0
IsFitting duration delay clock h by (update lease) =
    (is_version lease.resource_version h ≡ true)
    × All
        (λ w.
          w.lease.resource_version ≡ lease.resource_version → Fits duration delay clock by lease w)
        h
IsFitting duration delay clock h by wait = Unit {0}

unfoldable pub IsTimely : ℕ → ℕ → ℕ → List Written → String → Phase → Type 0
IsTimely duration delay clock h by idle = Unit {0}
IsTimely duration delay clock h by (asking t) = t ≤ clock
IsTimely duration delay clock h by (writing leads request) =
    IsFitting duration delay clock h by request

-- What a replica knows of the history.
pub record IsInformed (duration delay : ℕ) (h : List Written) (l : LeaderElector) : Type 0 where
  pub same_duration : l.lease_duration ≡ duration
  pub known : (l.observed_rv == 0 || is_version l.observed_rv h) ≡ true
  pub seen : All (λ w. w.lease.resource_version ≡ l.observed_rv → w.at ≤ l.observed_at + delay) h

pub record IsSafe (duration delay clock : ℕ) (h : List Written) : Type 0 where
  pub past : All (λ w. w.at ≤ clock) h
  pub distinct : IsDistinct h
  pub spaced : IsSpaced duration delay h
  pub counted : IsCounted h
