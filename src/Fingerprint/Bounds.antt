-- ===== src/Fingerprint/Bounds.antt =====
-- fingerprint.go: what is kept, and what a lane may do to a limit.
use limit_plane.Prelude.{
  ltb, Bool-cases, ltb-false, ℤ, length, length-append, length-drop, ℕ, ◌+◌, ◌-◌, ◌≤◌, String, ◌≡◌,
  refl, ◌∙◌, ◌⊎◌, inl, inr, true, false, Option, none, some, List, [], ◌∷◌, ◌++◌, arith, str_eq,
}
use limit_plane.Prelude.Assoc.{
  Assoc, lookup, insert, delete, contains, lookup-insert, lookup-delete, Unique, insert-Unique,
  delete-Unique,
}
use limit_plane.Prelude.Listed.{Listed, append-Listed, delete-Listed, update-Listed, length-Listed}
use limit_plane.Fingerprint.{
  new, evicted, tracked, extended, observe, Observation, Client, Fingerprints, warming,
}

-- The order is within the cap and has every client of the table, whose keys stand once in it; each
-- client's events are within the window.
pub record IsBounded (f : Fingerprints) : Type 0 where
  pub few : length f.order ≤ 1000
  pub listed : Listed f.clients f.order
  pub distinct : Unique f.clients
  pub short : (k : String) (c : Client) → lookup k f.clients ≡ some c → length c.events ≤ f.window

pub new-IsBounded : (window : ℤ) → IsBounded (new window)
unfolding new lookup
new-IsBounded window = record {
  few = omega arith;
  listed = λ k c e. cc;
  distinct = tt;
  short = λ k c e. cc;
}

extended-length :
    (window : ℕ) (c : Client) (o : Observation) → length (extended window c o).events ≤ window
unfolding extended
extended-length window c o =
    omega (arith, length-drop (length (c.events ++ o ∷ []) - window) (c.events ++ o ∷ []))

evicted-IsBounded :
    (order : List String) (clients : Assoc Client) (f : Fingerprints)
    → length order ≤ 1001
    → Listed clients order
    → Unique clients
    → ((k : String) (c : Client) → lookup k clients ≡ some c → length c.events ≤ f.window)
    → IsBounded (evicted order clients f)
unfolding evicted
evicted-IsBounded [] clients f h l u s = record {
  few = omega arith;
  listed = l;
  distinct = u;
  short = s;
}
evicted-IsBounded (oldest ∷ rest) clients f h l u s = record {
  few = omega arith;
  listed = delete-Listed oldest rest clients l;
  distinct = delete-Unique oldest clients u;
  short = λ k c e. kept k c (Bool-cases (str_eq oldest k)) e;
}
  where
    kept :
        (k : String) (c : Client)
        → (str_eq oldest k ≡ true) ⊎ (str_eq oldest k ≡ false)
        → lookup k (delete oldest clients) ≡ some c
        → length c.events ≤ f.window
    kept k c (inl g) e = absurd (gone (rw (lookup-delete oldest k clients, g) at e))
      where
        gone : none ≡ some c → ⊥
        gone q = cc
    kept k c (inr g) e = s k c (rw (lookup-delete oldest k clients, g) at e)

inserted-short :
    (t : String) (v : Client) (clients : Assoc Client) (w : ℕ)
    → length v.events ≤ w
    → ((k : String) (c : Client) → lookup k clients ≡ some c → length c.events ≤ w)
    → (k : String) (c : Client) → lookup k (insert t v clients) ≡ some c
    → length c.events ≤ w
inserted-short t v clients w h s k c e = elim (Bool-cases (str_eq t k)) [
  | inl g ↦ same (rw (lookup-insert t k v clients, g) at e)
  | inr g ↦ s k c (rw (lookup-insert t k v clients, g) at e)
]
  where
    same : some v ≡ some c → length c.events ≤ w
    same q = let p : v ≡ c = cc in rw p at h

tracked-IsBounded :
    (o : Option Client) (t : String) (f : Fingerprints) → IsBounded f → IsBounded (tracked o t f).1
unfolding tracked
tracked-IsBounded (some c) t f b = b
tracked-IsBounded none t f b =
    let order = f.order ++ t ∷ [] in
    let clients = insert t (record { events = []; label = warming }) f.clients in
    let long : length order ≡ length f.order + 1 = length-append f.order (t ∷ []) in
    let s =
      inserted-short t (record { events = []; label = warming }) f.clients f.window (omega arith)
        b.short in
    let l = append-Listed t (record { events = []; label = warming }) f.clients f.order b.listed in
    let u = insert-Unique t (record { events = []; label = warming }) f.clients b.distinct in
    elim (Bool-cases (ltb 1000 (length order))) [
      | inl e ↦ rw e (evicted-IsBounded order clients f (omega (arith, long, b.few)) l u s)
      | inr e ↦
          rw e
            (record { few = ltb-false 1000 (length order) e; listed = l; distinct = u; short = s })
    ]

pub observe-IsBounded :
    (t : String) (o : Observation) (f : Fingerprints) → IsBounded f → IsBounded (observe t o f)
unfolding observe
observe-IsBounded t o f b =
    let c = (tracked (lookup t f.clients) t f).0 in
    let f' = (tracked (lookup t f.clients) t f).1 in
    let b' = tracked-IsBounded (lookup t f.clients) t f b in
    let v = extended f'.window c o in
    elim (Bool-cases (contains t f'.clients)) [
      | inl e ↦
          rw (e, observe)
            (record {
              few = b'.few;
              listed = update-Listed t v f'.clients f'.order e b'.listed;
              distinct = insert-Unique t v f'.clients b'.distinct;
              short =
                  inserted-short t v f'.clients f'.window (extended-length f'.window c o) b'.short;
            })
      | inr e ↦ rw (e, observe) b'
    ]

-- Observations of any clients, one after the other.
unfoldable pub observe_all : List (String × Observation) → Fingerprints → Fingerprints
observe_all [] f = f
observe_all ((t, o) ∷ os) f = observe_all os (observe t o f)

evicted-window :
    (order : List String) (clients : Assoc Client) (f : Fingerprints)
    → (evicted order clients f).window ≡ f.window
unfolding evicted
evicted-window [] clients f = refl
evicted-window (oldest ∷ rest) clients f = refl

tracked-window :
    (o : Option Client) (t : String) (f : Fingerprints) → (tracked o t f).1.window ≡ f.window
unfolding tracked
tracked-window (some c) t f = refl
tracked-window none t f =
    let order = f.order ++ t ∷ [] in
    let clients = insert t (record { events = []; label = warming }) f.clients in
    ground (arith, evicted-window order clients f)

observe-window :
    (t : String) (o : Observation) (f : Fingerprints) → (observe t o f).window ≡ f.window
unfolding observe
observe-window t o f = ground (arith, tracked-window (lookup t f.clients) t f)

observe_all-window :
    (os : List (String × Observation)) (f : Fingerprints) → (observe_all os f).window ≡ f.window
unfolding observe_all
observe_all-window [] f = refl
observe_all-window ((t, o) ∷ os) f = observe_all-window os (observe t o f) ∙ observe-window t o f

observe_all-IsBounded :
    (os : List (String × Observation)) (f : Fingerprints)
    → IsBounded f
    → IsBounded (observe_all os f)
unfolding observe_all
observe_all-IsBounded [] f b = b
observe_all-IsBounded ((t, o) ∷ os) f b =
    observe_all-IsBounded os (observe t o f) (observe-IsBounded t o f b)

-- After any observations of any clients, a new classifier that holds a client holds at most a thousand of
-- them, and of this one at most as many events as the window that it was made with.
pub clients-le-cap :
    (window : ℤ) (os : List (String × Observation)) (t : String) (c : Client)
    → lookup t (observe_all os (new window)).clients ≡ some c
    → (length (observe_all os (new window)).clients ≤ 1000)
      × (length c.events ≤ (new window).window)
clients-le-cap window os t c e =
    let f = observe_all os (new window) in
    let b = observe_all-IsBounded os (new window) (new-IsBounded window) in
    (
      omega (arith, length-Listed f.clients f.order b.distinct b.listed, b.few),
      rw (observe_all-window os (new window)) at (b.short t c e),
    )
