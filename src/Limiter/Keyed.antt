-- ===== src/Limiter/Keyed.antt =====
-- internal/limiter: the shape that the mutex-guarded limiters share. `Check` locks the map, reads
-- the entry of the key, decides, and leaves the entry that the decision gives.
use limit_plane.Prelude.{
  if◌then◌else◌, Bool-cases, ℤ, String, ◌≡◌, refl, inl, inr, true, Option, some, List, [], ◌∷◌,
  str_eq, eq_iff,
}
use limit_plane.Prelude.Assoc.{Assoc, lookup, insert, lookup-insert}

-- A condition on each call, given the time of the call before it.
abbrev pub Along : {A : Type 0} → (ℤ → ℤ → A → Type 0) → ℤ → List (ℤ × A) → Type 0
Along R before [] = Unit
Along R before ((now, a) ∷ ops) = R before now a × Along R now ops

abbrev pub last_time : {A : Type 0} → ℤ → List (ℤ × A) → ℤ
last_time now [] = now
last_time now ((t, a) ∷ ops) = last_time t ops

module _ {S A D : Type 0} (key : A → String) (step : Option S → ℤ → A → D × S) where
  unfoldable pub on_key : Assoc S → ℤ → A → D × Assoc S
  on_key m now a = let r = step (lookup (key a) m) now a in (r.0, insert (key a) r.1 m)

  pub lookup-on_key :
      (m : Assoc S) (now : ℤ) (a : A) (k : String)
      → lookup k (on_key m now a).1
        ≡ (if str_eq (key a) k then some (step (lookup (key a) m) now a).1 else lookup k m)
  unfolding on_key
  lookup-on_key m now a k = lookup-insert (key a) k (step (lookup (key a) m) now a).1 m

  pub on_key-answer :
      (m : Assoc S) (now : ℤ) (a : A) → (on_key m now a).0 ≡ (step (lookup (key a) m) now a).0
  unfolding on_key
  on_key-answer m now a = refl

  -- A sequence of calls, with what a record `note` keeps of the answers for the key `k`.
  module _ {G : Type 0} (k : String) (note : G → ℤ → A → D → G) where
    unfoldable pub run : G → Assoc S → List (ℤ × A) → G × Assoc S
    run g m [] = (g, m)
    run g m ((now, a) ∷ ops) =
        run (if str_eq (key a) k then note g now a (on_key m now a).0 else g) (on_key m now a).1 ops

    -- What holds of the record and of the key's entry is kept by a sequence of calls if it is kept
    -- by one call for the key, and by the passing of time under a call for another.
    pub run_inv :
        (R : ℤ → ℤ → A → Type 0) (P : ℤ → G → Option S → Type 0)
        → ((before now : ℤ) (g : G) (o : Option S) (a : A)
            → str_eq (key a) k ≡ true
            → R before now a
            → P before g o
            → P now (note g now a (step o now a).0) (some (step o now a).1))
        → ((before now : ℤ) (g : G) (o : Option S) (a : A)
            → R before now a
            → P before g o
            → P now g o)
        → (now : ℤ) (g : G) (m : Assoc S) (ops : List (ℤ × A)) → Along R now ops
        → P now g (lookup k m)
        → P (last_time now ops) (run g m ops).0 (lookup k (run g m ops).1)
    unfolding run on_key
    run_inv R P here other now g m [] al p = p
    run_inv R P here other now g m ((t, a) ∷ ops) al p = elim (Bool-cases (str_eq (key a) k)) [
      | inl e ↦
          rw (e, run)
            (run_inv R P here other t (note g t a (step (lookup (key a) m) t a).0) (on_key m t a).1
              ops al.1
              (rw (lookup-on_key m t a k, e)
                (rw ((eq_iff (key a) k).0 e) (here now t g (lookup k m) a e al.0 p))))
      | inr e ↦
          rw (e, run)
            (run_inv R P here other t g (on_key m t a).1 ops al.1
              (rw (lookup-on_key m t a k, e) (other now t g (lookup k m) a al.0 p)))
    ]
