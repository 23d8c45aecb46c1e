-- ===== src/Limiter/SlidingWindowLog/Exact.antt =====
-- windows.go: the sliding window log against the whole history of a key.
use limit_plane.Prelude.{
  if◌then◌else◌, Bool-cases, ◌+ℤ◌, ◌-ℤ◌, ◌≤ℤ◌, ltb_ℤ, +ℤ_parts, -ℤ_parts, int_laws, ℤ, pos, length,
  ℕ, suc, ◌*◌, String, ◌≡◌, refl, ◌∙◌, inl, inr, Bool, true, Option, none, some, List, [], ◌∷◌,
  ◌++◌, arith, str_eq,
}
use limit_plane.Prelude.Assoc.{Assoc, lookup}
use limit_plane.Limiter.{unit, Decision, WindowArgs}
use limit_plane.Limiter.Keyed.{Along, last_time, on_key, run, run_inv}
use limit_plane.Limiter.SlidingWindowLog.{since, stamps_of, count_of, check_log, log_key, check}

-- The history: the time of every admitted check, oldest first.
unfoldable pub admitted : List ℤ → ℤ → WindowArgs → Decision → List ℤ
admitted hist now a d = if d.allowed then hist ++ now ∷ [] else hist

since-append : (u : ℤ) (xs ys : List ℤ) → since u (xs ++ ys) ≡ since u xs ++ since u ys
unfolding since
since-append u [] ys = refl
since-append u (x ∷ xs) ys = ground (arith, since-append u xs ys)

since-since : (u v : ℤ) (xs : List ℤ) → u ≤ℤ v → since v (since u xs) ≡ since v xs
unfolding since
since-since u v [] h = refl
since-since u v (x ∷ xs) h = ground (arith, since-since u v xs h)

-- How many of some times are less than a window's length before `now`.
unfoldable pub in_window : ℤ → ℤ → List ℤ → ℕ
in_window now window [] = 0
in_window now window (t ∷ ts) =
    let rest = in_window now window ts in if ltb_ℤ now (t +ℤ window) then suc rest else rest

-- The answer that the whole history asks for.
unfoldable pub decide_history : List ℤ → ℤ → WindowArgs → Bool
decide_history hist now a = ltb_ℤ (pos (in_window now a.window_ms hist * unit)) a.limit

after_start : (now window t : ℤ) → ltb_ℤ (now -ℤ window) t ≡ ltb_ℤ now (t +ℤ window)
after_start now window t = ground (arith, -ℤ_parts now window, +ℤ_parts t window)

length-since :
    (now window : ℤ) (ts : List ℤ) → length (since (now -ℤ window) ts) ≡ in_window now window ts
unfolding since in_window
length-since now window [] = refl
length-since now window (t ∷ ts) =
    ground (arith, length-since now window ts, after_start now window t)

module _ (span : ℤ) where
  abbrev pub SpanFor : String → ℤ → ℤ → WindowArgs → Type 0
  SpanFor k before now a = (before ≤ℤ now) × (str_eq a.key k ≡ true → a.window_ms ≡ span)

  -- The log and the history agree on every window that is still to come.
  abbrev Agree : ℤ → List ℤ → Option (List ℤ) → Type 0
  Agree now hist o = (u : ℤ) → now -ℤ span ≤ℤ u → since u (stamps_of o) ≡ since u hist

  later-Agree :
      (before now : ℤ) (hist : List ℤ) (o : Option (List ℤ))
      → before ≤ℤ now
      → Agree before hist o
      → Agree now hist o
  later-Agree before now hist o h p u k = p u (omega int_laws)

  check-Agree :
      (before now : ℤ) (hist : List ℤ) (o : Option (List ℤ)) (a : WindowArgs)
      → before ≤ℤ now
      → a.window_ms ≡ span
      → Agree before hist o
      → Agree now (admitted hist now a (check_log o now a).0) (some (check_log o now a).1)
  unfolding check_log admitted stamps_of
  check-Agree before now hist o a h e p u k =
      let recent = since (now -ℤ a.window_ms) (stamps_of o) in
      let same : since u recent ≡ since u hist =
        since-since (now -ℤ a.window_ms) u (stamps_of o) (rw e k) ∙ p u (omega int_laws) in
      elim (Bool-cases (ltb_ℤ (count_of recent) a.limit)) [
        | inl f ↦
            rw (f, check_log)
              (rw (since-append u recent (now ∷ []), since-append u hist (now ∷ []), same) refl)
        | inr f ↦ rw (f, check_log) same
      ]

  -- Take checks in the order of time, those of the key of one window length, from a table with no
  -- entry for the key. The next check of the key is admitted exactly if the number of its
  -- admitted checks in the whole history that are less than the window's length ago, each counted as one
  -- token, is below the limit.
  pub check-decide_history :
      (k : String) (m : Assoc (List ℤ)) (start now : ℤ) (ops : List (ℤ × WindowArgs))
      (a : WindowArgs)
      → Along (SpanFor k) start ops
      → lookup k m ≡ none
      → last_time start ops ≤ℤ now
      → a.key ≡ k
      → a.window_ms ≡ span
      → (check (run log_key check_log k admitted [] m ops).1 now a).0.allowed
        ≡ decide_history (run log_key check_log k admitted [] m ops).0 now a
  unfolding check check_log decide_history on_key count_of
  check-decide_history k m start now ops a al e h same w =
      let (hist, m') = run log_key check_log k admitted [] m ops in
      let agree : Agree (last_time start ops) hist (lookup k m') =
        run_inv log_key check_log k admitted (SpanFor k) Agree
          (λ before t hist o b same al p. check-Agree before t hist o b al.0 (al.1 same) p)
          (λ before t hist o b al p. later-Agree before t hist o al.0 p) start [] m ops al
          (rw e (λ u k. refl)) in
      rw
        (
          same,
          agree (now -ℤ a.window_ms) (rw w (omega int_laws)),
          length-since now a.window_ms hist,
        )
        refl
