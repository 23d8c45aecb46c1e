-- ===== src/Limiter/FixedWindow/Burst.antt =====
-- windows.go: how much the fixed window lets through across a boundary.
use limit_plane.Prelude.{
  if◌then◌else◌, Bool-cases, ◌+ℤ◌, ◌-ℤ◌, ◌≤ℤ◌, ◌<ℤ◌, leb_ℤ, leb_ℤ→≤ℤ, int_laws, ℤ, pos, String, ◌≡◌,
  ◌⊎◌, inl, inr, true, Option, none, some, List, [], arith, str_eq,
}
use limit_plane.Prelude.Assoc.{Assoc, lookup}
use limit_plane.Limiter.{cost_or_one, cost_or_one-nonneg, Decision, WindowArgs}
use limit_plane.Limiter.Keyed.{Along, last_time, run, run_inv}
use limit_plane.Limiter.FixedWindow.{
  current_window, charge_window, check_window, window_key, FixedWindowState,
}

-- What a check takes of its window.
unfoldable pub taken : ℤ → ℤ → WindowArgs → Decision → ℤ
taken spent now a d = if d.allowed then spent +ℤ cost_or_one a.cost else spent

module _ (limit span : ℤ) where
  -- A check that asks for the limit and the block length, at a cost that is not negative.
  abbrev pub Plain : WindowArgs → Type 0
  Plain a = (a.limit ≡ limit) × (a.window_ms ≡ span) × (pos 0 ≤ℤ a.cost)

  abbrev pub PlainFor : String → ℤ → ℤ → WindowArgs → Type 0
  PlainFor k before now a = str_eq a.key k ≡ true → Plain a

  -- The same at a time within one block's length of `from`.
  abbrev pub Near : ℤ → ℤ → ℤ → WindowArgs → Type 0
  Near from before now a = Plain a × (from ≤ℤ now) × (now <ℤ from +ℤ span)

  abbrev pub NearFor : ℤ → String → ℤ → ℤ → WindowArgs → Type 0
  NearFor from k before now a = str_eq a.key k ≡ true → Near from before now a

  abbrev Kept : Option FixedWindowState → Type 0
  Kept none = Unit
  Kept (some w) = (pos 0 ≤ℤ w.count) × (w.count ≤ℤ limit)

  -- With what is spent since `from`.
  abbrev Spent : ℤ → ℤ → ℤ → Option FixedWindowState → Type 0
  Spent from now spent none = spent ≤ℤ pos 0
  Spent from now spent (some w) =
      (pos 0 ≤ℤ w.count)
      × (w.count ≤ℤ limit)
      × ((w.window_start <ℤ from) × (spent ≤ℤ w.count)
          ⊎ (from ≤ℤ w.window_start) × (spent ≤ℤ limit +ℤ w.count))

  module _ (limit_nonneg : pos 0 ≤ℤ limit) where
    window-Spent :
        (from before now spent : ℤ) (o : Option FixedWindowState) (a : WindowArgs)
        → Near from before now a
        → Spent from before spent o
        → Spent from now spent (some (current_window o now a.window_ms))
    unfolding current_window
    window-Spent from before now spent none a near p =
        (omega arith, omega (arith, limit_nonneg), omega (int_laws, near, limit_nonneg, p))
    window-Spent from before now spent (some w) a near p =
        elim (Bool-cases (leb_ℤ a.window_ms (now -ℤ w.window_start))) [
          | inl e ↦
              rw (e, current_window)
                (
                  omega arith,
                  omega (arith, limit_nonneg),
                  omega (
                    int_laws,
                    near,
                    p,
                    limit_nonneg,
                    ended a.window_ms (now -ℤ w.window_start) near.0.1 e,
                  ),
                )
          | inr e ↦ rw (e, current_window) p
        ]
      where
        ended : (w e : ℤ) → w ≡ span → leb_ℤ w e ≡ true → span ≤ℤ e
        ended w e h t = rw h at (leb_ℤ→≤ℤ w e t)

    charge-Spent :
        (from now spent : ℤ) (w : FixedWindowState) (c : ℤ) (a : WindowArgs)
        → a.limit ≡ limit
        → pos 0 ≤ℤ c
        → Spent from now spent (some w)
        → Spent from now
            (if (charge_window w c a).0.allowed then spent +ℤ c else spent)
            (some (charge_window w c a).1)
    unfolding charge_window
    charge-Spent from now spent w c a lim h p = elim (Bool-cases (leb_ℤ (w.count +ℤ c) a.limit)) [
      | inl e ↦
          rw (e, charge_window)
            (
              omega (int_laws, p),
              rw lim at (leb_ℤ→≤ℤ (w.count +ℤ c) a.limit e),
              omega (int_laws, p),
            )
      | inr e ↦ rw (e, charge_window) p
    ]

    check-Spent :
        (from before now spent : ℤ) (o : Option FixedWindowState) (a : WindowArgs)
        → Near from before now a
        → Spent from before spent o
        → Spent from now
            (taken spent now a (check_window o now a).0)
            (some (check_window o now a).1)
    unfolding check_window taken
    check-Spent from before now spent o a near p =
        charge-Spent from now spent (current_window o now a.window_ms) (cost_or_one a.cost) a
          near.0.0 (cost_or_one-nonneg a.cost near.0.2)
          (window-Spent from before now spent o a near p)

    same-Spent :
        (from before now spent : ℤ) (o : Option FixedWindowState)
        → Spent from before spent o
        → Spent from now spent o
    same-Spent from before now spent none p = p
    same-Spent from before now spent (some w) p = p

    Spent-bound :
        (from now spent : ℤ) (o : Option FixedWindowState)
        → Spent from now spent o
        → spent ≤ℤ limit +ℤ limit
    Spent-bound from now spent none p = omega (int_laws, p, limit_nonneg)
    Spent-bound from now spent (some w) p = omega (int_laws, p, limit_nonneg)

    Spent-start : (from now : ℤ) (o : Option FixedWindowState) → Kept o → Spent from now (pos 0) o
    Spent-start from now none p = omega arith
    Spent-start from now (some w) p = omega (int_laws, p, limit_nonneg)

    window-Kept :
        (now : ℤ) (o : Option FixedWindowState) (a : WindowArgs)
        → Kept o
        → Kept (some (current_window o now a.window_ms))
    unfolding current_window
    window-Kept now none a p = (omega arith, limit_nonneg)
    window-Kept now (some w) a p = elim (Bool-cases (leb_ℤ a.window_ms (now -ℤ w.window_start))) [
      | inl e ↦ rw (e, current_window) (omega arith, limit_nonneg)
      | inr e ↦ rw (e, current_window) p
    ]

    charge-Kept :
        (w : FixedWindowState) (c : ℤ) (a : WindowArgs)
        → a.limit ≡ limit
        → pos 0 ≤ℤ c
        → Kept (some w)
        → Kept (some (charge_window w c a).1)
    unfolding charge_window
    charge-Kept w c a lim h p = elim (Bool-cases (leb_ℤ (w.count +ℤ c) a.limit)) [
      | inl e ↦
          rw (e, charge_window) (omega (int_laws, p), rw lim at (leb_ℤ→≤ℤ (w.count +ℤ c) a.limit e))
      | inr e ↦ rw (e, charge_window) p
    ]

    -- A check keeps the count between zero and the limit, at any time.
    check-Kept :
        (now : ℤ) (o : Option FixedWindowState) (a : WindowArgs)
        → Plain a
        → Kept o
        → Kept (some (check_window o now a).1)
    unfolding check_window
    check-Kept now o a plain p =
        charge-Kept (current_window o now a.window_ms) (cost_or_one a.cost) a plain.0
          (cost_or_one-nonneg a.cost plain.2) (window-Kept now o a p)

    run-Kept :
        (k : String) (now : ℤ) (m : Assoc FixedWindowState) (ops : List (ℤ × WindowArgs))
        → Along (PlainFor k) now ops
        → Kept (lookup k m)
        → Kept (lookup k (run window_key check_window k taken (pos 0) m ops).1)
    run-Kept k now m ops al p =
        run_inv window_key check_window k taken (PlainFor k) (λ now spent o. Kept o)
          (λ before now spent o a same plain q. check-Kept now o a (plain same) q)
          (λ before now spent o a plain q. q) now (pos 0) m ops al p

    -- From a new table, let a key's checks ask for one limit, which is not negative, and one block length,
    -- at costs that are not negative. After any of them, those at times within one block's length take at
    -- most twice the limit, whatever calls for other keys come between them.
    pub taken-le-double :
        (k : String) (start from : ℤ) (old ops : List (ℤ × WindowArgs))
        → Along (PlainFor k) start old
        → Along (NearFor from k) from ops
        → (run window_key check_window k taken
            (pos 0)
            (run window_key check_window k taken (pos 0) [] old).1
            ops).0
          ≤ℤ limit +ℤ limit
    unfolding lookup
    taken-le-double k start from old ops before al =
        let m = (run window_key check_window k taken (pos 0) [] old).1 in
        let (total, m') = run window_key check_window k taken (pos 0) m ops in
        Spent-bound from (last_time from ops) total (lookup k m') (
          run_inv window_key check_window k taken (NearFor from k) (Spent from)
            (λ before now spent o a same near p.
              check-Spent from before now spent o a (near same) p)
            (λ before now spent o a near p. same-Spent from before now spent o p) from (pos 0) m ops
            al (Spent-start from from (lookup k m) (run-Kept k start [] old before tt)))
