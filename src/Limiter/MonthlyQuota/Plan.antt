-- ===== src/Limiter/MonthlyQuota/Plan.antt =====
-- monthlyquota.go: what a plan allows in a month.
use limit_plane.Prelude.{
  if◌then◌else◌, Bool-cases, &&-false, ne_false, ◌+ℤ◌, ◌≤ℤ◌, leb_ℤ, leb_ℤ→≤ℤ, int_laws, ℤ, pos,
  String, ◌≡◌, refl, sym, ◌∙◌, ◌≢◌, ◌⊎◌, inl, inr, true, false, ◌&&◌, Option, none, some, List,
  arith, str_eq, eq_iff,
}
use limit_plane.Prelude.Assoc.{Assoc, lookup}
use limit_plane.Limiter.{cost_or_one, cost_or_one-nonneg}
use limit_plane.Limiter.Keyed.{Along, last_time, run, run_inv}
use limit_plane.Limiter.MonthlyQuota.{
  current_meter, monthly_key, check_meter, Meter, MonthlyDecision, MonthlyArgs,
}

-- A month does not come back: what the calendar does between two instants of one month.
abbrev pub IsCalendar : (ℤ → String) → Type 0
IsCalendar month_id =
    (a b c : ℤ) → a ≤ℤ b → b ≤ℤ c → month_id a ≡ month_id c → month_id b ≡ month_id a

-- What is charged in a month.
unfoldable pub charged : (ℤ → String) → String → ℤ → ℤ → MonthlyArgs → MonthlyDecision → ℤ
charged month_id month spent now a d =
    if str_eq (month_id now) month && d.allowed then spent +ℤ cost_or_one a.cost else spent

-- The checks of the key come in order and ask for one quota.
abbrev pub PlanFor : ℤ → String → ℤ → ℤ → MonthlyArgs → Type 0
PlanFor quota k before now a =
    (before ≤ℤ now) × (str_eq a.key k ≡ true → (a.quota ≡ quota) × (pos 0 ≤ℤ a.cost))

module _ (month_id : ℤ → String) (resets_at : ℤ → ℤ) where
  module _ (month : String) where
    module _ (quota : ℤ) where
      abbrev Running : ℤ → ℤ → Meter → Type 0
      Running now spent mt =
          (mt.month ≡ month)
          × (spent ≤ℤ mt.used)
          × (mt.used ≤ℤ quota)
          × (t : ℤ) × (t ≤ℤ now)
          × (month_id t ≡ month)

      abbrev Elsewhere : ℤ → ℤ → Meter → Type 0
      Elsewhere now spent mt =
          (mt.month ≢ month)
          × ((spent ≤ℤ pos 0) ⊎ ((spent ≤ℤ quota) × ((u : ℤ) → now ≤ℤ u → month_id u ≢ month)))

      abbrev Metered : ℤ → ℤ → Option Meter → Type 0
      Metered now spent none = spent ≤ℤ pos 0
      Metered now spent (some mt) = Running now spent mt ⊎ Elsewhere now spent mt

      module _ (quota_nonneg : pos 0 ≤ℤ quota) (calendar : IsCalendar month_id) where
        later-Metered :
            (before now spent : ℤ) (o : Option Meter)
            → before ≤ℤ now
            → Metered before spent o
            → Metered now spent o
        later-Metered before now spent none h p = p
        later-Metered before now spent (some mt) h (inl (e, s, q, t, le, m)) =
            inl (e, s, q, t, omega (int_laws, le), m)
        later-Metered before now spent (some mt) h (inr (e, inl s)) = inr (e, inl s)
        later-Metered before now spent (some mt) h (inr (e, inr (s, over))) =
            inr (e, inr (s, λ u k. over u (omega (int_laws, k))))

        fresh-Metered :
            (now spent : ℤ)
            → (spent ≤ℤ pos 0) ⊎ ((spent ≤ℤ quota) × ((u : ℤ) → now ≤ℤ u → month_id u ≢ month))
            → Metered now spent (some (record { month = month_id now; used = pos 0 }))
        fresh-Metered now spent rest = elim (Bool-cases (str_eq (month_id now) month)) [
          | inl e ↦ started rest ((eq_iff (month_id now) month).0 e)
          | inr e ↦ inr (λ q. cc ((eq_iff (month_id now) month).1 q), rest)
        ]
          where
            started :
                (spent ≤ℤ pos 0) ⊎ ((spent ≤ℤ quota) × ((u : ℤ) → now ≤ℤ u → month_id u ≢ month))
                → month_id now ≡ month
                → Metered now spent (some (record { month = month_id now; used = pos 0 }))
            started (inl s) q = inl (q, s, quota_nonneg, now, omega arith, q)
            started (inr (s, over)) q = absurd (over now (omega arith) q)

        over_now :
            (now t u : ℤ) (m : String)
            → month_id t ≡ month
            → t ≤ℤ now
            → now ≤ℤ u
            → m ≡ month
            → str_eq m (month_id now) ≡ false
            → month_id u ≢ month
        over_now now t u m mt h k em e mu =
            let back = calendar t now u h k (mt ∙ sym mu) in
            cc ((eq_iff m (month_id now)).1 (em ∙ sym (back ∙ mt)))

        meter-Metered :
            (now spent : ℤ) (o : Option Meter)
            → Metered now spent o
            → Metered now spent (some (current_meter o (month_id now)))
        unfolding current_meter
        meter-Metered now spent none p = fresh-Metered now spent (inl p)
        meter-Metered now spent (some mt) p = elim (Bool-cases (str_eq mt.month (month_id now))) [
          | inl e ↦ rw (e, current_meter) p
          | inr e ↦ rw (e, current_meter) (fresh-Metered now spent (carry e p))
        ]
          where
            carry :
                str_eq mt.month (month_id now) ≡ false
                → Metered now spent (some mt)
                → (spent ≤ℤ pos 0) ⊎ ((spent ≤ℤ quota) × ((u : ℤ) → now ≤ℤ u → month_id u ≢ month))
            carry e (inl (em, s, q, t, le, m)) =
                inr (omega (arith, s, q), λ u k mu. over_now now t u mt.month m le k em e mu)
            carry e (inr (em, rest)) = rest

        current-month : (o : Option Meter) (m : String) → (current_meter o m).month ≡ m
        unfolding current_meter
        current-month none m = refl
        current-month (some mt) m = ground (arith, eq_iff mt.month m)

        charge-Metered :
            (now spent : ℤ) (mt : Meter) (c q : ℤ)
            → mt.month ≡ month_id now
            → q ≡ quota
            → pos 0 ≤ℤ c
            → Metered now spent (some mt)
            → Metered now
                (if str_eq (month_id now) month && leb_ℤ (mt.used +ℤ c) q
                  then spent +ℤ c
                  else spent)
                (some (if leb_ℤ (mt.used +ℤ c) q then record mt { used = mt.used +ℤ c } else mt))
        charge-Metered now spent mt c q e eq h p = elim (Bool-cases (leb_ℤ (mt.used +ℤ c) q)) [
          | inl f ↦ rw f (fitted f p)
          | inr f ↦ rw (f, &&-false (str_eq (month_id now) month)) p
        ]
          where
            fitted :
                leb_ℤ (mt.used +ℤ c) q ≡ true
                → Metered now spent (some mt)
                → Metered now
                    (if str_eq (month_id now) month && true then spent +ℤ c else spent)
                    (some (record mt { used = mt.used +ℤ c }))
            fitted f (inl (em, s, _, t, le, m)) =
                rw ((eq_iff (month_id now) month).1 (sym e ∙ em))
                  (inl (em, omega (int_laws, s), rw eq at (leb_ℤ→≤ℤ (mt.used +ℤ c) q f), t, le, m))
            fitted f (inr (em, rest)) =
                rw (ne_false (month_id now) month (λ g. em (e ∙ g))) (inr (em, rest))

        check-Metered :
            (before now spent : ℤ) (o : Option Meter) (a : MonthlyArgs)
            → (before ≤ℤ now) × (a.quota ≡ quota) × (pos 0 ≤ℤ a.cost)
            → Metered before spent o
            → Metered now
                (charged month_id month spent now a (check_meter month_id resets_at o now a).0)
                (some (check_meter month_id resets_at o now a).1)
        unfolding check_meter charged
        check-Metered before now spent o a h p =
            charge-Metered now spent (current_meter o (month_id now)) (cost_or_one a.cost) a.quota
              (current-month o (month_id now)) h.1 (cost_or_one-nonneg a.cost h.2)
              (meter-Metered now spent o (later-Metered before now spent o h.0 p))

        Metered-bound : (now spent : ℤ) (o : Option Meter) → Metered now spent o → spent ≤ℤ quota
        Metered-bound now spent none p = omega (int_laws, p, quota_nonneg)
        Metered-bound now spent (some mt) (inl (em, s, q, _, _, _)) = omega (arith, s, q)
        Metered-bound now spent (some mt) (inr (em, inl s)) = omega (arith, s, quota_nonneg)
        Metered-bound now spent (some mt) (inr (em, inr (s, over))) = s

        -- Take checks in the order of time. Those of one key that ask for one quota, which is not
        -- negative, at costs that are not negative, are charged at most the quota in any calendar
        -- month, from a table with no entry for the key, whatever calls for other keys and for
        -- other months come between.
        pub charged-le-quota :
            (k : String) (m : Assoc Meter) (start : ℤ) (ops : List (ℤ × MonthlyArgs))
            → Along (PlanFor quota k) start ops
            → lookup k m ≡ none
            → (run monthly_key
                (check_meter month_id resets_at)
                k
                (charged month_id month)
                (pos 0)
                m
                ops).0
              ≤ℤ quota
        charged-le-quota k m start ops al e =
            let (total, m') =
              run monthly_key (check_meter month_id resets_at) k (charged month_id month) (pos 0) m
                ops in
            Metered-bound (last_time start ops) total (lookup k m') (
              run_inv monthly_key (check_meter month_id resets_at) k (charged month_id month)
                (PlanFor quota k) Metered
                (λ before now spent o a same plan p.
                  check-Metered before now spent o a (plan.0, (plan.1 same).0, (plan.1 same).1) p)
                (λ before now spent o a plan p. later-Metered before now spent o plan.0 p) start
                (pos 0) m ops al (rw e (omega arith)))
