-- ===== src/Limiter/Examples.antt =====
-- windows.go and monthlyquota.go: runs of the other limiters on small inputs.
use limit_plane.Prelude.{
  if◌then◌else◌, ◌+ℤ◌, ◌-ℤ◌, ◌*ℤ◌, ◌≤ℤ◌, ltb_ℤ, int_laws, ℤ, pos, String, ◌≡◌, refl, none, List, [],
  ◌∷◌, arith,
}
use limit_plane.Prelude.Assoc.{Assoc, lookup, insert}
use limit_plane.Limiter.{cost_or_one, WindowArgs}
use limit_plane.Limiter.Keyed.{Along, on_key, run}
use limit_plane.Limiter.SlidingWindowLog.{check_log, log_key, check}
use limit_plane.Limiter.FixedWindow.{
  check_window, current_window, charge_window, window_key, FixedWindowState,
}
use limit_plane.Limiter.MonthlyQuota.{monthly_key, check_meter, MonthlyArgs}
use limit_plane.Limiter.FixedWindow.Burst.{taken, NearFor, taken-le-double}
use limit_plane.Limiter.SlidingWindowLog.Exact.{
  admitted, decide_history, SpanFor, check-decide_history,
}
use limit_plane.Limiter.MonthlyQuota.Plan.{IsCalendar, charged, charged-le-quota}
use limit_plane.Limiter.TokenBucket.{TokenBucketArgs}
use limit_plane.Limiter.SlidingWindowCounter.Exact.{run_boxes, Ascending, last_box, check_box-exact}
use limit_plane.Limiter.SlidingWindowCounter.{check_box}
use limit_plane.Limiter.SlidingWindowCounter.Weighed.{in_block, decide_blocks}

-- Ten tokens in each second.
abbrev windowed : String → WindowArgs
windowed k = record { key = k; limit = pos 10_000_000; window_ms = pos 1000; cost = pos 5_000_000 }

-- Full at the end of one block, and again at the start of the next.
abbrev boundary : List (ℤ × WindowArgs)
boundary =
    (pos 900, windowed "acme")
    ∷ (pos 901, windowed "acme")
    ∷ (pos 950, windowed "other")
    ∷ (pos 1899, windowed "acme")
    ∷ []

-- A first check opens a block at 0; of the others, two are in it and two in the next.
abbrev opening : List (ℤ × WindowArgs)
opening = (pos 0, record (windowed "acme") { cost = pos 20_000_000 }) ∷ []

abbrev straddling : List (ℤ × WindowArgs)
straddling =
    (pos 900, windowed "acme")
    ∷ (pos 950, windowed "acme")
    ∷ (pos 1000, windowed "acme")
    ∷ (pos 1010, windowed "acme")
    ∷ []

abbrev first_block : Assoc FixedWindowState
first_block = (run window_key check_window "acme" taken (pos 0) [] opening).1

-- The bound is reached.
bound_reached :
    (run window_key check_window "acme" taken (pos 0) first_block straddling).0 ≡ pos 20_000_000
unfolding run on_key check_window current_window charge_window taken lookup insert ◌+ℤ◌ ◌-ℤ◌
    cost_or_one
bound_reached = refl

taken-le-double_example :
    (run window_key check_window "acme" taken (pos 0) first_block straddling).0
    ≤ℤ pos 10_000_000 +ℤ pos 10_000_000
taken-le-double_example =
    taken-le-double (pos 10_000_000) (pos 1000) (omega arith) "acme" (pos 0) (pos 900) opening
      straddling (λ e. (refl, refl, omega arith), tt) near
  where
    near : Along (NearFor (pos 10_000_000) (pos 1000) (pos 900) "acme") (pos 900) straddling
    near = (
      λ e. ((refl, refl, omega arith), omega arith, omega int_laws),
      (
        λ e. ((refl, refl, omega arith), omega arith, omega int_laws),
        (
          λ e. ((refl, refl, omega arith), omega arith, omega int_laws),
          (λ e. ((refl, refl, omega arith), omega arith, omega int_laws), tt),
        ),
      ),
    )

check-decide_history_example :
    (check
      (run log_key check_log "acme" admitted [] [] boundary).1
      (pos 1950)
      (windowed "acme")).0.allowed
    ≡ decide_history
        (run log_key check_log "acme" admitted [] [] boundary).0
        (pos 1950)
        (windowed "acme")
check-decide_history_example =
    check-decide_history (pos 1000) "acme" [] (pos 0) (pos 1950) boundary (windowed "acme") ordered
      (unfold lookup in refl) (omega arith) refl refl
  where
    ordered : Along (SpanFor (pos 1000) "acme") (pos 0) boundary
    ordered = (
      (omega arith, λ e. refl),
      ((omega arith, λ e. refl), ((omega arith, λ e. refl), ((omega arith, λ e. refl), tt))),
    )

abbrev two_months : ℤ → String
two_months t = if ltb_ℤ t (pos 1000) then "2026-08" else "2026-09"

two_months-IsCalendar : IsCalendar two_months
two_months-IsCalendar a b c h k e = ground (arith, h, k, e)

abbrev planned : MonthlyArgs
planned = record { key = "acme:pro:monthly"; quota = pos 8_000_000; cost = pos 5_000_000 }

abbrev bills : List (ℤ × MonthlyArgs)
bills = (pos 10, planned) ∷ (pos 20, planned) ∷ (pos 1000, planned) ∷ []

charged-le-quota_example :
    (run monthly_key
      (check_meter two_months (λ t. t))
      "acme:pro:monthly"
      (charged two_months "2026-08")
      (pos 0)
      []
      bills).0
    ≤ℤ pos 8_000_000
charged-le-quota_example =
    charged-le-quota two_months (λ t. t) "2026-08" (pos 8_000_000) (omega arith)
      two_months-IsCalendar "acme:pro:monthly" [] (pos 0) bills
      (
        (omega arith, λ e. (refl, omega arith)),
        ((omega arith, λ e. (refl, omega arith)), ((omega arith, λ e. (refl, omega arith)), tt)),
      )
      (unfold lookup in refl)

abbrev asks : List (ℤ × TokenBucketArgs)
asks = (pos 10, burst) ∷ (pos 20, burst) ∷ (pos 5, burst) ∷ (pos 7_000, burst) ∷ []
  where
    burst : TokenBucketArgs
    burst = record {
      key = "acme";
      capacity = pos 8_000_000;
      refill_rate_per_ms = pos 1000;
      cost = pos 5_000_000;
    }

-- Three checks in two blocks of a second.
abbrev boxed : List (ℤ × ℤ × WindowArgs)
boxed =
    (pos 0, pos 900, windowed "acme")
    ∷ (pos 0, pos 950, windowed "acme")
    ∷ (pos 1, pos 1100, windowed "acme")
    ∷ []

check_box-exact_example :
    (check_box (pos 2) (run_boxes (none, []) boxed).0 (pos 2500) (windowed "acme")).0
    ≡ decide_blocks
        (in_block (pos 2) (run_boxes (none, []) boxed).1)
        (in_block (pos 2 -ℤ pos 1) (run_boxes (none, []) boxed).1)
        (pos 2500 -ℤ pos 2 *ℤ pos 1000)
        (windowed "acme")
check_box-exact_example =
    check_box-exact (pos 0) (pos 2) (pos 2500) (windowed "acme") boxed
      (unfold Ascending in (omega arith, (omega arith, (omega arith, tt))))
      (unfold last_box in omega arith)
