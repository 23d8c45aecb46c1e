-- ===== src/Limiter/FixedWindow.antt =====
-- internal/limiter/windows.go: the fixed window counter.
pub mod Burst
use limit_plane.Prelude.{
  if◌then◌else◌, ◌+ℤ◌, ◌-ℤ◌, leb_ℤ, max_ℤ, ℤ, pos, String, Option, none, some,
}
use limit_plane.Prelude.Assoc.{Assoc}
use limit_plane.Limiter.{floor, cost_or_one, Decision, WindowArgs}
use limit_plane.Limiter.Keyed.{on_key}

pub record FixedWindowState : Type 0 where
  pub count : ℤ
  pub window_start : ℤ

-- The counter of the block that `now` falls in: a new one when the old block is over.
unfoldable pub current_window : Option FixedWindowState → ℤ → ℤ → FixedWindowState
current_window none now window_ms = record { count = pos 0; window_start = now }
current_window (some w) now window_ms =
    if leb_ℤ window_ms (now -ℤ w.window_start)
    then record { count = pos 0; window_start = now }
    else w

-- The counter after a request that fits is charged, with the answer.
unfoldable pub charge_window : FixedWindowState → ℤ → WindowArgs → Decision × FixedWindowState
charge_window w c a =
    let allowed = leb_ℤ (w.count +ℤ c) a.limit in
    let w' : FixedWindowState = if allowed then record w { count = w.count +ℤ c } else w in
    (
      record {
        allowed = allowed;
        remaining = floor (max_ℤ (a.limit -ℤ w'.count) (pos 0));
        reset_at = w'.window_start +ℤ a.window_ms;
      },
      w',
    )

unfoldable pub check_window : Option FixedWindowState → ℤ → WindowArgs → Decision × FixedWindowState
unfolding current_window charge_window
check_window o now a = charge_window (current_window o now a.window_ms) (cost_or_one a.cost) a

abbrev pub window_key : WindowArgs → String
window_key a = a.key

pub check : Assoc FixedWindowState → ℤ → WindowArgs → Decision × Assoc FixedWindowState
unfolding check_window
check = on_key window_key check_window
