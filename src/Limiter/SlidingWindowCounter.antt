-- ===== src/Limiter/SlidingWindowCounter.antt =====
-- internal/limiter/windows.go: the sliding window counter. The estimate is kept as its product
-- with the window's length, so that the overlap ratio is exact.
pub mod Weighed
pub mod Exact
use limit_plane.Prelude.{
  if◌then◌else◌, ◌+ℤ◌, ◌-ℤ◌, ◌*ℤ◌, ltb_ℤ, eqb_ℤ, div_ℤ, quot_ℤ, max_ℤ, ℤ, pos, negsuc, ℕ, zero, suc,
  ◌*◌, String, Option, none, some,
}
use limit_plane.Prelude.Assoc.{Assoc}
use limit_plane.Limiter.{unit, one, Decision, WindowArgs}
use limit_plane.Limiter.Keyed.{on_key}

pub record SlidingBox : Type 0 where
  pub box_index : ℤ
  pub current_box : ℤ
  pub previous_box : ℤ

-- `now / a.WindowMs` on int64; `none` is the panic on a window of zero.
box_of : ℤ → ℤ → Option ℤ
box_of now (pos zero) = none
box_of now (pos (suc w)) = some (quot_ℤ now (suc w))
box_of now (negsuc w) = some (pos 0 -ℤ quot_ℤ now (suc w))

-- Only an adjacent block carries forward.
carried : SlidingBox → ℤ → ℤ
carried e box = if eqb_ℤ e.box_index (box -ℤ pos 1) then e.current_box else pos 0

pub current_entry : Option SlidingBox → ℤ → SlidingBox
unfolding carried
current_entry none box = record { box_index = box; current_box = pos 0; previous_box = pos 0 }
current_entry (some e) box =
    if eqb_ℤ e.box_index box
    then e
    else record { box_index = box; current_box = pos 0; previous_box = carried e box }

-- The length of a window, and what of it the previous block still overlaps.
span_of : ℤ → ℕ
span_of (pos w) = w
span_of (negsuc w) = suc w

overlap_of : ℤ → ℤ → ℤ
overlap_of elapsed (pos w) = max_ℤ (pos w -ℤ elapsed) (pos 0)
overlap_of elapsed (negsuc w) = max_ℤ (pos (suc w) +ℤ elapsed) (pos 0)

-- The estimate, times the window's length.
estimate : SlidingBox → ℤ → ℤ → ℤ
unfolding span_of overlap_of
estimate e elapsed window_ms =
    e.current_box *ℤ pos (span_of window_ms) +ℤ e.previous_box *ℤ overlap_of elapsed window_ms

pub decide_box : SlidingBox → ℤ → WindowArgs → Decision × SlidingBox
unfolding estimate
decide_box e elapsed a =
    let span = span_of a.window_ms in
    let left = a.limit *ℤ pos span -ℤ estimate e elapsed a.window_ms in
    let allowed = ltb_ℤ (pos 0) left in
    (
      record {
        allowed = allowed;
        remaining = max_ℤ (div_ℤ left (span * unit)) (pos 0);
        reset_at = pos 0;
      },
      if allowed then record e { current_box = e.current_box +ℤ one } else e,
    )

pub check_box : ℤ → Option SlidingBox → ℤ → WindowArgs → Decision × SlidingBox
unfolding current_entry decide_box
check_box box o now a = decide_box (current_entry o box) (now -ℤ box *ℤ a.window_ms) a

abbrev pub box_key : WindowArgs → String
box_key a = a.key

pub check : Assoc SlidingBox → ℤ → WindowArgs → Option (Decision × Assoc SlidingBox)
unfolding box_of check_box
check m now a = elim (box_of now a.window_ms) [
  | none ↦ none
  | some box ↦ some (on_key box_key (check_box box) m now a)
]
