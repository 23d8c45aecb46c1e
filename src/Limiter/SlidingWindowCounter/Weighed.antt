-- ===== src/Limiter/SlidingWindowCounter/Weighed.antt =====
-- windows.go: what the sliding window counter decides on the numbers of admitted checks in two blocks.
use limit_plane.Prelude.{
  if◌then◌else◌, ◌+ℤ◌, ◌-ℤ◌, ◌*ℤ◌, ltb_ℤ, eqb_ℤ, div_ℤ, max_ℤ, pos_part, neg_part, -ℤ_parts, ℤ, pos,
  negsuc, ℕ, suc, ◌+◌, ◌*◌, ◌≡◌, ap, Bool, true, false, List, [], ◌∷◌, arith,
}
use limit_plane.Limiter.{unit, Decision, WindowArgs}
use limit_plane.Limiter.SlidingWindowCounter.{span_of, overlap_of, estimate, decide_box, SlidingBox}

-- How many of the admitted checks fell into a block.
unfoldable pub in_block : ℤ → List ℤ → ℕ
in_block box [] = 0
in_block box (b ∷ history) =
    let rest = in_block box history in if eqb_ℤ b box then suc rest else rest

-- The entry that the whole history gives for a block.
abbrev pub exact : ℤ → List ℤ → SlidingBox
exact box history = record {
  box_index = box;
  current_box = pos (in_block box history * unit);
  previous_box = pos (in_block (box -ℤ pos 1) history * unit);
}

-- A window's length, and the part of it that the block before still overlaps, so long into a block.
unfoldable pub length_of : ℤ → ℕ
length_of window = pos_part window + neg_part window

unfoldable pub still_over : ℤ → ℤ → ℤ
still_over elapsed window =
    if ltb_ℤ window (pos 0)
    then max_ℤ (pos (length_of window) +ℤ elapsed) (pos 0)
    else max_ℤ (pos (length_of window) -ℤ elapsed) (pos 0)

-- The decision on a number of checks in the current block and one in the block before, of which only the
-- part that is still over counts: both sides are times the window's length.
unfoldable pub decide_blocks : ℕ → ℕ → ℤ → WindowArgs → Decision
decide_blocks current before elapsed a =
    let weighed =
      pos (current * unit) *ℤ pos (length_of a.window_ms)
      +ℤ pos (before * unit) *ℤ still_over elapsed a.window_ms in
    let full = a.limit *ℤ pos (length_of a.window_ms) in
    record {
      allowed = ltb_ℤ weighed full;
      remaining = max_ℤ (div_ℤ (full -ℤ weighed) (length_of a.window_ms * unit)) (pos 0);
      reset_at = pos 0;
    }

room : (x y : ℤ) → ltb_ℤ (pos 0) (x -ℤ y) ≡ ltb_ℤ y x
room x y = ground (arith, -ℤ_parts x y)

span_of-length_of : (window : ℤ) → span_of window ≡ length_of window
unfolding span_of length_of
span_of-length_of (pos w) = omega arith
span_of-length_of (negsuc w) = omega arith

overlap_of-still_over : (elapsed window : ℤ) → overlap_of elapsed window ≡ still_over elapsed window
unfolding overlap_of still_over length_of
overlap_of-still_over elapsed (pos w) =
    let long : w ≡ w + 0 = omega arith in
    let side : ltb_ℤ (pos w) (pos 0) ≡ false = ground arith in
    rw side (ap (λ (n : ℕ). max_ℤ (pos n -ℤ elapsed) (pos 0)) long)
overlap_of-still_over elapsed (negsuc w) =
    let long : suc w ≡ 0 + suc w = omega arith in
    let side : ltb_ℤ (negsuc w) (pos 0) ≡ true = ground arith in
    rw side (ap (λ (n : ℕ). max_ℤ (pos n +ℤ elapsed) (pos 0)) long)

pub decide_box-decide_blocks :
    (box elapsed : ℤ) (history : List ℤ) (a : WindowArgs)
    → (decide_box (exact box history) elapsed a).0
      ≡ decide_blocks (in_block box history) (in_block (box -ℤ pos 1) history) elapsed a
unfolding decide_box decide_blocks estimate
decide_box-decide_blocks box elapsed history a =
    rw (span_of-length_of a.window_ms, overlap_of-still_over elapsed a.window_ms)
      (let span = length_of a.window_ms in
        let full = a.limit *ℤ pos span in
        let weighed =
          pos (in_block box history * unit) *ℤ pos span
          +ℤ pos (in_block (box -ℤ pos 1) history * unit) *ℤ still_over elapsed a.window_ms in
        ap
          (λ (x : Bool). record {
            allowed = x;
            remaining = max_ℤ (div_ℤ (full -ℤ weighed) (span * unit)) (pos 0);
            reset_at = pos 0;
          })
          (room full weighed))
