-- ===== src/Audit/Examples.antt =====
-- audit.go: a diary of two events that is written three times.
use mathlib.Core.List.{reverse}
use limit_plane.Prelude.{ℤ, pos, ◌≡◌, refl, true, none, some, List, [], ◌∷◌}
use limit_plane.Audit.{new, recent, Event}
use limit_plane.Audit.Ring.{latest}
use limit_plane.Audit.History.{append_all, stamp_all, size, wanted, recent-append_all}

abbrev line : ℤ → Event
line at = record {
  at = at;
  allowed = true;
  key = "acme:free:/";
  route = "/";
  tenant_id = "acme";
  ip = "10.0.0.1";
  tier = "free";
  cost_class = "light";
  cost = pos 1_000_000;
  remaining = pos 3;
  reason = "";
  monthly_used = none;
  monthly_remaining = none;
  label = "";
  ua = "";
}

abbrev lines : List (ℤ × Event)
lines = (pos 5, line (pos 0)) ∷ (pos 6, line (pos 6)) ∷ (pos 7, line (pos 7)) ∷ []

recent-append_all_example :
    recent (append_all (new (pos 2)) lines) (pos 1)
    ≡ some (wanted (pos 1) (reverse (latest (size (pos 2)) (stamp_all lines))))
recent-append_all_example = recent-append_all (pos 2) (pos 1) lines

-- The last of the three.
last_line_read :
    wanted (pos 1) (reverse (latest (size (pos 2)) (stamp_all lines))) ≡ line (pos 7) ∷ []
unfolding wanted size latest stamp_all
last_line_read = refl
