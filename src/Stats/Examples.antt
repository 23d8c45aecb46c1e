-- ===== src/Stats/Examples.antt =====
-- stats.go: the counters after one block.
use limit_plane.Prelude.{pos, ◌≢◌, false, none, [], ◌∷◌}
use limit_plane.Stats.{new}
use limit_plane.Stats.Counts.{on_all, on_all-Counted, Counted}
use limit_plane.Audit.{Event}

abbrev refused : Event
refused = record {
  at = pos 2000;
  allowed = false;
  key = "acme:free:/";
  route = "/";
  tenant_id = "acme";
  ip = "10.0.0.1";
  tier = "free";
  cost_class = "light";
  cost = pos 1_000_000;
  remaining = pos 0;
  reason = "burst";
  monthly_used = none;
  monthly_remaining = none;
  label = "";
  ua = "";
}

not_empty : refused.reason ≢ ""
not_empty q = cc

on_all-Counted_example :
    Counted (refused ∷ []) "acme" "burst" (new (pos 1000)) (on_all (refused ∷ []) (new (pos 1000)))
on_all-Counted_example = on_all-Counted (refused ∷ []) "acme" "burst" (new (pos 1000)) not_empty
