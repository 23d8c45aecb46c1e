-- ===== src/Fingerprint/Examples.antt =====
-- fingerprint.go: four observations of two clients, with a window of two.
use limit_plane.Prelude.{ℤ, pos, length, ◌≤◌, String, ◌≡◌, refl, true, some, List, [], ◌∷◌}
use limit_plane.Prelude.Assoc.{lookup, insert, contains}
use limit_plane.Fingerprint.{
  new, tracked, extended, classify, observe, Observation, Client, warming,
}
use limit_plane.Fingerprint.Bounds.{observe_all, clients-le-cap}

abbrev hit : ℤ → Observation
hit at = record { at = at; route = "/"; allowed = true }

abbrev hits : List (String × Observation)
hits =
    ("acme", hit (pos 5))
    ∷ ("other", hit (pos 6))
    ∷ ("acme", hit (pos 7))
    ∷ ("acme", hit (pos 8))
    ∷ []

abbrev kept : Client
kept = record { events = hit (pos 7) ∷ hit (pos 8) ∷ []; label = warming }

kept_there : lookup "acme" (observe_all hits (new (pos 2))).clients ≡ some kept
unfolding observe_all observe tracked extended classify new lookup contains insert
kept_there = refl

clients-le-cap_example :
    (length (observe_all hits (new (pos 2))).clients ≤ 1000)
    × (length kept.events ≤ (new (pos 2)).window)
clients-le-cap_example = clients-le-cap (pos 2) hits "acme" kept kept_there
