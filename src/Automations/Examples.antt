-- ===== src/Automations/Examples.antt =====
-- automations.go: a storm, a quota alert and a review, on small inputs.
use limit_plane.Prelude.{
  ◌+ℤ◌, ◌-ℤ◌, ◌*ℤ◌, quot_ℤ, min_ℤ, max_ℤ, ℤ, pos, ◌≤◌, String, ◌≡◌, refl, ◌⊎◌, true, false, Option,
  none, some, List, [], ◌∷◌,
}
use limit_plane.Prelude.Assoc.{lookup, insert}
use limit_plane.Automations.{
  act, ban_remaining_ms, stamps, storm_of, is_live, on_decision, Config, Automations,
}
use limit_plane.Automations.Bans.{evidence, trips, on_decision-cooldown}
use limit_plane.Automations.Alerts.{count_alerts, count_alerts-le-one}
use limit_plane.Automations.Review.{
  quiet, all_quiet, run_ai_review, carry_out, vetted, sentence_ms, Candidate, Sentence, Turns,
}
use limit_plane.Automations.Guardrails.{eligible, Fair, run_ai_review-Fair}
use limit_plane.Audit.{Event}

abbrev one_month : ℤ → String
one_month t = "2026-11"

-- One more block than a single one is a storm.
abbrev strict : Config
strict = record { storm_threshold = pos 2; storm_window_ms = pos 60_000; cooldown_ms = pos 300_000 }

abbrev blocked : Event
blocked = record {
  at = pos 2000;
  allowed = false;
  key = "acme:free:/";
  route = "/";
  tenant_id = "acme";
  ip = "10.0.0.1";
  tier = "free";
  cost_class = "light";
  cost = pos 1_000_000;
  remaining = pos 0;
  reason = "burst";
  monthly_used = some (pos 90);
  monthly_remaining = some (pos 10);
  label = "";
  ua = "";
}

abbrev watched : Automations
watched = record {
  actions = [];
  fired_once = [];
  cap_hits = [];
  storm_log = ("acme", pos 1000 ∷ []) ∷ [];
  bans = [];
}

on_decision-cooldown_example :
    ((ban_remaining_ms
        (pos 3000)
        "acme"
        (on_decision one_month strict (pos 2000) blocked watched).1).0
      ≡ max_ℤ (pos 2000 +ℤ pos 300_000 -ℤ pos 3000) (pos 0))
    × (lookup "acme" (on_decision one_month strict (pos 2000) blocked watched).1.storm_log ≡ none)
    × ((blocked.tenant_id ≡ "other")
        ⊎ (lookup "other" (on_decision one_month strict (pos 2000) blocked watched).1.bans
            ≡ lookup "other" watched.bans))
unfolding trips evidence storm_of stamps is_live lookup ◌-ℤ◌
on_decision-cooldown_example =
    on_decision-cooldown one_month strict (pos 2000) (pos 3000) blocked watched "other" refl refl
      refl

count_alerts-le-one_example :
    count_alerts one_month strict "acme" "2026-11" watched
      ((pos 2000, blocked) ∷ (pos 2001, blocked) ∷ [])
    ≤ 1
count_alerts-le-one_example =
    count_alerts-le-one one_month strict "acme" "2026-11" watched
      ((pos 2000, blocked) ∷ (pos 2001, blocked) ∷ [])

abbrev candidates : List Candidate
candidates = record { tenant_id = "acme"; blocked = pos 4; ok = pos 0 } ∷ []

abbrev answer : Option (List Sentence)
answer = some (record { tenant_id = "acme"; minutes = pos 600_000_000; reason = "storm" } ∷ [])

run_ai_review-Fair_example :
    Fair (eligible "acme" candidates ≡ true) (pos 2000) (lookup "acme" watched.bans) (
      lookup "acme"
        (run_ai_review "key"
          (some candidates)
          answer
          (λ j. quiet (pos 2000))
          (λ j. all_quiet (pos 2000))
          watched).2.bans)
run_ai_review-Fair_example = run_ai_review-Fair "key" candidates answer (pos 2000) watched "acme"

-- A ban of an hour that an operator sets between the look and the review's ban of one minute is lost.
abbrev one_minute : Sentence
one_minute = record { tenant_id = "acme"; minutes = pos 1_000_000; reason = "" }

abbrev raced : Turns
raced = record {
  look = quiet (pos 2000);
  sentence = record {
    at = pos 2000;
    others = λ s. record s { bans = insert "acme" (pos 3_602_000) s.bans };
  };
  log = quiet (pos 2000);
}

longer_ban_lost :
    lookup "acme" (carry_out raced candidates one_minute watched).2.bans ≡ some (pos 62_000)
unfolding carry_out ban_remaining_ms vetted sentence_ms act lookup insert ◌+ℤ◌ ◌*ℤ◌ quot_ℤ min_ℤ
    max_ℤ
longer_ban_lost = refl
