-- ===== src/Bridge/Batteries/Tests.antt =====
-- The table through a few changes.
use headset_battery_indicato.Prelude.{ℕ, ◌≡◌, refl, none, some, List, [], ◌∷◌, codes, text_eq}
use headset_battery_indicato.Bridge.Batteries.{VirtualBattery, empty, position}
use headset_battery_indicato.Bridge.Batteries.View.{
  Change, add, drop, restate, replace, with_key, view, perform, intended,
}
use headset_battery_indicato.Bridge.Batteries.Refinement.{view-perform}

abbrev blank : VirtualBattery
blank = record {
  key = [];
  name = [];
  last_reading = 0;
  last_seen = 0;
  silent_since = none;
  missing_since = none;
  gone_since = none;
  deferred = none;
  deferred_sample = none;
  held = none;
  logged_percent = 50;
  published_at = 0;
  failures = 0;
}

abbrev changes : List (Change ℕ)
changes =
    add (codes "a") 1 blank
    ∷ add (codes "b") 2 blank
    ∷ drop (codes "a")
    ∷ replace (codes "b") 7
    ∷ add (codes "a") 3 blank
    ∷ restate (codes "a") (record blank { failures = 2 })
    ∷ []

the_second : view (perform changes empty) (codes "b") ≡ some (7, with_key (codes "b") blank)
unfolding view perform position text_eq empty
the_second = refl

view-perform_example :
    view (perform changes empty) (codes "a") ≡ intended changes (λ k. none) (codes "a")
view-perform_example = view-perform changes (codes "a")
