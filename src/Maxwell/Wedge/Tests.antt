-- ===== src/Maxwell/Wedge/Tests.antt =====
-- The wedge watch at concrete instants.
use headset_battery_indicato.Prelude.{ℕ, ◌+◌, ◌≡◌, refl, Bool, true, Option, some, [], ◌∷◌, arith}
use headset_battery_indicato.Time.{from_secs}
use headset_battery_indicato.Maxwell.Wedge.{watch_from, silence, look, verdict, fresh_look, check}
use headset_battery_indicato.Maxwell.Wedge.Reminders.{Spread, start, checked, Silent-warnings}

-- A machine that plays, and counts the looks at it.
abbrev playing : ℕ → ℕ × Option Bool
playing looks = (looks + 1, some true)

after_ten_minutes : (check playing (watch_from 0) 0 (from_secs 600)).2 ≡ some (from_secs 600)
unfolding check watch_from silence look verdict fresh_look
after_ten_minutes = refl

-- A warning after ten minutes, none a minute later, and one a day later.
Silent-warnings_example : Spread 0 (from_secs 87_000 ∷ from_secs 600 ∷ [])
unfolding check watch_from silence look verdict fresh_look
Silent-warnings_example = Silent-warnings playing {t₀ = 0} {machine₀ = 0} (
    checked (from_secs 87_000)
      (checked (from_secs 660) (checked (from_secs 600) start (omega arith)) (omega arith))
      (omega arith))
