-- ===== src/Maxwell/Access/Tests.antt =====
-- The access error watch at concrete instants.
use headset_battery_indicato.Prelude.{◌≡◌, true, [], ◌∷◌}
use headset_battery_indicato.Time.{from_secs}
use headset_battery_indicato.Maxwell.Access.{failures, fresh_watch, recovered, failures-once}

failures-once_example :
    let (watch, warnings) =
      failures fresh_watch (b'x' ∷ []) (0 ∷ from_secs 1 ∷ from_secs 6 ∷ from_secs 7 ∷ []) in
    (warnings ≡ 1) × ((recovered watch).1 ≡ true)
failures-once_example = failures-once (b'x' ∷ []) 0 (from_secs 1 ∷ from_secs 6 ∷ from_secs 7 ∷ [])
