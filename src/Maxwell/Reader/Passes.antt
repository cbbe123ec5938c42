-- ===== src/Maxwell/Reader/Passes.antt =====
-- One pass of the reader of src/maxwell/mod.rs after another, over the same dongles.
use headset_battery_indicato.Prelude.{◌≤◌, Bool, Option, List, [], ◌∷◌, Text}
use headset_battery_indicato.Time.{Duration, Instant}
use headset_battery_indicato.Headset.{Headset}
use headset_battery_indicato.Maxwell.Session.{Hidraw, Dongle}
use headset_battery_indicato.Maxwell.Access.{Outside}
use headset_battery_indicato.Maxwell.Reader.{Reader, reconcile}

pub record Pass : Type 0 where
  pub wired : Bool
  pub now : Instant
  pub interval : Duration
  pub listen_first : Duration

-- The instants do not go back.
abbrev pub Ordered : Instant → List Pass → Type 0
Ordered t [] = Unit {0}
Ordered t (p ∷ passes) = (t ≤ p.now) × Ordered p.now passes

abbrev pub last_at : Instant → List Pass → Instant
last_at t [] = t
last_at t (p ∷ passes) = last_at p.now passes

module _ (h : Hidraw) {M : Type 0} (playback : Option Text → M → M × Option Bool)
    (dongles : List Dongle) where
  abbrev pub pass : Reader h.Device → Outside M → Pass → Reader h.Device × Outside M × List Headset
  unfolding reconcile
  pass reader outside p =
      reconcile h playback reader outside dongles p.wired p.now p.interval p.listen_first

  unfoldable pub passed : Reader h.Device → Outside M → List Pass → Reader h.Device × Outside M
  unfolding pass
  passed reader outside [] = (reader, outside)
  passed reader outside (p ∷ passes) =
      let (reader', outside', headsets) = pass reader outside p in passed reader' outside' passes
