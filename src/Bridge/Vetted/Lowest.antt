-- ===== src/Bridge/Vetted/Lowest.antt =====
-- What a run of readings is published as while the headset discharges.
use headset_battery_indicato.Prelude.{
  ℕ, ◌≤◌, ◌≡◌, refl, false, Option, some, List, [], ◌∷◌, arith, abs_diff, min,
}
use headset_battery_indicato.Bridge.Policy.{Reading, vet, second_opinion, max_plausible_step}
use headset_battery_indicato.Bridge.Batteries.{VirtualBattery}
use headset_battery_indicato.Bridge.Vetted.{vetted}
use headset_battery_indicato.Bridge.Vetted.Jumps.{known_after}

-- The level published after a series of levels read off the cable, with their sample numbers.
pub published : VirtualBattery → Reading → List (ℕ × Option ℕ) → Reading
published b known [] = known
published b known ((percent, sample) ∷ series) =
    let (b', out) = vetted b known (record { percent = percent; charging = false }) sample in
    published b' (known_after out known) series

abbrev pub lowest : ℕ → List (ℕ × Option ℕ) → ℕ
lowest percent [] = percent
lowest percent ((p, sample) ∷ series) = lowest (min percent p) series

-- Each level is within the plausible step of the lowest before it.
abbrev pub IsGradual : ℕ → List (ℕ × Option ℕ) → Type 0
IsGradual percent [] = Unit {0}
IsGradual percent ((p, sample) ∷ series) =
    (abs_diff percent p ≤ max_plausible_step) × IsGradual (min percent p) series

gradual-shown :
    (b : VirtualBattery) (percent p : ℕ) (sample : Option ℕ)
    → abs_diff percent p ≤ max_plausible_step
    → (vetted b
        (record { percent = percent; charging = false })
        (record { percent = p; charging = false })
        sample).1
      ≡ some (record { percent = min percent p; charging = false })
unfolding vetted vet second_opinion
gradual-shown b percent p sample h = ground arith

-- While the headset discharges and no level is more than 15 points off, what is published is the
-- lowest level seen: the gauge settling upwards is never shown, and every drop is.
pub published_is_lowest :
    (b : VirtualBattery) (percent : ℕ) (series : List (ℕ × Option ℕ))
    → IsGradual percent series
    → published b (record { percent = percent; charging = false }) series
      ≡ record { percent = lowest percent series; charging = false }
unfolding published
published_is_lowest b percent [] h = refl
published_is_lowest b percent ((p, sample) ∷ series) h =
    let b' =
      (vetted b (record { percent = percent; charging = false })
        (record { percent = p; charging = false }) sample).0 in
    rw (gradual-shown b percent p sample h.0) (published_is_lowest b' (min percent p) series h.1)
