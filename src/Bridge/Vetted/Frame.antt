-- ===== src/Bridge/Vetted/Frame.antt =====
-- What vetting a reading leaves alone.
use headset_battery_indicato.Prelude.{ℕ, ◌≡◌, refl, Option}
use headset_battery_indicato.Bridge.Policy.{
  Reading, Verdict, accept, defer, hold, vet, second_opinion,
}
use headset_battery_indicato.Bridge.Batteries.{VirtualBattery}
use headset_battery_indicato.Bridge.Vetted.{judged, vetted}

judged_frame :
    (v : Verdict) (b : VirtualBattery) (known reading : Reading) (sample : Option ℕ)
    → ((judged v b known reading sample).0.key ≡ b.key)
      × ((judged v b known reading sample).0.failures ≡ b.failures)
unfolding judged
judged_frame defer b known reading sample = (refl, refl)
judged_frame hold b known reading sample = (refl, refl)
judged_frame accept b known reading sample = (refl, refl)

pub vetted_frame :
    (b : VirtualBattery) (known reading : Reading) (sample : Option ℕ)
    → ((vetted b known reading sample).0.key ≡ b.key)
      × ((vetted b known reading sample).0.failures ≡ b.failures)
unfolding vetted
vetted_frame b known reading sample =
    judged_frame (vet known reading (second_opinion b.deferred b.deferred_sample sample)) b known
      reading sample
