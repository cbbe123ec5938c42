-- ===== src/Bridge/Policy/Graces.antt =====
-- When a battery keeps its entry, and how soon it is looked at again.
use headset_battery_indicato.Prelude.{
  ℕ, ◌*◌, ◌≤◌, ◌<◌, ◌≡◌, refl, ◌↔◌, Bool, true, false, Option, some, List, [], ◌∷◌, arith, Text,
  map,
}
use headset_battery_indicato.Time.{Duration, Instant, duration_since}
use headset_battery_indicato.Bridge.Policy.{
  Config, default_config, next_delay, note, elapsed, withdrawal, keep, silent, missing,
}

-- A battery is withdrawn as missing exactly when the headset has been missing for longer than the
-- missing grace; as silent exactly when it is not missing at all and has been silent for longer than
-- the offline grace.
pub withdrawal_exact :
    (silent_for missing_for : Duration) (config : Config)
    → ((withdrawal silent_for missing_for config ≡ missing) ↔ (config.missing_grace < missing_for))
      × ((withdrawal silent_for missing_for config ≡ silent)
          ↔ ((missing_for ≡ 0) × (config.offline_grace < silent_for)))
unfolding withdrawal
withdrawal_exact silent_for missing_for config =
    ((λ e. ground arith, λ e. ground arith), (λ e. ground arith, λ e. ground arith))

-- A condition's clock after a run of polls: for each, whether it was fine and when it was.
abbrev pub noted : Option Instant → List (Bool × Instant) → Option Instant
noted since [] = since
noted since ((fine, now) ∷ polls) = noted (note since fine now) polls

abbrev pub misses : List Instant → List (Bool × Instant)
misses = map (λ t. (false, t))

noted-misses : (at : Instant) (later : List Instant) → noted (some at) (misses later) ≡ some at
unfolding note
noted-misses at [] = refl
noted-misses at (t ∷ later) = noted-misses at later

-- After an answered poll and any run of unanswered ones, a listed headset is withdrawn as silent
-- exactly when more than the offline grace has passed since the first unanswered poll, however many
-- there were and whatever the clock said before.
pub grace_from_first_miss :
    (before : Option Instant) (answered missed : Instant) (later : List Instant) (now : Instant)
    (config : Config)
    → let since = noted before ((true, answered) ∷ (false, missed) ∷ misses later) in
      (withdrawal (elapsed since now) 0 config ≡ silent)
      ↔ (config.offline_grace < duration_since now missed)
unfolding note
grace_from_first_miss before answered missed later now config =
    rw (noted-misses missed later) (withdrawal-silent (duration_since now missed) config)
  where
    withdrawal-silent :
        (d : Duration) (config : Config)
        → (withdrawal d 0 config ≡ silent) ↔ (config.offline_grace < d)
    withdrawal-silent d config =
        let e = (withdrawal_exact d 0 config).1 in (λ h. (e.0 h).1, λ h. e.1 (refl, h))

-- With the default configuration the first three retries, each after the delay of an unanswered
-- poll, fall within the offline grace, whichever reader answered.
pub three_retries_fit :
    (native : Bool) (dev_uhid : Text) (retry : ℕ)
    → retry ≤ 3
    → withdrawal
        (retry * next_delay true native (default_config dev_uhid))
        0
        (default_config dev_uhid)
      ≡ keep
unfolding withdrawal next_delay
three_retries_fit true dev_uhid retry h = ground arith
three_retries_fit false dev_uhid retry h = ground arith
