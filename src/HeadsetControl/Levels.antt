-- ===== src/HeadsetControl/Levels.antt =====
-- The levels that a report can give.
use headset_battery_indicato.Prelude.{
  ◌≤◌, ◌≡◌, refl, inl, inr, Bool, true, false, Option, none, some, List, [], ◌∷◌, arith, Text, map,
  All, if◌then◌else◌, Bool-cases, text_eq, codes, leb,
}
use headset_battery_indicato.Prelude.Int.{ℤ, pos, negsuc}
use headset_battery_indicato.Headset.{
  Headset, BatteryState, discharging, charging, unavailable, disconnected,
}
use headset_battery_indicato.HeadsetControl.{
  Charge, Device, Decoder, percentage, shown_level, battery_state, battery_or_unavailable,
  headset_of, decoded, parse,
}

-- What a report can say of a battery: a percentage at most, and never that the headset is known to
-- be gone.
abbrev pub IsReported : BatteryState → Type 0
IsReported (discharging level) = level ≤ 100
IsReported (charging none) = Unit {0}
IsReported (charging (some level)) = level ≤ 100
IsReported unavailable = Unit {0}
IsReported disconnected = ⊥

shown_level-IsReported : (level : ℤ) → IsReported (shown_level (percentage level))
unfolding percentage
shown_level-IsReported (pos n) = elim (Bool-cases (leb n 100)) [
  | inl few ↦ rw few (ground arith)
  | inr many ↦ rw many tt
]
shown_level-IsReported (negsuc n) = tt

charging-IsReported : (level : ℤ) → IsReported (charging (percentage level))
unfolding percentage
charging-IsReported (pos n) = elim (Bool-cases (leb n 100)) [
  | inl few ↦ rw few (ground arith)
  | inr many ↦ rw many tt
]
charging-IsReported (negsuc n) = tt

battery_state-IsReported : (c : Charge) → IsReported (battery_state c)
unfolding battery_state
battery_state-IsReported c = elim (Bool-cases (text_eq c.status (codes "BATTERY_AVAILABLE"))) [
  | inl e ↦ rw e (shown_level-IsReported c.level)
  | inr e ↦ rw e (elim (Bool-cases (text_eq c.status (codes "BATTERY_CHARGING"))) [
    | inl f ↦ rw f (charging-IsReported c.level)
    | inr f ↦ rw f tt
  ])
]

battery-IsReported : (c : Option Charge) → IsReported (battery_or_unavailable c)
unfolding battery_or_unavailable
battery-IsReported none = tt
battery-IsReported (some c) = battery_state-IsReported c

abbrev pub IsFresh : Headset → Type 0
IsFresh h = IsReported h.battery × (h.sample ≡ none)

headsets-IsFresh : (devices : List Device) → All IsFresh (map headset_of devices)
unfolding headset_of
headsets-IsFresh [] = tt
headsets-IsFresh (device ∷ devices) =
    ((battery-IsReported device.battery, refl), headsets-IsFresh devices)

some-IsFresh :
    (fresh headsets : List Headset)
    → some fresh ≡ some headsets
    → All IsFresh fresh
    → All IsFresh headsets
some-IsFresh fresh headsets e h = let f : fresh ≡ headsets = cc in rw (← f) h

decoded-IsFresh :
    (o : Option (List Device)) (headsets : List Headset)
    → decoded o ≡ some headsets
    → All IsFresh headsets
unfolding decoded
decoded-IsFresh none headsets e = absurd (ground arith)
decoded-IsFresh (some devices) headsets e = some-IsFresh _ headsets e (headsets-IsFresh devices)

parsed-IsFresh :
    (empty : Bool) (o : Option (List Device)) (headsets : List Headset)
    → (if empty then some [] else decoded o) ≡ some headsets
    → All IsFresh headsets
parsed-IsFresh true o headsets e = some-IsFresh [] headsets e tt
parsed-IsFresh false o headsets e = decoded-IsFresh o headsets e

-- Whatever the binary writes and whatever its JSON says, a headset that is read out of it has a level
-- of at most 100 if it has one, is not said to be gone, and its reading counts as a new one.
pub parse-IsFresh :
    (decode : Decoder) (stdout : Text) (headsets : List Headset)
    → parse decode stdout ≡ some headsets
    → All IsFresh headsets
unfolding parse
parse-IsFresh decode stdout headsets e = parsed-IsFresh _ _ headsets e
