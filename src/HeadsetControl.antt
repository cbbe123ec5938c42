-- ===== src/HeadsetControl.antt =====
-- src/headsetcontrol.rs: what the `headsetcontrol` binary reports, as headsets. Decoding JSON is
-- `serde_json`, a parameter.
pub mod Ids
pub mod Levels
pub mod Process
mod Tests
use headset_battery_indicato.Prelude.{
  ℕ, zero, suc, ◌+◌, ◌-◌, ◌*◌, Bool, true, false, ◌&&◌, Option, none, some, List, [], ◌∷◌, map,
  Text, text_eq, ltb, leb, ◌==◌, if◌then◌else◌, any, take, is_empty_list, codes, trim, strip_prefix,
  find_from,
}
use headset_battery_indicato.Prelude.Int.{ℤ, pos, negsuc}
use headset_battery_indicato.Prelude.Outcome.{Result, ok, err}
use headset_battery_indicato.Headset.{Headset, BatteryState, discharging, charging, unavailable}

abbrev pub quoted_output : ℕ
quoted_output = 200

-- The first characters of some output.
pub quote : Text → Text
quote output = take quoted_output (trim output)

-- `Battery` of the report.
pub record Charge : Type 0 where
  pub status : Text
  pub level : ℤ

pub record Device : Type 0 where
  pub model : Text
  pub product : Text
  pub id_vendor : Text
  pub id_product : Text
  pub capabilities : List Text
  pub battery : Option Charge

abbrev pub within : ℕ → Option ℕ
within level = if leb level 100 then some level else none

-- `u8::try_from(level).ok().filter(...)`
unfoldable pub percentage : ℤ → Option ℕ
percentage (pos level) = within level
percentage (negsuc below) = none

abbrev pub shown_level : Option ℕ → BatteryState
shown_level none = unavailable
shown_level (some level) = discharging level

unfoldable pub battery_state : Charge → BatteryState
unfolding percentage
battery_state c =
    if text_eq c.status (codes "BATTERY_AVAILABLE")
    then shown_level (percentage c.level)
    else if text_eq c.status (codes "BATTERY_CHARGING")
    then charging (percentage c.level)
    else unavailable

unfoldable pub hex_value : ℕ → Option ℕ
hex_value c =
    if leb b'0' c && leb c b'9'
    then some (c - b'0')
    else if leb b'a' c && leb c b'f'
    then some (c - b'a' + 10)
    else if leb b'A' c && leb c b'F'
    then some (c - b'A' + 10)
    else none

abbrev pub or_zero : Option ℕ → ℕ
or_zero none = 0
or_zero (some n) = n

abbrev pub u16_limit : ℕ
u16_limit = 65_536

-- The digits' value with one more, unless it leaves the type.
abbrev pub with_digit : ℕ → Option ℕ → Option ℕ
with_digit value none = none
with_digit value (some digit) =
    if ltb (value * 16 + digit) u16_limit then some (value * 16 + digit) else none

unfoldable pub next_digit : Option ℕ → ℕ → Option ℕ
unfolding hex_value
next_digit none c = none
next_digit (some value) c = with_digit value (hex_value c)

unfoldable pub hex_digits : Option ℕ → Text → Option ℕ
unfolding next_digit
hex_digits value [] = value
hex_digits value (c ∷ s) = hex_digits (next_digit value c) s

-- `u16::from_str_radix(digits, 16)`: a sign may stand before the digits, of which there is one at
-- least.
unfoldable pub from_hex : Text → Option ℕ
unfolding hex_digits
from_hex [] = none
from_hex (c ∷ []) = hex_digits (some 0) (c ∷ [])
from_hex (c ∷ d ∷ s) =
    if c == b'+' then hex_digits (some 0) (d ∷ s) else hex_digits (some 0) (c ∷ d ∷ s)

abbrev pub or_else : Option Text → Option Text → Option Text
or_else none other = other
or_else (some s) other = some s

abbrev pub or_text : Option Text → Text → Text
or_text none other = other
or_text (some s) other = s

-- The `0x3329` form of USB identifiers.
unfoldable pub parse_id : Text → ℕ
unfolding from_hex trim strip_prefix
parse_id raw =
    let trimmed = trim raw in
    let digits =
      or_text (or_else (strip_prefix (codes "0x") trimmed) (strip_prefix (codes "0X") trimmed))
        trimmed in
    or_zero (from_hex digits)

abbrev pub battery_or_unavailable : Option Charge → BatteryState
unfolding battery_state
battery_or_unavailable none = unavailable
battery_or_unavailable (some c) = battery_state c

-- `Headset::from`
unfoldable pub headset_of : Device → Headset
unfolding parse_id battery_state
headset_of device = record {
  name = device.model;
  product = device.product;
  vendor_id = parse_id device.id_vendor;
  product_id = parse_id device.id_product;
  supports_battery =
      any (λ capability. text_eq capability (codes "CAP_BATTERY_STATUS")) device.capabilities;
  battery = battery_or_unavailable device.battery;
  sample = none;
}

-- `serde_json::from_str`, to the devices of a report.
abbrev pub Decoder : Type 0
Decoder = Text → Option (List Device)

abbrev pub decoded : Option (List Device) → Option (List Headset)
unfolding headset_of
decoded none = none
decoded (some devices) = some (map headset_of devices)

unfoldable pub parse : Decoder → Text → Option (List Headset)
unfolding find_from trim
parse decode stdout =
    let json = trim (or_text (find_from b'{' stdout) stdout) in
    if is_empty_list json then some [] else decoded (decode json)
