-- ===== src/Headset.antt =====
-- src/headset.rs: what every battery reader reports. A text is the list of its code points.
pub mod Names
pub mod Keys
mod Tests
use headset_battery_indicato.Prelude.{
  ℕ, zero, suc, ◌+◌, ◌-◌, ◌/◌, ◌%◌, Bool, ◌&&◌, ◌||◌, Option, [], ◌∷◌, ◌++◌, Text, min, ltb, leb,
  ◌==◌, if◌then◌else◌, all, is_whitespace,
}

pub data BatteryState : Type 0 where
  discharging : ℕ → BatteryState
  charging : Option ℕ → BatteryState
  unavailable disconnected : BatteryState

pub record Headset : Type 0 where
  pub name : Text
  pub product : Text
  pub vendor_id : ℕ
  pub product_id : ℕ
  pub supports_battery : Bool
  pub battery : BatteryState
  pub sample : Option ℕ

abbrev pub hex_digit : ℕ → ℕ
hex_digit d = if ltb d 10 then b'0' + d else b'a' + (d - 10)

-- `{:04x}` of a `u16`.
unfoldable pub hex4 : ℕ → Text
hex4 n =
    hex_digit (n / 4096 % 16)
    ∷ hex_digit (n / 256 % 16)
    ∷ hex_digit (n / 16 % 16)
    ∷ hex_digit (n % 16)
    ∷ []

pub key : Headset → Text
unfolding hex4
key h = hex4 h.vendor_id ++ (b':' ∷ (hex4 h.product_id ++ (b'/' ∷ h.name)))

abbrev pub uniq_prefix : Text
uniq_prefix = b'h' ∷ b'e' ∷ b'a' ∷ b'd' ∷ b's' ∷ b'e' ∷ b't' ∷ b'-' ∷ []

pub uniq : Headset → Text
unfolding hex4
uniq h = uniq_prefix ++ (hex4 h.vendor_id ++ (b'-' ∷ hex4 h.product_id))

abbrev pub max_bytes : ℕ
max_bytes = 127

-- `char::is_control`: the category Cc.
pub is_control : ℕ → Bool
is_control c = ltb c 0x20 || (leb 0x7f c && ltb c 0xa0)

-- The bytes of a character in UTF-8, and of a text.
abbrev pub utf8_len : ℕ → ℕ
utf8_len c = if ltb c 0x80 then 1 else if ltb c 0x800 then 2 else if ltb c 0x1_0000 then 3 else 4

abbrev pub byte_len : Text → ℕ
byte_len [] = 0
byte_len (c ∷ s) = utf8_len c + byte_len s

pub without_controls : Text → Text
without_controls [] = []
without_controls (c ∷ s) = let rest = without_controls s in if is_control c then rest else c ∷ rest

pub is_char_boundary : Text → ℕ → Bool
is_char_boundary [] last = last == 0
is_char_boundary (c ∷ s) last =
    last == 0 || (leb (utf8_len c) last && is_char_boundary s (last - utf8_len c))

-- The loop that steps back to a boundary.
pub floor_char_boundary : Text → ℕ → ℕ
unfolding is_char_boundary
floor_char_boundary s zero = zero
floor_char_boundary s (suc last) =
    let before = floor_char_boundary s last in
    if is_char_boundary s (suc last) then suc last else before

-- `String::truncate` at a boundary.
pub truncate : Text → ℕ → Text
truncate [] last = []
truncate (c ∷ s) last =
    let rest = truncate s (last - utf8_len c) in if leb (utf8_len c) last then c ∷ rest else []

abbrev pub fallback_name : Text
fallback_name = b'H' ∷ b'e' ∷ b'a' ∷ b'd' ∷ b's' ∷ b'e' ∷ b't' ∷ []

abbrev pub non_blank : Text → Text
non_blank name = if all is_whitespace name then fallback_name else name

pub display_name : Headset → Text
unfolding without_controls floor_char_boundary truncate is_control is_whitespace
display_name h =
    let name = without_controls h.name in
    let last = floor_char_boundary name (min (byte_len name) max_bytes) in
    non_blank (truncate name last)
