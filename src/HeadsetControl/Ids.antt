-- ===== src/HeadsetControl/Ids.antt =====
-- USB identifiers read back from the form they are printed in.
use headset_battery_indicato.Prelude.{
  ℕ, ◌+◌, ◌*◌, ◌/◌, ◌%◌, ◌<◌, ◌≡◌, refl, ap, true, false, some, [], ◌∷◌, ◌++◌, arith, Text, codes,
  ◌==◌, is_whitespace, trim, trim_start, trim_end, strip_prefix, is_empty_list, all,
}
use headset_battery_indicato.Headset.{hex4, hex_digit}
use headset_battery_indicato.HeadsetControl.{
  hex_value, next_digit, hex_digits, from_hex, parse_id, or_zero,
}

hex_value-hex_digit : (d : ℕ) → d < 16 → hex_value (hex_digit d) ≡ some d
unfolding hex_value
hex_value-hex_digit d h = ground arith

is_whitespace-hex_digit : (d : ℕ) → d < 16 → is_whitespace (hex_digit d) ≡ false
unfolding is_whitespace
is_whitespace-hex_digit d h = ground arith

not_empty : (s : Text) (c : ℕ) → is_empty_list (s ++ c ∷ []) ≡ false
not_empty [] c = refl
not_empty (d ∷ s) c = refl

is_whitespace-zero : is_whitespace b'0' ≡ false
unfolding is_whitespace
is_whitespace-zero = refl

-- A text that ends in a character that is no white space.
trim_end-solid : (s : Text) (c : ℕ) → is_whitespace c ≡ false → trim_end (s ++ c ∷ []) ≡ s ++ c ∷ []
unfolding trim_end
trim_end-solid [] c h = rw h
trim_end-solid (d ∷ s) c h = rw (trim_end-solid s c h, not_empty s c) refl

next_digit-hex_digit :
    (value d : ℕ)
    → d < 16
    → value * 16 + d < 65_536
    → next_digit (some value) (hex_digit d) ≡ some (value * 16 + d)
unfolding next_digit
next_digit-hex_digit value d h l = ground (arith, hex_value-hex_digit d)

hex_digits-hex4 : (n : ℕ) → n < 65_536 → hex_digits (some 0) (hex4 n) ≡ some n
unfolding hex_digits hex4
hex_digits-hex4 n h =
    rw
      (
        next_digit-hex_digit 0 (n / 4096 % 16) (omega arith) (omega arith),
        next_digit-hex_digit (0 * 16 + n / 4096 % 16) (n / 256 % 16) (omega arith) (omega arith),
        next_digit-hex_digit ((0 * 16 + n / 4096 % 16) * 16 + n / 256 % 16) (n / 16 % 16)
            (omega arith) (omega arith),
        next_digit-hex_digit (((0 * 16 + n / 4096 % 16) * 16 + n / 256 % 16) * 16 + n / 16 % 16)
            (n % 16) (omega arith) (omega arith),
      )
      (ap some (omega arith))

no_sign : (d : ℕ) → d < 16 → (hex_digit d == b'+') ≡ false
no_sign d h = ground arith

from_hex-hex4 : (n : ℕ) → n < 65_536 → from_hex (hex4 n) ≡ some n
unfolding from_hex hex4
from_hex-hex4 n h = rw (no_sign (n / 4096 % 16) (omega arith)) (hex_digits-hex4 n h)

-- White space around a text.
trim_start-blank :
    (blank s : Text) → all is_whitespace blank ≡ true → trim_start (blank ++ s) ≡ trim_start s
unfolding trim_start
trim_start-blank [] s h = refl
trim_start-blank (c ∷ blank) s h = ground (arith, trim_start-blank blank s)

trim_end-blank : (blank : Text) → all is_whitespace blank ≡ true → trim_end blank ≡ []
unfolding trim_end
trim_end-blank [] h = refl
trim_end-blank (c ∷ blank) h = ground (arith, trim_end-blank blank)

trim_end-append :
    (s blank : Text) → all is_whitespace blank ≡ true → trim_end (s ++ blank) ≡ trim_end s
unfolding trim_end
trim_end-append [] blank h = trim_end-blank blank h
trim_end-append (c ∷ s) blank h = rw (trim_end-append s blank h) refl

trim-solid :
    (before after middle : Text) (c d : ℕ)
    → all is_whitespace before ≡ true
    → all is_whitespace after ≡ true
    → is_whitespace c ≡ false
    → is_whitespace d ≡ false
    → trim (before ++ ((c ∷ (middle ++ d ∷ [])) ++ after)) ≡ c ∷ (middle ++ d ∷ [])
unfolding trim trim_start
trim-solid before after middle c d hb ha hc hd =
    rw
      (
        trim_start-blank before ((c ∷ (middle ++ d ∷ [])) ++ after) hb,
        hc,
        trim_end-append (c ∷ (middle ++ d ∷ [])) after ha,
        trim_end-solid (c ∷ middle) d hd,
      )
      refl

-- An identifier printed with four hexadecimal digits behind `0x` is read back, whatever white space
-- stands around it.
pub parse_id-hex4 :
    (n : ℕ) (before after : Text)
    → n < 65_536
    → all is_whitespace before ≡ true
    → all is_whitespace after ≡ true
    → parse_id (before ++ ((codes "0x" ++ hex4 n) ++ after)) ≡ n
unfolding parse_id hex4 strip_prefix from_hex
parse_id-hex4 n before after h hb ha =
    let trimmed : trim (before ++ ((codes "0x" ++ hex4 n) ++ after)) ≡ codes "0x" ++ hex4 n =
      trim-solid before after
        (b'x' ∷ hex_digit (n / 4096 % 16) ∷ hex_digit (n / 256 % 16) ∷ hex_digit (n / 16 % 16) ∷ [])
        b'0' (hex_digit (n % 16)) hb ha (is_whitespace-zero)
        (is_whitespace-hex_digit (n % 16) (omega arith)) in
    rw trimmed (ap or_zero (from_hex-hex4 n h))
