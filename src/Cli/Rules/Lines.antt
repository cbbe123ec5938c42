-- ===== src/Cli/Rules/Lines.antt =====
-- What `udev-rules` of src/main.rs prints line by line is read line by line.
use headset_battery_indicato.Prelude.{
  ℕ, ◌/◌, ◌%◌, ◌<◌, ◌≡◌, ◌≢◌, refl, false, List, [], ◌∷◌, ◌++◌, arith, Text, ◌==◌, All, All-append,
  split_lines,
}
use headset_battery_indicato.Headset.{hex_digit, hex4}
use headset_battery_indicato.Cli.Output.{printed}

-- A text with no line feed in it.
abbrev pub OneLine : Text → Type 0
OneLine = All (λ c. c ≢ 0x0a)

split_lines-line : (s t : Text) → OneLine s → split_lines (s ++ 0x0a ∷ t) ≡ s ∷ split_lines t
unfolding split_lines
split_lines-line [] t h = refl
split_lines-line (c ∷ s) t h =
    let other : (c == 0x0a) ≡ false = ground (arith, h.0) in rw (other, split_lines-line s t h.1)

-- What is printed line by line is read line by line.
pub split_lines-printed : (ls : List Text) → All OneLine ls → split_lines (printed ls) ≡ ls
unfolding split_lines printed
split_lines-printed [] h = refl
split_lines-printed (line ∷ ls) h =
    rw (split_lines-line line (printed ls) h.0, split_lines-printed ls h.1)

hex_digit-graphic : (d : ℕ) → d < 16 → hex_digit d ≢ 0x0a
hex_digit-graphic d h = ground arith

pub hex4-OneLine : (n : ℕ) → OneLine (hex4 n)
unfolding hex4
hex4-OneLine n = (
  hex_digit-graphic (n / 4096 % 16) (omega arith),
  (
    hex_digit-graphic (n / 256 % 16) (omega arith),
    (hex_digit-graphic (n / 16 % 16) (omega arith), (hex_digit-graphic (n % 16) (omega arith), tt)),
  ),
)

pub OneLine-append : (s t : Text) → OneLine s → OneLine t → OneLine (s ++ t)
OneLine-append s t h k = All-append _ s t h k
