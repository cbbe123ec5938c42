-- ===== src/Prelude/Texts.antt =====
-- Texts as lists of code points, and the operations of `str` on them.
use Prim.Native.Char.{code}
use Prim.Native.String.{String}
use Prim.Native.Nat.{ℕ, zero, suc, ◌+◌, ◌/◌, ◌%◌}
use mathlib.Core.Bool.{Bool, false, ◌&&◌, ◌||◌}
use mathlib.Core.Option.{Option, none, some}
use mathlib.Core.List.{List, [], ◌∷◌, ◌++◌, map}
use headset_battery_indicato.Prelude.Tests.{Text, ltb, is_some, leb, ◌==◌, if◌then◌else◌}
use headset_battery_indicato.Prelude.Lists.{is_empty_list}

-- The code points of a literal.
abbrev pub codes : String → Text
codes String.[] = []
codes (String.◌∷◌ c s) = code c ∷ codes s

-- `char::is_whitespace`: the property White_Space.
unfoldable pub is_whitespace : ℕ → Bool
is_whitespace c =
    (leb 0x09 c && leb c 0x0d)
    || (c == 0x20
        || (c == 0x85
            || (c == 0xa0
                || (c == 0x1680
                    || ((leb 0x2000 c && leb c 0x200a)
                        || (c == 0x2028
                            || (c == 0x2029 || (c == 0x202f || (c == 0x205f || c == 0x3000)))))))))

unfoldable pub trim_start : Text → Text
trim_start [] = []
trim_start (c ∷ s) = let rest = trim_start s in if is_whitespace c then rest else c ∷ s

unfoldable pub trim_end : Text → Text
trim_end [] = []
trim_end (c ∷ s) =
    let rest = trim_end s in if is_empty_list rest && is_whitespace c then [] else c ∷ rest

-- `str::trim`
unfoldable pub trim : Text → Text
unfolding trim_start trim_end
trim s = trim_end (trim_start s)

-- `str::strip_prefix`
unfoldable pub strip_prefix : Text → Text → Option Text
strip_prefix [] s = some s
strip_prefix (p ∷ ps) [] = none
strip_prefix (p ∷ ps) (c ∷ s) = let rest = strip_prefix ps s in if p == c then rest else none

-- The rest of a text from the first occurrence of a character on.
unfoldable pub find_from : ℕ → Text → Option Text
find_from c [] = none
find_from c (d ∷ s) = let rest = find_from c s in if c == d then some (d ∷ s) else rest

-- `str::starts_with` and `str::ends_with` of one character.
unfoldable pub starts_with : Text → Text → Bool
unfolding strip_prefix
starts_with prefix s = is_some (strip_prefix prefix s)

unfoldable pub ends_with : ℕ → Text → Bool
ends_with last [] = false
ends_with last (c ∷ []) = c == last
ends_with last (c ∷ d ∷ s) = ends_with last (d ∷ s)

-- A carriage return at the end of a line is not part of it.
abbrev unterminated : Text → Text
unterminated [] = []
unterminated (c ∷ []) = if c == 0x0d then [] else c ∷ []
unterminated (c ∷ d ∷ s) = c ∷ unterminated (d ∷ s)

-- A character in front of the first of the lines.
abbrev onto_first : ℕ → List Text → List Text
onto_first c [] = (c ∷ []) ∷ []
onto_first c (line ∷ lines) = (c ∷ line) ∷ lines

unfoldable pub split_lines : Text → List Text
split_lines [] = []
split_lines (c ∷ s) = let rest = split_lines s in if c == 0x0a then [] ∷ rest else onto_first c rest

-- `str::lines`
unfoldable pub lines : Text → List Text
unfolding split_lines
lines s = map unterminated (split_lines s)

-- `{}` of an unsigned number.
unfoldable pub decimal_from : ℕ → ℕ → Text
decimal_from zero n = []
decimal_from (suc fuel) n =
    let rest = decimal_from fuel (n / 10) in
    if ltb n 10 then (b'0' + n) ∷ [] else rest ++ (b'0' + n % 10) ∷ []

-- A number has no more digits than its value and one.
unfoldable pub decimal : ℕ → Text
unfolding decimal_from
decimal n = decimal_from (suc n) n
