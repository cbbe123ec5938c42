-- ===== src/Maxwell/Wedge/Human.antt =====
-- `human` of src/maxwell/wedge.rs: a duration as a log line says it, and what a reader of the line
-- makes of it.
use mathlib.Core.List.{append_assoc}
use headset_battery_indicato.Prelude.{
  ℕ, zero, suc, ◌+◌, ◌-◌, ◌*◌, ◌/◌, ◌%◌, ◌≤◌, ◌<◌, ◌≡◌, refl, inl, inr, Bool, true, ◌&&◌, [], ◌∷◌,
  ◌++◌, ◌∙◌, ap, arith, Text, codes, ltb, leb, ◌==◌, if◌then◌else◌, decimal, decimal_from,
  Bool-cases,
}
use headset_battery_indicato.Time.{Duration}

-- `Duration::as_secs`
abbrev pub as_secs : Duration → ℕ
as_secs duration = duration / 1_000_000_000

-- The cases of the days, hours and minutes.
abbrev pub said : ℕ → ℕ → ℕ → ℕ → Text
said zero zero zero secs = decimal secs ++ codes "s"
said zero zero mins secs = decimal mins ++ codes "min"
said zero hours zero secs = decimal hours ++ codes "h"
said zero hours mins secs = decimal hours ++ (codes "h " ++ (decimal mins ++ codes "min"))
said days zero mins secs = decimal days ++ codes "d"
said days hours mins secs = decimal days ++ (codes "d " ++ (decimal hours ++ codes "h"))

unfoldable pub human : Duration → Text
unfolding decimal
human duration =
    let secs = as_secs duration in said (secs / 86_400) (secs / 3600 % 24) (secs / 60 % 60) secs

-- A reader of such lines: a number counts the unit behind it.
abbrev is_digit : ℕ → Bool
is_digit c = leb b'0' c && leb c b'9'

abbrev unit : ℕ → ℕ
unit c =
    if c == b's'
    then 1
    else if c == b'm'
    then 60
    else if c == b'h'
    then 3600
    else if c == b'd'
    then 86_400
    else 0

pub spoken : ℕ → Text → ℕ
spoken n [] = 0
spoken n (c ∷ s) =
    (if is_digit c then 0 else n * unit c)
    + spoken (if is_digit c then n * 10 + (c - b'0') else 0) s

-- What a line leaves out.
abbrev pub grain : ℕ → ℕ
grain secs = if ltb secs 60 then 1 else if ltb secs 86_400 then 60 else 3600

is_digit-decimal : (d : ℕ) → d < 10 → is_digit (b'0' + d) ≡ true
is_digit-decimal d h = ground arith

spoken-digit : (n d : ℕ) (s : Text) → d < 10 → spoken n ((b'0' + d) ∷ s) ≡ spoken (n * 10 + d) s
unfolding spoken
spoken-digit n d s h =
    let same : n * 10 + (b'0' + d - b'0') ≡ n * 10 + d = omega arith in
    rw (is_digit-decimal d h, same) (omega arith)

spoken-decimal_from :
    (fuel n : ℕ) (s : Text) → n < fuel → spoken 0 (decimal_from fuel n ++ s) ≡ spoken n s
unfolding decimal_from
spoken-decimal_from zero n s h = absurd (omega arith)
spoken-decimal_from (suc fuel) n s h = elim (Bool-cases (ltb n 10)) [
  | inl small ↦ rw small (spoken-digit 0 n s (ground arith) ∙ ap (λ m. spoken m s) (omega arith))
  | inr large ↦
      let whole : n / 10 * 10 + n % 10 ≡ n = omega arith in
      rw (large, append_assoc)
        (spoken-decimal_from fuel (n / 10) ((b'0' + n % 10) ∷ s) (ground arith)
          ∙ spoken-digit (n / 10) (n % 10) s (omega arith)
          ∙ ap (λ m. spoken m s) whole)
]

spoken-decimal : (n : ℕ) (s : Text) → spoken 0 (decimal n ++ s) ≡ spoken n s
unfolding decimal
spoken-decimal n s = spoken-decimal_from (suc n) n s (omega arith)

-- What is said, read back: the largest two of the units.
said_worth : ℕ → ℕ → ℕ → ℕ → ℕ
said_worth zero zero zero secs = secs
said_worth zero hours mins secs = hours * 3600 + mins * 60
said_worth days hours mins secs = days * 86_400 + hours * 3600

spoken-said :
    (days hours mins secs : ℕ)
    → spoken 0 (said days hours mins secs) ≡ said_worth days hours mins secs
unfolding said_worth spoken
spoken-said zero zero zero secs = omega (arith, spoken-decimal secs (codes "s"))
spoken-said zero zero (suc mins) secs = omega (arith, spoken-decimal (suc mins) (codes "min"))
spoken-said zero (suc hours) zero secs = omega (arith, spoken-decimal (suc hours) (codes "h"))
spoken-said zero (suc hours) (suc mins) secs = omega (
  arith,
  spoken-decimal (suc hours) (codes "h " ++ (decimal (suc mins) ++ codes "min")),
  spoken-decimal (suc mins) (codes "min"),
)
spoken-said (suc days) zero mins secs = omega (arith, spoken-decimal (suc days) (codes "d"))
spoken-said (suc days) (suc hours) mins secs = omega (
  arith,
  spoken-decimal (suc days) (codes "d " ++ (decimal (suc hours) ++ codes "h")),
  spoken-decimal (suc hours) (codes "h"),
)

said_worth-close :
    (secs days hours mins : ℕ)
    → days ≡ secs / 86_400
    → hours ≡ secs / 3600 % 24
    → mins ≡ secs / 60 % 60
    → (said_worth days hours mins secs ≤ secs)
      × (secs < said_worth days hours mins secs + grain secs)
unfolding said_worth
said_worth-close secs zero zero zero d h m = ground arith
said_worth-close secs zero zero (suc mins) d h m = ground arith
said_worth-close secs zero (suc hours) mins d h m = ground arith
said_worth-close secs (suc days) hours mins d h m = ground arith

-- A duration is said in numbers and units that come, read back, to no more than its whole seconds,
-- and miss less than a second below a minute, less than a minute below a day, and less than an hour
-- from there on.
pub human-close :
    (duration : Duration)
    → (spoken 0 (human duration) ≤ as_secs duration)
      × (as_secs duration < spoken 0 (human duration) + grain (as_secs duration))
unfolding human
human-close duration =
    let secs = as_secs duration in
    rw (spoken-said (secs / 86_400) (secs / 3600 % 24) (secs / 60 % 60) secs)
      (said_worth-close secs _ _ _ refl refl refl)
