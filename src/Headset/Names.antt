-- ===== src/Headset/Names.antt =====
-- The name that a headset's virtual device is given: the kernel can always take it.
use headset_battery_indicato.Prelude.{
  ℕ, zero, suc, ◌+◌, ◌-◌, ◌≤◌, ◌≡◌, refl, ap, inl, inr, Bool, true, false, not, ◌||◌, [], ◌∷◌,
  arith, Text, min, leb, all, is_whitespace, Bool-cases,
}
use headset_battery_indicato.Headset.{
  Headset, is_control, utf8_len, byte_len, without_controls, is_char_boundary, floor_char_boundary,
  truncate, max_bytes, non_blank, display_name,
}

abbrev pub plain : ℕ → Bool
plain c = not (is_control c)

without_controls-plain : (s : Text) → all plain (without_controls s) ≡ true
unfolding without_controls
without_controls-plain [] = refl
without_controls-plain (c ∷ s) = ground (arith, without_controls-plain s)

without_controls_id : (s : Text) → all plain s ≡ true → without_controls s ≡ s
unfolding without_controls
without_controls_id [] h = refl
without_controls_id (c ∷ s) h = ground (arith, without_controls_id s)

truncate-plain : (s : Text) (last : ℕ) → all plain s ≡ true → all plain (truncate s last) ≡ true
unfolding truncate
truncate-plain [] last h = refl
truncate-plain (c ∷ s) last h = ground (arith, truncate-plain s (last - utf8_len c))

byte_len-truncate-le : (s : Text) (last : ℕ) → byte_len (truncate s last) ≤ last
unfolding truncate
byte_len-truncate-le [] last = omega arith
byte_len-truncate-le (c ∷ s) last = ground (arith, byte_len-truncate-le s (last - utf8_len c))

floor_char_boundary-le : (s : Text) (last : ℕ) → floor_char_boundary s last ≤ last
unfolding floor_char_boundary
floor_char_boundary-le s zero = omega arith
floor_char_boundary-le s (suc last) = ground (arith, floor_char_boundary-le s last)

utf8_len_pos : (c : ℕ) → 1 ≤ utf8_len c
utf8_len_pos c = ground arith

-- A character and the text behind it, by their lengths.
leb-add : (n m : ℕ) → leb n (n + m) ≡ true
leb-add n m = ground arith

add-sub_self : (n m : ℕ) → n + m - n ≡ m
add-sub_self n m = omega arith

or_true : (b : Bool) → (b || true) ≡ true
or_true true = refl
or_true false = refl

is_char_boundary-byte_len : (s : Text) → is_char_boundary s (byte_len s) ≡ true
unfolding is_char_boundary
is_char_boundary-byte_len [] = refl
is_char_boundary-byte_len (c ∷ s) =
    rw
      (
        leb-add (utf8_len c) (byte_len s),
        add-sub_self (utf8_len c) (byte_len s),
        is_char_boundary-byte_len s,
      )
      (or_true _)

floor_at_boundary :
    (s : Text) (last : ℕ) → is_char_boundary s last ≡ true → floor_char_boundary s last ≡ last
unfolding floor_char_boundary
floor_at_boundary s zero h = refl
floor_at_boundary s (suc last) h = rw h refl

truncate-byte_len : (s : Text) → truncate s (byte_len s) ≡ s
unfolding truncate
truncate-byte_len [] = refl
truncate-byte_len (c ∷ s) =
    rw (leb-add (utf8_len c) (byte_len s), add-sub_self (utf8_len c) (byte_len s))
      (ap (◌∷◌ c) (truncate-byte_len s))

-- Whatever a reader calls the headset, the name of its virtual device has no control character, is
-- not blank, and with its NUL fits the 128 bytes of the kernel's field.
pub display_name-fits :
    (h : Headset)
    → (byte_len (display_name h) ≤ 127)
      × (all plain (display_name h) ≡ true)
      × (all is_whitespace (display_name h) ≡ false)
unfolding display_name is_control is_whitespace
display_name-fits h =
    let name = without_controls h.name in
    let last = floor_char_boundary name (min (byte_len name) max_bytes) in
    fits (truncate name last)
      (ground (
        arith,
        byte_len-truncate-le name last,
        floor_char_boundary-le name (min (byte_len name) max_bytes),
      ))
      (truncate-plain name last (without_controls-plain h.name))
  where
    fits :
        (s : Text)
        → byte_len s ≤ 127
        → all plain s ≡ true
        → (byte_len (non_blank s) ≤ 127)
          × (all plain (non_blank s) ≡ true)
          × (all is_whitespace (non_blank s) ≡ false)
    fits s l p = elim (Bool-cases (all is_whitespace s)) [
      | inl e ↦ rw e (omega arith, refl, refl)
      | inr e ↦ rw (e, non_blank) (l, p, e)
    ]

-- A name that fits, with no control character and not blank, is the name of the virtual device.
display_name_kept :
    (h : Headset)
    → byte_len h.name ≤ 127
    → all plain h.name ≡ true
    → all is_whitespace h.name ≡ false
    → display_name h ≡ h.name
unfolding display_name
display_name_kept h l p b =
    let short : min (byte_len h.name) max_bytes ≡ byte_len h.name = ground arith in
    rw
      (
        without_controls_id h.name p,
        short,
        floor_at_boundary h.name (byte_len h.name) (is_char_boundary-byte_len h.name),
        truncate-byte_len h.name,
        b,
      )
      refl
