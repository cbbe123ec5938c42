-- ===== src/Headset/Tests.antt =====
-- Names and keys of concrete headsets.
use headset_battery_indicato.Prelude.{
  ◌≤◌, ◌≡◌, refl, true, false, none, [], arith, Text, codes, all, is_whitespace, replicate,
}
use headset_battery_indicato.Headset.{Headset, unavailable, byte_len, display_name}
use headset_battery_indicato.Headset.Names.{plain, display_name-fits}
use headset_battery_indicato.Headset.Keys.{key-injective}

abbrev named : Text → Headset
named name = record {
  name = name;
  product = [];
  vendor_id = 0x3329;
  product_id = 0x4b18;
  supports_battery = true;
  battery = unavailable;
  sample = none;
}

-- Two bytes to a character: the cut falls on a boundary.
abbrev long_name : Text
long_name = replicate 70 0xe9

cut_at_a_boundary : display_name (named long_name) ≡ replicate 63 0xe9
unfolding display_name
cut_at_a_boundary = refl

display_name-fits_example :
    (byte_len (display_name (named (codes "\t"))) ≤ 127)
    × (all plain (display_name (named (codes "\t"))) ≡ true)
    × (all is_whitespace (display_name (named (codes "\t"))) ≡ false)
display_name-fits_example = display_name-fits (named (codes "\t"))

key-injective_example :
    ((named (codes "Maxwell")).vendor_id ≡ 0x3329)
    × ((named (codes "Maxwell")).product_id ≡ 0x4b18)
    × (codes "Maxwell" ≡ codes "Maxwell")
key-injective_example =
    key-injective (named (codes "Maxwell")) (named (codes "Maxwell")) (omega arith) (omega arith)
      (omega arith) (omega arith) refl
