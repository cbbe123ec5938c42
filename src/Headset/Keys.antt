-- ===== src/Headset/Keys.antt =====
-- What identifies a headset.
use headset_battery_indicato.Prelude.{ℕ, ◌/◌, ◌%◌, ◌<◌, ◌≡◌, ◌∷◌, ◌++◌, arith, Text}
use headset_battery_indicato.Headset.{Headset, hex_digit, hex4, key}

hex_digit-injective : (c d : ℕ) → c < 16 → d < 16 → hex_digit c ≡ hex_digit d → c ≡ d
hex_digit-injective c d hc hd e = ground arith

digits_eq :
    (m n : ℕ)
    → m < 65_536
    → n < 65_536
    → m / 4096 % 16 ≡ n / 4096 % 16
    → m / 256 % 16 ≡ n / 256 % 16
    → m / 16 % 16 ≡ n / 16 % 16
    → m % 16 ≡ n % 16
    → m ≡ n
digits_eq m n hm hn a b c d = omega arith

-- Two identifiers of sixteen bits that are printed alike are equal, and so is what follows them.
hex4-injective :
    (m n : ℕ) (s t : Text) → m < 65_536 → n < 65_536 → hex4 m ++ s ≡ hex4 n ++ t → (m ≡ n) × (s ≡ t)
unfolding hex4
hex4-injective m n s t hm hn e = (
  digits_eq m n hm hn
      (hex_digit-injective (m / 4096 % 16) (n / 4096 % 16) (omega arith) (omega arith) (cc))
      (hex_digit-injective (m / 256 % 16) (n / 256 % 16) (omega arith) (omega arith) (cc))
      (hex_digit-injective (m / 16 % 16) (n / 16 % 16) (omega arith) (omega arith) (cc))
      (hex_digit-injective (m % 16) (n % 16) (omega arith) (omega arith) (cc)),
  cc,
)

-- Two headsets with the same key have the same vendor, product and name.
pub key-injective :
    (a b : Headset)
    → a.vendor_id < 65_536
    → a.product_id < 65_536
    → b.vendor_id < 65_536
    → b.product_id < 65_536
    → key a ≡ key b
    → (a.vendor_id ≡ b.vendor_id) × (a.product_id ≡ b.product_id) × (a.name ≡ b.name)
unfolding key
key-injective a b va pa vb pb e =
    let (vendor, rest) = hex4-injective a.vendor_id b.vendor_id _ _ va vb e in
    let (product, name) =
      hex4-injective a.product_id b.product_id (b'/' ∷ a.name) (b'/' ∷ b.name) pa pb (cc) in
    (vendor, product, cc)
