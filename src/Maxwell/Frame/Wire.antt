-- ===== src/Maxwell/Frame/Wire.antt =====
-- The protocol that the documentation of src/maxwell/mod.rs describes, read from the dongle's side:
-- the messages it sends, and what each one means to the reader.
use headset_battery_indicato.Prelude.{ℕ, Bool, List, [], ◌∷◌, ◌++◌, ◌≢◌, leb, if◌then◌else◌}
use headset_battery_indicato.Maxwell.Frame.{Message, link, battery}

-- The headset's address, as a link event spells it.
pub record Address : Type 0 where
  pub a : ℕ
  pub b : ℕ
  pub c : ℕ
  pub d : ℕ
  pub e : ℕ
  pub f : ℕ

-- `event` carries two more bytes behind the address, `ff 00` or `80 01` where it was captured.
pub data Wire : Type 0 where
  acknowledgement : Wire
  notice : ℕ → Wire
  level : ℕ → Wire
  event : Bool → Address → ℕ → ℕ → Wire

unfoldable pub bytes : Wire → List ℕ
bytes acknowledgement = 0x05 ∷ 0x5b ∷ 0x03 ∷ 0x00 ∷ 0xd6 ∷ 0x0c ∷ 0x00 ∷ []
bytes (notice s) = 0x05 ∷ 0x5c ∷ 0x03 ∷ 0x00 ∷ 0x80 ∷ 0x2c ∷ s ∷ []
bytes (level p) = 0x05 ∷ 0x5d ∷ 0x05 ∷ 0x00 ∷ 0xd6 ∷ 0x0c ∷ 0x00 ∷ 0x00 ∷ p ∷ []
bytes (event up adr t u) =
    0x05
    ∷ 0x5d
    ∷ 0x0e
    ∷ 0x00
    ∷ 0xb1
    ∷ 0x2c
    ∷ 0x00
    ∷ 0x02
    ∷ (if up then 0x01 else 0x00)
    ∷ 0x01
    ∷ adr.a
    ∷ adr.b
    ∷ adr.c
    ∷ adr.d
    ∷ adr.e
    ∷ adr.f
    ∷ t
    ∷ u
    ∷ []

unfoldable pub meaning : Wire → List Message
meaning acknowledgement = []
meaning (notice s) = []
meaning (level p) = if leb p 100 then battery p ∷ [] else []
meaning (event up adr t u) = link up ∷ []

-- The byte behind the address is neither `00` nor `02`, which could end a header begun inside it.
abbrev pub IsClear : Wire → Type 0
IsClear (event up adr t u) = (t ≢ 0) × (t ≢ 2)
IsClear _ = Unit {0}

unfoldable pub stream : List Wire → List ℕ
stream [] = []
stream (w ∷ ws) = bytes w ++ stream ws

unfoldable pub meanings : List Wire → List Message
meanings [] = []
meanings (w ∷ ws) = meaning w ++ meanings ws
