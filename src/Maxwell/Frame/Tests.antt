-- ===== src/Maxwell/Frame/Tests.antt =====
-- Reports of the tests of src/maxwell/frame.rs, and the theorems at them.
use headset_battery_indicato.Prelude.{◌≡◌, refl, true, List, [], ◌∷◌, ◌++◌, arith}
use headset_battery_indicato.Maxwell.Frame.{link, battery, battery_answer, message_at, messages}
use headset_battery_indicato.Maxwell.Frame.Wire.{
  Address, Wire, acknowledgement, notice, level, event, bytes, stream, meanings,
}
use headset_battery_indicato.Maxwell.Frame.RoundTrip.{report, messages-report}

-- The headset's address in the captures.
abbrev captured : Address
captured = record { a = 0x8d; b = 0x90; c = 0x9b; d = 0x67; e = 0x89; f = 0xc2 }

-- The headset is switched on: the link event, then the level.
abbrev power_on : List Wire
power_on = notice 1 ∷ event true captured 0x80 0x01 ∷ notice 3 ∷ acknowledgement ∷ level 99 ∷ []

power_on-messages :
    messages (report 7 0x80 (stream power_on) (bytes (level 91))) ≡ link true ∷ battery 99 ∷ []
unfolding messages message_at stream bytes
power_on-messages = refl

-- A count of zero with an old answer behind it.
stale_messages : messages (7 ∷ 0 ∷ 0x80 ∷ bytes (level 91)) ≡ []
unfolding messages message_at bytes
stale_messages = refl

-- A level above 100, and an answer cut off before its level.
nonsense_messages : messages (report 7 0 (bytes (level 255) ++ 0x05 ∷ battery_answer) []) ≡ []
unfolding messages message_at bytes
nonsense_messages = refl

messages-report_example :
    messages (report 7 0x80 (stream power_on) (bytes (level 91))) ≡ meanings power_on
messages-report_example =
    messages-report 7 0x80 power_on (bytes (level 91))
      (tt, ((λ e. omega arith, λ e. omega arith), (tt, (tt, (tt, tt)))))
