-- ===== src/HeadsetControl/Tests.antt =====
-- The reports of src/headsetcontrol.rs's own tests, and the theorems at concrete inputs.
use headset_battery_indicato.Prelude.{
  ℕ, ◌*◌, ◌≡◌, refl, true, false, none, some, [], ◌∷◌, arith, All, all, is_whitespace, codes,
  text_eq,
}
use headset_battery_indicato.Prelude.Int.{pos, negsuc}
use headset_battery_indicato.Prelude.Outcome.{err}
use headset_battery_indicato.Time.{Instant, from_secs, from_millis}
use headset_battery_indicato.Headset.{Headset, discharging, charging, hex4}
use headset_battery_indicato.HeadsetControl.{
  Device, Decoder, parse, parse_id, battery_state, headset_of,
}
use headset_battery_indicato.HeadsetControl.Ids.{parse_id-hex4}
use headset_battery_indicato.HeadsetControl.Levels.{IsFresh, parse-IsFresh}
use headset_battery_indicato.HeadsetControl.Process.{
  System, WaitsFor, Ticks, wait_child, wait_for_child, run, wait_for_child-WaitsFor, no_answer,
}

abbrev maxwell : Device
maxwell = record {
  model = codes "Audeze Maxwell";
  product = codes "Audeze Maxwell XBOX Dongle";
  id_vendor = codes "0x3329";
  id_product = codes " 0X4B18";
  capabilities = codes "CAP_SIDETONE" ∷ codes "CAP_BATTERY_STATUS" ∷ [];
  battery = some (record { status = codes "BATTERY_AVAILABLE"; level = pos 73 });
}

-- The decoder that reads every text as a report of that one device.
abbrev one_device : Decoder
one_device json = some (maxwell ∷ [])

abbrev reported : Headset
reported = record {
  name = codes "Audeze Maxwell";
  product = codes "Audeze Maxwell XBOX Dongle";
  vendor_id = 0x3329;
  product_id = 0x4b18;
  supports_battery = true;
  battery = discharging 73;
  sample = none;
}

parse_report : parse one_device (codes "notice\n{}") ≡ some (reported ∷ [])
unfolding parse headset_of is_whitespace text_eq
parse_report = refl

parse_nothing : parse one_device (codes "  \n") ≡ some []
unfolding parse is_whitespace
parse_nothing = refl

out_of_range :
    battery_state (record { status = codes "BATTERY_CHARGING"; level = negsuc 0 }) ≡ charging none
unfolding battery_state text_eq
out_of_range = refl

parse-IsFresh_example : All IsFresh (reported ∷ [])
parse-IsFresh_example = parse-IsFresh one_device (codes "notice\n{}") (reported ∷ []) parse_report

parse_id-hex4_example : parse_id (codes "  0x3329\n") ≡ 0x3329
unfolding hex4 is_whitespace
parse_id-hex4_example = parse_id-hex4 0x3329 (codes "  ") (codes "\n") (omega arith) blank blank_end
  where
    blank : all is_whitespace (codes "  ") ≡ true
    blank = refl

    blank_end : all is_whitespace (codes "\n") ≡ true
    blank_end = refl

-- A child that never exits, and what has been done to it: zero, or one once it is killed.
abbrev stubborn : System
stubborn = record {
  Child = ℕ;
  spawn = λ binary args. some 0;
  try_wait = λ child. (child, some false);
  kill = λ child. 1;
  written = λ child. ([], []);
}

abbrev ticking : ℕ → Instant
ticking i = i * from_millis 25

ticking-Ticks : Ticks ticking 0
ticking-Ticks = record { begun = omega arith; ticks = λ j. omega arith }

killed_in_time :
    run stubborn
      (λ i. false)
      ticking
      0
      ticking-Ticks
      (record { binary = []; timeout = from_secs 1 })
      []
    ≡ err no_answer
unfolding run wait_for_child wait_child
killed_in_time = refl

wait_for_child-WaitsFor_example :
    WaitsFor stubborn
      (λ i. false)
      ticking
      (from_secs 1)
      0
      0
      (wait_for_child stubborn (λ i. false) ticking 0 ticking-Ticks 0 (from_secs 1))
wait_for_child-WaitsFor_example =
    wait_for_child-WaitsFor stubborn (λ i. false) ticking 0 ticking-Ticks 0 (from_secs 1)
