-- ===== src/Maxwell/Session/Tests.antt =====
-- Sessions on devices made for the purpose, and the theorems at them.
use headset_battery_indicato.Prelude.{
  ℕ, suc, ◌+◌, ◌-◌, ◌/◌, ◌≤◌, ◌≡◌, refl, ◌↔◌, true, false, none, some, [], ◌∷◌, arith, leb,
}
use headset_battery_indicato.Prelude.Outcome.{ok, err}
use headset_battery_indicato.Time.{Duration, from_secs}
use headset_battery_indicato.Headset.{discharging, disconnected}
use headset_battery_indicato.Maxwell.Frame.{messages, message_at}
use headset_battery_indicato.Maxwell.Frame.Wire.{notice, level, bytes, stream}
use headset_battery_indicato.Maxwell.Frame.RoundTrip.{report}
use headset_battery_indicato.Maxwell.Session.{
  Hidraw, Dongle, Session, Link, unknown, up, down, opened, take_in, take_messages, listen,
  received, ask, ask_if_due, should_ask, sent, battery_of, ask_idle_retry,
}
use headset_battery_indicato.Maxwell.Session.Budget.{
  Meter, Quiet, start, again, pass, Quiet-budget, gone_asked_once,
}
use headset_battery_indicato.Maxwell.Session.Invariant.{
  History, opening, shown, IsBacked, battery_of-History,
}
use headset_battery_indicato.Maxwell.Session.Readings.{take_in-readings, battery_of-said}
use headset_battery_indicato.Maxwell.Session.Mute.{unanswered_gives_up, failed_writes_give_up}

-- A dongle that takes every request, counts them, and says nothing.
abbrev silent_dongle : Hidraw
silent_dongle = record {
  Device = ℕ;
  IoError = Unit {0};
  open_node = λ node. ok 0;
  opening = λ now node. now + 1;
  get_input = λ device buffer. (device, ok buffer);
  write = λ device bytes. (suc device, ok tt);
  is_gone = λ e. false;
  is_denied = λ e. false;
  describe = λ e. [];
}

-- A dongle that takes no request.
abbrev deaf_dongle : Hidraw
deaf_dongle = record {
  Device = ℕ;
  IoError = Unit {0};
  open_node = λ node. ok 0;
  opening = λ now node. now + 1;
  get_input = λ device buffer. (device, ok buffer);
  write = λ device bytes. (device, err tt);
  is_gone = λ e. false;
  is_denied = λ e. false;
  describe = λ e. [];
}

abbrev requests : Meter silent_dongle
requests = record {
  written = λ device. device;
  written-get_input = λ device buffer. refl;
  written-write = λ device bytes. refl;
}

abbrev dongle : Dongle
dongle = record { node = []; product = []; product_id = 0x4b18; usb_device = none }

abbrev minute : Duration
minute = from_secs 60

abbrev linked : Session ℕ
linked = record {
  device = 0;
  product_id = 0x4b18;
  usb_device = none;
  link_state = up;
  level = some 90;
  sample = 1;
  opened_at = 0;
  asked_at = some 0;
  asks = 3;
  pending = true;
  unanswered = 2;
}

-- One pass over a session that believes its headset linked: it asks at once.
first_pass :
    (belief : Link)
    → Quiet silent_dongle minute 0
        (opened 0 dongle belief 0)
        0
        1
        (pass silent_dongle minute 0 (opened 0 dongle belief 0) 0 minute)
        minute
unfolding listen received take_in messages message_at opened
first_pass belief = again 0 minute start (omega arith) refl

Quiet-budget_example :
    (pass silent_dongle minute 0 (opened 0 dongle up 0) 0 minute).device
    ≤ 0 + 3 + (minute - 0) / ask_idle_retry
Quiet-budget_example =
    Quiet-budget silent_dongle requests minute 0 0 dongle up 0 0 (first_pass up) (omega arith)

gone_asked_once_example :
    (pass silent_dongle minute 0 (opened 0 dongle down 0) 0 minute).device ≤ 0 + 1
gone_asked_once_example =
    gone_asked_once silent_dongle minute 0 requests 0 dongle 0 0 (first_pass down) (omega arith)

-- It did ask.
first_pass-asks : (pass silent_dongle minute 0 (opened 0 dongle down 0) 0 minute).device ≡ 1
unfolding pass listen received take_in take_messages messages message_at opened ask_if_due sent
first_pass-asks = refl

abbrev heard_off : Session ℕ
heard_off = record linked {
  link_state = down;
  level = none;
  asked_at = none;
  asks = 0;
  sample = 0;
  pending = false;
  unanswered = 0;
}

heard_off-History : History silent_dongle heard_off
unfolding opened
heard_off-History = opening 0 dongle down 0

battery_of-History_example :
    IsBacked (shown (battery_of heard_off true)) down
    × ((battery_of heard_off true ≡ disconnected) ↔ (down ≡ down))
battery_of-History_example = battery_of-History {h = silent_dongle} true heard_off-History

take_in-readings_example :
    ((take_in linked (report 7 0 (bytes (level 64)) []) 4).1 ≡ 5)
    × ((take_in linked (report 7 0 (bytes (level 64)) []) 4).0.sample ≡ 5)
unfolding messages message_at bytes
take_in-readings_example =
    take_in-readings linked (report 7 0 (bytes (level 64)) []) 4 (omega arith)

-- A notice behind a level changes nothing.
battery_of-said_example :
    battery_of (take_in linked (report 7 0 (stream (level 64 ∷ notice 1 ∷ [])) []) 4).0 false
    ≡ discharging 64
battery_of-said_example =
    battery_of-said linked 4 7 0 (notice 1 ∷ level 64 ∷ []) [] false (tt, (tt, tt))

abbrev fresh_link : Session ℕ
fresh_link = record linked { asks = 0; pending = false; unanswered = 0 }

unanswered_gives_up_example :
    let s₃ = (ask silent_dongle (ask silent_dongle (ask silent_dongle fresh_link 1).0 2).0 3).0 in
    let s' = (ask silent_dongle s₃ 4).0 in
    (s₃.link_state ≡ up)
    × (s₃.device ≡ 3)
    × (s'.device ≡ 3)
    × (s'.link_state ≡ unknown)
    × (s'.level ≡ none)
    × (should_ask s' minute minute 0 ≡ leb ask_idle_retry (minute - 4))
unanswered_gives_up_example =
    unanswered_gives_up silent_dongle requests (λ d. refl) fresh_link 1 2 3 4 minute minute 0 refl
      refl refl (omega arith)

abbrev asked_once : Session ℕ
asked_once = record linked { asks = 1; unanswered = 0 }

failed_writes_give_up_example :
    let s₁ = (ask deaf_dongle asked_once 1).0 in
    let s₂ = (ask deaf_dongle s₁ 2).0 in
    let s' = (ask deaf_dongle s₂ 3).0 in
    ((ask deaf_dongle asked_once 1).1 ≡ err tt)
    × ((ask deaf_dongle s₁ 2).1 ≡ err tt)
    × ((ask deaf_dongle s₂ 3).1 ≡ ok tt)
    × (s'.link_state ≡ unknown)
    × (s'.asks ≡ 1)
    × (should_ask s' minute minute 0 ≡ leb (from_secs 10) (minute - 3))
failed_writes_give_up_example =
    failed_writes_give_up deaf_dongle asked_once 1 2 3 minute minute 0 tt refl refl refl refl refl
