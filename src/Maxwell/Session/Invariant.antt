-- ===== src/Maxwell/Session/Invariant.antt =====
-- What holds of a session between two passes.
use headset_battery_indicato.Prelude.{
  ℕ, ◌≤◌, ◌<◌, ◌≡◌, refl, ◌≢◌, Bool, true, false, Option, none, some, List, [], ◌∷◌, arith, All,
  ◌↔◌,
}
use headset_battery_indicato.Prelude.Outcome.{Result, ok, err}
use headset_battery_indicato.Time.{Duration, Instant}
use headset_battery_indicato.Headset.{
  BatteryState, discharging, charging, unavailable, disconnected,
}
use headset_battery_indicato.Maxwell.Frame.{Message, link, battery, messages}
use headset_battery_indicato.Maxwell.Frame.Bounds.{IsLevel, messages-IsLevel}
use headset_battery_indicato.Maxwell.Session.{
  Hidraw, Dongle, Session, Link, up, down, opened, take_message, take_messages, take_in, ask,
  ask_if_due, listen, received, answer_buffer, max_unanswered, battery_of,
}

pub record IsValid {D : Type 0} (s : Session D) : Type 0 where
  -- A level is only held while the headset is linked, and is a percentage.
  pub level_linked : (l : ℕ) → s.level ≡ some l → (s.link_state ≡ up) × (l ≤ 100)
  -- A linked headset has used up fewer than its lost requests.
  pub patience : s.link_state ≡ up → s.unanswered < max_unanswered
  -- A request is open only if one was sent.
  pub asked : s.pending ≡ true → s.asked_at ≢ none

module _ {D : Type 0} where
  pub opened-IsValid :
      (device : D) (dongle : Dongle) (belief : Link) (now : Instant)
      → IsValid (opened device dongle belief now)
  unfolding opened
  opened-IsValid device dongle belief now = record {
    level_linked = λ l e. cc;
    patience = λ e. omega arith;
    asked = λ e. cc;
  }

  take_message-IsValid :
      (m : Message) (s : Session D) (readings : ℕ)
      → IsLevel m
      → IsValid s
      → IsValid (take_message m s readings).0
  unfolding take_message
  take_message-IsValid (link true) s readings b v = record {
    level_linked = λ l e. (refl, (v.level_linked l e).1);
    patience = λ e. omega arith;
    asked = v.asked;
  }
  take_message-IsValid (link false) s readings b v = record {
    level_linked = λ l e. cc;
    patience = λ e. omega arith;
    asked = λ e. cc;
  }
  take_message-IsValid (battery p) s readings b v = record {
    level_linked = λ l e. (refl, ground arith);
    patience = λ e. omega arith;
    asked = λ e. cc;
  }

  take_messages-IsValid :
      (ms : List Message) (s : Session D) (readings : ℕ)
      → All IsLevel ms
      → IsValid s
      → IsValid (take_messages ms s readings).0
  unfolding take_messages
  take_messages-IsValid [] s readings b v = v
  take_messages-IsValid (m ∷ ms) s readings b v =
      let (s', readings') = take_message m s readings in
      take_messages-IsValid ms s' readings' b.1 (take_message-IsValid m s readings b.0 v)

  -- A report keeps the session valid, whatever its bytes are.
  take_in-IsValid :
      (s : Session D) (frame : List ℕ) (readings : ℕ)
      → IsValid s
      → IsValid (take_in s frame readings).0
  unfolding take_in
  take_in-IsValid s frame readings v =
      take_messages-IsValid (messages frame) s readings (messages-IsLevel frame) v

  device-IsValid : (s : Session D) (device : D) → IsValid s → IsValid (record s { device = device })
  device-IsValid s device v = record {
    level_linked = v.level_linked;
    patience = v.patience;
    asked = v.asked;
  }

  received-IsValid :
      {E : Type 0} (s : Session D) (readings : ℕ) (r : D × Result E (List ℕ))
      → IsValid s
      → IsValid (received s readings r).0
  unfolding received
  received-IsValid s readings (device, ok frame) v =
      take_in-IsValid (record s { device = device }) frame readings (device-IsValid s device v)
  received-IsValid s readings (device, err e) v = device-IsValid s device v

module _ (h : Hidraw) where
  pub listen-IsValid :
      (s : Session h.Device) (readings : ℕ) → IsValid s → IsValid (listen h s readings).0
  unfolding listen
  listen-IsValid s readings v = received-IsValid s readings (h.get_input s.device answer_buffer) v

  ask-IsValid : (s : Session h.Device) (now : Instant) → IsValid s → IsValid (ask h s now).0
  unfolding ask
  ask-IsValid s now v = ground (arith, v.patience)

  pub ask_if_due-IsValid :
      (s : Session h.Device) (now : Instant) (interval listen_first : Duration)
      → IsValid s
      → IsValid (ask_if_due h s now interval listen_first).0
  unfolding ask_if_due
  ask_if_due-IsValid s now interval listen_first v = ground (arith, ask-IsValid s now v)

-- What an open session goes through: reports are fetched, and requests are sent when due.
pub data History (h : Hidraw) : Session h.Device → Type 0 where
  opening :
      (device : h.Device) (dongle : Dongle) (belief : Link) (now : Instant)
      → History h (opened device dongle belief now)
  listening :
      {s : Session h.Device} (readings : ℕ) → History h s → History h (listen h s readings).0
  asking :
      {s : Session h.Device} (now : Instant) (interval listen_first : Duration)
      → History h s
      → History h (ask_if_due h s now interval listen_first).0

History-IsValid : {h : Hidraw} {s : Session h.Device} → History h s → IsValid s
History-IsValid {h} (opening device dongle belief now) = opened-IsValid device dongle belief now
History-IsValid {h} (listening {s = s} readings past) =
    listen-IsValid h s readings (History-IsValid past)
History-IsValid {h} (asking {s = s} now interval listen_first past) =
    ask_if_due-IsValid h s now interval listen_first (History-IsValid past)

-- The level that a state shows, if it shows one.
abbrev pub shown : BatteryState → Option ℕ
shown (discharging l) = some l
shown (charging l) = l
shown unavailable = none
shown disconnected = none

-- A level shown is one of a linked headset, and a percentage.
abbrev pub IsBacked : Option ℕ → Link → Type 0
IsBacked none belief = Unit {0}
IsBacked (some l) belief = (belief ≡ up) × (l ≤ 100)

-- Whatever the dongle sends and whichever transfers fail, a session shows a level only while the
-- headset is linked, and then one between 0 and 100; and it says disconnected exactly when the
-- link is down.
pub battery_of-History :
    {h : Hidraw} {s : Session h.Device} (wired : Bool)
    → History h s
    → IsBacked (shown (battery_of s wired)) s.link_state
      × ((battery_of s wired ≡ disconnected) ↔ (s.link_state ≡ down))
unfolding battery_of
battery_of-History {h} {s} wired past =
    let v = History-IsValid past in
    (backed (shown (battery_of s wired)) refl, (λ e. ground arith, λ e. ground arith))
  where
    backed : (o : Option ℕ) → shown (battery_of s wired) ≡ o → IsBacked o s.link_state
    backed none e = tt
    backed (some l) e = (History-IsValid past).level_linked l (ground arith)
