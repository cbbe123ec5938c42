-- ===== src/Maxwell/Session.antt =====
-- src/maxwell/session.rs: one open dongle, what it says about the headset's link, and when to ask
-- for the level. The `hidraw` crate is a parameter; log lines are left out.
pub mod Budget
pub mod Unheard
pub mod Invariant
pub mod Readings
pub mod Mute
mod Tests
use headset_battery_indicato.Prelude.{
  ℕ, zero, suc, ◌+◌, ◌-◌, ◌%◌, ◌^◌, Bool, true, false, not, ◌&&◌, Option, none, some, List, [], ◌∷◌,
  ◌++◌, Text, ltb, leb, ◌==◌, if◌then◌else◌, length, get_elem?, drop, replicate,
}
use headset_battery_indicato.Prelude.Outcome.{Result, ok, err}
use headset_battery_indicato.Time.{Duration, Instant, from_secs, duration_since}
use headset_battery_indicato.Headset.{
  BatteryState, discharging, charging, unavailable, disconnected,
}
use headset_battery_indicato.Maxwell.Frame.{
  Message, link, battery, messages, msg_size, reply_report_id, battery_request,
}

-- The `hidraw` crate: an open device changes as it is talked to, and every transfer may fail. With
-- it comes the clock as `Session::open` reads it: `opening` is what it reads when, in the pass of
-- an instant, a node has been opened.
pub record Hidraw : Type 1 where
  pub Device : Type 0
  pub IoError : Type 0
  pub open_node : Text → Result IoError Device
  pub opening : Instant → Text → Instant
  pub get_input : Device → List ℕ → Device × Result IoError (List ℕ)
  pub write : Device → List ℕ → Device × Result IoError (Unit {0})
  pub is_gone : IoError → Bool
  pub is_denied : IoError → Bool
  pub describe : IoError → Text

abbrev pub u32 : ℕ → ℕ
u32 n = n % 4_294_967_296

abbrev pub u64 : ℕ → ℕ
u64 n = n % 18_446_744_073_709_551_616

abbrev pub max_unanswered : ℕ
max_unanswered = 3

abbrev pub listen_first_for : Duration
listen_first_for = from_secs 3

abbrev pub ask_again_after : List Duration
ask_again_after = from_secs 10 ∷ from_secs 30 ∷ []

abbrev pub ask_idle_retry : Duration
ask_idle_retry = from_secs 600

pub data Link : Type 0 where
  unknown up down : Link

abbrev pub is_up : Link → Bool
is_up up = true
is_up _ = false

-- `super::discover::Dongle`
pub record Dongle : Type 0 where
  pub node : Text
  pub product : Text
  pub product_id : ℕ
  pub usb_device : Option Text

pub record Session (D : Type 0) : Type 0 where
  pub device : D
  pub product_id : ℕ
  pub usb_device : Option Text
  pub link_state : Link
  pub level : Option ℕ
  pub sample : ℕ
  pub opened_at : Instant
  pub asked_at : Option Instant
  pub asks : ℕ
  pub pending : Bool
  pub unanswered : ℕ

abbrev pub is_empty : List Message → Bool
is_empty [] = true
is_empty (m ∷ ms) = false

abbrev or_idle_retry : Option Duration → Duration
or_idle_retry none = ask_idle_retry
or_idle_retry (some delay) = delay

-- `asks.checked_sub(1)` and the entry of `ASK_AGAIN_AFTER`, or `ASK_IDLE_RETRY`.
unfoldable pub retry_delay : ℕ → Duration
retry_delay zero = ask_idle_retry
retry_delay (suc extra) = or_idle_retry (get_elem? ask_again_after extra)

unfoldable pub due : Link → Option Instant → ℕ → Instant → Instant → Duration → Duration → Bool
unfolding retry_delay
due up none asks opened_at now interval listen_first = true
due up (some at) asks opened_at now interval listen_first = leb interval (duration_since now at)
due unknown none asks opened_at now interval listen_first =
    leb listen_first (duration_since now opened_at)
due unknown (some at) asks opened_at now interval listen_first =
    leb (retry_delay asks) (duration_since now at)
due down none asks opened_at now interval listen_first =
    leb listen_first (duration_since now opened_at)
due down (some at) asks opened_at now interval listen_first = false

pub state_of : Link → Option ℕ → Bool → BatteryState
state_of down l wired = disconnected
state_of unknown (some l) wired = if wired then charging (some l) else discharging l
state_of unknown none wired = unavailable
state_of up (some l) wired = if wired then charging (some l) else discharging l
state_of up none wired = unavailable

module _ {D : Type 0} where
  -- What `Session::open` makes of a device that opened.
  pub opened : D → Dongle → Link → Instant → Session D
  opened device dongle belief now = record {
    device = device;
    product_id = dongle.product_id;
    usb_device = dongle.usb_device;
    link_state = belief;
    level = none;
    sample = 0;
    opened_at = now;
    asked_at = none;
    asks = 0;
    pending = false;
    unanswered = 0;
  }

  -- The body of the loop of `take_in`, with the reader's count of battery messages.
  pub take_message : Message → Session D → ℕ → Session D × ℕ
  take_message (link true) s readings = (record s { link_state = up; unanswered = 0 }, readings)
  take_message (link false) s readings =
      (record s { link_state = down; level = none; pending = false; unanswered = 0 }, readings)
  take_message (battery percent) s readings =
      let count = u64 (readings + 1) in
      (
        record s {
          link_state = up;
          level = some percent;
          sample = count;
          pending = false;
          unanswered = 0;
        },
        count,
      )

  pub take_messages : List Message → Session D → ℕ → Session D × ℕ
  take_messages [] s readings = (s, readings)
  take_messages (m ∷ ms) s readings =
      let (s', readings') = take_message m s readings in take_messages ms s' readings'

  pub take_in : Session D → List ℕ → ℕ → Session D × ℕ × Bool
  take_in s frame readings =
      let (s', readings') = take_messages (messages frame) s readings in
      (s', readings', not (is_empty (messages frame)))

  unfoldable pub should_ask : Session D → Instant → Duration → Duration → Bool
  unfolding due
  should_ask s now interval listen_first =
      due s.link_state s.asked_at s.asks s.opened_at now interval listen_first

  pub battery_of : Session D → Bool → BatteryState
  unfolding state_of
  battery_of s wired = state_of s.link_state s.level wired

module _ {D E : Type 0} where
  -- What `listen` makes of the transfer's result.
  pub received : Session D → ℕ → D × Result E (List ℕ) → Session D × ℕ × Result E Bool
  unfolding take_in
  received s readings (device, ok frame) =
      let (s', readings', heard) = take_in (record s { device = device }) frame readings in
      (s', readings', ok heard)
  received s readings (device, err e) = (record s { device = device }, readings, err e)

  -- What `ask` makes of the write's result.
  pub sent : Session D → Instant → D × Result E (Unit {0}) → Session D × Result E (Unit {0})
  sent s now (device, ok done) = (
    record s { device = device; asked_at = some now; asks = u32 (s.asks + 1); pending = true },
    ok tt,
  )
  sent s now (device, err e) = (record s { device = device }, err e)

module _ {D : Type 0} where
  -- A request still open was lost.
  pub strike : Session D → Session D
  strike s = if s.pending then record s { unanswered = u32 (s.unanswered + 1) } else s

  pub give_up : Session D → Instant → Session D
  give_up s now = record s {
    link_state = unknown;
    level = none;
    asked_at = some now;
    pending = false;
    unanswered = 0;
  }

abbrev pub request : List ℕ
request = battery_request ++ replicate (msg_size - length battery_request) 0

abbrev pub answer_buffer : List ℕ
answer_buffer = reply_report_id ∷ replicate (msg_size - 1) 0

module _ (h : Hidraw) where
  open h use {Device, IoError, open_node, opening, get_input, write}

  -- The instant is that of the pass.
  unfoldable pub open_session : Dongle → Link → Instant → Result IoError (Session Device)
  unfolding opened
  open_session dongle belief now = elim (open_node dongle.node) [
    | ok device ↦ ok (opened device dongle belief (opening now dongle.node))
    | err e ↦ err e
  ]

  -- `fetch`, then `take_in`; a failed transfer takes nothing in.
  pub listen : Session Device → ℕ → Session Device × ℕ × Result IoError Bool
  unfolding received
  listen s readings = received s readings (get_input s.device answer_buffer)

  -- The request goes out; a session whose request could not be written keeps its clock.
  pub send_request : Session Device → Instant → Session Device × Result IoError (Unit {0})
  unfolding sent
  send_request s now = sent s now (write s.device request)

  pub ask : Session Device → Instant → Session Device × Result IoError (Unit {0})
  unfolding send_request give_up strike
  ask s now =
      let s' = strike s in
      if is_up s'.link_state && leb max_unanswered s'.unanswered
      then (give_up s' now, ok tt)
      else send_request s' now

  -- The request budget's use in `Reader::listen_to`.
  unfoldable pub ask_if_due :
      Session Device → Instant → Duration → Duration → Session Device × Result IoError (Unit {0})
  unfolding should_ask ask
  ask_if_due s now interval listen_first =
      if should_ask s now interval listen_first then ask s now else (s, ok tt)
