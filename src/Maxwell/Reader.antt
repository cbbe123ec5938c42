-- ===== src/Maxwell/Reader.antt =====
-- src/maxwell/mod.rs, `Reader`: one session for each dongle that is plugged in, and what outlives
-- the sessions. The look at the ALSA state of a USB device is a parameter; log lines are left out
-- but those of `report_error` and `report_recovery`.
pub mod Held
pub mod Listed
pub mod Mute
pub mod OneShot
pub mod Pair
pub mod Passes
pub mod Sessions
pub mod Unopened
mod Tests
use headset_battery_indicato.Prelude.{
  ℕ, ◌≡◌, Bool, true, false, ◌&&◌, ◌||◌, Option, none, some, List, [], ◌∷◌, Text, text_eq, ltb,
  ◌==◌, if◌then◌else◌, any,
}
use headset_battery_indicato.Prelude.Assoc.{text_key, nat_eq, lookup, remove, insert}
use headset_battery_indicato.Prelude.Outcome.{Result, ok, err}
use headset_battery_indicato.Time.{Duration, Instant}
use headset_battery_indicato.Headset.{Headset, BatteryState, unavailable}
use headset_battery_indicato.Maxwell.Session.{
  Hidraw, Dongle, Session, Link, unknown, is_up, open_session, listen, ask_if_due, battery_of,
}
use headset_battery_indicato.Maxwell.Access.{Outside, report_error, report_recovery}
use headset_battery_indicato.Maxwell.Wedge.{WedgeWatch, watch_from, heard, check}

abbrev pub vendor_id : ℕ
vendor_id = 0x3329

abbrev pub product_ids : List ℕ
product_ids = 0x4b19 ∷ 0x4b18 ∷ []

unfoldable pub supports : ℕ → ℕ → Bool
supports vendor product = (vendor == vendor_id) && any (λ id. product == id) product_ids

abbrev pub reader_name : Text
reader_name =
    b'A' ∷ b'u' ∷ b'd' ∷ b'e' ∷ b'z' ∷ b'e' ∷ b' ' ∷ b'M' ∷ b'a' ∷ b'x' ∷ b'w' ∷ b'e' ∷ b'l' ∷ b'l'
    ∷ []

pub text_lt : Text → Text → Bool
text_lt s [] = false
text_lt [] (d ∷ t) = true
text_lt (c ∷ s) (d ∷ t) = ltb c d || ((c == d) && text_lt s t)

-- A node's session, the nodes of one directory in their order.
pub put : {A : Type 0} → Text → A → List (Text × A) → List (Text × A)
unfolding text_lt
put node a [] = (node, a) ∷ []
put node a ((other, b) ∷ m) =
    let rest = put node a m in
    if text_eq other node
    then (node, a) ∷ m
    else if text_lt node other
    then (node, a) ∷ (other, b) ∷ m
    else (other, b) ∷ rest

pub record Reader (D : Type 0) : Type 0 where
  pub sessions : List (Text × Session D)
  pub last_link : List (ℕ × Link)
  pub readings : ℕ
  pub wedge : Option WedgeWatch

unfoldable pub new_reader : {D : Type 0} → Reader D
new_reader = record { sessions = []; last_link = []; readings = 0; wedge = none }

abbrev pub is_listed : Text → List Dongle → Bool
is_listed node dongles = any (λ dongle. text_eq dongle.node node) dongles

abbrev pub link_or_unknown : Option Link → Link
link_or_unknown none = unknown
link_or_unknown (some belief) = belief

abbrev pub watch_or : Option WedgeWatch → Instant → WedgeWatch
watch_or none now = watch_from now
watch_or (some watch) now = watch

abbrev pub told : WedgeWatch → Bool → Instant → WedgeWatch
told watch said now = if said then (heard watch now).0 else watch

-- `sessions.retain(...)`: the sessions kept, and the links of those that are gone.
pub close_gone :
    {D : Type 0}
    → List Dongle
    → List (Text × Session D)
    → List (ℕ × Link)
    → List (Text × Session D) × List (ℕ × Link)
close_gone dongles [] links = ([], links)
close_gone dongles ((node, s) ∷ sessions) links =
    let links' = if is_listed node dongles then links else insert s.product_id s.link_state links in
    let (kept, links'') = close_gone dongles sessions links' in
    (if is_listed node dongles then (node, s) ∷ kept else kept, links'')

module _ {D : Type 0} where
  abbrev pub keep_session : Reader D → Text → Session D → Reader D
  keep_session reader node s = record reader { sessions = put node s reader.sessions }

  abbrev pub close_session : Option (Session D) → Text → Reader D → Reader D
  close_session none node reader = reader
  close_session (some s) node reader = record reader {
    sessions = remove node reader.sessions;
    last_link = insert s.product_id s.link_state reader.last_link;
  }

module _ (h : Hidraw) {M : Type 0} (playback : Option Text → M → M × Option Bool) where
  -- The watch over a dongle whose headset is not known to be linked.
  abbrev pub watched : Session h.Device → WedgeWatch → M → Instant → WedgeWatch × M
  watched s watch machine now =
      if is_up s.link_state
      then (watch, machine)
      else (let (watch', machine', warning) = check (playback s.usb_device) watch machine now in
          (watch', machine'))

  pub after_ask :
      Reader h.Device
      → M
      → Text
      → Instant
      → Bool
      → WedgeWatch
      → Session h.Device × Result h.IoError (Unit {0})
      → Reader h.Device × M × Result h.IoError (BatteryState × ℕ)
  after_ask reader machine node now wired watch (s, err e) =
      (record (keep_session reader node s) { wedge = some watch }, machine, err e)
  after_ask reader machine node now wired watch (s, ok done) =
      let (watch', machine') = watched s watch machine now in
      (
        record (keep_session reader node s) { wedge = some watch' },
        machine',
        ok (battery_of s wired, s.sample),
      )

  pub after_listen :
      Reader h.Device
      → M
      → Text
      → Instant
      → Duration
      → Duration
      → Bool
      → Session h.Device × ℕ × Result h.IoError Bool
      → Reader h.Device × M × Result h.IoError (BatteryState × ℕ)
  unfolding after_ask
  after_listen reader machine node now interval listen_first wired (s, readings, err e) =
      (record (keep_session reader node s) { readings = readings }, machine, err e)
  after_listen reader machine node now interval listen_first wired (s, readings, ok said) =
      after_ask (record reader { readings = readings }) machine node now wired
        (told (watch_or reader.wedge now) said now) (ask_if_due h s now interval listen_first)

  abbrev pub session_for :
      Option (Session h.Device)
      → Reader h.Device
      → Dongle
      → Instant
      → Result h.IoError (Session h.Device)
  session_for (some s) reader dongle now = ok s
  session_for none reader dongle now =
      open_session h dongle (link_or_unknown (lookup dongle.product_id reader.last_link)) now

  pub listen_to :
      Reader h.Device
      → M
      → Dongle
      → Instant
      → Duration
      → Duration
      → Bool
      → Reader h.Device × M × Result h.IoError (BatteryState × ℕ)
  unfolding after_listen
  listen_to reader machine dongle now interval listen_first wired =
      elim (session_for (lookup dongle.node reader.sessions) reader dongle now) [
        | ok s ↦
            after_listen reader machine dongle.node now interval listen_first wired
              (listen h s reader.readings)
        | err e ↦ (reader, machine, err e)
      ]

  -- Only a dongle that is gone loses its session; what came of a dongle is reported, the machine
  -- being the one that listening left.
  pub reading_of :
      Text
      → Outside M
      → Reader h.Device × M × Result h.IoError (BatteryState × ℕ)
      → Reader h.Device × Outside M × BatteryState × ℕ
  unfolding report_error report_recovery
  reading_of node outside (reader, machine, ok (battery, sample)) =
      (reader, report_recovery (record outside { machine = machine }), battery, sample)
  reading_of node outside (reader, machine, err e) = (
    if h.is_gone e then close_session (lookup node reader.sessions) node reader else reader,
    report_error node (h.describe e) (h.is_denied e) (record outside { machine = machine }),
    unavailable,
    0,
  )

  abbrev pub headset_of : Dongle → BatteryState → ℕ → Headset
  headset_of dongle battery sample = record {
    name = reader_name;
    product = dongle.product;
    vendor_id = vendor_id;
    product_id = dongle.product_id;
    supports_battery = true;
    battery = battery;
    sample = some sample;
  }

  pub listen_all :
      Reader h.Device
      → Outside M
      → List Dongle
      → Instant
      → Duration
      → Duration
      → Bool
      → Reader h.Device × Outside M × List Headset
  unfolding listen_to reading_of
  listen_all reader outside [] now interval listen_first wired = (reader, outside, [])
  listen_all reader outside (dongle ∷ dongles) now interval listen_first wired =
      let (reader', outside', battery, sample) =
        reading_of dongle.node outside
          (listen_to reader outside.machine dongle now interval listen_first wired) in
      let (reader'', outside'', headsets) =
        listen_all reader' outside' dongles now interval listen_first wired in
      (reader'', outside'', headset_of dongle battery sample ∷ headsets)

  pub reconcile :
      Reader h.Device
      → Outside M
      → List Dongle
      → Bool
      → Instant
      → Duration
      → Duration
      → Reader h.Device × Outside M × List Headset
  unfolding close_gone listen_all
  reconcile reader outside dongles wired now interval listen_first =
      let (kept, links) = close_gone dongles reader.sessions reader.last_link in
      listen_all (record reader { sessions = kept; last_link = links }) outside dongles now interval
        listen_first wired
