-- ===== src/Maxwell/Reader/Held.antt =====
-- The session that the reader of src/maxwell/mod.rs has of the one dongle plugged in, from a pass to
-- the next.
use headset_battery_indicato.Prelude.{
  ℕ, ◌≡◌, refl, Bool, true, Option, none, some, [], ◌∷◌, Text, text_eq_refl,
}
use headset_battery_indicato.Prelude.Assoc.{text_key, nat_eq, lookup}
use headset_battery_indicato.Prelude.Outcome.{Result, ok, err}
use headset_battery_indicato.Time.{Duration, Instant}
use headset_battery_indicato.Headset.{BatteryState}
use headset_battery_indicato.Maxwell.Session.{
  Hidraw, Dongle, Session, open_session, opened, listen, ask_if_due,
}
use headset_battery_indicato.Maxwell.Session.Budget
use headset_battery_indicato.Maxwell.Session.Budget.{
  Meter, InBudget, IsQuiet, limit, pass-InBudget, opened-InBudget, InBudget-le,
}
use headset_battery_indicato.Maxwell.Session.Unheard.{
  Stays, IsSteady, listen-Stays, ask_if_due-Stays,
}
use headset_battery_indicato.Maxwell.Access.{Outside}
use headset_battery_indicato.Maxwell.Wedge.{WedgeWatch}
use headset_battery_indicato.Maxwell.Reader.{
  Reader, is_listed, close_gone, link_or_unknown, reading_of, after_ask, after_listen, session_for,
  listen_to, listen_all, reconcile,
}
use headset_battery_indicato.Maxwell.Reader.Sessions.{
  lookup-put, lookup-close_gone, lookup-close_gone_listed,
}
use headset_battery_indicato.Maxwell.Reader.Passes.{Pass, pass}

module _ (h : Hidraw) {M : Type 0} (playback : Option Text → M → M × Option Bool) (dongle : Dongle)
    (steady : IsSteady h) where
  -- The session that a node has.
  abbrev pub Holds : Reader h.Device → Session h.Device → Type 0
  Holds reader s = lookup dongle.node reader.sessions ≡ some s

  reading_of-Holds :
      (outside : Outside M) (r : Reader h.Device × M × Result h.IoError (BatteryState × ℕ))
      (s : Session h.Device)
      → Stays h r.2
      → Holds r.0 s
      → Holds (reading_of h playback dongle.node outside r).0 s
  unfolding reading_of
  reading_of-Holds outside (reader, machine, ok (battery, sample)) s stays e = e
  reading_of-Holds outside (reader, machine, err error) s stays e = rw stays e

  after_ask-Holds :
      (reader : Reader h.Device) (machine : M) (now : Instant) (wired : Bool) (watch : WedgeWatch)
      (r : Session h.Device × Result h.IoError (Unit {0}))
      → Holds (after_ask h playback reader machine dongle.node now wired watch r).0 r.0
  unfolding after_ask
  after_ask-Holds reader machine now wired watch (s, err e) =
      lookup-put dongle.node s reader.sessions
  after_ask-Holds reader machine now wired watch (s, ok done) =
      lookup-put dongle.node s reader.sessions

  after_listen-Holds :
      (reader : Reader h.Device) (machine : M) (now : Instant) (interval listen_first : Duration)
      (wired : Bool) (r : Session h.Device × ℕ × Result h.IoError Bool)
      → Holds
          (after_listen h playback reader machine dongle.node now interval listen_first wired r).0
          (Budget.asked h interval listen_first r.2 r.0 now)
  unfolding after_listen
  after_listen-Holds reader machine now interval listen_first wired (s, readings, err e) =
      lookup-put dongle.node s reader.sessions
  after_listen-Holds reader machine now interval listen_first wired (s, readings, ok said) =
      after_ask-Holds (record reader { readings = readings }) machine now wired _
        (ask_if_due h s now interval listen_first)

  listen_to-Holds :
      (reader : Reader h.Device) (machine : M) (now : Instant) (interval listen_first : Duration)
      (wired : Bool) (s : Session h.Device)
      → session_for h playback (lookup dongle.node reader.sessions) reader dongle now ≡ ok s
      → Holds
          (listen_to h playback reader machine dongle now interval listen_first wired).0
          (Budget.pass h interval listen_first s reader.readings now)
  unfolding listen_to Budget.pass
  listen_to-Holds reader machine now interval listen_first wired s e =
      rw (e, listen_to)
        (after_listen-Holds reader machine now interval listen_first wired
          (listen h s reader.readings))

  after_ask-Stays :
      (reader : Reader h.Device) (machine : M) (now : Instant) (wired : Bool) (watch : WedgeWatch)
      (r : Session h.Device × Result h.IoError (Unit {0}))
      → Stays h r.1
      → Stays h (after_ask h playback reader machine dongle.node now wired watch r).2
  unfolding after_ask
  after_ask-Stays reader machine now wired watch (s, err e) u = u
  after_ask-Stays reader machine now wired watch (s, ok done) u = tt

  after_listen-Stays :
      (reader : Reader h.Device) (machine : M) (now : Instant) (interval listen_first : Duration)
      (wired : Bool) (r : Session h.Device × ℕ × Result h.IoError Bool)
      → Stays h r.2
      → Stays h
          (after_listen h playback reader machine dongle.node now interval listen_first wired r).2
  unfolding after_listen
  after_listen-Stays reader machine now interval listen_first wired (s, readings, err e) u = u
  after_listen-Stays reader machine now interval listen_first wired (s, readings, ok said) u =
      after_ask-Stays (record reader { readings = readings }) machine now wired _
        (ask_if_due h s now interval listen_first)
        (ask_if_due-Stays h s now interval listen_first steady)

  -- Once there is a session, nothing that listening meets says that the device is gone.
  listen_to-Stays :
      (reader : Reader h.Device) (machine : M) (now : Instant) (interval listen_first : Duration)
      (wired : Bool) (s : Session h.Device)
      → session_for h playback (lookup dongle.node reader.sessions) reader dongle now ≡ ok s
      → Stays h (listen_to h playback reader machine dongle now interval listen_first wired).2
  unfolding listen_to
  listen_to-Stays reader machine now interval listen_first wired s e =
      rw (e, listen_to)
        (after_listen-Stays reader machine now interval listen_first wired
          (listen h s reader.readings) (listen-Stays h s reader.readings steady))

  -- The reader once the sessions of the dongles that are gone are closed.
  abbrev pub closed : Reader h.Device → Reader h.Device
  unfolding close_gone
  closed reader =
      let (kept, links) = close_gone (dongle ∷ []) reader.sessions reader.last_link in
      record reader { sessions = kept; last_link = links }

  -- The session that the pass listens to: the one that there was, or one that it opens.
  pub pass-Holds :
      (reader : Reader h.Device) (outside : Outside M) (p : Pass) (s : Session h.Device)
      → session_for h playback
          (lookup dongle.node (closed reader).sessions)
          (closed reader)
          dongle
          p.now
        ≡ ok s
      → Holds
          (pass h playback (dongle ∷ []) reader outside p).0
          (Budget.pass h p.interval p.listen_first s reader.readings p.now)
  unfolding reconcile listen_all closed
  pass-Holds reader outside p s e =
      reading_of-Holds outside
        (listen_to h playback (closed reader) outside.machine dongle p.now p.interval p.listen_first
          p.wired)
        _
        (listen_to-Stays (closed reader) outside.machine p.now p.interval p.listen_first p.wired s
          e)
        (listen_to-Holds (closed reader) outside.machine p.now p.interval p.listen_first p.wired s
          e)

  pub session_for-opened :
      (reader : Reader h.Device) (now : Instant) (device : h.Device)
      → h.open_node dongle.node ≡ ok device
      → lookup dongle.node reader.sessions ≡ none
      → session_for h playback
          (lookup dongle.node (closed reader).sessions)
          (closed reader)
          dongle
          now
        ≡ ok (
            opened device dongle
              (link_or_unknown (lookup dongle.product_id (closed reader).last_link))
              (h.opening now dongle.node))
  unfolding closed open_session
  session_for-opened reader now device e absent =
      rw (lookup-close_gone dongle.node (dongle ∷ []) reader.sessions reader.last_link absent)
        (rw (e, open_session) refl)

  pub session_for-Holds :
      (reader : Reader h.Device) (now : Instant) (s : Session h.Device)
      → Holds reader s
      → session_for h playback
          (lookup dongle.node (closed reader).sessions)
          (closed reader)
          dongle
          now
        ≡ ok s
  unfolding closed
  session_for-Holds reader now s e =
      let listed : is_listed dongle.node (dongle ∷ []) ≡ true =
        rw (text_eq_refl dongle.node) refl in
      rw
        (lookup-close_gone_listed dongle.node (dongle ∷ []) reader.sessions reader.last_link s
          listed e)
        refl
