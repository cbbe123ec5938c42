-- ===== src/Maxwell/Session/Unheard.antt =====
-- Dongles that say nothing, cannot be fetched from, or do not say that they are gone, as a session
-- of src/maxwell/session.rs meets them.
use headset_battery_indicato.Prelude.{
  ℕ, ◌≡◌, refl, false, ◌&&◌, leb, List, [], inl, inr, Bool-cases,
}
use headset_battery_indicato.Prelude.Outcome.{Result, ok, err}
use headset_battery_indicato.Time.{Duration, Instant}
use headset_battery_indicato.Maxwell.Frame.{messages}
use headset_battery_indicato.Maxwell.Session.{
  Hidraw, Session, listen, received, take_in, answer_buffer, request, sent, ask, ask_if_due,
  should_ask, strike, is_up, max_unanswered,
}
use headset_battery_indicato.Maxwell.Session.Budget.{IsQuiet}

abbrev pub Unheard : {E : Type 0} → Result E (List ℕ) → Type 0
Unheard (ok frame) = messages frame ≡ []
Unheard (err e) = Unit {0}

-- A transfer that works, or fails for a reason that is not that the device is gone.
abbrev pub Stays : {A : Type 0} (h : Hidraw) → Result h.IoError A → Type 0
Stays h (ok a) = Unit {0}
Stays h (err e) = h.is_gone e ≡ false

-- Neither of the transfers of a session says that the device is gone.
pub record IsSteady (h : Hidraw) : Type 0 where
  pub fetches : (d : h.Device) → Stays h (h.get_input d answer_buffer).1
  pub writes : (d : h.Device) → Stays h (h.write d request).1

-- Its reports hold no message, where they can be fetched at all, and no transfer says that it is
-- gone.
pub record IsMute (h : Hidraw) : Type 0 where
  pub unheard : (d : h.Device) → Unheard (h.get_input d answer_buffer).1
  pub steady : IsSteady h

received-IsQuiet :
    (h : Hidraw) (s : Session h.Device) (readings : ℕ) (r : h.Device × Result h.IoError (List ℕ))
    → Unheard r.1
    → IsQuiet (received s readings r).2
unfolding received take_in
received-IsQuiet h s readings (device, ok frame) u = rw u refl
received-IsQuiet h s readings (device, err e) u = tt

pub listen-IsQuiet :
    (h : Hidraw) (s : Session h.Device) (readings : ℕ) → IsMute h → IsQuiet (listen h s readings).2
unfolding listen
listen-IsQuiet h s readings mute = received-IsQuiet h s readings _ (mute.unheard s.device)

received-Stays :
    (h : Hidraw) (s : Session h.Device) (readings : ℕ) (r : h.Device × Result h.IoError (List ℕ))
    → Stays h r.1
    → Stays h (received s readings r).2
unfolding received
received-Stays h s readings (device, ok frame) u = tt
received-Stays h s readings (device, err e) u = u

pub listen-Stays :
    (h : Hidraw) (s : Session h.Device) (readings : ℕ)
    → IsSteady h
    → Stays h (listen h s readings).2
unfolding listen
listen-Stays h s readings steady = received-Stays h s readings _ (steady.fetches s.device)

sent-Stays :
    (h : Hidraw) (s : Session h.Device) (now : Instant) (r : h.Device × Result h.IoError (Unit {0}))
    → Stays h r.1
    → Stays h (sent s now r).1
unfolding sent
sent-Stays h s now (device, ok done) u = tt
sent-Stays h s now (device, err e) u = u

ask-Stays :
    (h : Hidraw) (s : Session h.Device) (now : Instant) → IsSteady h → Stays h (ask h s now).1
unfolding ask
ask-Stays h s now steady =
    let s' = strike s in
    elim (Bool-cases (is_up s'.link_state && leb max_unanswered s'.unanswered)) [
      | inl over ↦ rw over tt
      | inr more ↦
          rw more (sent-Stays h s' now (h.write s'.device request) (steady.writes s'.device))
    ]

pub ask_if_due-Stays :
    (h : Hidraw) (s : Session h.Device) (now : Instant) (interval listen_first : Duration)
    → IsSteady h
    → Stays h (ask_if_due h s now interval listen_first).1
unfolding ask_if_due
ask_if_due-Stays h s now interval listen_first steady =
    elim (Bool-cases (should_ask s now interval listen_first)) [
      | inl due ↦ rw due (ask-Stays h s now steady)
      | inr early ↦ rw early tt
    ]

abbrev pub Fails : {E A : Type 0} → Result E A → Type 0
Fails (ok a) = ⊥
Fails (err e) = Unit {0}

received-Fails :
    (h : Hidraw) (s : Session h.Device) (readings : ℕ) (r : h.Device × Result h.IoError (List ℕ))
    → Fails r.1
    → Fails (received s readings r).2
unfolding received
received-Fails h s readings (device, ok frame) f = f
received-Fails h s readings (device, err e) f = tt

pub listen-Fails :
    (h : Hidraw) (s : Session h.Device) (readings : ℕ)
    → ((d : h.Device) → Fails (h.get_input d answer_buffer).1)
    → Fails (listen h s readings).2
unfolding listen
listen-Fails h s readings fails = received-Fails h s readings _ (fails s.device)
