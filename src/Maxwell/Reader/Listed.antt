-- ===== src/Maxwell/Reader/Listed.antt =====
-- What a pass of the reader of src/maxwell/mod.rs reports of the dongles that are plugged in, of
-- those too that cannot be talked to.
use headset_battery_indicato.Prelude.{
  ℕ, ◌≡◌, ◌⊎◌, inl, inr, refl, ap, Bool, Option, some, List, [], ◌∷◌, Text, map,
}
use headset_battery_indicato.Prelude.Outcome.{Result, ok, err}
use headset_battery_indicato.Prelude.Assoc.{text_key, nat_eq, lookup}
use headset_battery_indicato.Time.{Duration, Instant}
use headset_battery_indicato.Headset.{Headset, BatteryState, unavailable}
use headset_battery_indicato.Maxwell.Session.{Hidraw, Dongle, Session, listen, answer_buffer}
use headset_battery_indicato.Maxwell.Session.Unheard.{Fails, listen-Fails}
use headset_battery_indicato.Maxwell.Access.{Outside}
use headset_battery_indicato.Maxwell.Reader.{
  Reader, after_listen, session_for, listen_to, reading_of, listen_all, reconcile,
}

-- What is told of a headset.
abbrev pub told : Headset → Text × ℕ × BatteryState × Option ℕ
told headset = (headset.product, headset.product_id, headset.battery, headset.sample)

-- A headset and a dongle by the product's name and number.
abbrev pub seen : Headset → Text × ℕ
seen headset = (headset.product, headset.product_id)

abbrev pub plugged : Dongle → Text × ℕ
plugged dongle = (dongle.product, dongle.product_id)

abbrev pub unreachable : Dongle → Text × ℕ × BatteryState × Option ℕ
unreachable dongle = (dongle.product, dongle.product_id, unavailable, some 0)

Result-cases : {E A : Type 0} (r : Result E A) → ((a : A) × (r ≡ ok a)) ⊎ ((e : E) × (r ≡ err e))
Result-cases (ok a) = inl (a, refl)
Result-cases (err e) = inr (e, refl)

module _ (h : Hidraw) {M : Type 0} (playback : Option Text → M → M × Option Bool) where
  listen_all-listed :
      (dongles : List Dongle) (reader : Reader h.Device) (outside : Outside M) (now : Instant)
      (interval listen_first : Duration) (wired : Bool)
      → map seen (listen_all h playback reader outside dongles now interval listen_first wired).2
        ≡ map plugged dongles
  unfolding listen_all
  listen_all-listed [] reader outside now interval listen_first wired = refl
  listen_all-listed (dongle ∷ dongles) reader outside now interval listen_first wired =
      ap (◌∷◌ (plugged dongle)) (listen_all-listed dongles _ _ now interval listen_first wired)

  -- A pass tells of the dongles that are plugged in, in their order.
  pub reconcile-listed :
      (reader : Reader h.Device) (outside : Outside M) (dongles : List Dongle) (wired : Bool)
      (now : Instant) (interval listen_first : Duration)
      → map seen (reconcile h playback reader outside dongles wired now interval listen_first).2
        ≡ map plugged dongles
  unfolding reconcile
  reconcile-listed reader outside dongles wired now interval listen_first =
      listen_all-listed dongles _ outside now interval listen_first wired

module _ (h : Hidraw) {M : Type 0} (playback : Option Text → M → M × Option Bool)
    (fails : (d : h.Device) → Fails (h.get_input d answer_buffer).1) where
  after_listen-Fails :
      (reader : Reader h.Device) (machine : M) (node : Text) (now : Instant)
      (interval listen_first : Duration) (wired : Bool)
      (r : Session h.Device × ℕ × Result h.IoError Bool)
      → Fails r.2
      → Fails (after_listen h playback reader machine node now interval listen_first wired r).2
  unfolding after_listen
  after_listen-Fails reader machine node now interval listen_first wired (s, readings, ok said) f =
      absurd f
  after_listen-Fails reader machine node now interval listen_first wired (s, readings, err e) f = tt

  listen_to-Fails :
      (reader : Reader h.Device) (machine : M) (dongle : Dongle) (now : Instant)
      (interval listen_first : Duration) (wired : Bool)
      → Fails (listen_to h playback reader machine dongle now interval listen_first wired).2
  unfolding listen_to
  listen_to-Fails reader machine dongle now interval listen_first wired =
      elim (Result-cases
        (session_for h playback (lookup dongle.node reader.sessions) reader dongle now)) [
          | inl (s, e) ↦
              rw (e, listen_to)
                (after_listen-Fails reader machine dongle.node now interval listen_first wired
                  (listen h s reader.readings) (listen-Fails h s reader.readings fails))
          | inr (error, e) ↦ rw (e, listen_to) tt
        ]

  reading_of-Fails :
      (node : Text) (outside : Outside M)
      (r : Reader h.Device × M × Result h.IoError (BatteryState × ℕ))
      → Fails r.2
      → ((reading_of h playback node outside r).2 ≡ unavailable)
        × ((reading_of h playback node outside r).3 ≡ 0)
  unfolding reading_of
  reading_of-Fails node outside (reader, machine, ok reading) f = absurd f
  reading_of-Fails node outside (reader, machine, err e) f = (refl, refl)

  listen_all-unreachable :
      (dongles : List Dongle) (reader : Reader h.Device) (outside : Outside M) (now : Instant)
      (interval listen_first : Duration) (wired : Bool)
      → map told (listen_all h playback reader outside dongles now interval listen_first wired).2
        ≡ map unreachable dongles
  unfolding listen_all
  listen_all-unreachable [] reader outside now interval listen_first wired = refl
  listen_all-unreachable (dongle ∷ dongles) reader outside now interval listen_first wired =
      let r = listen_to h playback reader outside.machine dongle now interval listen_first wired in
      let (battery, sample) =
        reading_of-Fails dongle.node outside r
          (listen_to-Fails reader outside.machine dongle now interval listen_first wired) in
      rw (battery, sample)
        (ap (◌∷◌ (unreachable dongle))
          (listen_all-unreachable dongles _ _ now interval listen_first wired))

  -- While no report can be fetched from any device, whether or not its node can be opened and
  -- whatever the reader knew before, a pass tells of each dongle that is plugged in, in their order,
  -- as one headset whose battery is unavailable and which has no reading: none is left out, none is
  -- said to be switched off, and no level from before is told again.
  pub reconcile-unreachable :
      (reader : Reader h.Device) (outside : Outside M) (dongles : List Dongle) (wired : Bool)
      (now : Instant) (interval listen_first : Duration)
      → map told (reconcile h playback reader outside dongles wired now interval listen_first).2
        ≡ map unreachable dongles
  unfolding reconcile
  reconcile-unreachable reader outside dongles wired now interval listen_first =
      listen_all-unreachable dongles _ outside now interval listen_first wired
