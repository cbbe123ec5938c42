-- ===== src/Maxwell/Reader/Unopened.antt =====
-- What the reader of src/maxwell/mod.rs says of a dongle that it cannot open.
use headset_battery_indicato.Prelude.{
  ℕ, zero, suc, ◌+◌, ◌≡◌, refl, ap, ◌∙◌, Bool, true, false, Option, none, List, [], ◌∷◌, arith,
  Text, any, if◌then◌else◌,
}
use headset_battery_indicato.Prelude.Assoc.{text_key, nat_eq, lookup}
use headset_battery_indicato.Prelude.Outcome.{err}
use headset_battery_indicato.Time.{Duration, Instant}
use headset_battery_indicato.Maxwell.Session.{Hidraw, Dongle, open_session}
use headset_battery_indicato.Maxwell.Access.{
  Outside, outset, AccessLine, warning, message_of, failures, failures-once, counted, has_lasted,
  report_error,
}
use headset_battery_indicato.Maxwell.Reader.{
  Reader, close_gone, reading_of, listen_to, listen_all, reconcile,
}
use headset_battery_indicato.Maxwell.Reader.Sessions.{lookup-close_gone}
use headset_battery_indicato.Maxwell.Reader.Passes.{Pass, pass, passed}

-- What the clock shows at each of the passes.
abbrev pub readings : (ℕ → Instant) → ℕ → List Pass → List Instant
readings clock n [] = []
readings clock n (p ∷ passes) = clock n ∷ readings clock (suc n) passes

repeated : {A : Type 0} → ℕ → A → List A → List A
repeated zero a l = l
repeated (suc n) a l = repeated n a (a ∷ l)

repeated-counted :
    {A : Type 0} (report : Bool) (n : ℕ) (a : A) (l : List A)
    → repeated n a (if report then a ∷ l else l) ≡ repeated (counted report n) a l
unfolding repeated
repeated-counted true n a l = let e : 1 + n ≡ suc n = omega arith in rw e refl
repeated-counted false n a l = refl

module _ (h : Hidraw) {M : Type 0} (playback : Option Text → M → M × Option Bool) (dongle : Dongle)
    (e : h.IoError) (refused : h.open_node dongle.node ≡ err e) (there : h.is_gone e ≡ false) where
  listen_to-refused :
      (reader : Reader h.Device) (machine : M) (now : Instant) (interval listen_first : Duration)
      (wired : Bool)
      → lookup dongle.node reader.sessions ≡ none
      → listen_to h playback reader machine dongle now interval listen_first wired
        ≡ (reader, machine, err e)
  unfolding listen_to open_session
  listen_to-refused reader machine now interval listen_first wired absent =
      rw (absent, listen_to) (rw (refused, listen_to) refl)

  -- A pass leaves the node without a session, and reports the failure.
  pass-refused :
      (reader : Reader h.Device) (outside : Outside M) (p : Pass)
      → lookup dongle.node reader.sessions ≡ none
      → let (reader', outside', headsets) = pass h playback (dongle ∷ []) reader outside p in
        (lookup dongle.node reader'.sessions ≡ none)
        × (outside' ≡ report_error dongle.node (h.describe e) (h.is_denied e) outside)
  unfolding reconcile listen_all reading_of
  pass-refused reader outside p absent =
      let (sessions, links) = close_gone (dongle ∷ []) reader.sessions reader.last_link in
      let closed : Reader h.Device = record reader { sessions = sessions; last_link = links } in
      let kept =
        lookup-close_gone dongle.node (dongle ∷ []) reader.sessions reader.last_link absent in
      rw (listen_to-refused closed outside.machine p.now p.interval p.listen_first p.wired kept)
        (rw there (kept, refl))

  -- The line that the failure is worth.
  abbrev pub cannot_reach : AccessLine
  cannot_reach = warning dongle.node (h.describe e) (h.is_denied e)

  -- All that is said, once these passes are over.
  abbrev said : Outside M → List Pass → List AccessLine
  said outside passes =
      repeated
        (failures outside.access (message_of dongle.node (h.describe e))
          (readings outside.instants outside.reads passes)).1
        cannot_reach outside.lines

  report_error-said :
      (outside : Outside M) (p : Pass) (passes : List Pass)
      → said (report_error dongle.node (h.describe e) (h.is_denied e) outside) passes
        ≡ said outside (p ∷ passes)
  unfolding report_error failures
  report_error-said outside p passes = repeated-counted _ _ cannot_reach outside.lines

  passed-refused :
      (reader : Reader h.Device) (outside : Outside M) (passes : List Pass)
      → lookup dongle.node reader.sessions ≡ none
      → (passed h playback (dongle ∷ []) reader outside passes).1.lines ≡ said outside passes
  unfolding passed failures repeated
  passed-refused reader outside [] absent = refl
  passed-refused reader outside (p ∷ passes) absent =
      let (reader', outside', headsets) = pass h playback (dongle ∷ []) reader outside p in
      let one = pass-refused reader outside p absent in
      passed-refused reader' outside' passes one.0
      ∙ ap (λ o. said o passes) one.1
      ∙ report_error-said outside p passes

  repeated-if :
      (b : Bool) → repeated (counted b 0) cannot_reach [] ≡ (if b then cannot_reach ∷ [] else [])
  unfolding repeated
  repeated-if true = refl
  repeated-if false = refl

  -- If all the passes since the process has started find one dongle, which has no session and whose
  -- node cannot be opened, for a reason that is not that it is gone, the process says one thing,
  -- that it cannot be reached, if at some pass the failure is five seconds old, and nothing otherwise.
  pub unopened-warned :
      (reader : Reader h.Device) (machine : M) (clock : ℕ → Instant) (first : Pass)
      (passes : List Pass)
      → lookup dongle.node reader.sessions ≡ none
      → (passed h playback (dongle ∷ []) reader (outset machine clock) (first ∷ passes)).1.lines
        ≡ (if any (has_lasted (clock 0)) (readings clock 1 passes) then cannot_reach ∷ [] else [])
  unfolding outset
  unopened-warned reader machine clock first passes absent =
      let once =
        failures-once (message_of dongle.node (h.describe e)) (clock 0) (readings clock 1 passes) in
      passed-refused reader (outset machine clock) (first ∷ passes) absent
      ∙ ap (λ n. repeated n cannot_reach []) once.0
      ∙ repeated-if _
