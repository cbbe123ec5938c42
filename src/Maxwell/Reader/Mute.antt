-- ===== src/Maxwell/Reader/Mute.antt =====
-- How often the reader of src/maxwell/mod.rs asks a dongle that says nothing.
use headset_battery_indicato.Prelude.{
  ℕ, suc, ◌+◌, ◌-◌, ◌/◌, ◌≤◌, ◌<◌, ◌≡◌, Bool, Option, none, some, List, [], ◌∷◌, arith, Text,
  length,
}
use headset_battery_indicato.Prelude.Assoc.{text_key, nat_eq, lookup}
use headset_battery_indicato.Prelude.Outcome.{ok}
use headset_battery_indicato.Time.{Instant}
use headset_battery_indicato.Maxwell.Session.{Hidraw, Dongle, Session, opened, ask_idle_retry}
use headset_battery_indicato.Maxwell.Session.Budget
use headset_battery_indicato.Maxwell.Session.Budget.{
  Meter, InBudget, IsQuiet, limit, pass-InBudget, opened-InBudget, InBudget-le,
}
use headset_battery_indicato.Maxwell.Session.Unheard.{IsMute, listen-IsQuiet}
use headset_battery_indicato.Maxwell.Access.{Outside}
use headset_battery_indicato.Maxwell.Reader.{Reader, link_or_unknown, session_for}
use headset_battery_indicato.Maxwell.Reader.Held.{
  Holds, closed, pass-Holds, session_for-opened, session_for-Holds,
}
use headset_battery_indicato.Maxwell.Reader.Passes.{Pass, Ordered, last_at, pass, passed}

module _ (h : Hidraw) {M : Type 0} (playback : Option Text → M → M × Option Bool) (dongle : Dongle)
    (mute : IsMute h) (m : Meter h) (base t₀ : ℕ) where
  -- The session of the node is within its budget.
  abbrev Within : ℕ → Instant → Reader h.Device → Type 0
  Within k t reader =
      (s : Session h.Device) × Holds h playback dongle mute.steady reader s
      × InBudget h m base t₀ k t s

  pass-Within :
      (k : ℕ) (t : Instant) (reader : Reader h.Device) (outside : Outside M) (p : Pass)
      (s : Session h.Device)
      → session_for h playback
          (lookup dongle.node (closed h playback dongle mute.steady reader).sessions)
          (closed h playback dongle mute.steady reader)
          dongle
          p.now
        ≡ ok s
      → InBudget h m base t₀ k t s
      → t ≤ p.now
      → k < limit
      → Within (suc k) p.now (pass h playback (dongle ∷ []) reader outside p).0
  pass-Within k t reader outside p s e b ordered room = (
    Budget.pass h p.interval p.listen_first s reader.readings p.now,
    pass-Holds h playback dongle mute.steady reader outside p s e,
    pass-InBudget h m base t₀ k t p.now ordered room s reader.readings p.interval p.listen_first b
        (listen-IsQuiet h s reader.readings mute),
  )

  passed-Within :
      (k : ℕ) (t : Instant) (reader : Reader h.Device) (outside : Outside M) (passes : List Pass)
      → Within k t reader
      → Ordered t passes
      → k + length passes ≤ limit
      → Within
          (k + length passes)
          (last_at t passes)
          (passed h playback (dongle ∷ []) reader outside passes).0
  unfolding passed
  passed-Within k t reader outside [] w ordered room =
      let none_left : k + 0 ≡ k = omega arith in rw none_left w
  passed-Within k t reader outside (p ∷ passes) (s, e, b) ordered room =
      let one =
        pass-Within k t reader outside p s
          (session_for-Holds h playback dongle mute.steady reader p.now s e) b ordered.0
          (omega arith) in
      let (reader', outside', headsets) = pass h playback (dongle ∷ []) reader outside p in
      let shifted : suc k + length passes ≡ k + suc (length passes) = omega arith in
      rw (← shifted)
        (passed-Within (suc k) p.now reader' outside' passes one ordered.1 (omega arith))

-- A dongle that never says anything, whose transfers never say that it is gone, which is the only
-- one plugged in, can be opened and has no session yet, is given one. Over fewer than 2^32 passes, whose instants do not go back, that session writes
-- at most three requests, and one more for every ten minutes since the first pass, whatever else
-- the reader knew before, the cadence, and whether the transfers work.
pub mute-budget :
    (h : Hidraw) (m : Meter h) {M : Type 0} (playback : Option Text → M → M × Option Bool)
    (dongle : Dongle) (mute : IsMute h) (device : h.Device) (reader : Reader h.Device)
    (outside : Outside M) (first : Pass) (passes : List Pass)
    → h.open_node dongle.node ≡ ok device
    → lookup dongle.node reader.sessions ≡ none
    → Ordered first.now passes
    → length passes < limit
    → (s : Session h.Device) × (lookup dongle.node
          (passed h playback (dongle ∷ []) reader outside (first ∷ passes)).0.sessions
        ≡ some s)
      × (m.written s.device
          ≤ m.written device + 3 + (last_at first.now passes - first.now) / ask_idle_retry)
unfolding passed
mute-budget h m playback dongle mute device reader outside first passes e absent ordered room =
    let belief =
      link_or_unknown
        (lookup dongle.product_id (closed h playback dongle mute.steady reader).last_link) in
    let one =
      pass-Within h playback dongle mute m (m.written device) first.now 0 first.now reader outside
        first (opened device dongle belief (h.opening first.now dongle.node))
        (session_for-opened h playback dongle mute.steady reader first.now device e absent)
        (opened-InBudget h m device dongle belief first.now (h.opening first.now dongle.node))
        (omega arith) (omega arith) in
    let (reader', outside', headsets) = pass h playback (dongle ∷ []) reader outside first in
    let (s, held, b) =
      passed-Within h playback dongle mute m (m.written device) first.now 1 first.now reader'
        outside' passes one ordered (omega arith) in
    (
      s,
      held,
      InBudget-le h m (m.written device) first.now (1 + length passes) (last_at first.now passes) s
          b,
    )
