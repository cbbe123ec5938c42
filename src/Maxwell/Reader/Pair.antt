-- ===== src/Maxwell/Reader/Pair.antt =====
-- What the reader of src/maxwell/mod.rs says of two dongles that it cannot both reach.
use headset_battery_indicato.Prelude.{
  ℕ, ◌≡◌, refl, sym, ◌∙◌, inl, inr, Bool, false, Option, none, some, List, [], ◌∷◌, arith, Text,
  text_eq, text_eq_iff, ◌==◌, any, Bool-cases,
}
use headset_battery_indicato.Prelude.Outcome.{Result, ok, err}
use headset_battery_indicato.Time.{Duration, Instant}
use headset_battery_indicato.Headset.{BatteryState}
use headset_battery_indicato.Maxwell.Session.{Hidraw, Dongle}
use headset_battery_indicato.Maxwell.Access.{
  outset, fresh_watch, Outside, message_of, failing, at_once, recovered, report_error,
  report_recovery,
}
use headset_battery_indicato.Maxwell.Reader.{Reader, reading_of, listen_to, listen_all, reconcile}
use headset_battery_indicato.Maxwell.Reader.Passes.{Pass, pass, passed}

-- Whether a path has a colon in it.
abbrev pub has_colon : Text → Bool
has_colon node = any (λ c. c == b':') node

-- The messages of two nodes are different, whatever the errors.
messages_differ :
    (first second one other : Text)
    → text_eq first second ≡ false
    → has_colon first ≡ false
    → has_colon second ≡ false
    → text_eq (message_of first one) (message_of second other) ≡ false
unfolding text_eq
messages_differ [] [] one other d f s = absurd (ground arith)
messages_differ [] (c ∷ second) one other d f s = ground arith
messages_differ (c ∷ first) [] one other d f s = ground arith
messages_differ (c ∷ first) (e ∷ second) one other d f s =
    ground (arith, messages_differ first second one other)

-- The watch has reported nothing, and what it has seen last is no failure of this node.
abbrev IsElsewhere : Text → Option (Text × Instant × Bool) → Type 0
IsElsewhere node none = Unit {0}
IsElsewhere node (some (message, since, reported)) =
    (reported ≡ false) × ((described : Text) → text_eq message (message_of node described) ≡ false)

failing-IsElsewhere :
    (last : Option (Text × Instant × Bool)) (node other described : Text) (now : Instant)
    → text_eq node other ≡ false
    → has_colon node ≡ false
    → has_colon other ≡ false
    → IsElsewhere node last
    → let (watch, report) = failing (record { last = last }) (message_of node described) now in
      (report ≡ false) × IsElsewhere other watch.last
unfolding failing
failing-IsElsewhere none node other described now d f s h =
    rw (at_once now) (refl, (refl, λ e. messages_differ node other described e d f s))
failing-IsElsewhere (some (message, since, reported)) node other described now d f s h =
    rw (h.1 described, at_once now)
      (refl, (refl, λ e. messages_differ node other described e d f s))

recovered-IsElsewhere :
    (last : Option (Text × Instant × Bool)) (node : Text)
    → IsElsewhere node last
    → (recovered (record { last = last })).1 ≡ false
unfolding recovered
recovered-IsElsewhere none node h = refl
recovered-IsElsewhere (some (message, since, reported)) node h = h.0

module _ (h : Hidraw) {M : Type 0} (playback : Option Text → M → M × Option Bool) where
  -- What came of a dongle is reported without a line, and leaves the watch as the other needs it.
  reading_of-IsElsewhere :
      (node other : Text) (outside : Outside M)
      (r : Reader h.Device × M × Result h.IoError (BatteryState × ℕ))
      → text_eq node other ≡ false
      → has_colon node ≡ false
      → has_colon other ≡ false
      → IsElsewhere node outside.access.last
      → let outside' = (reading_of h playback node outside r).1 in
        (outside'.lines ≡ outside.lines) × IsElsewhere other outside'.access.last
  unfolding reading_of report_error report_recovery recovered
  reading_of-IsElsewhere node other outside (reader, machine, ok (battery, sample)) d f s e =
      let quiet = recovered-IsElsewhere outside.access.last node e in rw quiet (refl, tt)
  reading_of-IsElsewhere node other outside (reader, machine, err error) d f s e =
      let quiet =
        failing-IsElsewhere outside.access.last node other (h.describe error)
          (outside.instants outside.reads) d f s e in
      (rw quiet.0 refl, quiet.1)

  module _ (first second : Dongle) (d : text_eq first.node second.node ≡ false)
      (d' : text_eq second.node first.node ≡ false) (f : has_colon first.node ≡ false)
      (s : has_colon second.node ≡ false) where
    listen_all-IsElsewhere :
        (reader : Reader h.Device) (outside : Outside M) (now : Instant)
        (interval listen_first : Duration) (wired : Bool)
        → IsElsewhere first.node outside.access.last
        → let outside' =
            (listen_all h playback reader outside
              (first ∷ second ∷ [])
              now
              interval
              listen_first
              wired).1 in
          (outside'.lines ≡ outside.lines) × IsElsewhere first.node outside'.access.last
    unfolding listen_all
    listen_all-IsElsewhere reader outside now interval listen_first wired e =
        let r = listen_to h playback reader outside.machine first now interval listen_first wired in
        let (reader', outside', battery, sample) = reading_of h playback first.node outside r in
        let one = reading_of-IsElsewhere first.node second.node outside r d f s e in
        let two =
          reading_of-IsElsewhere second.node first.node outside'
            (listen_to h playback reader' outside'.machine second now interval listen_first wired)
            d' s f one.1 in
        (two.0 ∙ one.0, two.1)

    pass-IsElsewhere :
        (reader : Reader h.Device) (outside : Outside M) (p : Pass)
        → IsElsewhere first.node outside.access.last
        → let outside' = (pass h playback (first ∷ second ∷ []) reader outside p).1 in
          (outside'.lines ≡ outside.lines) × IsElsewhere first.node outside'.access.last
    unfolding reconcile
    pass-IsElsewhere reader outside p e =
        listen_all-IsElsewhere _ outside p.now p.interval p.listen_first p.wired e

    passed-IsElsewhere :
        (reader : Reader h.Device) (outside : Outside M) (passes : List Pass)
        → IsElsewhere first.node outside.access.last
        → (passed h playback (first ∷ second ∷ []) reader outside passes).1.lines ≡ outside.lines
    unfolding passed
    passed-IsElsewhere reader outside [] e = refl
    passed-IsElsewhere reader outside (p ∷ passes) e =
        let (reader', outside', headsets) =
          pass h playback (first ∷ second ∷ []) reader outside p in
        let one = pass-IsElsewhere reader outside p e in
        passed-IsElsewhere reader' outside' passes one.1 ∙ one.0

text_eq_sym : (a b : Text) → text_eq a b ≡ false → text_eq b a ≡ false
text_eq_sym a b d = elim (Bool-cases (text_eq b a)) [
  | inl same ↦ absurd (cc (d, (text_eq_iff a b).1 (sym ((text_eq_iff b a).0 same))))
  | inr different ↦ different
]

-- If all the passes since the process has started find the same two dongles, on different nodes
-- whose paths have no colon, nothing is said of a failure to reach either of them, whatever fails
-- and however long it lasts.
pub pair-unheard :
    (h : Hidraw) {M : Type 0} (playback : Option Text → M → M × Option Bool) (first second : Dongle)
    (reader : Reader h.Device) (machine : M) (clock : ℕ → Instant) (passes : List Pass)
    → text_eq first.node second.node ≡ false
    → has_colon first.node ≡ false
    → has_colon second.node ≡ false
    → (passed h playback (first ∷ second ∷ []) reader (outset machine clock) passes).1.lines ≡ []
unfolding outset fresh_watch
pair-unheard h playback first second reader machine clock passes d f s =
    passed-IsElsewhere h playback first second d (text_eq_sym first.node second.node d) f s reader
      (outset machine clock) passes tt
