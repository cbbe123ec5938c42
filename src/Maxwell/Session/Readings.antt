-- ===== src/Maxwell/Session/Readings.antt =====
-- What a report read by src/maxwell/session.rs leaves of the state shown, and the numbering of the
-- readings, which tells a second opinion from the first one repeated.
use headset_battery_indicato.Prelude.{
  ℕ, zero, suc, ◌+◌, ◌<◌, ◌≡◌, refl, ap, ◌∙◌, Bool, true, false, Option, none, some, List, [], ◌∷◌,
  ◌++◌, arith, sym, inl, inr, All, leb, if◌then◌else◌, Bool-cases,
}
use mathlib.Core.List.{append_assoc, reverse, reverse-cons}
use headset_battery_indicato.Headset.{
  BatteryState, discharging, charging, unavailable, disconnected,
}
use headset_battery_indicato.Maxwell.Frame.{Message, link, battery, messages}
use headset_battery_indicato.Maxwell.Frame.Wire.{
  Wire, acknowledgement, notice, level, event, meaning, IsClear, stream, meanings,
}
use headset_battery_indicato.Maxwell.Frame.RoundTrip.{report, messages-report}
use headset_battery_indicato.Maxwell.Session.{
  Session, Link, unknown, up, down, take_message, take_messages, take_in, u64, state_of, battery_of,
}

-- How many of the messages carry a level.
abbrev pub levels : List Message → ℕ
levels [] = 0
levels (link b ∷ ms) = levels ms
levels (battery p ∷ ms) = suc (levels ms)

-- What the last word of a report leaves of the link and the level, given those before it.
abbrev pub outcome : List Message → Link × Option ℕ → Link × Option ℕ
outcome [] before = before
outcome (link true ∷ ms) (l, v) = outcome ms (up, v)
outcome (link false ∷ ms) (l, v) = outcome ms (down, none)
outcome (battery p ∷ ms) (l, v) = outcome ms (up, some p)

abbrev pub numbered : ℕ → ℕ → ℕ → ℕ
numbered zero sample readings = sample
numbered (suc n) sample readings = readings

outcome-append :
    (ms ns : List Message) (before : Link × Option ℕ)
    → outcome (ms ++ ns) before ≡ outcome ns (outcome ms before)
outcome-append [] ns before = refl
outcome-append (link true ∷ ms) ns (l, v) = outcome-append ms ns _
outcome-append (link false ∷ ms) ns (l, v) = outcome-append ms ns _
outcome-append (battery p ∷ ms) ns (l, v) = outcome-append ms ns _

meanings-append : (ws vs : List Wire) → meanings (ws ++ vs) ≡ meanings ws ++ meanings vs
unfolding meanings
meanings-append [] vs = refl
meanings-append (w ∷ ws) vs =
    ap (◌++◌ (meaning w)) (meanings-append ws vs) ∙ sym (append_assoc (meaning w) _ _)

meanings-one : (w : Wire) → meanings (w ∷ []) ≡ meaning w ++ []
unfolding meanings
meanings-one w = refl

-- What the things said, the latest first, leave of the link: the latest that speaks of it decides.
-- A level out of range is not taken for one.
abbrev pub link_said : Link → List Wire → Link
link_said before [] = before
link_said before (acknowledgement ∷ said) = link_said before said
link_said before (notice n ∷ said) = link_said before said
link_said before (level p ∷ said) = if leb p 100 then up else link_said before said
link_said before (event true adr t u ∷ said) = up
link_said before (event false adr t u ∷ said) = down

-- And of the level: it is the latest that was told, unless the headset has gone since.
abbrev pub level_said : Option ℕ → List Wire → Option ℕ
level_said before [] = before
level_said before (acknowledgement ∷ said) = level_said before said
level_said before (notice n ∷ said) = level_said before said
level_said before (level p ∷ said) = if leb p 100 then some p else level_said before said
level_said before (event true adr t u ∷ said) = level_said before said
level_said before (event false adr t u ∷ said) = none

-- How a level reads, if one is known.
abbrev pub reading : Option ℕ → Bool → BatteryState
reading none wired = unavailable
reading (some p) true = charging (some p)
reading (some p) false = discharging p

-- A headset that has gone has no reading.
abbrev pub showing : Link → Option ℕ → Bool → BatteryState
showing down v wired = disconnected
showing unknown v wired = reading v wired
showing up v wired = reading v wired

state_of-showing : (l : Link) (v : Option ℕ) (wired : Bool) → state_of l v wired ≡ showing l v wired
unfolding state_of
state_of-showing down v wired = refl
state_of-showing unknown none wired = refl
state_of-showing unknown (some p) true = refl
state_of-showing unknown (some p) false = refl
state_of-showing up none wired = refl
state_of-showing up (some p) true = refl
state_of-showing up (some p) false = refl

-- One thing more is said.
outcome-said :
    (w : Wire) (said : List Wire) (l : Link) (v : Option ℕ)
    → outcome (meaning w ++ []) (link_said l said, level_said v said)
      ≡ (link_said l (w ∷ said), level_said v (w ∷ said))
unfolding meaning
outcome-said acknowledgement said l v = refl
outcome-said (notice n) said l v = refl
outcome-said (level p) said l v = elim (Bool-cases (leb p 100)) [
  | inl e ↦ rw e refl
  | inr e ↦ rw e refl
]
outcome-said (event true adr t u) said l v = refl
outcome-said (event false adr t u) said l v = refl

outcome-reverse :
    (said : List Wire) (l : Link) (v : Option ℕ)
    → outcome (meanings (reverse said)) (l, v) ≡ (link_said l said, level_said v said)
unfolding meanings
outcome-reverse [] l v = refl
outcome-reverse (w ∷ said) l v =
    rw
      (
        reverse-cons w said,
        meanings-append (reverse said) (w ∷ []),
        outcome-append (meanings (reverse said)) (meanings (w ∷ [])) (l, v),
        outcome-reverse said l v,
        meanings-one w,
      )
      (outcome-said w said l v)

module _ {D : Type 0} where
  take_messages-readings :
      (ms : List Message) (s : Session D) (readings : ℕ)
      → readings + levels ms < 18_446_744_073_709_551_616
      → ((take_messages ms s readings).1 ≡ readings + levels ms)
        × ((take_messages ms s readings).0.sample
            ≡ numbered (levels ms) s.sample (readings + levels ms))
  unfolding take_messages take_message
  take_messages-readings [] s readings h = (omega arith, refl)
  take_messages-readings (link true ∷ ms) s readings h = take_messages-readings ms _ readings h
  take_messages-readings (link false ∷ ms) s readings h = take_messages-readings ms _ readings h
  take_messages-readings (battery p ∷ ms) s readings h = ground (
    arith,
    take_messages-readings ms
        (record s {
          link_state = up;
          level = some p;
          sample = u64 (readings + 1);
          pending = false;
          unanswered = 0;
        })
        (u64 (readings + 1)),
  )

  -- Over a report, the reader's count grows by the levels in it, and the session's sample is the
  -- new count if there was one and stays otherwise, as long as the 64-bit count does not wrap.
  pub take_in-readings :
      (s : Session D) (frame : List ℕ) (readings : ℕ)
      → readings + levels (messages frame) < 18_446_744_073_709_551_616
      → ((take_in s frame readings).1 ≡ readings + levels (messages frame))
        × ((take_in s frame readings).0.sample
            ≡ numbered (levels (messages frame)) s.sample (readings + levels (messages frame)))
  unfolding take_in
  take_in-readings s frame readings h = take_messages-readings (messages frame) s readings h

  take_messages-outcome :
      (ms : List Message) (s : Session D) (readings : ℕ)
      → ((take_messages ms s readings).0.link_state, (take_messages ms s readings).0.level)
        ≡ outcome ms (s.link_state, s.level)
  unfolding take_messages take_message
  take_messages-outcome [] s readings = refl
  take_messages-outcome (link true ∷ ms) s readings = take_messages-outcome ms _ _
  take_messages-outcome (link false ∷ ms) s readings = take_messages-outcome ms _ _
  take_messages-outcome (battery p ∷ ms) s readings = take_messages-outcome ms _ _

  battery_of-outcome :
      (ms : List Message) (s : Session D) (readings : ℕ) (wired : Bool)
      → battery_of (take_messages ms s readings).0 wired
        ≡ state_of
            (outcome ms (s.link_state, s.level)).0
            (outcome ms (s.link_state, s.level)).1
            wired
  unfolding battery_of
  battery_of-outcome ms s readings wired =
      ap (λ (x : Link × Option ℕ). state_of x.0 x.1 wired) (take_messages-outcome ms s readings)

  -- From the bytes to the state shown, for whatever a report says, the byte behind the address of a
  -- link event being neither 0 nor 2, and whatever the session knew before: read from the latest
  -- thing said backwards, the first word on the link and the first on the level decide, what the
  -- session knew standing where there is none. A headset whose link is down is shown as
  -- disconnected, any other by its level, if one is known.
  pub battery_of-said :
      (s : Session D) (readings id other : ℕ) (said : List Wire) (leftovers : List ℕ) (wired : Bool)
      → All IsClear (reverse said)
      → battery_of (take_in s (report id other (stream (reverse said)) leftovers) readings).0 wired
        ≡ showing (link_said s.link_state said) (level_said s.level said) wired
  unfolding take_in
  battery_of-said s readings id other said leftovers wired clear =
      battery_of-outcome (messages (report id other (stream (reverse said)) leftovers)) s readings
        wired
      ∙ rw
          (
            messages-report id other (reverse said) leftovers clear,
            outcome-reverse said s.link_state s.level,
          )
          (state_of-showing (link_said s.link_state said) (level_said s.level said) wired)
