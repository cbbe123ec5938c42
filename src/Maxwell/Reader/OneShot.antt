-- ===== src/Maxwell/Reader/OneShot.antt =====
-- The one-shot reading of src/maxwell/mod.rs, for the `status` command. What sysfs lists at each
-- pass, and when the pass is, are an argument.
use headset_battery_indicato.Prelude.{
  ℕ, zero, suc, ◌-◌, ◌<◌, ◌≡◌, Bool, true, false, not, ◌&&◌, Option, none, some, List, [], ◌∷◌,
  arith, Text, all, if◌then◌else◌, is_some,
}
use headset_battery_indicato.Prelude.Outcome.{ok}
use headset_battery_indicato.Time.{Duration, Instant, from_secs, from_millis, max_duration}
use headset_battery_indicato.Headset.{Headset, unavailable}
use headset_battery_indicato.Maxwell.Session.{
  Hidraw, Dongle, Session, is_up, retry_delay, due, should_ask, ask_if_due, listen_first_for,
}
use headset_battery_indicato.Maxwell.Access.{Outside}
use headset_battery_indicato.Maxwell.Reader.{Reader, reconcile}

abbrev pub answer_delay : Duration
answer_delay = from_millis 60

abbrev pub answer_polls : ℕ
answer_polls = 10

-- What a pass finds around it: the dongles that sysfs lists, whether a headset is plugged in with a
-- cable, and the instant.
pub record Scene : Type 0 where
  pub dongles : List Dongle
  pub wired : Bool
  pub now : Instant
  pub answered : Instant

abbrev pub has_answer : Headset → Bool
has_answer headset = elim headset.battery [ unavailable ↦ false | _ ↦ true ]

module _ (h : Hidraw) {M : Type 0} (playback : Option Text → M → M × Option Bool) where
  unfoldable pub poll_with :
      Reader h.Device
      → Outside M
      → Scene
      → Duration
      → Duration
      → Reader h.Device × Outside M × List Headset
  poll_with reader outside scene interval listen_first =
      reconcile h playback reader outside scene.dongles scene.wired scene.now interval listen_first

  unfoldable pub poll :
      Reader h.Device → Outside M → Scene → Duration → Reader h.Device × Outside M × List Headset
  unfolding poll_with
  poll reader outside scene interval = poll_with reader outside scene interval listen_first_for

  -- The passes that wait for the answer.
  unfoldable pub await :
      ℕ
      → ℕ
      → (ℕ → Scene)
      → Reader h.Device × Outside M × List Headset
      → Reader h.Device × Outside M × List Headset
  unfolding poll_with
  await zero pass scene r = r
  await (suc left) pass scene (reader, outside, headsets) =
      let rest =
        await left (suc pass) scene (poll_with reader outside (scene pass) max_duration 0) in
      if all has_answer headsets then (reader, outside, headsets) else rest

  unfoldable pub read_once :
      Reader h.Device → Outside M → (ℕ → Scene) → Reader h.Device × Outside M × List Headset
  unfolding poll_with await
  read_once reader outside scene =
      await answer_polls 1 scene (poll_with reader outside (scene 0) 0 0)

  abbrev pub streams : Option Bool → Bool
  streams none = false
  streams (some running) = running

  -- The look at the sound card is taken only of a session that knows of no link and no level.
  unfoldable pub wedged_among : List (Text × Session h.Device) → M → M × Bool
  wedged_among [] machine = (machine, false)
  wedged_among ((node, s) ∷ sessions) machine =
      let rest = wedged_among sessions machine in
      let (machine', running) = playback s.usb_device machine in
      let after = wedged_among sessions machine' in
      if not (is_up s.link_state) && not (is_some s.level)
      then if streams running then (machine', true) else after
      else rest

  unfoldable pub looks_wedged : Reader h.Device → Outside M → Outside M × Bool
  unfolding wedged_among
  looks_wedged reader outside =
      let (machine, wedged) = wedged_among reader.sessions outside.machine in
      (record outside { machine = machine }, wedged)

  -- Within ten seconds of a session's first request the passes of a one-shot reading ask it nothing
  -- more, whatever it has learned of the link meanwhile.
  asked_once :
      (s : Session h.Device) (at now : Instant)
      → s.asked_at ≡ some at
      → s.asks ≡ 1
      → now - at < from_secs 10
      → ask_if_due h s now max_duration 0 ≡ (s, ok tt)
  unfolding ask_if_due should_ask due retry_delay
  asked_once s at now e one soon = ground arith
