-- ===== src/Source/Gap.antt =====
-- The gap while the dongle re-enumerates: HeadsetControl stays out of it.
use headset_battery_indicato.Prelude.{
  ℕ, zero, suc, ◌+◌, ◌≤◌, ◌<◌, ◌≡◌, refl, ap, ◌∙◌, Bool, true, Option, some, List, [], ◌∷◌, arith,
  Text, map,
}
use headset_battery_indicato.Prelude.Outcome.{ok}
use headset_battery_indicato.Time.{Duration, Instant}
use headset_battery_indicato.Headset.{Headset}
use headset_battery_indicato.Maxwell.Session.{Hidraw, Dongle, listen_first_for}
use headset_battery_indicato.Maxwell.Access.{Outside}
use headset_battery_indicato.Maxwell.Reader.{Reader}
use headset_battery_indicato.Maxwell.Reader.Listed.{seen, plugged, reconcile-listed}
use headset_battery_indicato.Maxwell.Reader.OneShot.{Scene, poll}
use headset_battery_indicato.Source.{
  Source, Backend, auto, native, headset_control, Surroundings, Answer, chosen, probe, probe_with,
  dongle_is_coming_back, reenumeration_grace, last_probe_was_native,
}

-- The native reader answered, with these headsets.
abbrev pub IsNative : {D M : Type 0} → Source D × M × Answer → List Headset → Type 0
IsNative r headsets = (last_probe_was_native r.0 ≡ true) × (r.2 ≡ ok headsets)

module _ (h : Hidraw) {M : Type 0} (playback : Option Text → M → M × Option Bool) where
  poll-listed :
      (reader : Reader h.Device) (outside : Outside M) (scene : Scene) (interval : Duration)
      → map seen (poll h playback reader outside scene interval).2 ≡ map plugged scene.dongles
  unfolding poll
  poll-listed reader outside scene interval =
      reconcile-listed h playback reader outside scene.dongles scene.wired scene.now interval
        listen_first_for

  coming_back :
      (source : Source h.Device) (now at : Instant)
      → source.native_seen_at ≡ some at
      → now < at + reenumeration_grace
      → dongle_is_coming_back source now ≡ true
  unfolding dongle_is_coming_back
  coming_back source now at e soon = rw e (ground arith)

  -- A pass that finds no dongle, in the gap.
  chosen-gap :
      (source : Source h.Device) (o : Surroundings) (now at : Instant)
      (r : Reader h.Device × Outside M × List Headset)
      → source.native_seen_at ≡ some at
      → now < at + reenumeration_grace
      → map seen r.2 ≡ []
      → IsNative (chosen h playback source o now r) []
        × ((chosen h playback source o now r).0.native_seen_at ≡ some at)
        × ((chosen h playback source o now r).0.backend ≡ source.backend)
  unfolding chosen last_probe_was_native
  chosen-gap source o now at (reader, outside, []) e soon none_seen =
      rw (coming_back source now at e soon) ((refl, refl), e, refl)
  chosen-gap source o now at (reader, outside, headset ∷ headsets) e soon none_seen =
      absurd (ground arith)

  -- A pass that finds a dongle.
  chosen-seen :
      (source : Source h.Device) (o : Surroundings) (now : Instant)
      (r : Reader h.Device × Outside M × List Headset) (first : Text × ℕ) (others : List (Text × ℕ))
      → map seen r.2 ≡ first ∷ others
      → ((chosen h playback source o now r).0.native_seen_at ≡ some now)
        × ((chosen h playback source o now r).0.backend ≡ source.backend)
  unfolding chosen
  chosen-seen source o now (reader, outside, []) first others e = absurd (ground arith)
  chosen-seen source o now (reader, outside, headset ∷ headsets) first others e = (refl, refl)

  probe_with-gap :
      (b : Backend) (source : Source h.Device) (outside : Outside M) (scene : Scene)
      (o : Surroundings) (at : Instant)
      → b ≡ auto
      → source.native_seen_at ≡ some at
      → scene.dongles ≡ []
      → scene.answered < at + reenumeration_grace
      → let r = probe_with h playback b source outside scene o in
        IsNative r [] × (r.0.native_seen_at ≡ some at) × (r.0.backend ≡ source.backend)
  unfolding probe_with
  probe_with-gap auto source outside scene o at a e gap soon =
      chosen-gap source o scene.answered at
        (poll h playback source.reader outside scene source.native_interval) e soon
        (poll-listed source.reader outside scene source.native_interval ∙ ap (map plugged) gap)
  probe_with-gap native source outside scene o at a e gap soon = absurd (ground arith)
  probe_with-gap headset_control source outside scene o at a e gap soon = absurd (ground arith)

  probe_with-seen :
      (b : Backend) (source : Source h.Device) (outside : Outside M) (scene : Scene)
      (o : Surroundings) (dongle : Dongle) (dongles : List Dongle)
      → b ≡ auto
      → scene.dongles ≡ dongle ∷ dongles
      → let r = probe_with h playback b source outside scene o in
        (r.0.native_seen_at ≡ some scene.answered) × (r.0.backend ≡ source.backend)
  unfolding probe_with
  probe_with-seen auto source outside scene o dongle dongles a e =
      chosen-seen source o scene.answered
        (poll h playback source.reader outside scene source.native_interval) (plugged dongle)
        (map plugged dongles)
        (poll-listed source.reader outside scene source.native_interval ∙ ap (map plugged) e)
  probe_with-seen native source outside scene o dongle dongles a e = absurd (ground arith)
  probe_with-seen headset_control source outside scene o dongle dongles a e = absurd (ground arith)

  module _ (scene : ℕ → Scene) (o : ℕ → Surroundings) where
    -- The source and the outside after some probes.
    pub after : ℕ → Source h.Device → Outside M → Source h.Device × Outside M
    unfolding probe
    after zero source outside = (source, outside)
    after (suc n) source outside =
        let (source', outside') = after n source outside in
        let (source'', outside'', answer) = probe h playback source' outside' (scene n) (o n) in
        (source'', outside'')

    -- The scenes behind the first one: no dongle, and not thirty seconds yet.
    pub record IsGap (limit : ℕ) : Type 0 where
      pub absent : (n : ℕ) → n ≤ limit → (scene (suc n)).dongles ≡ []
      pub soon :
          (n : ℕ) → n ≤ limit → (scene (suc n)).answered < (scene 0).answered + reenumeration_grace

    module _ (source : Source h.Device) (outside : Outside M) (dongle : Dongle)
        (dongles : List Dongle) (a : source.backend ≡ auto)
        (e : (scene 0).dongles ≡ dongle ∷ dongles) (limit : ℕ) (gap : IsGap limit) where
      after-gap :
          (n : ℕ)
          → n ≤ limit
          → ((after (suc n) source outside).0.native_seen_at ≡ some (scene 0).answered)
            × ((after (suc n) source outside).0.backend ≡ auto)
      unfolding after
      after-gap zero l =
          let r =
            probe_with-seen source.backend source outside (scene 0) (o 0) dongle dongles a e in
          (r.0, r.1 ∙ a)
      after-gap (suc n) l =
          let (seen_at, b) = after-gap n (omega arith) in
          let (source', outside') = after (suc n) source outside in
          let r =
            probe_with-gap source'.backend source' outside' (scene (suc n)) (o (suc n))
              (scene 0).answered b seen_at (gap.absent n (omega arith))
              (gap.soon n (omega arith)) in
          (r.1, r.2 ∙ b)

      -- With the choice left to the program, once a dongle has been seen, a probe that finds none
      -- less than thirty seconds later is still answered by the native reader, with no headset,
      -- whatever HeadsetControl would have said and however many such probes came before.
      pub after-IsNative :
          (n : ℕ)
          → n ≤ limit
          → IsNative
              (probe h playback
                (after (suc n) source outside).0
                (after (suc n) source outside).1
                (scene (suc n))
                (o (suc n)))
              []
      unfolding probe
      after-IsNative n l =
          let (seen_at, b) = after-gap n l in
          let (source', outside') = after (suc n) source outside in
          (probe_with-gap source'.backend source' outside' (scene (suc n)) (o (suc n))
            (scene 0).answered b seen_at (gap.absent n l) (gap.soon n l)).0
