-- ===== src/Maxwell/Wedge/Suspicion.antt =====
-- What a warning about a wedge rests on: `WedgeWatch` with `playback_running` for its look.
use headset_battery_indicato.Prelude.{
  ◌≤◌, ◌<◌, ◌≡◌, refl, inl, inr, Bool, true, false, Option, none, some, List, [], ◌∷◌, arith, Text,
  ltb, Bool-cases,
}
use headset_battery_indicato.Time.{Duration, Instant, duration_since}
use headset_battery_indicato.Files.{Files}
use headset_battery_indicato.Maxwell.Wedge.{
  WedgeWatch, wedge_silence, probe_every, watch_from, heard, silence, is_running, reminder_due,
  verdict, fresh_look, look, check,
}
use headset_battery_indicato.Maxwell.Wedge.Evidence.{playback_running}
use headset_battery_indicato.Maxwell.Wedge.Evidence.Playing.{Playing, playback_running_iff}

quoted_eq : (a b : Duration) → some a ≡ some b → a ≡ b
quoted_eq a b e = cc

-- The file trees as they are at each instant.
module _ (trees : Instant → Files) (proc_asound usb_device : Text) where
  abbrev pub look_at : Instant → Instant × Option Bool
  look_at now = (now, playback_running (trees now) proc_asound usb_device)

  -- Passes over the dongle, each with its instant and whether something was heard.
  unfoldable pub passes : WedgeWatch → List (Instant × Bool) → WedgeWatch
  passes watch [] = watch
  passes watch ((now, true) ∷ rest) = passes (heard watch now).0 rest
  passes watch ((now, false) ∷ rest) = passes (check look_at watch now now).0 rest

  -- A remembered look was a look.
  abbrev IsBacked : Option (Instant × Option Bool) → Type 0
  IsBacked none = Unit
  IsBacked (some (at, running)) = running ≡ playback_running (trees at) proc_asound usb_device

  -- Playback was seen less than `PROBE_EVERY` ago.
  abbrev pub SeenPlaying : Instant → Type 0
  SeenPlaying now =
      (at : Instant) × (duration_since now at < probe_every)
      × Playing (trees at) proc_asound usb_device

  seen :
      (now at : Instant) (running : Option Bool)
      → duration_since now at < probe_every
      → running ≡ playback_running (trees at) proc_asound usb_device
      → is_running running ≡ true
      → SeenPlaying now
  seen now at none close e h = cc
  seen now at (some running) close e h =
      (at, close, (playback_running_iff (trees at) proc_asound usb_device).0 (cc))

  abbrev Seen : Instant → WedgeWatch × Instant × Option Bool → Type 0
  Seen now (watch, machine, running) =
      IsBacked watch.probed × (is_running running ≡ true → SeenPlaying now)

  fresh_look-Seen :
      (watch : WedgeWatch) (now : Instant) → Seen now (fresh_look look_at watch now now)
  unfolding fresh_look
  fresh_look-Seen watch now = (refl, λ h. seen now now _ (omega arith) refl h)

  look-Seen :
      (o : Option (Instant × Option Bool)) (watch : WedgeWatch) (now : Instant)
      → IsBacked o
      → IsBacked watch.probed
      → Seen now (look look_at o watch now now)
  unfolding look
  look-Seen none watch now b w = fresh_look-Seen watch now
  look-Seen (some (at, running)) watch now b w =
      elim (Bool-cases (ltb (duration_since now at) probe_every)) [
        | inl close ↦ rw close (w, λ h. seen now at running (ground (arith, close)) b h)
        | inr stale ↦ rw stale (fresh_look-Seen watch now)
      ]

  abbrev Warns : Instant → WedgeWatch × Instant × Option Duration → Type 0
  Warns now (watch, machine, none) = IsBacked watch.probed
  Warns now (watch, machine, some quoted) =
      IsBacked watch.probed × (wedge_silence ≤ quoted) × SeenPlaying now

  verdict-Warns :
      (now : Instant) (r : WedgeWatch × Instant × Option Bool)
      → Seen now r
      → wedge_silence ≤ silence r.0 now
      → Warns now ((verdict r.0 (is_running r.2) now).0, r.1, (verdict r.0 (is_running r.2) now).1)
  unfolding verdict
  verdict-Warns now (watch, machine, running) (backed, playing) long =
      elim (Bool-cases (is_running running)) [
        | inl plays ↦ elim (Bool-cases (reminder_due watch.warned_at now)) [
          | inl due ↦ rw (plays, due) (backed, long, playing plays)
          | inr early ↦ rw (plays, early) backed
        ]
        | inr quiet ↦ rw quiet backed
      ]

  look-silence :
      (o : Option (Instant × Option Bool)) (watch : WedgeWatch) (now : Instant)
      → silence (look look_at o watch now now).0 now ≡ silence watch now
  unfolding look silence fresh_look
  look-silence none watch now = refl
  look-silence (some (at, running)) watch now = ground arith

  check-Warns :
      (watch : WedgeWatch) (now : Instant)
      → IsBacked watch.probed
      → Warns now (check look_at watch now now)
  unfolding check
  check-Warns watch now b = elim (Bool-cases (ltb (silence watch now) wedge_silence)) [
    | inl short ↦ rw short b
    | inr long ↦ rw long (
        verdict-Warns now (look look_at watch.probed watch now now)
          (look-Seen watch.probed watch now b b)
          (ground (arith, look-silence watch.probed watch now, long)))
  ]

  Warns-IsBacked :
      (now : Instant) (r : WedgeWatch × Instant × Option Duration)
      → Warns now r
      → IsBacked r.0.probed
  Warns-IsBacked now (watch, machine, none) w = w
  Warns-IsBacked now (watch, machine, some quoted) w = w.0

  passes-IsBacked :
      (watch : WedgeWatch) (history : List (Instant × Bool))
      → IsBacked watch.probed
      → IsBacked (passes watch history).probed
  unfolding passes heard
  passes-IsBacked watch [] b = b
  passes-IsBacked watch ((now, true) ∷ rest) b = passes-IsBacked _ rest tt
  passes-IsBacked watch ((now, false) ∷ rest) b =
      passes-IsBacked (check look_at watch now now).0 rest
        (Warns-IsBacked now (check look_at watch now now) (check-Warns watch now b))

  -- Whatever a watch over one dongle has gone through since it was made, a warning that it gives quotes at least
  -- `WEDGE_SILENCE`, and rests on a look less than `PROBE_EVERY` ago that found a running playback
  -- PCM of the dongle's sound card.
  pub passes-warning :
      (start : Instant) (history : List (Instant × Bool)) (now : Instant) (quoted : Duration)
      → (check look_at (passes (watch_from start) history) now now).2 ≡ some quoted
      → (wedge_silence ≤ quoted) × SeenPlaying now
  unfolding watch_from
  passes-warning start history now quoted h =
      warned (check look_at (passes (watch_from start) history) now now)
        (check-Warns _ now (passes-IsBacked (watch_from start) history tt)) h
    where
      warned :
          (r : WedgeWatch × Instant × Option Duration)
          → Warns now r
          → r.2 ≡ some quoted
          → (wedge_silence ≤ quoted) × SeenPlaying now
      warned (watch, machine, none) w e = cc
      warned (watch, machine, some other) w e = (omega (arith, quoted_eq other quoted e), w.2)
