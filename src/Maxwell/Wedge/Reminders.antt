-- ===== src/Maxwell/Wedge/Reminders.antt =====
-- How often a wedge is reported over a silence of any length.
use headset_battery_indicato.Prelude.{
  ◌+◌, ◌≤◌, ◌≡◌, inl, inr, Bool, Option, none, some, List, [], ◌∷◌, arith, ltb, Bool-cases,
}
use headset_battery_indicato.Time.{Duration, Instant}
use headset_battery_indicato.Maxwell.Wedge.{
  WedgeWatch, watch_from, silence, verdict, fresh_look, look, check, wedge_silence, wedge_reminder,
}

abbrev pub reported : Option Duration → Instant → List Instant → List Instant
reported none now warnings = warnings
reported (some quoted) now warnings = now ∷ warnings

-- The checks of a dongle that says nothing, at the instants of the passes: the instants of the
-- warnings given, the latest first, and the state they lead to.
pub data Silent {M : Type 0} (probe : M → M × Option Bool) (t₀ : Instant) (machine₀ : M)
    : List Instant → WedgeWatch → M → Instant → Type 0 where
  start : Silent probe t₀ machine₀ [] (watch_from t₀) machine₀ t₀
  checked :
      {warnings : List Instant} {watch : WedgeWatch} {machine : M} {t : Instant} (now : Instant)
      → Silent probe t₀ machine₀ warnings watch machine t
      → t ≤ now
      → Silent probe t₀ machine₀
          (reported (check probe watch machine now).2 now warnings)
          (check probe watch machine now).0
          (check probe watch machine now).1
          now

-- The latest first: each is a day after the one before it, and the first after the silence.
abbrev pub Spread : Instant → List Instant → Type 0
Spread t₀ [] = Unit {0}
Spread t₀ (at ∷ []) = t₀ + wedge_silence ≤ at
Spread t₀ (at ∷ earlier ∷ warnings) =
    (earlier + wedge_reminder ≤ at) × Spread t₀ (earlier ∷ warnings)

-- The watch remembers the latest warning.
abbrev Remembers : List Instant → Option Instant → Instant → Type 0
Remembers [] none t = Unit {0}
Remembers [] (some at) t = ⊥
Remembers (latest ∷ warnings) none t = ⊥
Remembers (latest ∷ warnings) (some at) t = (latest ≡ at) × (at ≤ t)

record IsPaced (t₀ : Instant) (warnings : List Instant) (watch : WedgeWatch) (t : Instant)
    : Type 0 where
  since : watch.heard_at ≡ t₀
  begun : t₀ ≤ t
  remembered : Remembers warnings watch.warned_at t
  spread : Spread t₀ warnings

waited-IsPaced :
    (t₀ : Instant) (warnings : List Instant) (watch : WedgeWatch) (t now : Instant)
    → t ≤ now
    → IsPaced t₀ warnings watch t
    → IsPaced t₀ warnings watch now
waited-IsPaced t₀ [] watch t now o v = ground arith
waited-IsPaced t₀ (latest ∷ warnings) watch t now o v = ground arith

verdict-IsPaced :
    (t₀ : Instant) (warnings : List Instant) (watch : WedgeWatch) (running : Bool) (t now : Instant)
    → t ≤ now
    → t₀ + wedge_silence ≤ now
    → IsPaced t₀ warnings watch t
    → let (watch', warning) = verdict watch running now in
      IsPaced t₀ (reported warning now warnings) watch' now
unfolding verdict
verdict-IsPaced t₀ [] watch running t now o l v = ground arith
verdict-IsPaced t₀ (latest ∷ warnings) watch running t now o l v = ground arith

module _ {M : Type 0} (probe : M → M × Option Bool) where
  look-IsPaced :
      (t₀ : Instant) (warnings : List Instant) (watch : WedgeWatch) (machine : M) (t now : Instant)
      → IsPaced t₀ warnings watch t
      → IsPaced t₀ warnings (look probe watch.probed watch machine now).0 t
  unfolding look fresh_look
  look-IsPaced t₀ warnings watch machine t now v = ground arith

  check-IsPaced :
      (t₀ : Instant) (warnings : List Instant) (watch : WedgeWatch) (machine : M) (t now : Instant)
      → t ≤ now
      → IsPaced t₀ warnings watch t
      → let (watch', machine', warning) = check probe watch machine now in
        IsPaced t₀ (reported warning now warnings) watch' now
  unfolding check silence
  check-IsPaced t₀ warnings watch machine t now o v =
      elim (Bool-cases (ltb (silence watch now) wedge_silence)) [
        | inl e ↦ rw e (waited-IsPaced t₀ warnings watch t now o v)
        | inr e ↦ rw e (
            verdict-IsPaced t₀ warnings _ _ t now o (ground arith)
              (look-IsPaced t₀ warnings watch machine t now v))
      ]

  Silent-IsPaced :
      {t₀ : Instant} {machine₀ machine : M} {warnings : List Instant} {watch : WedgeWatch}
      {t : Instant}
      → Silent probe t₀ machine₀ warnings watch machine t
      → IsPaced t₀ warnings watch t
  unfolding watch_from
  Silent-IsPaced start = ground arith
  Silent-IsPaced
        (checked {warnings = warnings} {watch = watch} {machine = machine} {t = t} now past o) =
      check-IsPaced _ warnings watch machine t now o (Silent-IsPaced past)

  -- Over a silence of any length, whatever the looks at the ALSA state find, the first warning comes
  -- no earlier than `WEDGE_SILENCE` after the silence began, and each further one no earlier than a
  -- day after the one before it.
  pub Silent-warnings :
      {t₀ : Instant} {machine₀ machine : M} {warnings : List Instant} {watch : WedgeWatch}
      {t : Instant}
      → Silent probe t₀ machine₀ warnings watch machine t
      → Spread t₀ warnings
  Silent-warnings past = let v = Silent-IsPaced past in v.spread
