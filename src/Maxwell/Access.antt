-- ===== src/Maxwell/Access.antt =====
-- src/maxwell/session.rs, `AccessWatch`, `report_error` and `report_recovery`: which failure to reach
-- a dongle is worth a warning.

mod Tests
use headset_battery_indicato.Prelude.{
  ℕ, zero, suc, ◌+◌, ◌++◌, ◌≡◌, refl, Bool, true, false, not, ◌&&◌, ◌||◌, Option, none, some, List,
  [], ◌∷◌, Text, text_eq, text_eq_refl, leb, any, if◌then◌else◌, arith, Bool-cases, inl, inr,
}
use headset_battery_indicato.Time.{Duration, Instant, from_secs, duration_since}

abbrev pub error_settle : Duration
error_settle = from_secs 5

-- The error's text, since when it has been seen, and whether it has been reported.
pub record AccessWatch : Type 0 where
  pub last : Option (Text × Instant × Bool)

unfoldable pub fresh_watch : AccessWatch
fresh_watch = record { last = none }

abbrev pub clock : Option (Text × Instant × Bool) → Text → Instant → Instant × Bool
clock none message now = (now, false)
clock (some (previous, since, reported)) message now =
    if text_eq previous message then (since, reported) else (now, false)

unfoldable pub failing : AccessWatch → Text → Instant → AccessWatch × Bool
failing watch message now =
    let (since, reported) = clock watch.last message now in
    let report = not reported && leb error_settle (duration_since now since) in
    (record { last = some (message, since, reported || report) }, report)

abbrev was_reported : Option (Text × Instant × Bool) → Bool
was_reported none = false
was_reported (some (message, since, reported)) = reported

unfoldable pub recovered : AccessWatch → AccessWatch × Bool
recovered watch = (record { last = none }, was_reported watch.last)

-- What the process says of a failure, with the node that the advice names, and of a recovery.
pub data AccessLine : Type 0 where
  cannot_open : Text → Text → AccessLine
  cannot_query : Text → AccessLine
  reachable_again : AccessLine

-- What a pass of the reader meets and changes outside of it: the machine it looks at, the process's
-- `ACCESS`, the lines said, the newest first, and what the clock shows each time that a failure
-- reads it, with how often it has been read.
pub record Outside (M : Type 0) : Type 0 where
  pub machine : M
  pub access : AccessWatch
  pub lines : List AccessLine
  pub instants : ℕ → Instant
  pub reads : ℕ

unfoldable pub outset : {M : Type 0} → M → (ℕ → Instant) → Outside M
unfolding fresh_watch
outset machine instants = record {
  machine = machine;
  access = fresh_watch;
  lines = [];
  instants = instants;
  reads = 0;
}

-- `{node}: {err}`
abbrev pub message_of : Text → Text → Text
message_of node described = node ++ b':' ∷ b' ' ∷ described

abbrev pub warning : Text → Text → Bool → AccessLine
warning node described denied =
    if denied
    then cannot_open (message_of node described) node
    else cannot_query (message_of node described)

unfoldable pub report_error : {M : Type 0} → Text → Text → Bool → Outside M → Outside M
unfolding failing
report_error node described denied outside =
    let (watch, report) =
      failing outside.access (message_of node described) (outside.instants outside.reads) in
    record outside {
      access = watch;
      lines = if report then warning node described denied ∷ outside.lines else outside.lines;
      reads = suc outside.reads;
    }

unfoldable pub report_recovery : {M : Type 0} → Outside M → Outside M
unfolding recovered
report_recovery outside =
    let (watch, report) = recovered outside.access in
    record outside {
      access = watch;
      lines = if report then reachable_again ∷ outside.lines else outside.lines;
    }

-- The same failure at one instant after another: the watch it leads to and the warnings given.
abbrev pub counted : Bool → ℕ → ℕ
counted report n = if report then 1 + n else n

unfoldable pub failures : AccessWatch → Text → List Instant → AccessWatch × ℕ
unfolding failing
failures watch message [] = (watch, 0)
failures watch message (now ∷ later) =
    let (watch', report) = failing watch message now in
    let (watch'', n) = failures watch' message later in (watch'', counted report n)

abbrev pub has_lasted : Instant → Instant → Bool
has_lasted since now = leb error_settle (duration_since now since)

reported-failures :
    (message : Text) (since : Instant) (later : List Instant)
    → failures (record { last = some (message, since, true) }) message later
      ≡ (record { last = some (message, since, true) }, 0)
unfolding failures failing
reported-failures message since [] = refl
reported-failures message since (now ∷ later) =
    rw (text_eq_refl message, reported-failures message since later) refl

unreported-failures :
    (message : Text) (since : Instant) (later : List Instant)
    → failures (record { last = some (message, since, false) }) message later ≡ (
      record { last = some (message, since, any (has_lasted since) later) },
      counted (any (has_lasted since) later) 0,
    )
unfolding failures failing
unreported-failures message since [] = refl
unreported-failures message since (now ∷ later) = elim (Bool-cases (has_lasted since now)) [
  | inl e ↦ rw (text_eq_refl message, e, reported-failures message since later) refl
  | inr e ↦ rw (text_eq_refl message, e, unreported-failures message since later) refl
]

pub at_once : (since : Instant) → leb error_settle (duration_since since since) ≡ false
at_once since = ground arith

-- A failure that a watch has not seen before, and that repeats, is warned of once if it lasts for
-- `ERROR_SETTLE` at some repetition and never otherwise; and the recovery that follows is worth a
-- line exactly when there was a warning.
pub failures-once :
    (message : Text) (since : Instant) (later : List Instant)
    → let (watch, warnings) = failures fresh_watch message (since ∷ later) in
      (warnings ≡ counted (any (has_lasted since) later) 0)
      × ((recovered watch).1 ≡ any (has_lasted since) later)
unfolding failures failing fresh_watch recovered
failures-once message since later =
    rw (at_once since, unreported-failures message since later) (refl, refl)
