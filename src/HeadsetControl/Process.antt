-- ===== src/HeadsetControl/Process.antt =====
-- `HeadsetControl::run` and `probe` of src/headsetcontrol.rs: the child process, waited for until a
-- deadline. Processes are a parameter, and so are the instant and the stop flag of each turn.
use headset_battery_indicato.Prelude.{
  ℕ, zero, suc, ◌+◌, ◌*◌, ◌/◌, ◌≤◌, ◌<◌, ◌≡◌, refl, Bool, true, false, Option, none, some, List, [],
  ◌∷◌, arith, Text, codes, trim, leb, if◌then◌else◌, Bool-cases, inl, inr,
}
use headset_battery_indicato.Prelude.Outcome.{Result, ok, err}
use headset_battery_indicato.Time.{Duration, Instant, from_millis}
use headset_battery_indicato.Headset.{Headset}
use headset_battery_indicato.HeadsetControl.{Decoder, parse, quote}

abbrev pub reap_interval : Duration
reap_interval = from_millis 25

-- The operating system's processes. `try_wait` says whether the child has exited, or fails; `kill`
-- kills and reaps; `written` is what the drained pipes held.
pub record System : Type 1 where
  pub Child : Type 0
  pub spawn : Text → List Text → Option Child
  pub try_wait : Child → Child × Option Bool
  pub kill : Child → Child
  pub written : Child → Text × Text

-- How the wait for a child ends.
pub data Ended : Type 0 where
  exited wait_failed stopped timed_out : Ended

pub data ProbeError : Type 0 where
  not_started wait_error cut_short no_answer : ProbeError
  unexpected : Text → Text → ProbeError

module _ (s : System) (stop : ℕ → Bool) (clock : ℕ → Instant) (deadline : Instant) where
  -- A turn of the loop, with what the loop goes on to return.
  abbrev turn : Option Bool → s.Child → ℕ → Option (s.Child × Ended) → Option (s.Child × Ended)
  turn none child i rest = some (child, wait_failed)
  turn (some true) child i rest = some (child, exited)
  turn (some false) child i rest =
      if stop i
      then some (s.kill child, stopped)
      else if leb deadline (clock i)
      then some (s.kill child, timed_out)
      else rest

  -- The loop from a turn on; `none` means that the fuel ran out.
  unfoldable pub wait_child : ℕ → ℕ → s.Child → Option (s.Child × Ended)
  wait_child zero i child = none
  wait_child (suc fuel) i child =
      let rest = wait_child fuel (suc i) (s.try_wait child).0 in
      turn (s.try_wait child).1 (s.try_wait child).0 i rest

  -- How the wait for a child goes from a turn on, and what it comes to. It goes on to a further
  -- turn only over a child that runs, with the flag down and before the deadline. It ends with a
  -- child that has exited or whose state cannot be learned, or kills one that runs: if the flag is
  -- raised, or else if the deadline has come.
  pub data WaitsFor : ℕ → s.Child → s.Child × Ended → Type 0 where
    runs :
        {i : ℕ} {child child' : s.Child} {r : s.Child × Ended}
        → s.try_wait child ≡ (child', some false)
        → stop i ≡ false
        → clock i < deadline
        → WaitsFor (suc i) child' r
        → WaitsFor i child r
    exits :
        {i : ℕ} {child child' : s.Child}
        → s.try_wait child ≡ (child', some true)
        → WaitsFor i child (child', exited)
    fails :
        {i : ℕ} {child child' : s.Child}
        → s.try_wait child ≡ (child', none)
        → WaitsFor i child (child', wait_failed)
    stops :
        {i : ℕ} {child child' : s.Child}
        → s.try_wait child ≡ (child', some false)
        → stop i ≡ true
        → WaitsFor i child (s.kill child', stopped)
    times_out :
        {i : ℕ} {child child' : s.Child}
        → s.try_wait child ≡ (child', some false)
        → stop i ≡ false
        → deadline ≤ clock i
        → WaitsFor i child (s.kill child', timed_out)

  abbrev pub Ends : ℕ → s.Child → Option (s.Child × Ended) → Type 0
  Ends i child none = ⊥
  Ends i child (some r) = WaitsFor i child r

  turn-Ends :
      (o : Option Bool) (before child : s.Child) (i : ℕ) (rest : Option (s.Child × Ended))
      → s.try_wait before ≡ (child, o)
      → (clock i < deadline → Ends (suc i) child rest)
      → Ends i before (turn o child i rest)
  turn-Ends none before child i rest e h = fails e
  turn-Ends (some true) before child i rest e h = exits e
  turn-Ends (some false) before child i rest e h = elim (Bool-cases (stop i)) [
    | inl raised ↦ rw raised (stops e raised)
    | inr quiet ↦ rw quiet (elim (Bool-cases (leb deadline (clock i))) [
      | inl late ↦ rw late (times_out e quiet (ground arith))
      | inr early ↦ rw early (goes_on rest e quiet (ground arith) (h (ground arith)))
    ])
  ]
    where
      goes_on :
          (rest : Option (s.Child × Ended))
          → s.try_wait before ≡ (child, some false)
          → stop i ≡ false
          → clock i < deadline
          → Ends (suc i) child rest
          → Ends i before rest
      goes_on none e quiet early w = w
      goes_on (some r) e quiet early w = runs e quiet early w

  wait_child-Ends :
      (fuel i : ℕ) (child : s.Child)
      → ((j : ℕ) → clock j + reap_interval ≤ clock (suc j))
      → deadline ≤ clock i + fuel * reap_interval
      → Ends i child (wait_child (suc fuel) i child)
  unfolding wait_child
  wait_child-Ends zero i child ticks h =
      turn-Ends _ child _ i _ refl (λ early. absurd (omega arith))
  wait_child-Ends (suc fuel) i child ticks h =
      turn-Ends _ child _ i _ refl
        (λ early. wait_child-Ends fuel (suc i) _ ticks (omega (arith, ticks i)))

  -- What a wait that ends has come to.
  abbrev pub settled :
      (i : ℕ) (child : s.Child) (o : Option (s.Child × Ended)) → Ends i child o → s.Child × Ended
  settled i child none h = elim h [ ]
  settled i child (some r) h = r

  settled-WaitsFor :
      (i : ℕ) (child : s.Child) (o : Option (s.Child × Ended)) (h : Ends i child o)
      → WaitsFor i child (settled i child o h)
  settled-WaitsFor i child none h = absurd h
  settled-WaitsFor i child (some r) h = h

-- As many turns as the timeout can last.
abbrev pub rounds : Duration → ℕ
rounds timeout = suc (timeout / reap_interval + 1)

-- `HeadsetControl`
pub record Invocation : Type 0 where
  pub binary : Text
  pub timeout : Duration

abbrev pub arguments : List Text
arguments = codes "--battery" ∷ codes "--output" ∷ codes "json" ∷ []

-- The clock of the turns does not go back, and a turn sleeps for `REAP_INTERVAL` at least.
pub record Ticks (clock : ℕ → Instant) (started : Instant) : Type 0 where
  pub begun : started ≤ clock 0
  pub ticks : (j : ℕ) → clock j + reap_interval ≤ clock (suc j)

module _ (s : System) (stop : ℕ → Bool) (clock : ℕ → Instant) (started : Instant)
    (law : Ticks clock started) where
  pub rounds-Ends :
      (child : s.Child) (timeout : Duration)
      → Ends s stop clock
          (started + timeout)
          0
          child
          (wait_child s stop clock (started + timeout) (rounds timeout) 0 child)
  rounds-Ends child timeout =
      let begun = law.begun in
      wait_child-Ends s stop clock (started + timeout) (timeout / reap_interval + 1) 0 child
        law.ticks (omega arith)

  -- The whole loop: the turns that the timeout can last are enough.
  unfoldable pub wait_for_child : s.Child → Duration → s.Child × Ended
  unfolding wait_child
  wait_for_child child timeout =
      settled s stop clock (started + timeout) 0 child
        (wait_child s stop clock (started + timeout) (rounds timeout) 0 child)
        (rounds-Ends child timeout)

  abbrev output_of : s.Child × Ended → Result ProbeError (Text × Text)
  output_of (child, exited) = ok (s.written child)
  output_of (child, wait_failed) = err wait_error
  output_of (child, stopped) = err cut_short
  output_of (child, timed_out) = err no_answer

  abbrev waited : Option s.Child → Duration → Result ProbeError (Text × Text)
  unfolding wait_for_child
  waited none timeout = err not_started
  waited (some child) timeout = output_of (wait_for_child child timeout)

  -- Runs the binary to completion, or kills it.
  unfoldable pub run : Invocation → List Text → Result ProbeError (Text × Text)
  unfolding waited
  run control args = waited (s.spawn control.binary args) control.timeout

  abbrev parsed : Option (List Headset) → Text × Text → Result ProbeError (List Headset)
  unfolding quote
  parsed none (out, complaint) = err (unexpected (quote out) (quote (trim complaint)))
  parsed (some headsets) (out, complaint) = ok headsets

  abbrev read : Decoder → Result ProbeError (Text × Text) → Result ProbeError (List Headset)
  unfolding parse parsed
  read decode (err e) = err e
  read decode (ok output) = parsed (parse decode output.0) output

  unfoldable pub probe : Decoder → Invocation → Result ProbeError (List Headset)
  unfolding run read
  probe decode control = read decode (run control arguments)

  -- If the clock does not go back and a turn sleeps for `REAP_INTERVAL` at least, the wait for a
  -- child ends, whatever the child does, and goes as it should: every turn but the last finds a
  -- running child, a lowered flag and an instant before the deadline; the last finds the child
  -- exited, or cannot learn its state, or finds it running and kills it, for a raised flag or,
  -- the flag being down, at the deadline or behind it and never before.
  pub wait_for_child-WaitsFor :
      (child : s.Child) (timeout : Duration)
      → WaitsFor s stop clock (started + timeout) 0 child (wait_for_child child timeout)
  unfolding wait_for_child
  wait_for_child-WaitsFor child timeout =
      settled-WaitsFor s stop clock (started + timeout) 0 child _ (rounds-Ends child timeout)
