-- ===== src/Bridge/Daemon/Serving/Strikes.antt =====
-- Why `Bridge::wait` ends: every failure of a device uses up one of the strikes that are left.
use headset_battery_indicato.Prelude.{
  ℕ, zero, suc, ◌+◌, ◌-◌, ◌*◌, ◌≤◌, ◌<◌, ◌≡◌, refl, ◌∙◌, inl, inr, Bool, false, Option, none, some,
  List, [], ◌∷◌, arith, ltb, get_elem?, set, remove_at, length, Bool-cases,
}
use headset_battery_indicato.Prelude.Assoc.{text_key, insert}
use headset_battery_indicato.Time.{Instant}
use headset_battery_indicato.Bridge.Batteries.{VirtualBattery, Batteries, set_state}
use headset_battery_indicato.Bridge.Batteries
use headset_battery_indicato.Bridge.Batteries.Keys.{failures-get_elem?}
use headset_battery_indicato.Bridge.Uhid.{UhidBattery, Uhid}
use headset_battery_indicato.Bridge.Daemon.{attach_retry}
use headset_battery_indicato.Bridge.Daemon.Devices.{Daemon, withdraw, outcome, outcome_of}
use headset_battery_indicato.Bridge.Daemon.Invariant.{Inv, outcome-Inv}
use headset_battery_indicato.Bridge.Daemon.Serving.{
  Served, woken, broke, with_devices, after_serving, wait,
}

-- The failures that the devices may still have before each of them is destroyed.
abbrev pub strikes : List VirtualBattery → ℕ
strikes [] = 0
strikes (s ∷ states) = (3 - s.failures) + strikes states

strikes-set :
    (states : List VirtualBattery) (i : ℕ) (old new : VirtualBattery)
    → get_elem? states i ≡ some old
    → strikes (set states i new) + (3 - old.failures) ≡ strikes states + (3 - new.failures)
strikes-set [] i old new e = cc
strikes-set (s ∷ states) zero old new e = ground arith
strikes-set (s ∷ states) (suc i) old new e = omega (arith, strikes-set states i old new e)

strikes-remove_at :
    (states : List VirtualBattery) (i : ℕ) (old : VirtualBattery)
    → get_elem? states i ≡ some old
    → strikes (remove_at states i) + (3 - old.failures) ≡ strikes states
strikes-remove_at [] i old e = cc
strikes-remove_at (s ∷ states) zero old e = ground arith
strikes-remove_at (s ∷ states) (suc i) old e = omega (arith, strikes-remove_at states i old e)

get_elem?-within :
    {A : Type 0} (xs : List A) (i : ℕ) → i < length xs → (x : A) × (get_elem? xs i ≡ some x)
get_elem?-within [] i h = absurd (omega arith)
get_elem?-within (x ∷ xs) zero h = (x, refl)
get_elem?-within (x ∷ xs) (suc i) h = get_elem?-within xs i (omega arith)

pub strikes-le : (states : List VirtualBattery) → strikes states ≤ 3 * length states
strikes-le [] = omega arith
strikes-le (s ∷ states) = omega (arith, strikes-le states)

get_elem?-set_self :
    {A : Type 0} (xs : List A) (i : ℕ) (x v : A)
    → get_elem? xs i ≡ some x
    → get_elem? (set xs i v) i ≡ some v
get_elem?-set_self [] i x v e = cc
get_elem?-set_self (y ∷ xs) zero x v e = refl
get_elem?-set_self (y ∷ xs) (suc i) x v e = get_elem?-set_self xs i x v e

module _ (k : UhidBattery) (u : Uhid k) where
  withdraw-strikes :
      (br : Daemon k u) (index : ℕ) (battery : VirtualBattery) (device : k.Battery)
      → get_elem? br.batteries.devices index ≡ some device
      → get_elem? br.batteries.states index ≡ some battery
      → strikes (withdraw k u br index).batteries.states + (3 - battery.failures)
        ≡ strikes br.batteries.states
  unfolding withdraw Batteries.remove
  withdraw-strikes br index battery device d e =
      rw (d, withdraw) (strikes-remove_at br.batteries.states index battery e)

  -- A failure uses up a strike.
  outcome-strikes :
      (br : Daemon k u) (index : ℕ) (now : Instant)
      → Inv br
      → index < length br.batteries.states
      → strikes (outcome k u br index false now).0.batteries.states < strikes br.batteries.states
  unfolding outcome outcome_of set_state
  outcome-strikes br index now v within =
      let (battery, e) = get_elem?-within br.batteries.states index within in
      let few = failures-get_elem? br.abandoned br.batteries.states index battery v.sound e in
      rw (e, outcome_of) (struck battery e few)
    where
      struck :
          (battery : VirtualBattery)
          → get_elem? br.batteries.states index ≡ some battery
          → battery.failures < 3
          → strikes (outcome_of k u (some battery) br index false now).0.batteries.states
            < strikes br.batteries.states
      struck battery e few =
          let failing = record battery { failures = battery.failures + 1 } in
          let counted = strikes-set br.batteries.states index battery failing e in
          let (device, d) =
            get_elem?-within br.batteries.devices index (omega (arith, v.parallel)) in
          elim (Bool-cases (ltb (battery.failures + 1) 3)) [
            | inl h ↦ rw h (ground (arith, counted))
            | inr h ↦ rw h (
                ground (
                  arith,
                  counted,
                  withdraw-strikes
                      (record br {
                        batteries = set_state br.batteries index failing;
                        attach_retry_at =
                            insert battery.key (now + attach_retry) br.attach_retry_at;
                      })
                      index failing device d
                      (get_elem?-set_self br.batteries.states index battery failing e),
                ))
          ]

-- The battery that `serve_all` blames.
abbrev pub Blames : Served → ℕ → Type 0
Blames woken count = Unit {0}
Blames (broke none) count = Unit {0}
Blames (broke (some index)) count = index < count

-- What `serve_all` promises: the devices stay where they are, and the index of an error is one of
-- theirs.
pub record IsServing {B : Type 0} (serve : ℕ → List B → List B × Served) : Type 0 where
  pub in_place : (turn : ℕ) (devices : List B) → length (serve turn devices).0 ≡ length devices
  pub blames : (turn : ℕ) (devices : List B) → Blames (serve turn devices).1 (length devices)

module _ (k : UhidBattery) (u : Uhid k) (serve : ℕ → List k.Battery → List k.Battery × Served)
    (clock : ℕ → Instant) (law : IsServing serve) where
  abbrev pub Waits : Option (Daemon k u × Bool) → Type 0
  Waits none = ⊥
  Waits (some (br, done)) = Inv br

  after_serving-Waits :
      (served : Served) (br : Daemon k u) (now : Instant)
      (again : Daemon k u → Option (Daemon k u × Bool))
      → Inv br
      → Blames served (length br.batteries.states)
      → ((br' : Daemon k u)
          → Inv br'
          → strikes br'.batteries.states < strikes br.batteries.states
          → Waits (again br'))
      → Waits (after_serving k u serve clock served br now again)
  unfolding after_serving
  after_serving-Waits woken br now again v b next = v
  after_serving-Waits (broke none) br now again v b next = v
  after_serving-Waits (broke (some index)) br now again v b next =
      next _ (outcome-Inv k u br index false now v) (outcome-strikes k u br index now v b)

  -- However often and in whatever order devices fail while they are served, the wait returns, after
  -- no more turns than the devices have strikes left and one, and the bridge is then as sound as it
  -- was before.
  pub wait-Waits :
      (fuel turn : ℕ) (br : Daemon k u)
      → Inv br
      → strikes br.batteries.states < fuel
      → Waits (wait k u serve clock fuel turn br)
  unfolding wait
  wait-Waits zero turn br v h = absurd (omega arith)
  wait-Waits (suc fuel) turn br v h =
      let (devices, served) = serve turn br.batteries.devices in
      after_serving-Waits served (with_devices k u serve clock br devices) (clock turn)
        (wait k u serve clock fuel (suc turn))
        (record { parallel = law.in_place turn br.batteries.devices ∙ v.parallel; sound = v.sound })
        (rw (← v.parallel) (law.blames turn br.batteries.devices))
        (λ br' v' fewer. wait-Waits fuel (suc turn) br' v' (omega arith))
