-- ===== src/Bridge/Daemon/Handles/Devices.antt =====
-- The account of the handles over the creation and the withdrawal of a battery.
use headset_battery_indicato.Prelude.{
  ℕ, zero, suc, ◌+◌, ◌≡◌, subst, inl, inr, Bool, true, false, Option, none, some, List, [], ◌∷◌,
  ◌++◌, arith, get_elem?, remove_at, length, length-append, Bool-cases, Option-cases, ltb,
}
use headset_battery_indicato.Prelude.Assoc.{text_key}
use headset_battery_indicato.Time.{Instant}
use headset_battery_indicato.Headset.{Headset}
use headset_battery_indicato.Bridge.Policy.{Reading, Withdrawal, keep, silent, missing}
use headset_battery_indicato.Bridge.Batteries.{
  VirtualBattery, Batteries, push, set_state, set_device, len, position,
}
use headset_battery_indicato.Bridge.Batteries
use headset_battery_indicato.Bridge.Uhid.{
  UhidBattery, Uhid, Created, created, refused, Registration, listed, unlisted, failed, release,
}
use headset_battery_indicato.Bridge.Daemon.{registration_timeout}
use headset_battery_indicato.Bridge.Daemon.Devices.{
  Daemon, registered, creation, acquired, attach, withdraw, outcome, outcome_of, grace, advance,
  expire_turn, expire_from, expire, identity_of,
}
use headset_battery_indicato.Bridge.Daemon.Handles.{Account, lent}

length-remove_at_present :
    {A : Type 0} (xs : List A) (i : ℕ) (x : A)
    → get_elem? xs i ≡ some x
    → length xs ≡ suc (length (remove_at xs i))
length-remove_at_present [] i x e = absurd (ground arith)
length-remove_at_present (y ∷ xs) zero x e = omega arith
length-remove_at_present (y ∷ xs) (suc i) x e = omega (arith, length-remove_at_present xs i x e)

longer : {A : Type 0} (x : A) (xs : List A) → suc (length xs) ≡ length (xs ++ x ∷ [])
longer x xs = omega (arith, length-append xs (x ∷ []))

module _ (k : UhidBattery) (u : Uhid k) (a : Account k u) where
  -- The devices hold what the pool is owed.
  abbrev pub Balanced : Daemon k u → Type 0
  Balanced br = a.Owes br.uhid (length br.batteries.devices)

  -- While a device is created, its handle is out too.
  abbrev OneMore : Daemon k u → u.Pool → Type 0
  OneMore br pool = a.Owes pool (suc (length br.batteries.devices))

  pub withdraw-Balanced :
      (br : Daemon k u) (index : ℕ) → Balanced br → Balanced (withdraw k u br index)
  unfolding withdraw Batteries.remove release
  withdraw-Balanced br index h = elim (Option-cases (get_elem? br.batteries.devices index)) [
    | inl e ↦ rw (e, withdraw) h
    | inr (device, e) ↦
        rw (e, withdraw)
          (a.owes-put_back br.uhid (k.destroy device) _
            (rw (← length-remove_at_present br.batteries.devices index device e) h))
  ]

  registered-Balanced :
      (br : Daemon k u) (headset : Headset) (reading : Reading) (now : Instant)
      (r : u.Pool × k.Battery × Registration)
      → OneMore br r.0
      → Balanced (registered k u br headset reading now r).0
  unfolding registered push release
  registered-Balanced br headset reading now (pool, device, listed) h =
      subst (a.Owes pool) (longer device br.batteries.devices) h
  registered-Balanced br headset reading now (pool, device, unlisted) h =
      a.owes-put_back pool (k.destroy device) _ h
  registered-Balanced br headset reading now (pool, device, failed) h =
      a.owes-put_back pool (k.destroy device) _ h

  creation-Balanced :
      (br : Daemon k u) (headset : Headset) (reading : Reading) (now : Instant)
      (r : u.Pool × Created k.Battery k.Handle)
      → OneMore br r.0
      → Balanced (creation k u br headset reading now r).0
  unfolding creation
  creation-Balanced br headset reading now (pool, created device) h =
      registered-Balanced br headset reading now
        (u.wait_for_power_supply pool device registration_timeout)
        (a.owes-wait pool device registration_timeout _ h)
  creation-Balanced br headset reading now (pool, refused invalid_identity handle) h =
      a.owes-put_back pool handle _ h

  acquired-Balanced :
      (br : Daemon k u) (headset : Headset) (reading : Reading) (now : Instant)
      (r : u.Pool × Option k.Handle)
      → a.Owes r.0 (lent r.1 (length br.batteries.devices))
      → Balanced (acquired k u br headset reading now r).0
  unfolding acquired
  acquired-Balanced br headset reading now (pool, none) h = h
  acquired-Balanced br headset reading now (pool, some handle) h =
      creation-Balanced br headset reading now (u.create pool handle (identity_of headset) reading)
        (a.owes-create pool handle (identity_of headset) reading _ h)

  pub attach-Balanced :
      (br : Daemon k u) (headset : Headset) (reading : Reading) (now : Instant)
      → Balanced br
      → Balanced (attach k u br headset reading now).0
  unfolding attach
  attach-Balanced br headset reading now h =
      acquired-Balanced br headset reading now (u.acquire br.uhid) (a.owes-acquire br.uhid _ h)

  outcome_of-Balanced :
      (o : Option VirtualBattery) (br : Daemon k u) (index : ℕ) (succeeded : Bool) (now : Instant)
      → Balanced br
      → Balanced (outcome_of k u o br index succeeded now).0
  unfolding outcome_of set_state
  outcome_of-Balanced none br index succeeded now h = h
  outcome_of-Balanced (some battery) br index true now h = h
  outcome_of-Balanced (some battery) br index false now h =
      elim (Bool-cases (ltb (battery.failures + 1) 3)) [
        | inl few ↦ rw few h
        | inr many ↦ rw many (withdraw-Balanced _ index h)
      ]

  pub outcome-Balanced :
      (br : Daemon k u) (index : ℕ) (succeeded : Bool) (now : Instant)
      → Balanced br
      → Balanced (outcome k u br index succeeded now).0
  unfolding outcome
  outcome-Balanced br index succeeded now h = outcome_of-Balanced _ br index succeeded now h

  advance-Balanced :
      (w : Withdrawal) (index : ℕ) (br : Daemon k u)
      → Balanced br
      → Balanced (advance k u w index br).1
  unfolding advance
  advance-Balanced keep index br h = h
  advance-Balanced silent index br h = withdraw-Balanced br index h
  advance-Balanced missing index br h = withdraw-Balanced br index h

  expire_turn-Balanced :
      (o : Option VirtualBattery) (index : ℕ) (br : Daemon k u) (now : Instant)
      → Balanced br
      → Balanced (expire_turn k u o index br now).1
  unfolding expire_turn
  expire_turn-Balanced none index br now h = h
  expire_turn-Balanced (some battery) index br now h =
      advance-Balanced (grace br.config now battery) index br h

  expire_from-Balanced :
      (turns index : ℕ) (br : Daemon k u) (now : Instant)
      → Balanced br
      → Balanced (expire_from k u turns index br now)
  unfolding expire_from
  expire_from-Balanced zero index br now h = h
  expire_from-Balanced (suc turns) index br now h =
      let (index', br') = expire_turn k u (get_elem? br.batteries.states index) index br now in
      expire_from-Balanced turns index' br' now
        (expire_turn-Balanced (get_elem? br.batteries.states index) index br now h)

  pub expire-Balanced :
      (br : Daemon k u) (now : Instant) → Balanced br → Balanced (expire k u br now)
  unfolding expire
  expire-Balanced br now h = expire_from-Balanced (len br.batteries) 0 br now h
