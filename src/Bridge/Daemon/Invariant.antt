-- ===== src/Bridge/Daemon/Invariant.antt =====
-- What holds of the bridge between two polls, and that every operation keeps it.
pub mod Attach
pub mod Poll
use headset_battery_indicato.Prelude.{
  ℕ, zero, suc, ◌+◌, ◌<◌, ◌≤◌, ◌≡◌, ◌≢◌, refl, sym, ap, ◌∙◌, ◌⊎◌, inl, inr, Bool, true, false, ◌||◌,
  Option, none, some, List, [], ◌∷◌, ◌++◌, arith, Text, text_eq, if◌then◌else◌, get_elem?, set,
  remove_at, length, map, length-set, length-append, Option-cases, Bool-cases, is_some, ltb, leb,
}
use headset_battery_indicato.Prelude.Assoc.{text_key, contains, lookup, insert}
use headset_battery_indicato.Time.{Instant, duration_since}
use headset_battery_indicato.Headset.{Headset, key, BatteryState}
use headset_battery_indicato.Bridge.Policy.{Reading, Config, Withdrawal, keep, silent, missing}
use headset_battery_indicato.Bridge.Batteries.{
  VirtualBattery, Batteries, position, position_in, push, set_state, set_device, len,
}
use headset_battery_indicato.Bridge.Batteries
use headset_battery_indicato.Bridge.Batteries.Keys.{
  Lacks, IsSound, Lacks-position_in, IsSound-remove_at, IsSound-set, failures-get_elem?,
  IsSound-append, IsSound-abandon, IsSound-map,
}
use headset_battery_indicato.Bridge.Vetted.{vetted}
use headset_battery_indicato.Bridge.Uhid.{
  UhidBattery, Uhid, release, created, refused, listed, unlisted, failed, Registration, Created,
}
use headset_battery_indicato.Bridge.Daemon.{
  Bridge, Summary, announce, attach_retry, disconnect_settle,
}
use headset_battery_indicato.Bridge.Daemon.Devices.{
  Daemon, Attached, attached, retry, give_up, registered, creation, acquired, attach, withdraw,
  outcome, outcome_of, expire_from, expire, grace, advance, expire_turn, new_battery,
}
use headset_battery_indicato.Bridge.Daemon.Apply.{
  switched_off, gone_at, gone_noted, get_or_insert, pending_until, after_attach, listed_again,
  appear, refresh, publishing, apply, apply_all, clocks, note_all, take_probe, Probed, found,
  failure, tick, Narrowed, publish, nothing, gone,
}

-- The two lists go together, the keys differ, no battery belongs to a headset that was given up on,
-- and no device has failed three times in a row.
pub record Inv {P B : Type 0} (br : Bridge P B) : Type 0 where
  pub parallel : length br.batteries.devices ≡ length br.batteries.states
  pub sound : IsSound br.abandoned br.batteries.states

length-remove_at_eq :
    {A B : Type 0} (xs : List A) (ys : List B) (i : ℕ)
    → length xs ≡ length ys
    → length (remove_at xs i) ≡ length (remove_at ys i)
length-remove_at_eq [] [] i h = refl
length-remove_at_eq [] (y ∷ ys) i h = absurd (omega arith)
length-remove_at_eq (x ∷ xs) [] i h = absurd (omega arith)
length-remove_at_eq (x ∷ xs) (y ∷ ys) zero h = omega arith
length-remove_at_eq (x ∷ xs) (y ∷ ys) (suc i) h = ap suc (length-remove_at_eq xs ys i (omega arith))

get_elem?-parallel :
    {A B : Type 0} (xs : List A) (ys : List B) (i : ℕ) {y : B}
    → length xs ≡ length ys
    → get_elem? ys i ≡ some y
    → (x : A) × (get_elem? xs i ≡ some x)
get_elem?-parallel [] [] i h e = cc
get_elem?-parallel [] (y ∷ ys) i h e = absurd (omega arith)
get_elem?-parallel (x ∷ xs) [] i h e = absurd (omega arith)
get_elem?-parallel (x ∷ xs) (y ∷ ys) zero h e = (x, refl)
get_elem?-parallel (x ∷ xs) (y ∷ ys) (suc i) h e = get_elem?-parallel xs ys i (omega arith) e

remove_at-set :
    {A : Type 0} (xs : List A) (i : ℕ) (v : A) → remove_at (set xs i v) i ≡ remove_at xs i
remove_at-set [] i v = refl
remove_at-set (x ∷ xs) zero v = refl
remove_at-set (x ∷ xs) (suc i) v = ap (◌∷◌ x) (remove_at-set xs i v)

module _ (k : UhidBattery) (u : Uhid k) where
  -- Taking out the one battery that may be unsound.
  withdraw_one-Inv :
      (br : Daemon k u) (index : ℕ) {d : k.Battery}
      → get_elem? br.batteries.devices index ≡ some d
      → length br.batteries.devices ≡ length br.batteries.states
      → IsSound br.abandoned (remove_at br.batteries.states index)
      → Inv (withdraw k u br index)
  unfolding withdraw
  withdraw_one-Inv br index e p h =
      rw (e, withdraw)
        (record {
          parallel = length-remove_at_eq br.batteries.devices br.batteries.states index p;
          sound = h;
        })

  pub withdraw-Inv : (br : Daemon k u) (index : ℕ) → Inv br → Inv (withdraw k u br index)
  unfolding withdraw
  withdraw-Inv br index v = elim (Option-cases (get_elem? br.batteries.devices index)) [
    | inl e ↦ rw (e, withdraw) v
    | inr (device, e) ↦
        rw (e, withdraw)
          (record {
            parallel =
                length-remove_at_eq br.batteries.devices br.batteries.states index v.parallel;
            sound = IsSound-remove_at br.abandoned br.batteries.states index v.sound;
          })
  ]

  -- A battery's record may change, but for its key, and with it the devices and the retries.
  pub set-Inv :
      (br br' : Daemon k u) (index : ℕ) (old new : VirtualBattery)
      → get_elem? br.batteries.states index ≡ some old
      → new.key ≡ old.key
      → new.failures < 3
      → br'.batteries.states ≡ set br.batteries.states index new
      → length br'.batteries.devices ≡ length br.batteries.devices
      → br'.abandoned ≡ br.abandoned
      → Inv br
      → Inv br'
  set-Inv br br' index old new e same few states devices abandoned v = record {
    parallel = rw states (devices ∙ v.parallel ∙ sym (length-set br.batteries.states index new));
    sound =
        rw (states, abandoned)
          (IsSound-set br.abandoned br.batteries.states index old new e same few v.sound);
  }

  outcome_of-Inv :
      (o : Option VirtualBattery) (br : Daemon k u) (index : ℕ) (succeeded : Bool) (now : Instant)
      → get_elem? br.batteries.states index ≡ o
      → Inv br
      → Inv (outcome_of k u o br index succeeded now).0
  unfolding outcome_of
  outcome_of-Inv none br index succeeded now e v = v
  outcome_of-Inv (some battery) br index true now e v =
      set-Inv br _ index battery (record battery { failures = 0 }) e refl (omega arith) refl refl
        refl v
  outcome_of-Inv (some battery) br index false now e v =
      elim (Bool-cases (ltb (battery.failures + 1) 3)) [
        | inl few ↦
            rw few (set-Inv br _ index battery failing e refl (ground arith) refl refl refl v)
        | inr many ↦ rw many (withdraw-broken many)
      ]
    where
      failing : VirtualBattery
      failing = record battery { failures = battery.failures + 1 }

      withdraw-broken :
          ltb (battery.failures + 1) 3 ≡ false
          → Inv (
              withdraw k u
                (record br {
                  batteries = set_state br.batteries index failing;
                  attach_retry_at = insert battery.key (now + attach_retry) br.attach_retry_at;
                })
                index)
      withdraw-broken many =
          withdraw_one-Inv _ index
            (get_elem?-parallel br.batteries.devices br.batteries.states index v.parallel e).1
            (v.parallel ∙ sym (length-set br.batteries.states index failing))
            (rw (remove_at-set br.batteries.states index failing)
              (IsSound-remove_at br.abandoned br.batteries.states index v.sound))

  pub outcome-Inv :
      (br : Daemon k u) (index : ℕ) (succeeded : Bool) (now : Instant)
      → Inv br
      → Inv (outcome k u br index succeeded now).0
  unfolding outcome
  outcome-Inv br index succeeded now v = outcome_of-Inv _ br index succeeded now refl v

  advance-Inv :
      (w : Withdrawal) (index : ℕ) (br : Daemon k u) → Inv br → Inv (advance k u w index br).1
  unfolding advance
  advance-Inv keep index br v = v
  advance-Inv silent index br v = withdraw-Inv br index v
  advance-Inv missing index br v = withdraw-Inv br index v

  expire_turn-Inv :
      (o : Option VirtualBattery) (index : ℕ) (br : Daemon k u) (now : Instant)
      → Inv br
      → Inv (expire_turn k u o index br now).1
  unfolding expire_turn
  expire_turn-Inv none index br now v = v
  expire_turn-Inv (some battery) index br now v =
      advance-Inv (grace br.config now battery) index br v

  expire_from-Inv :
      (turns index : ℕ) (br : Daemon k u) (now : Instant)
      → Inv br
      → Inv (expire_from k u turns index br now)
  unfolding expire_from
  expire_from-Inv zero index br now v = v
  expire_from-Inv (suc turns) index br now v =
      let (index', br') = expire_turn k u (get_elem? br.batteries.states index) index br now in
      expire_from-Inv turns index' br' now
        (expire_turn-Inv (get_elem? br.batteries.states index) index br now v)

  pub expire-Inv : (br : Daemon k u) (now : Instant) → Inv br → Inv (expire k u br now)
  unfolding expire len
  expire-Inv br now v = expire_from-Inv (len br.batteries) 0 br now v
