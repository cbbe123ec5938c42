-- ===== src/Bridge/Batteries.antt =====
-- src/bridge/batteries.rs: the virtual batteries, as two lists that an index means the same in. The
-- device type is `uhid-battery`'s.
pub mod Keys
pub mod View
mod Rows
pub mod Refinement
mod Tests
use mathlib.Core.List.{zip}
use headset_battery_indicato.Prelude.{
  ℕ, zero, suc, Bool, Option, none, some, List, [], ◌∷◌, ◌++◌, Text, text_eq, if◌then◌else◌, length,
  get_elem?, remove_at, set,
}
use headset_battery_indicato.Time.{Instant}

pub record VirtualBattery : Type 0 where
  pub key : Text
  pub name : Text
  pub last_reading : Instant
  pub last_seen : Instant
  pub silent_since : Option Instant
  pub missing_since : Option Instant
  pub gone_since : Option Instant
  pub deferred : Option ℕ
  pub deferred_sample : Option ℕ
  pub held : Option ℕ
  pub logged_percent : ℕ
  pub published_at : Instant
  pub failures : ℕ

pub record Batteries (B : Type 0) : Type 0 where
  pub devices : List B
  pub states : List VirtualBattery

abbrev next_index : Option ℕ → Option ℕ
next_index none = none
next_index (some i) = some (suc i)

unfoldable pub position_in : Text → List VirtualBattery → Option ℕ
position_in key [] = none
position_in key (state ∷ states) =
    if text_eq state.key key then some 0 else next_index (position_in key states)

module _ {B : Type 0} where
  unfoldable pub empty : Batteries B
  empty = record { devices = []; states = [] }

  unfoldable pub len : Batteries B → ℕ
  len b = length b.states

  -- The index of the battery mirroring the headset with this key.
  unfoldable pub position : Batteries B → Text → Option ℕ
  unfolding position_in
  position b key = position_in key b.states

  unfoldable pub push : Batteries B → B → VirtualBattery → Batteries B
  push b device state = record {
    devices = b.devices ++ device ∷ [];
    states = b.states ++ state ∷ [];
  }

  unfoldable pub remove : Batteries B → ℕ → Batteries B
  remove b index = record { devices = remove_at b.devices index; states = remove_at b.states index }

  -- What is left, and the pairs that are taken out.
  unfoldable pub drain : Batteries B → Batteries B × List (B × VirtualBattery)
  unfolding empty
  drain b = (empty, zip b.devices b.states)

  -- Assigning through `index_mut` and `pair_mut`.
  unfoldable pub set_state : Batteries B → ℕ → VirtualBattery → Batteries B
  set_state b index state = record b { states = set b.states index state }

  unfoldable pub set_device : Batteries B → ℕ → B → Batteries B
  set_device b index device = record b { devices = set b.devices index device }
