-- ===== src/Bridge/Batteries/View.antt =====
-- What the table of src/bridge/batteries.rs is to the bridge: a map from the key of a headset to its
-- device and record. The bridge reaches a battery by the index that `position` gives.
use headset_battery_indicato.Prelude.{
  ℕ, Option, none, some, List, [], ◌∷◌, Text, text_eq, if◌then◌else◌,
}
use headset_battery_indicato.Bridge.Batteries.{
  VirtualBattery, Batteries, position, push, remove, set_state, set_device,
}

module _ {B : Type 0} where
  unfoldable pub view_in : List B → List VirtualBattery → Text → Option (B × VirtualBattery)
  view_in [] states key = none
  view_in (device ∷ devices) [] key = none
  view_in (device ∷ devices) (state ∷ states) key =
      if text_eq state.key key then some (device, state) else view_in devices states key

  unfoldable pub view : Batteries B → Text → Option (B × VirtualBattery)
  unfolding view_in
  view b key = view_in b.devices b.states key

-- What the bridge does to the table: it adds the battery of a headset that has none, takes one out,
-- writes its record, or talks to its device.
pub data Change (B : Type 0) : Type 0 where
  add : Text → B → VirtualBattery → Change B
  drop : Text → Change B
  restate : Text → VirtualBattery → Change B
  replace : Text → B → Change B

abbrev pub with_key : Text → VirtualBattery → VirtualBattery
with_key key state = record state { key = key }

module _ {B : Type 0} where
  -- By index, as the bridge does it.
  abbrev pub at_index : Change B → Option ℕ → Batteries B → Batteries B
  unfolding push remove set_state set_device
  at_index (add key device state) none b = push b device (with_key key state)
  at_index (add key device state) (some index) b = b
  at_index (drop key) none b = b
  at_index (drop key) (some index) b = remove b index
  at_index (restate key state) none b = b
  at_index (restate key state) (some index) b = set_state b index (with_key key state)
  at_index (replace key device) none b = b
  at_index (replace key device) (some index) b = set_device b index device

  abbrev pub key_of : Change B → Text
  key_of (add key device state) = key
  key_of (drop key) = key
  key_of (restate key state) = key
  key_of (replace key device) = key

  unfoldable pub perform : List (Change B) → Batteries B → Batteries B
  unfolding at_index position
  perform [] b = b
  perform (change ∷ changes) b = perform changes (at_index change (position b (key_of change)) b)

  -- By key, on the map.
  abbrev pub entry : Change B → Option (B × VirtualBattery) → Option (B × VirtualBattery)
  entry (add key device state) none = some (device, with_key key state)
  entry (add key device state) (some old) = some old
  entry (drop key) old = none
  entry (restate key state) none = none
  entry (restate key state) (some (device, old)) = some (device, with_key key state)
  entry (replace key device) none = none
  entry (replace key device) (some (old, state)) = some (device, state)

  unfoldable pub updated :
      (Text → Option (B × VirtualBattery)) → Change B → Text → Option (B × VirtualBattery)
  updated f change key = if text_eq (key_of change) key then entry change (f key) else f key

  unfoldable pub intended :
      List (Change B) → (Text → Option (B × VirtualBattery)) → Text → Option (B × VirtualBattery)
  unfolding updated
  intended [] f key = f key
  intended (change ∷ changes) f key = intended changes (updated f change) key
