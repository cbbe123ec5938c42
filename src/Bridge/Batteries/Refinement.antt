-- ===== src/Bridge/Batteries/Refinement.antt =====
-- The table, by index, does what is meant, by key.
use mathlib.Core.Path.{fun_ext}
use headset_battery_indicato.Prelude.{
  ℕ, ◌≡◌, refl, ap, ◌∙◌, inl, inr, Option, none, some, List, [], ◌∷◌, arith, Text, text_eq,
  Bool-cases,
}
use headset_battery_indicato.Bridge.Batteries.{
  VirtualBattery, Batteries, position, empty, push, remove, set_state, set_device,
}
use headset_battery_indicato.Bridge.Batteries.Keys.{Lacks-position_in}
use headset_battery_indicato.Bridge.Batteries.View.{
  view_in, view, Change, add, drop, restate, replace, with_key, at_index, key_of, perform, updated,
  intended,
}
use headset_battery_indicato.Bridge.Batteries.Rows.{
  IsTable, view_in-push, view_in-remove_at, view_in-set, view_in-set_device, push-IsTable,
  remove_at-IsTable, set-IsTable, set_device-IsTable, view_in-missing, view_in-found,
}

module _ {B : Type 0} where
  -- One change.
  at_index-view :
      (change : Change B) (o : Option ℕ) (b : Batteries B) (k : Text)
      → IsTable b.devices b.states
      → position b (key_of change) ≡ o
      → view (at_index change o b) k ≡ updated (view b) change k
  unfolding view position updated push remove set_state set_device
  at_index-view (add key device state) none b k t e = ground (
    arith,
    view_in-push b.devices b.states device (with_key key state) k t
        (Lacks-position_in key b.states e),
    view_in-missing b.devices b.states key k e,
  )
  at_index-view (add key device state) (some i) b k t e = elim (Bool-cases (text_eq key k)) [
    | inl same ↦ let (found, f) = view_in-found b.devices b.states key k i t e same in rw (same, f)
    | inr different ↦ rw different
  ]
  at_index-view (drop key) none b k t e = ground (arith, view_in-missing b.devices b.states key k e)
  at_index-view (drop key) (some i) b k t e = view_in-remove_at b.devices b.states key k i t e
  at_index-view (restate key state) none b k t e =
      ground (arith, view_in-missing b.devices b.states key k e)
  at_index-view (restate key state) (some i) b k t e =
      ground (arith, view_in-set b.devices b.states (with_key key state) key k i refl t e)
  at_index-view (replace key device) none b k t e =
      ground (arith, view_in-missing b.devices b.states key k e)
  at_index-view (replace key device) (some i) b k t e =
      ground (arith, view_in-set_device b.devices b.states device key k i t e)

  at_index-IsTable :
      (change : Change B) (o : Option ℕ) (b : Batteries B)
      → IsTable b.devices b.states
      → position b (key_of change) ≡ o
      → IsTable (at_index change o b).devices (at_index change o b).states
  unfolding position push remove set_state set_device
  at_index-IsTable (add key device state) none b t e =
      push-IsTable b.devices b.states device (with_key key state) t
        (Lacks-position_in key b.states e)
  at_index-IsTable (add key device state) (some i) b t e = t
  at_index-IsTable (drop key) none b t e = t
  at_index-IsTable (drop key) (some i) b t e = remove_at-IsTable b.devices b.states i t
  at_index-IsTable (restate key state) none b t e = t
  at_index-IsTable (restate key state) (some i) b t e =
      set-IsTable b.devices b.states (with_key key state) key i refl t e
  at_index-IsTable (replace key device) none b t e = t
  at_index-IsTable (replace key device) (some i) b t e =
      set_device-IsTable b.devices b.states device i t

  intended-path :
      (changes : List (Change B)) (f g : Text → Option (B × VirtualBattery)) (k : Text)
      → f ≡ g
      → intended changes f k ≡ intended changes g k
  intended-path changes f g k e = ap (λ h. intended changes h k) e

  perform-view :
      (changes : List (Change B)) (b : Batteries B) (k : Text)
      → IsTable b.devices b.states
      → view (perform changes b) k ≡ intended changes (view b) k
  unfolding perform intended
  perform-view [] b k t = refl
  perform-view (change ∷ changes) b k t =
      let o = position b (key_of change) in
      perform-view changes (at_index change o b) k (at_index-IsTable change o b t refl)
      ∙ intended-path changes _ _ k (fun_ext (λ key. at_index-view change o b key t refl))

  -- Whatever is done to the table from its beginning on, by the index of a key's first record, has
  -- the effect that it is meant to have on a map from keys to devices and records.
  pub view-perform :
      (changes : List (Change B)) (key : Text)
      → view (perform changes empty) key ≡ intended changes (λ k. none) key
  unfolding empty view view_in
  view-perform changes key = perform-view changes empty key tt
