-- ===== src/Bridge/Batteries/Rows.antt =====
-- The two lists of the table of src/bridge/batteries.rs as a map from keys.
use headset_battery_indicato.Prelude.{
  ℕ, zero, suc, ◌≡◌, refl, sym, ◌∙◌, inl, inr, true, false, Option, none, some, List, [], ◌∷◌, ◌++◌,
  arith, Text, text_eq, text_eq_iff, if◌then◌else◌, set, remove_at, Bool-cases, All-set,
}
use headset_battery_indicato.Bridge.Batteries.{VirtualBattery, position_in}
use headset_battery_indicato.Bridge.Batteries.Keys.{
  Lacks, Lacks-position_in, Lacks-remove_at, Lacks-append, text_eq_comm,
}
use headset_battery_indicato.Bridge.Batteries.View.{view_in}

nowhere : (key : Text) (i : ℕ) → position_in key [] ≡ some i → ⊥
unfolding position_in
nowhere key i e = cc

head_key :
    (key : Text) (s : VirtualBattery) (ss : List VirtualBattery)
    → position_in key (s ∷ ss) ≡ some 0
    → s.key ≡ key
unfolding position_in
head_key key s ss e = ground (arith, text_eq_iff s.key key, e)

tail_position :
    (key : Text) (s : VirtualBattery) (ss : List VirtualBattery) (i : ℕ)
    → position_in key (s ∷ ss) ≡ some (suc i)
    → (text_eq s.key key ≡ false) × (position_in key ss ≡ some i)
unfolding position_in
tail_position key s ss i e = (ground arith, ground arith)

other_key : (a b k : Text) → a ≡ b → text_eq b k ≡ false → text_eq a k ≡ false
other_key a b k e h = rw e h

Lacks-path : (a b : Text) (ss : List VirtualBattery) → a ≡ b → Lacks a ss → Lacks b ss
Lacks-path a b ss p l = rw (← p) l

module _ {B : Type 0} where
  -- The lists go together, and the keys differ.
  abbrev pub IsTable : List B → List VirtualBattery → Type 0
  IsTable [] [] = Unit
  IsTable [] (s ∷ ss) = ⊥
  IsTable (d ∷ ds) [] = ⊥
  IsTable (d ∷ ds) (s ∷ ss) = Lacks s.key ss × IsTable ds ss

  view_in-Lacks :
      (ds : List B) (ss : List VirtualBattery) (key : Text)
      → Lacks key ss
      → view_in ds ss key ≡ none
  unfolding view_in
  view_in-Lacks [] ss key l = refl
  view_in-Lacks (d ∷ ds) [] key l = refl
  view_in-Lacks (d ∷ ds) (s ∷ ss) key l = rw l.0 (view_in-Lacks ds ss key l.1)

  -- Whether a state has the key, and the rest.
  pub view_in-push :
      (ds : List B) (ss : List VirtualBattery) (device : B) (state : VirtualBattery) (k : Text)
      → IsTable ds ss
      → Lacks state.key ss
      → view_in (ds ++ device ∷ []) (ss ++ state ∷ []) k
        ≡ (if text_eq state.key k then some (device, state) else view_in ds ss k)
  unfolding view_in
  view_in-push [] [] device state k t l = refl
  view_in-push [] (s ∷ ss) device state k t l = elim t [ ]
  view_in-push (d ∷ ds) [] device state k t l = elim t [ ]
  view_in-push (d ∷ ds) (s ∷ ss) device state k t l = ground (
    arith,
    view_in-push ds ss device state k t.1 l.1,
    text_eq_iff s.key k,
    text_eq_iff state.key k,
    text_eq_iff s.key state.key,
  )

  pub view_in-remove_at :
      (ds : List B) (ss : List VirtualBattery) (key k : Text) (i : ℕ)
      → IsTable ds ss
      → position_in key ss ≡ some i
      → view_in (remove_at ds i) (remove_at ss i) k
        ≡ (if text_eq key k then none else view_in ds ss k)
  unfolding view_in
  view_in-remove_at [] ss key k i t e = ground arith
  view_in-remove_at (d ∷ ds) [] key k i t e = elim t [ ]
  view_in-remove_at (d ∷ ds) (s ∷ ss) key k zero t e = elim (Bool-cases (text_eq key k)) [
    | inl same ↦
        let path : s.key ≡ k = head_key key s ss e ∙ (text_eq_iff key k).0 same in
        rw same (view_in-Lacks ds ss k (Lacks-path s.key k ss path t.0))
    | inr different ↦ rw (different, other_key s.key key k (head_key key s ss e) different)
  ]
  view_in-remove_at (d ∷ ds) (s ∷ ss) key k (suc i) t e = ground (
    arith,
    view_in-remove_at ds ss key k i t.1,
    tail_position key s ss i e,
    text_eq_iff s.key k,
    text_eq_iff key k,
    text_eq_iff s.key key,
  )

  abbrev pub restated : VirtualBattery → Option (B × VirtualBattery) → Option (B × VirtualBattery)
  restated new none = none
  restated new (some (device, old)) = some (device, new)

  abbrev pub replaced : B → Option (B × VirtualBattery) → Option (B × VirtualBattery)
  replaced device none = none
  replaced device (some (old, state)) = some (device, state)

  pub view_in-set :
      (ds : List B) (ss : List VirtualBattery) (new : VirtualBattery) (key k : Text) (i : ℕ)
      → new.key ≡ key
      → IsTable ds ss
      → position_in key ss ≡ some i
      → view_in ds (set ss i new) k
        ≡ (if text_eq key k then restated new (view_in ds ss k) else view_in ds ss k)
  unfolding view_in
  view_in-set [] ss new key k i n t e = ground arith
  view_in-set (d ∷ ds) [] new key k i n t e = elim t [ ]
  view_in-set (d ∷ ds) (s ∷ ss) new key k zero n t e =
      ground
        (arith, head_key key s ss e, text_eq_iff s.key k, text_eq_iff key k, text_eq_iff new.key k)
  view_in-set (d ∷ ds) (s ∷ ss) new key k (suc i) n t e = ground (
    arith,
    view_in-set ds ss new key k i n t.1,
    tail_position key s ss i e,
    text_eq_iff s.key k,
    text_eq_iff key k,
    text_eq_iff s.key key,
  )

  pub view_in-set_device :
      (ds : List B) (ss : List VirtualBattery) (device : B) (key k : Text) (i : ℕ)
      → IsTable ds ss
      → position_in key ss ≡ some i
      → view_in (set ds i device) ss k
        ≡ (if text_eq key k then replaced device (view_in ds ss k) else view_in ds ss k)
  unfolding view_in
  view_in-set_device [] ss device key k i t e = ground arith
  view_in-set_device (d ∷ ds) [] device key k i t e = elim t [ ]
  view_in-set_device (d ∷ ds) (s ∷ ss) device key k zero t e =
      ground (arith, head_key key s ss e, text_eq_iff s.key k, text_eq_iff key k)
  view_in-set_device (d ∷ ds) (s ∷ ss) device key k (suc i) t e = ground (
    arith,
    view_in-set_device ds ss device key k i t.1,
    tail_position key s ss i e,
    text_eq_iff s.key k,
    text_eq_iff key k,
    text_eq_iff s.key key,
  )

  pub push-IsTable :
      (ds : List B) (ss : List VirtualBattery) (device : B) (state : VirtualBattery)
      → IsTable ds ss
      → Lacks state.key ss
      → IsTable (ds ++ device ∷ []) (ss ++ state ∷ [])
  push-IsTable [] [] device state t l = (tt, tt)
  push-IsTable [] (s ∷ ss) device state t l = elim t [ ]
  push-IsTable (d ∷ ds) [] device state t l = elim t [ ]
  push-IsTable (d ∷ ds) (s ∷ ss) device state t l = (
    Lacks-append s.key ss state t.0 (text_eq_comm s.key state.key l.0),
    push-IsTable ds ss device state t.1 l.1,
  )

  pub remove_at-IsTable :
      (ds : List B) (ss : List VirtualBattery) (i : ℕ)
      → IsTable ds ss
      → IsTable (remove_at ds i) (remove_at ss i)
  remove_at-IsTable [] [] i t = tt
  remove_at-IsTable [] (s ∷ ss) i t = elim t [ ]
  remove_at-IsTable (d ∷ ds) [] i t = elim t [ ]
  remove_at-IsTable (d ∷ ds) (s ∷ ss) zero t = t.1
  remove_at-IsTable (d ∷ ds) (s ∷ ss) (suc i) t =
      (Lacks-remove_at s.key ss i t.0, remove_at-IsTable ds ss i t.1)

  pub set-IsTable :
      (ds : List B) (ss : List VirtualBattery) (new : VirtualBattery) (key : Text) (i : ℕ)
      → new.key ≡ key
      → IsTable ds ss
      → position_in key ss ≡ some i
      → IsTable ds (set ss i new)
  set-IsTable [] [] new key i n t e = tt
  set-IsTable [] (s ∷ ss) new key i n t e = elim t [ ]
  set-IsTable (d ∷ ds) [] new key i n t e = elim t [ ]
  set-IsTable (d ∷ ds) (s ∷ ss) new key zero n t e =
      (Lacks-path s.key new.key ss (head_key key s ss e ∙ sym n) t.0, t.1)
  set-IsTable (d ∷ ds) (s ∷ ss) new key (suc i) n t e =
      let (other, there) = tail_position key s ss i e in
      (
        All-set _ ss i new t.0 (other_key new.key key s.key n (text_eq_comm s.key key other)),
        set-IsTable ds ss new key i n t.1 there,
      )

  pub set_device-IsTable :
      (ds : List B) (ss : List VirtualBattery) (device : B) (i : ℕ)
      → IsTable ds ss
      → IsTable (set ds i device) ss
  set_device-IsTable [] ss device i t = t
  set_device-IsTable (d ∷ ds) [] device i t = elim t [ ]
  set_device-IsTable (d ∷ ds) (s ∷ ss) device zero t = t
  set_device-IsTable (d ∷ ds) (s ∷ ss) device (suc i) t =
      (t.0, set_device-IsTable ds ss device i t.1)

  pub view_in-missing :
      (ds : List B) (ss : List VirtualBattery) (key k : Text)
      → position_in key ss ≡ none
      → text_eq key k ≡ true
      → view_in ds ss k ≡ none
  view_in-missing ds ss key k e same =
      view_in-Lacks ds ss k
        (Lacks-path key k ss ((text_eq_iff key k).0 same) (Lacks-position_in key ss e))

  pub view_in-found :
      (ds : List B) (ss : List VirtualBattery) (key k : Text) (i : ℕ)
      → IsTable ds ss
      → position_in key ss ≡ some i
      → text_eq key k ≡ true
      → (entry_there : B × VirtualBattery) × (view_in ds ss k ≡ some entry_there)
  unfolding view_in
  view_in-found [] [] key k i t e same = absurd (nowhere key i e)
  view_in-found [] (s ∷ ss) key k i t e same = elim t [ ]
  view_in-found (d ∷ ds) [] key k i t e same = elim t [ ]
  view_in-found (d ∷ ds) (s ∷ ss) key k zero t e same =
      let here : text_eq s.key k ≡ true = rw (head_key key s ss e) same in ((d, s), rw here)
  view_in-found (d ∷ ds) (s ∷ ss) key k (suc i) t e same =
      let (other, there) = tail_position key s ss i e in
      let (found, f) = view_in-found ds ss key k i t.1 there same in
      let elsewhere : text_eq s.key k ≡ false = rw (← (text_eq_iff key k).0 same) other in
      (found, rw elsewhere f)
