-- ===== src/Bridge/Batteries/Keys.antt =====
-- What the bookkeeping of the virtual batteries says of their keys and failures, and the changes of
-- the list that keep it.
use headset_battery_indicato.Prelude.{
  ℕ, zero, suc, ◌<◌, ◌≡◌, sym, inl, inr, false, none, some, List, [], ◌∷◌, ◌++◌, arith, Text,
  text_eq, text_eq_iff, get_elem?, set, remove_at, All, map, Bool-cases,
}
use headset_battery_indicato.Prelude.Assoc.{text_key, contains}
use headset_battery_indicato.Bridge.Batteries.{VirtualBattery, position_in}

-- No battery of the list has the key.
abbrev pub Lacks : Text → List VirtualBattery → Type 0
Lacks key = All (λ s. text_eq s.key key ≡ false)

-- The keys differ, none of them was given up on, and each device has failed less than three times
-- in a row.
abbrev pub IsSound : List Text → List VirtualBattery → Type 0
IsSound abandoned [] = Unit {0}
IsSound abandoned (s ∷ states) =
    (s.failures < 3)
    × (contains s.key abandoned ≡ false)
    × Lacks s.key states
    × IsSound abandoned states

pub Lacks-position_in :
    (key : Text) (states : List VirtualBattery) → position_in key states ≡ none → Lacks key states
unfolding position_in
Lacks-position_in key [] e = tt
Lacks-position_in key (s ∷ states) e = (ground arith, Lacks-position_in key states (ground arith))

pub Lacks-remove_at :
    (key : Text) (states : List VirtualBattery) (i : ℕ)
    → Lacks key states
    → Lacks key (remove_at states i)
Lacks-remove_at key [] i l = l
Lacks-remove_at key (s ∷ states) zero l = l.1
Lacks-remove_at key (s ∷ states) (suc i) l = (l.0, Lacks-remove_at key states i l.1)

module _ (abandoned : List Text) where
  pub IsSound-remove_at :
      (states : List VirtualBattery) (i : ℕ)
      → IsSound abandoned states
      → IsSound abandoned (remove_at states i)
  IsSound-remove_at [] i h = h
  IsSound-remove_at (s ∷ states) zero h = h.3
  IsSound-remove_at (s ∷ states) (suc i) h =
      (h.0, h.1, Lacks-remove_at s.key states i h.2, IsSound-remove_at states i h.3)

pub Lacks-set :
    (key : Text) (states : List VirtualBattery) (i : ℕ) (old new : VirtualBattery)
    → get_elem? states i ≡ some old
    → new.key ≡ old.key
    → Lacks key states
    → Lacks key (set states i new)
Lacks-set key [] i old new g e l = l
Lacks-set key (s ∷ states) zero old new g e l = (ground arith, l.1)
Lacks-set key (s ∷ states) (suc i) old new g e l = (l.0, Lacks-set key states i old new g e l.1)

module _ (abandoned : List Text) where
  pub IsSound-set :
      (states : List VirtualBattery) (i : ℕ) (old new : VirtualBattery)
      → get_elem? states i ≡ some old
      → new.key ≡ old.key
      → new.failures < 3
      → IsSound abandoned states
      → IsSound abandoned (set states i new)
  IsSound-set [] i old new g e f h = h
  IsSound-set (s ∷ states) zero old new g e f h =
      let same : new.key ≡ s.key = ground arith in (f, rw same h.1, rw same h.2, h.3)
  IsSound-set (s ∷ states) (suc i) old new g e f h =
      (h.0, h.1, Lacks-set s.key states i old new g e h.2, IsSound-set states i old new g e f h.3)

  pub failures-get_elem? :
      (states : List VirtualBattery) (i : ℕ) (s : VirtualBattery)
      → IsSound abandoned states
      → get_elem? states i ≡ some s
      → s.failures < 3
  failures-get_elem? [] i s h e = cc
  failures-get_elem? (x ∷ states) zero s h e = ground arith
  failures-get_elem? (x ∷ states) (suc i) s h e = failures-get_elem? states i s h.3 e

pub text_eq_comm : (a b : Text) → text_eq a b ≡ false → text_eq b a ≡ false
text_eq_comm a b e = elim (Bool-cases (text_eq b a)) [
  | inl h ↦ cc (e, (text_eq_iff a b).1 (sym ((text_eq_iff b a).0 h)))
  | inr h ↦ h
]

pub Lacks-append :
    (key : Text) (states : List VirtualBattery) (s : VirtualBattery)
    → Lacks key states
    → text_eq s.key key ≡ false
    → Lacks key (states ++ s ∷ [])
Lacks-append key [] s l e = (e, tt)
Lacks-append key (x ∷ states) s l e = (l.0, Lacks-append key states s l.1 e)

module _ (abandoned : List Text) where
  pub IsSound-append :
      (states : List VirtualBattery) (s : VirtualBattery)
      → s.failures < 3
      → contains s.key abandoned ≡ false
      → Lacks s.key states
      → IsSound abandoned states
      → IsSound abandoned (states ++ s ∷ [])
  IsSound-append [] s f c l h = (f, c, tt, tt)
  IsSound-append (x ∷ states) s f c l h = (
    h.0,
    h.1,
    Lacks-append x.key states s h.2 (text_eq_comm x.key s.key l.0),
    IsSound-append states s f c l.1 h.3,
  )

  pub IsSound-abandon :
      (key : Text) (states : List VirtualBattery)
      → Lacks key states
      → IsSound abandoned states
      → IsSound (key ∷ abandoned) states
  unfolding contains
  IsSound-abandon key [] l h = tt
  IsSound-abandon key (x ∷ states) l h =
      (h.0, ground (arith, text_eq_comm x.key key l.0), h.2, IsSound-abandon key states l.1 h.3)

-- A change of every battery that leaves the keys and the failures alone.
module _ (f : VirtualBattery → VirtualBattery) (same_key : (s : VirtualBattery) → (f s).key ≡ s.key)
    (same_failures : (s : VirtualBattery) → (f s).failures ≡ s.failures) where
  Lacks-map :
      (key : Text) (states : List VirtualBattery) → Lacks key states → Lacks key (map f states)
  Lacks-map key [] l = tt
  Lacks-map key (x ∷ states) l = (rw (same_key x) l.0, Lacks-map key states l.1)

  pub IsSound-map :
      (abandoned : List Text) (states : List VirtualBattery)
      → IsSound abandoned states
      → IsSound abandoned (map f states)
  IsSound-map abandoned [] h = tt
  IsSound-map abandoned (x ∷ states) h = (
    rw (same_failures x) h.0,
    rw (same_key x) h.1,
    rw (same_key x) (Lacks-map x.key states h.2),
    IsSound-map abandoned states h.3,
  )
