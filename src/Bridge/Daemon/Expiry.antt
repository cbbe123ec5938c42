-- ===== src/Bridge/Daemon/Expiry.antt =====
-- `Bridge::expire` against a filter: the loop that removes by index takes out the batteries that
-- outlived their grace and no other, each once, and their devices with them.
use headset_battery_indicato.Prelude.{
  ℕ, suc, ◌≡◌, refl, sym, ap, ◌∙◌, inl, inr, Bool, true, false, some, List, [], ◌∷◌, ◌++◌, arith,
  if◌then◌else◌, get_elem?, remove_at, length, Bool-cases,
}
use headset_battery_indicato.Time.{Instant}
use headset_battery_indicato.Bridge.Policy.{Config, Withdrawal, keep, silent, missing}
use headset_battery_indicato.Bridge.Batteries.{VirtualBattery, Batteries, len}
use headset_battery_indicato.Bridge.Batteries
use headset_battery_indicato.Bridge.Uhid.{UhidBattery, Uhid, release}
use headset_battery_indicato.Bridge.Daemon.Devices.{
  Daemon, grace, withdraw, advance, expire_turn, expire_from, expire,
}

abbrev pub is_keep : Withdrawal → Bool
is_keep keep = true
is_keep silent = false
is_keep missing = false

-- Whether a battery is within its grace.
abbrev pub stays : Config → Instant → VirtualBattery → Bool
stays config now battery = is_keep (grace config now battery)

abbrev pub staying : (VirtualBattery → Bool) → List VirtualBattery → List VirtualBattery
staying p [] = []
staying p (s ∷ states) = let rest = staying p states in if p s then s ∷ rest else rest

-- The devices of those that stay.
abbrev pub staying_devices :
    {B : Type 0} → (VirtualBattery → Bool) → List VirtualBattery → List B → List B
staying_devices p [] devices = []
staying_devices p (s ∷ states) [] = []
staying_devices p (s ∷ states) (d ∷ devices) =
    let rest = staying_devices p states devices in if p s then d ∷ rest else rest

get_elem?-middle :
    {A : Type 0} (before : List A) (a : A) (after : List A)
    → get_elem? (before ++ a ∷ after) (length before) ≡ some a
get_elem?-middle [] a after = refl
get_elem?-middle (b ∷ before) a after = get_elem?-middle before a after

remove_at-middle :
    {A : Type 0} (before : List A) (a : A) (after : List A)
    → remove_at (before ++ a ∷ after) (length before) ≡ before ++ after
remove_at-middle [] a after = refl
remove_at-middle (b ∷ before) a after = ap (◌∷◌ b) (remove_at-middle before a after)

snoc-append :
    {A : Type 0} (before : List A) (a : A) (after : List A)
    → (before ++ a ∷ []) ++ after ≡ before ++ a ∷ after
snoc-append [] a after = refl
snoc-append (b ∷ before) a after = ap (◌∷◌ b) (snoc-append before a after)

length-snoc :
    {A : Type 0} (before : List A) (a : A) → length (before ++ a ∷ []) ≡ suc (length before)
length-snoc [] a = refl
length-snoc (b ∷ before) a = ap suc (length-snoc before a)

append-nil : {A : Type 0} (xs : List A) → xs ++ [] ≡ xs
append-nil [] = refl
append-nil (x ∷ xs) = ap (◌∷◌ x) (append-nil xs)

module _ (k : UhidBattery) (u : Uhid k) where
  -- The pool once the devices of those that go are destroyed.
  abbrev pub given_back :
      (VirtualBattery → Bool) → List VirtualBattery → List k.Battery → u.Pool → u.Pool
  given_back p [] devices pool = pool
  given_back p (s ∷ states) [] pool = pool
  given_back p (s ∷ states) (d ∷ devices) pool =
      given_back p states devices (if p s then pool else release k u pool d)

  -- The daemon with other batteries and another pool.
  abbrev pub holding : Daemon k u → u.Pool → List k.Battery → List VirtualBattery → Daemon k u
  holding br pool devices states = record br {
    uhid = pool;
    batteries = record { devices = devices; states = states };
  }

  withdraw-middle :
      (br : Daemon k u) (pool : u.Pool) (dpre drest : List k.Battery) (d : k.Battery)
      (pre rest : List VirtualBattery) (s : VirtualBattery)
      → length dpre ≡ length pre
      → withdraw k u (holding br pool (dpre ++ d ∷ drest) (pre ++ s ∷ rest)) (length pre)
        ≡ holding br (release k u pool d) (dpre ++ drest) (pre ++ rest)
  unfolding withdraw Batteries.remove
  withdraw-middle br pool dpre drest d pre rest s e =
      let device : get_elem? (dpre ++ d ∷ drest) (length pre) ≡ some d =
        rw (← e) (get_elem?-middle dpre d drest) in
      let devices : remove_at (dpre ++ d ∷ drest) (length pre) ≡ dpre ++ drest =
        rw (← e) (remove_at-middle dpre d drest) in
      rw (device, devices, remove_at-middle pre s rest, withdraw) refl

  advance-middle :
      (w : Withdrawal) (br : Daemon k u) (pool : u.Pool) (dpre drest : List k.Battery)
      (d : k.Battery) (pre rest : List VirtualBattery) (s : VirtualBattery)
      → length dpre ≡ length pre
      → advance k u w (length pre) (holding br pool (dpre ++ d ∷ drest) (pre ++ s ∷ rest)) ≡ (
          if is_keep w
          then (suc (length pre), holding br pool (dpre ++ d ∷ drest) (pre ++ s ∷ rest))
          else (length pre, holding br (release k u pool d) (dpre ++ drest) (pre ++ rest)))
  unfolding advance
  advance-middle keep br pool dpre drest d pre rest s e = refl
  advance-middle silent br pool dpre drest d pre rest s e =
      ap (λ after. (length pre, after)) (withdraw-middle br pool dpre drest d pre rest s e)
  advance-middle missing br pool dpre drest d pre rest s e =
      ap (λ after. (length pre, after)) (withdraw-middle br pool dpre drest d pre rest s e)

  turn-middle :
      (br : Daemon k u) (now : Instant) (pool : u.Pool) (dpre drest : List k.Battery)
      (d : k.Battery) (pre rest : List VirtualBattery) (s : VirtualBattery)
      → length dpre ≡ length pre
      → expire_turn k u
          (get_elem? (pre ++ s ∷ rest) (length pre))
          (length pre)
          (holding br pool (dpre ++ d ∷ drest) (pre ++ s ∷ rest))
          now
        ≡ (if stays br.config now s
            then (suc (length pre), holding br pool (dpre ++ d ∷ drest) (pre ++ s ∷ rest))
            else (length pre, holding br (release k u pool d) (dpre ++ drest) (pre ++ rest)))
  unfolding expire_turn
  turn-middle br now pool dpre drest d pre rest s e =
      rw (get_elem?-middle pre s rest)
        (advance-middle (grace br.config now s) br pool dpre drest d pre rest s e)

  expire_from-middle :
      (br : Daemon k u) (now : Instant) (rest : List VirtualBattery) (drest : List k.Battery)
      (pool : u.Pool) (dpre : List k.Battery) (pre : List VirtualBattery)
      → length dpre ≡ length pre
      → length drest ≡ length rest
      → expire_from k u
          (length rest)
          (length pre)
          (holding br pool (dpre ++ drest) (pre ++ rest))
          now
        ≡ holding br
            (given_back (stays br.config now) rest drest pool)
            (dpre ++ staying_devices (stays br.config now) rest drest)
            (pre ++ staying (stays br.config now) rest)
  unfolding expire_from
  expire_from-middle br now [] [] pool dpre pre e f = refl
  expire_from-middle br now [] (d ∷ drest) pool dpre pre e f = absurd (omega arith)
  expire_from-middle br now (s ∷ rest) [] pool dpre pre e f = absurd (omega arith)
  expire_from-middle br now (s ∷ rest) (d ∷ drest) pool dpre pre e f =
      ap (λ (t : ℕ × Daemon k u). expire_from k u (length rest) t.0 t.1 now)
        (turn-middle br now pool dpre drest d pre rest s e)
      ∙ elim (Bool-cases (stays br.config now s)) [
        | inl h ↦
            let p = stays br.config now in
            let ih =
              expire_from-middle br now rest drest pool (dpre ++ d ∷ []) (pre ++ s ∷ [])
                (length-snoc dpre d ∙ ap suc e ∙ sym (length-snoc pre s)) (omega arith) in
            rw h (
              rw
                (
                  length-snoc pre s,
                  snoc-append dpre d drest,
                  snoc-append pre s rest,
                  snoc-append dpre d (staying_devices p rest drest),
                  snoc-append pre s (staying p rest),
                )
                at ih)
        | inr h ↦
            rw h
              (expire_from-middle br now rest drest (release k u pool d) dpre pre e (omega arith))
      ]

  -- The loop of `expire`, which removes by index while it walks, leaves exactly the batteries within
  -- their grace, in their order, each beside its own device, and gives every other device back.
  pub expire-staying :
      (br : Daemon k u) (now : Instant)
      → length br.batteries.devices ≡ length br.batteries.states
      → expire k u br now ≡ record br {
        uhid = given_back (stays br.config now) br.batteries.states br.batteries.devices br.uhid;
        batteries = record {
          devices = staying_devices (stays br.config now) br.batteries.states br.batteries.devices;
          states = staying (stays br.config now) br.batteries.states;
        };
      }
  unfolding expire len
  expire-staying br now e =
      expire_from-middle br now br.batteries.states br.batteries.devices br.uhid [] [] refl e
