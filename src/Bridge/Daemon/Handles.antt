-- ===== src/Bridge/Daemon/Handles.antt =====
-- The handles of `/dev/uhid`: each is spare in the pool or held by a device.
pub mod Devices
pub mod Inherited
pub mod Poll
use headset_battery_indicato.Prelude.{
  ℕ, zero, suc, ◌+◌, ◌≤◌, ◌<◌, ◌≡◌, refl, ap, ◌∙◌, inl, inr, Bool, true, false, ◌||◌, Option, none,
  some, List, [], ◌∷◌, ◌++◌, arith, Text, if◌then◌else◌, get_elem?, remove_at, length, length-set,
  length-append, length-remove_at, Bool-cases, Option-cases, ltb, leb,
}
use headset_battery_indicato.Prelude.Assoc.{text_key, insert, lookup, contains}
use headset_battery_indicato.Time.{Duration, Instant, duration_since}
use headset_battery_indicato.Headset.{Headset, key}
use headset_battery_indicato.Bridge.Policy.{Reading, Withdrawal, keep, silent, missing}
use headset_battery_indicato.Bridge.Batteries.{
  VirtualBattery, Batteries, push, set_state, set_device, len, position,
}
use headset_battery_indicato.Bridge.Batteries
use headset_battery_indicato.Bridge.Uhid.{
  UhidBattery, Uhid, Identity, Created, created, refused, Registration, listed, unlisted, failed,
  release, DevicePool, device_pool, acquire_from, acquire_handle, put_back_handle,
}
use headset_battery_indicato.Bridge.Daemon.{
  Bridge, Summary, announce, summary_of, disconnect_settle, registration_timeout,
}
use headset_battery_indicato.Bridge.Daemon.Devices.{
  Daemon, Attached, attached, retry, give_up, registered, creation, acquired, attach, withdraw,
  outcome, outcome_of, grace, advance, expire_turn, expire_from, expire, identity_of,
}
use headset_battery_indicato.Bridge.Daemon.Apply.{
  gone_noted, get_or_insert, switched_off, gone_at, seen_at, listed_again, after_attach, appear,
  pending_until, settled_level, pushed, vetted_push, refreshed, refresh, publishing, apply,
  apply_all, note_all, take_probe, Probed, found, failure, tick, Narrowed, publish, nothing, gone,
}

abbrev pub taken : {A : Type 0} → Option A → ℕ
taken none = 0
taken (some a) = 1

-- What a pool of handles may promise: it counts those it holds, and parts with none but to hand it out.
pub record Ledger (k : UhidBattery) (u : Uhid k) : Type 0 where
  pub held : u.Pool → ℕ
  pub held-acquire :
      (pool : u.Pool) → held pool ≤ held (u.acquire pool).0 + taken (u.acquire pool).1
  pub held-put_back :
      (pool : u.Pool) (handle : k.Handle) → held (u.put_back pool handle) ≡ held pool + 1
  pub held-create :
      (pool : u.Pool) (handle : k.Handle) (identity : Identity) (reading : Reading)
      → held (u.create pool handle identity reading).0 ≡ held pool
  pub held-wait :
      (pool : u.Pool) (device : k.Battery) (timeout : Duration)
      → held (u.wait_for_power_supply pool device timeout).0 ≡ held pool

-- The handles that are out once the pool was asked for one more.
abbrev pub lent : {A : Type 0} → Option A → ℕ → ℕ
lent none out = out
lent (some a) out = suc out

lent-eq-add : {A : Type 0} (o : Option A) (out : ℕ) → lent o out ≡ taken o + out
lent-eq-add none out = omega arith
lent-eq-add (some a) out = omega arith

-- An account of the handles that are out of a pool, which each of its operations keeps.
pub record Account (k : UhidBattery) (u : Uhid k) : Type 1 where
  pub Owes : u.Pool → ℕ → Type 0
  pub owes-acquire :
      (pool : u.Pool) (out : ℕ)
      → Owes pool out
      → Owes (u.acquire pool).0 (lent (u.acquire pool).1 out)
  pub owes-put_back :
      (pool : u.Pool) (handle : k.Handle) (out : ℕ)
      → Owes pool (suc out)
      → Owes (u.put_back pool handle) out
  pub owes-create :
      (pool : u.Pool) (handle : k.Handle) (identity : Identity) (reading : Reading) (out : ℕ)
      → Owes pool out
      → Owes (u.create pool handle identity reading).0 out
  pub owes-wait :
      (pool : u.Pool) (device : k.Battery) (timeout : Duration) (out : ℕ)
      → Owes pool out
      → Owes (u.wait_for_power_supply pool device timeout).0 out

module _ (k : UhidBattery) where
  held-acquire_from :
      (spare : List k.Handle) (pool : DevicePool k.Handle)
      → length spare
        ≤ length (acquire_from k spare pool).0.spare + taken (acquire_from k spare pool).1
  unfolding acquire_from
  held-acquire_from [] pool = omega arith
  held-acquire_from (handle ∷ rest) pool = omega arith

  pub held-acquire_handle :
      (pool : DevicePool k.Handle)
      → length pool.spare ≤ length (acquire_handle k pool).0.spare + taken (acquire_handle k pool).1
  unfolding acquire_handle
  held-acquire_handle pool = held-acquire_from pool.spare pool

  pub held-put_back_handle :
      (pool : DevicePool k.Handle) (handle : k.Handle)
      → length (put_back_handle k pool handle).spare ≡ length pool.spare + 1
  unfolding put_back_handle
  held-put_back_handle pool handle = omega arith

  -- The program's own pool.
  abbrev pub device_ledger : Ledger k (device_pool k)
  device_ledger = record {
    held = λ pool. length pool.spare;
    held-acquire = held-acquire_handle;
    held-put_back = held-put_back_handle;
    held-create = λ pool handle identity reading. refl;
    held-wait = λ pool device timeout. refl;
  }

  -- With handles that it was given it opens none itself: those in it and those that are out stay as
  -- many as they were.
  abbrev pub AreKept : ℕ → DevicePool k.Handle → ℕ → Type 0
  AreKept total pool out = (pool.may_open ≡ false) × (length pool.spare + out ≡ total)

  acquire_from-AreKept :
      (total : ℕ) (spare : List k.Handle) (pool : DevicePool k.Handle) (out : ℕ)
      → pool.may_open ≡ false
      → length spare + out ≡ total
      → pool.spare ≡ spare
      → AreKept total (acquire_from k spare pool).0 (lent (acquire_from k spare pool).1 out)
  unfolding acquire_from
  acquire_from-AreKept total [] pool out closed sum e = (closed, rw closed (rw e sum))
  acquire_from-AreKept total (handle ∷ rest) pool out closed sum e = (closed, omega arith)

  pub acquire_handle-AreKept :
      (total : ℕ) (pool : DevicePool k.Handle) (out : ℕ)
      → AreKept total pool out
      → AreKept total (acquire_handle k pool).0 (lent (acquire_handle k pool).1 out)
  unfolding acquire_handle
  acquire_handle-AreKept total pool out h =
      acquire_from-AreKept total pool.spare pool out h.0 h.1 refl

  pub put_back_handle-AreKept :
      (total : ℕ) (pool : DevicePool k.Handle) (handle : k.Handle) (out : ℕ)
      → AreKept total pool (suc out)
      → AreKept total (put_back_handle k pool handle) out
  unfolding put_back_handle
  put_back_handle-AreKept total pool handle out h = (h.0, omega (arith, h.1))

  abbrev pub kept_account : ℕ → Account k (device_pool k)
  kept_account total = record {
    Owes = AreKept total;
    owes-acquire = acquire_handle-AreKept total;
    owes-put_back = put_back_handle-AreKept total;
    owes-create = λ pool handle identity reading out h. h;
    owes-wait = λ pool device timeout out h. h;
  }

module _ (k : UhidBattery) (u : Uhid k) (l : Ledger k u) where
  -- The handles in the pool, and those that devices hold.
  abbrev pub handles : Daemon k u → ℕ
  handles br = l.held br.uhid + length br.batteries.devices

  pub no_fewer-acquire :
      (total : ℕ) (pool : u.Pool) (out : ℕ)
      → total ≤ l.held pool + out
      → total ≤ l.held (u.acquire pool).0 + lent (u.acquire pool).1 out
  no_fewer-acquire total pool out h =
      omega (arith, l.held-acquire pool, lent-eq-add (u.acquire pool).1 out)

  pub no_fewer-put_back :
      (total : ℕ) (pool : u.Pool) (handle : k.Handle) (out : ℕ)
      → total ≤ l.held pool + suc out
      → total ≤ l.held (u.put_back pool handle) + out
  no_fewer-put_back total pool handle out h = omega (arith, l.held-put_back pool handle)

  pub no_fewer-create :
      (total : ℕ) (pool : u.Pool) (handle : k.Handle) (identity : Identity) (reading : Reading)
      (out : ℕ)
      → total ≤ l.held pool + out
      → total ≤ l.held (u.create pool handle identity reading).0 + out
  no_fewer-create total pool handle identity reading out h =
      omega (arith, l.held-create pool handle identity reading)

  pub no_fewer-wait :
      (total : ℕ) (pool : u.Pool) (device : k.Battery) (timeout : Duration) (out : ℕ)
      → total ≤ l.held pool + out
      → total ≤ l.held (u.wait_for_power_supply pool device timeout).0 + out
  no_fewer-wait total pool device timeout out h = omega (arith, l.held-wait pool device timeout)

  -- The account of a pool that loses none.
  abbrev pub no_fewer : ℕ → Account k u
  no_fewer total = record {
    Owes = λ pool out. total ≤ l.held pool + out;
    owes-acquire = no_fewer-acquire total;
    owes-put_back = no_fewer-put_back total;
    owes-create = no_fewer-create total;
    owes-wait = no_fewer-wait total;
  }
