-- ===== src/Bridge/Uhid.antt =====
-- The uhid side of src/bridge/mod.rs: the trait `Uhid`, and the pool of handles that implements it.
-- The `uhid-battery` crate is a parameter.
use headset_battery_indicato.Prelude.{
  ℕ, Bool, Option, none, some, List, [], ◌∷◌, Text, if◌then◌else◌, is_empty_list,
}
use headset_battery_indicato.Time.{Duration}
use headset_battery_indicato.Bridge.Policy.{Reading}

-- What `attach` tells the kernel of a headset (`uhid_battery::Identity`).
pub record Identity : Type 0 where
  pub name : Text
  pub uniq : Text
  pub phys : Text
  pub vendor : ℕ
  pub product : ℕ

-- The result of `Battery::create`: a refusal hands the handle back, and says whether it was the
-- identity that was refused.
pub data Created (B H : Type 0) : Type 0 where
  created : B → Created B H
  refused : Bool → H → Created B H

-- The result of `wait_for_power_supply`: listed, not listed in time, or failed.
pub data Registration : Type 0 where
  listed unlisted failed : Registration

-- The types and functions of `uhid-battery` that the bridge is written over. A battery changes as it
-- is talked to.
pub record UhidBattery : Type 1 where
  pub Battery : Type 0
  pub Handle : Type 0
  pub new_reading : ℕ → Bool → Reading
  pub reading : Battery → Reading
  pub update : Battery → Reading → Battery × Bool
  pub destroy : Battery → Handle
  pub open_handle : Text → Option Handle
  pub create_battery : Handle → Identity → Reading → Created Battery Handle
  pub registered : Battery → Duration → Battery × Registration

-- `trait Uhid`, its implementor's state being `Pool`.
pub record Uhid (k : UhidBattery) : Type 1 where
  pub Pool : Type 0
  pub acquire : Pool → Pool × Option k.Handle
  pub put_back : Pool → k.Handle → Pool
  pub create : Pool → k.Handle → Identity → Reading → Pool × Created k.Battery k.Handle
  pub wait_for_power_supply : Pool → k.Battery → Duration → Pool × k.Battery × Registration

-- The trait's provided method.
unfoldable pub release : (k : UhidBattery) (u : Uhid k) → u.Pool → k.Battery → u.Pool
release k u pool battery = u.put_back pool (k.destroy battery)

pub record DevicePool (H : Type 0) : Type 0 where
  pub spare : List H
  pub path : Text
  pub may_open : Bool

unfoldable pub new_pool : {H : Type 0} → List H → Text → DevicePool H
new_pool inherited path = record {
  spare = inherited;
  path = path;
  may_open = is_empty_list inherited;
}

module _ (k : UhidBattery) where
  unfoldable pub acquire_from :
      List k.Handle → DevicePool k.Handle → DevicePool k.Handle × Option k.Handle
  acquire_from (handle ∷ rest) pool = (record pool { spare = rest }, some handle)
  acquire_from [] pool = (pool, if pool.may_open then k.open_handle pool.path else none)

  -- The head of the list is the end of the vector.
  unfoldable pub acquire_handle : DevicePool k.Handle → DevicePool k.Handle × Option k.Handle
  unfolding acquire_from
  acquire_handle pool = acquire_from pool.spare pool

  unfoldable pub put_back_handle : DevicePool k.Handle → k.Handle → DevicePool k.Handle
  put_back_handle pool handle = record pool { spare = handle ∷ pool.spare }

  abbrev pub device_pool : Uhid k
  device_pool = record {
    Pool = DevicePool k.Handle;
    acquire = acquire_handle;
    put_back = put_back_handle;
    create = λ pool handle identity reading. (pool, k.create_battery handle identity reading);
    wait_for_power_supply = λ pool battery timeout.
        let (battery', r) = k.registered battery timeout in (pool, battery', r);
  }
