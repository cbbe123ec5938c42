-- ===== src/Maxwell/Discover.antt =====
-- src/maxwell/discover.rs: the dongles that sysfs lists, and the headset on a cable. The file
-- system, paths and the `hidraw` crate's listing are parameters; log lines are left out.
pub mod Nodes
mod Tests
use headset_battery_indicato.Prelude.{
  ℕ, Bool, true, false, not, ◌&&◌, Option, none, some, List, [], ◌∷◌, Text, codes, trim, ◌==◌,
  if◌then◌else◌, any, is_empty_list,
}
use headset_battery_indicato.Files.{Files, readable}
use headset_battery_indicato.HeadsetControl.{from_hex}
use headset_battery_indicato.Maxwell.Session.{Dongle}
use headset_battery_indicato.Maxwell.Reader.{vendor_id, product_ids, supports}

-- `hidraw::Node`
pub record Node : Type 0 where
  pub path : Text
  pub vendor : ℕ
  pub product : ℕ
  pub name : Text

pub data Bus : Type 0 where
  usb : Bus

-- `hidraw::Filter`, as the reader fills it in.
pub record Filter : Type 0 where
  pub bus : Bus
  pub vendor : ℕ

-- `hidraw::discover_in`: none when the directory cannot be listed.
abbrev pub Listing : Type 0
Listing = Text → Text → Filter → Option (List Node)

abbrev pub default_product : Text
default_product = codes "Audeze Maxwell"

module _ (f : Files) where
  abbrev pub hex_id : Option Text → Option ℕ
  unfolding from_hex trim
  hex_id none = none
  hex_id (some raw) = from_hex (trim raw)

  -- The closure `id`: a file of the entry, read as four hexadecimal digits.
  unfoldable pub id_of : Text → Text → Option ℕ
  unfolding hex_id
  id_of entry name = hex_id (f.read_to_string (f.join entry name))

  abbrev is_vendor : Option ℕ → Bool
  is_vendor none = false
  is_vendor (some vendor) = vendor == vendor_id

  abbrev is_no_dongle : Option ℕ → Bool
  is_no_dongle none = false
  is_no_dongle (some product) = not (any (λ id. product == id) product_ids)

  unfoldable pub is_wired : Text → Bool
  unfolding id_of
  is_wired entry =
      is_vendor (id_of entry (codes "idVendor")) && is_no_dongle (id_of entry (codes "idProduct"))

  abbrev wired_among : Text → Option (List (Option Text)) → Bool
  unfolding is_wired
  wired_among usb_devices none = false
  wired_among usb_devices (some entries) =
      any (λ name. is_wired (f.join usb_devices name)) (readable entries)

  unfoldable pub headset_is_wired : Text → Bool
  unfolding wired_among
  headset_is_wired usb_devices = wired_among usb_devices (f.read_dir usb_devices)

  -- The `?` of Rust.
  abbrev pub and_then : Option Text → (Text → Option Text) → Option Text
  and_then none next = none
  and_then (some path) next = next path

  abbrev pub checked : Text → Option Text
  checked path = if f.is_file (f.join path (codes "idVendor")) then some path else none

  unfoldable pub usb_device_of : Text → Text → Option Text
  usb_device_of sysfs_root node = and_then (f.file_name node) (λ name.
      and_then (f.canonicalize (f.join (f.join sysfs_root name) (codes "device"))) (λ hid_device.
        and_then (f.parent hid_device) (λ interface. and_then (f.parent interface) checked)))

  abbrev pub dongle_at : Node → Text → Dongle
  unfolding usb_device_of
  dongle_at node sysfs_root = record {
    node = node.path;
    product = if is_empty_list node.name then default_product else node.name;
    product_id = node.product;
    usb_device = usb_device_of sysfs_root node.path;
  }

  -- `Dongle::from_node`
  unfoldable pub from_node : Node → Text → Option Dongle
  unfolding supports
  from_node node sysfs_root =
      if supports node.vendor node.product then some (dongle_at node sysfs_root) else none

  abbrev pub kept : Option Dongle → List Dongle → List Dongle
  kept none dongles = dongles
  kept (some dongle) dongles = dongle ∷ dongles

  -- `filter_map` over the nodes.
  unfoldable pub dongles_of : List Node → Text → List Dongle
  unfolding from_node
  dongles_of [] sysfs_root = []
  dongles_of (node ∷ nodes) sysfs_root =
      kept (from_node node sysfs_root) (dongles_of nodes sysfs_root)

  abbrev pub listed_dongles : Option (List Node) → Text → List Dongle
  unfolding dongles_of
  listed_dongles none sysfs_root = []
  listed_dongles (some nodes) sysfs_root = dongles_of nodes sysfs_root

  unfoldable pub discover_in : Listing → Text → Text → List Dongle
  unfolding listed_dongles
  discover_in listing sysfs_root dev_root =
      listed_dongles (listing sysfs_root dev_root (record { bus = usb; vendor = vendor_id }))
        sysfs_root
