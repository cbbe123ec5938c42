-- ===== src/Maxwell/Discover/Nodes.antt =====
-- What a dongle that was found is.
use headset_battery_indicato.Prelude.{
  inl, inr, ℕ, ◌≡◌, arith, refl, true, false, Option, none, some, List, [], ◌∷◌, Text, codes, All,
  Bool-cases, is_empty_list, if◌then◌else◌,
}
use headset_battery_indicato.Files.{Files}
use headset_battery_indicato.Maxwell.Session.{Dongle}
use headset_battery_indicato.Maxwell.Reader.{vendor_id, supports}
use headset_battery_indicato.Maxwell.Discover.{
  Node, Listing, default_product, usb, dongle_at, and_then, checked, usb_device_of, from_node, kept,
  dongles_of, listed_dongles, discover_in,
}

module _ (f : Files) where
  -- A USB device's directory has an idVendor file.
  abbrev IsUsb : Option Text → Type 0
  IsUsb none = Unit
  IsUsb (some path) = f.is_file (f.join path (codes "idVendor")) ≡ true

  pub record IsFound (d : Dongle) : Type 0 where
    pub supported : supports vendor_id d.product_id ≡ true
    pub named : is_empty_list d.product ≡ false
    pub on_usb : IsUsb d.usb_device

  and_then-IsUsb :
      (o : Option Text) (next : Text → Option Text)
      → ((path : Text) → IsUsb (next path))
      → IsUsb (and_then f o next)
  and_then-IsUsb none next h = tt
  and_then-IsUsb (some path) next h = h path

  checked-IsUsb : (path : Text) → IsUsb (checked f path)
  checked-IsUsb path = elim (Bool-cases (f.is_file (f.join path (codes "idVendor")))) [
    | inl h ↦ rw h h
    | inr h ↦ rw h tt
  ]

  usb_device_of-IsUsb : (root node : Text) → IsUsb (usb_device_of f root node)
  unfolding usb_device_of
  usb_device_of-IsUsb root node = and_then-IsUsb (f.file_name node) _ (λ name.
      and_then-IsUsb (f.canonicalize (f.join (f.join root name) (codes "device"))) _ (λ hid_device.
        and_then-IsUsb (f.parent hid_device) _
          (λ interface. and_then-IsUsb (f.parent interface) _ checked-IsUsb)))

  name_or-default :
      (name : Text) → is_empty_list (if is_empty_list name then default_product else name) ≡ false
  name_or-default [] = refl
  name_or-default (c ∷ name) = refl

  supports_product :
      (vendor product : ℕ) → supports vendor product ≡ true → supports vendor_id product ≡ true
  unfolding supports
  supports_product vendor product h = ground (arith, h)

  dongle_at-IsFound :
      (node : Node) (root : Text)
      → supports node.vendor node.product ≡ true
      → IsFound (dongle_at f node root)
  unfolding dongle_at
  dongle_at-IsFound node root h = record {
    supported = supports_product node.vendor node.product h;
    named = name_or-default node.name;
    on_usb = usb_device_of-IsUsb root node.path;
  }

  kept-IsFound :
      (node : Node) (root : Text) (dongles : List Dongle)
      → All IsFound dongles
      → All IsFound (kept f (from_node f node root) dongles)
  unfolding from_node
  kept-IsFound node root dongles found = elim (Bool-cases (supports node.vendor node.product)) [
    | inl h ↦ rw h (dongle_at-IsFound node root h, found)
    | inr h ↦ rw h found
  ]

  dongles_of-IsFound : (nodes : List Node) (root : Text) → All IsFound (dongles_of f nodes root)
  unfolding dongles_of
  dongles_of-IsFound [] root = tt
  dongles_of-IsFound (node ∷ nodes) root =
      kept-IsFound node root (dongles_of f nodes root) (dongles_of-IsFound nodes root)

  listed-IsFound :
      (nodes : Option (List Node)) (root : Text) → All IsFound (listed_dongles f nodes root)
  unfolding listed_dongles
  listed-IsFound none root = tt
  listed-IsFound (some nodes) root = dongles_of-IsFound nodes root

  -- Whatever the hidraw crate lists, each dongle that is found has a product that the reader knows,
  -- is not nameless, and its USB device, if any, is a directory with an idVendor file.
  pub discover_in-IsFound :
      (listing : Listing) (sysfs_root dev_root : Text)
      → All IsFound (discover_in f listing sysfs_root dev_root)
  unfolding discover_in
  discover_in-IsFound listing sysfs_root dev_root =
      listed-IsFound (listing sysfs_root dev_root (record { bus = usb; vendor = vendor_id }))
        sysfs_root
