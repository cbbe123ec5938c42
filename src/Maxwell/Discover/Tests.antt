-- ===== src/Maxwell/Discover/Tests.antt =====
-- A tree whose every node is a dongle's, beside somebody else's device.
use headset_battery_indicato.Prelude.{
  ◌≡◌, refl, true, none, some, [], ◌∷◌, codes, All, map, is_whitespace,
}
use headset_battery_indicato.Files.{Files}
use headset_battery_indicato.Maxwell.Discover.{Listing, discover_in, headset_is_wired, dongle_at}
use headset_battery_indicato.Maxwell.Discover.Nodes.{IsFound, discover_in-IsFound}

-- One headset hangs on a cable; the class directory of hidraw is all that resolves.
abbrev tree : Files
tree = record {
  read_dir = λ path. some (none ∷ some (codes "5-2") ∷ []);
  read_to_string = λ path. elim path [ [] ↦ none | _ ∷ name ↦ some (codes "3329\n") ];
  canonicalize = λ path. some path;
  is_file = λ path. true;
  join = λ path name. name;
  file_name = λ path. some path;
  parent = λ path. some path;
}

abbrev nodes : Listing
nodes sysfs_root dev_root filter = some (
    record { path = codes "/dev/hidraw3"; vendor = 0x3329; product = 0x4b19; name = [] }
    ∷ record {
      path = codes "/dev/hidraw18";
      vendor = 0x3329;
      product = 0x4b1e;
      name = codes "Audeze";
    }
    ∷ record {
      path = codes "/dev/hidraw10";
      vendor = 0x3329;
      product = 0x4b18;
      name = codes "Audeze Dongle";
    }
    ∷ [])

two_dongles :
    map (λ d. d.product) (discover_in tree nodes [] [])
    ≡ codes "Audeze Maxwell" ∷ codes "Audeze Dongle" ∷ []
unfolding discover_in dongle_at
two_dongles = refl

cable_charges : headset_is_wired tree [] ≡ true
unfolding headset_is_wired is_whitespace
cable_charges = refl

discover_in-IsFound_example : All (IsFound tree) (discover_in tree nodes [] [])
discover_in-IsFound_example = discover_in-IsFound tree nodes [] []
