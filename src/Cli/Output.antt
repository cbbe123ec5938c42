-- ===== src/Cli/Output.antt =====
-- What the commands of src/main.rs print: `status` and `udev-rules`. The look for a power supply and
-- the rule for the kind of the device are `uhid-battery`'s, and are arguments.
use headset_battery_indicato.Prelude.{
  Bool, true, false, Option, none, some, List, [], ◌∷◌, ◌++◌, Text, codes, decimal, is_empty_list,
  ◌==◌, if◌then◌else◌,
}
use headset_battery_indicato.Headset.{
  Headset, BatteryState, discharging, charging, unavailable, disconnected, hex4, uniq,
}
use headset_battery_indicato.Maxwell.Reader.{vendor_id}
use headset_battery_indicato.Bridge.Daemon.{phys_prefix}

-- `writeln!`, line by line.
unfoldable pub printed : List Text → Text
printed [] = []
printed (line ∷ rest) = line ++ 0x0a ∷ printed rest

abbrev pub state_text : BatteryState → Bool → Text
state_text (discharging percent) supports = decimal percent ++ codes "%"
state_text (charging (some percent)) supports = decimal percent ++ codes "% (charging)"
state_text (charging none) supports = codes "charging"
state_text unavailable true = codes "unavailable (headset off?)"
state_text unavailable false = codes "not supported by this headset"
state_text disconnected supports = codes "headset switched off (the dongle says so)"

abbrev pub published_text : Option Text → Text
published_text none = codes "not published (is the daemon running?)"
published_text (some path) = path

abbrev pub wedged_lines : Bool → List Text
wedged_lines true =
    codes
      "  dongle:  not answering, audio running — probably wedged; unplug and replug the dongle (the daemon's journal says since when)"
    ∷ []
wedged_lines false = []

abbrev pub title : Headset → Text
title headset =
    headset.name
    ++ (codes " ["
        ++ (hex4 headset.vendor_id
            ++ (codes ":" ++ (hex4 headset.product_id ++ (codes "] via " ++ headset.product)))))

module _ (find_power_supply : Text → Option Text) {M : Type 0} (looks_wedged : M → M × Bool) where
  -- The look at the sound card is taken for Audeze's headsets only.
  abbrev wedged_look : Headset → M → M × Bool
  wedged_look headset machine =
      if headset.vendor_id == vendor_id then looks_wedged machine else (machine, false)

  abbrev pub block : Headset → Bool → List Text
  block headset wedged =
      title headset
      ∷ (codes "  battery: " ++ state_text headset.battery headset.supports_battery)
      ∷ (codes "  sysfs:   " ++ published_text (find_power_supply (uniq headset)))
      ∷ wedged_lines wedged

  unfoldable pub blocks : List Headset → M → M × List Text
  blocks [] machine = (machine, [])
  blocks (headset ∷ headsets) machine =
      let (machine', wedged) = wedged_look headset machine in
      let (machine'', rest) = blocks headsets machine' in (machine'', block headset wedged ++ rest)

  -- What `status` prints of the headsets that it has read.
  unfoldable pub status_lines : List Headset → M → M × List Text
  unfolding blocks
  status_lines headsets machine =
      if is_empty_list headsets
      then (machine, codes "No headset detected." ∷ [])
      else blocks headsets machine

abbrev pub preamble : List Text
preamble =
    codes "# Generated by headset-battery-indicator udev-rules."
    ∷ codes "# Lets the daemon's unprivileged service user talk to the headset."
    ∷ codes "# Install as /etc/udev/rules.d/70-headset-battery-indicator.rules. The name"
    ∷ codes "# must sort before 73-seat-late.rules: once uaccess has put an ACL on the"
    ∷ codes "# node, MODE= only moves the ACL mask and the group never gets access."
    ∷ []

abbrev pub kind_lines : Option Text → List Text
kind_lines none = []
kind_lines (some rule) =
    []
    ∷ codes "# Makes UPower (and the desktop) show a headset rather than a generic battery."
    ∷ rule
    ∷ []

-- The rule that gives the group access to a headset's nodes.
abbrev pub rule_of : Text → Headset → Text
rule_of group headset =
    codes "KERNEL==\"hidraw*\", ATTRS{idVendor}==\""
    ++ (hex4 headset.vendor_id
        ++ (codes "\", ATTRS{idProduct}==\""
            ++ (hex4 headset.product_id
                ++ (codes "\", GROUP=\"" ++ (group ++ codes "\", MODE=\"0660\"")))))

abbrev pub comment_of : Headset → Text
comment_of headset = codes "# " ++ (headset.name ++ (codes " (" ++ (headset.product ++ codes ")")))

unfoldable pub rules : Text → List Headset → List Text
rules group [] = []
rules group (headset ∷ headsets) =
    [] ∷ comment_of headset ∷ rule_of group headset ∷ rules group headsets

abbrev pub found_rules : Text → List Headset → List Text
unfolding rules
found_rules group [] = codes "# No headset detected; plug the dongle in and re-run." ∷ []
found_rules group (headset ∷ headsets) = rules group (headset ∷ headsets)

-- What `udev-rules` prints of the headsets that it has read.
unfoldable pub udev_rules_text : (Text → Option Text) → Text → List Headset → Text
unfolding printed found_rules
udev_rules_text kind_rule group headsets =
    printed (
      preamble
      ++ (kind_lines (kind_rule (phys_prefix ++ codes "/*")) ++ found_rules group headsets))
