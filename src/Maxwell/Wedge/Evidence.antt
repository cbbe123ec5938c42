-- ===== src/Maxwell/Wedge/Evidence.antt =====
-- `playback_running` of src/maxwell/wedge.rs: whether the dongle's sound card plays, as sysfs and
-- /proc/asound have it.
pub mod Playing
use headset_battery_indicato.Prelude.{
  Bool, ◌&&◌, Option, none, some, List, [], ◌∷◌, ◌++◌, Text, codes, trim, text_eq, starts_with,
  ends_with, lines, any, if◌then◌else◌,
}
use headset_battery_indicato.Files.{Files, readable}

abbrev pub running_line : Text
running_line = codes "state: RUNNING"

abbrev pub is_running_line : Text → Bool
unfolding trim text_eq
is_running_line line = text_eq (trim line) running_line

-- A playback PCM of a card.
abbrev pub is_playback : Text → Bool
unfolding starts_with ends_with
is_playback name = starts_with (codes "pcm") name && ends_with b'p' name

-- `unwrap_or_default` of a file's text.
abbrev pub or_blank : Option Text → Text
or_blank none = []
or_blank (some s) = s

abbrev pub entries_of : Option (List (Option Text)) → List Text
entries_of none = []
entries_of (some entries) = readable entries

-- `find` of a card's name.
unfoldable pub find_card : List Text → Option Text
unfolding starts_with
find_card [] = none
find_card (name ∷ names) =
    let rest = find_card names in if starts_with (codes "card") name then some name else rest

module _ (f : Files) where
  -- What the sound directories of the interfaces hold, in order.
  abbrev pub sounds : Text → List Text → List Text
  sounds usb_device [] = []
  sounds usb_device (interface ∷ interfaces) =
      entries_of (f.read_dir (f.join (f.join usb_device interface) (codes "sound")))
      ++ sounds usb_device interfaces

  unfoldable pub sound_card : Text → Option Text
  unfolding find_card
  sound_card usb_device = find_card (sounds usb_device (entries_of (f.read_dir usb_device)))

  abbrev pub pcm_lines : Text → Text → List Text
  unfolding lines
  pcm_lines card_dir pcm =
      lines (or_blank (f.read_to_string (f.join (f.join card_dir pcm) (codes "sub0/status"))))

  -- Whether the PCM of this name under a card's directory is running.
  unfoldable pub pcm_running : Text → Text → Bool
  unfolding is_running_line pcm_lines
  pcm_running card_dir pcm = any is_running_line (pcm_lines card_dir pcm)

  abbrev pub plays : Text → Text → Bool
  unfolding is_playback pcm_running
  plays card_dir pcm = is_playback pcm && pcm_running card_dir pcm

  abbrev pub listed_pcms : Text → Option (List (Option Text)) → Option Bool
  unfolding plays
  listed_pcms card_dir none = none
  listed_pcms card_dir (some pcms) = some (any (plays card_dir) (readable pcms))

  abbrev pub card_running : Text → Option Text → Option Bool
  unfolding listed_pcms
  card_running proc_asound none = none
  card_running proc_asound (some card) =
      listed_pcms (f.join proc_asound card) (f.read_dir (f.join proc_asound card))

  unfoldable pub playback_running : Text → Text → Option Bool
  unfolding card_running
  playback_running proc_asound usb_device = card_running proc_asound (sound_card usb_device)

  -- `Session::playback_running`
  unfoldable pub session_playback : Text → Option Text → Option Bool
  unfolding playback_running
  session_playback proc_asound none = none
  session_playback proc_asound (some usb_device) = playback_running proc_asound usb_device
