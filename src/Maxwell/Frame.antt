-- ===== src/Maxwell/Frame.antt =====
-- src/maxwell/frame.rs: the dongle's report, and the messages found in it. A byte is a number; the
-- tests on slices and ranges are the standard library's.
pub mod Wire
pub mod RoundTrip
pub mod Bounds
mod Tests
use headset_battery_indicato.Prelude.{
  ℕ, zero, suc, ◌+◌, ◌-◌, Bool, true, false, not, ◌&&◌, Option, none, some, List, [], ◌∷◌, min, leb,
  ◌==◌, if◌then◌else◌, length, get_elem?, take, drop, replicate,
}

abbrev pub msg_size : ℕ
msg_size = 62

abbrev pub reply_report_id : ℕ
reply_report_id = 0x07

abbrev pub battery_request : List ℕ
battery_request = 0x06 ∷ 0x07 ∷ 0x80 ∷ 0x05 ∷ 0x5a ∷ 0x03 ∷ 0x00 ∷ 0xd6 ∷ 0x0c ∷ []

abbrev pub fresh_len_offset : ℕ
fresh_len_offset = 1

abbrev pub payload_offset : ℕ
payload_offset = 3

abbrev pub battery_answer : List ℕ
battery_answer = 0x5d ∷ 0x05 ∷ 0x00 ∷ 0xd6 ∷ 0x0c ∷ 0x00 ∷ 0x00 ∷ []

abbrev pub link_event : List ℕ
link_event = 0x5d ∷ 0x0e ∷ 0x00 ∷ 0xb1 ∷ 0x2c ∷ 0x00 ∷ 0x02 ∷ []

pub data Message : Type 0 where
  link : Bool → Message
  battery : ℕ → Message

abbrev get_or_zero : Option ℕ → ℕ
get_or_zero none = 0
get_or_zero (some n) = n

-- `frame.get(first..last).unwrap_or_default()`
abbrev pub slice : List ℕ → ℕ → ℕ → List ℕ
slice frame first last =
    if leb first last && leb last (length frame) then take (last - first) (drop first frame) else []

unfoldable pub fresh : List ℕ → List ℕ
fresh frame =
    let len = get_or_zero (get_elem? frame fresh_len_offset) in
    let last = min (payload_offset + len) (length frame) in slice frame payload_offset last

-- `rest.strip_prefix(header).and_then(first)`
unfoldable pub byte_after : List ℕ → List ℕ → Option ℕ
byte_after [] [] = none
byte_after [] (b ∷ rest) = some b
byte_after (h ∷ header) [] = none
byte_after (h ∷ header) (b ∷ rest) = if b == h then byte_after header rest else none

abbrev pub battery_level : ℕ → Option Message
battery_level value = if leb value 100 then some (battery value) else none

abbrev pub link_state : Option ℕ → Option Message
link_state none = none
link_state (some state) = some (link (not (state == 0)))

abbrev pub answer_or_link : Option ℕ → List ℕ → Option Message
answer_or_link (some value) rest = battery_level value
answer_or_link none rest = link_state (byte_after link_event rest)

-- The closure of `filter_map`.
unfoldable pub message_at : List ℕ → Option Message
unfolding byte_after
message_at rest = answer_or_link (byte_after battery_answer rest) rest

abbrev pub push_some : Option Message → List Message → List Message
push_some none ms = ms
push_some (some m) ms = m ∷ ms

-- `(0..data.len()).filter_map(…)`, by the suffixes of the data.
unfoldable pub scan : List ℕ → List Message
scan [] = []
scan (b ∷ rest) = push_some (message_at (b ∷ rest)) (scan rest)

unfoldable pub messages : List ℕ → List Message
unfolding fresh scan
messages frame = scan (fresh frame)
