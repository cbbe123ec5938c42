-- ===== src/Maxwell/Frame/RoundTrip.antt =====
-- What the dongle says in a report is what the reader finds in it.
use headset_battery_indicato.Prelude.{
  ℕ, ◌≡◌, refl, ap, ◌⊎◌, inl, inr, ◌≢◌, Bool, true, false, List, [], ◌∷◌, ◌++◌, ◌∙◌, length-append,
  none, arith, length, take, All,
}
use headset_battery_indicato.Maxwell.Frame.{
  link, byte_after, push_some, message_at, scan, fresh, messages,
}
use headset_battery_indicato.Maxwell.Frame.Wire.{
  Address, Wire, acknowledgement, notice, level, event, bytes, meaning, IsClear, stream, meanings,
}

-- What may follow a message in the stream: nothing, or the start of another.
abbrev IsStart : List ℕ → Type 0
IsStart rest = (rest ≡ []) ⊎ ((y : ℕ) × (more : List ℕ) × (rest ≡ 0x05 ∷ y ∷ more) × (y ≢ 0))

stream-IsStart : (ws : List Wire) → IsStart (stream ws)
unfolding stream bytes
stream-IsStart [] = inl refl
stream-IsStart (acknowledgement ∷ ws) = inr (_, _, refl, λ e. omega arith)
stream-IsStart (notice s ∷ ws) = inr (_, _, refl, λ e. omega arith)
stream-IsStart (level p ∷ ws) = inr (_, _, refl, λ e. omega arith)
stream-IsStart (event up adr t u ∷ ws) = inr (_, _, refl, λ e. omega arith)

message_at-ne : (b : ℕ) (rest : List ℕ) → b ≢ 0x5d → message_at (b ∷ rest) ≡ none
unfolding message_at byte_after
message_at-ne b rest h = ground arith

-- A `5d` that no message type follows starts nothing.
message_at-second :
    (b c : ℕ) (rest : List ℕ) → c ≢ 0x05 → c ≢ 0x0e → message_at (b ∷ c ∷ rest) ≡ none
unfolding message_at byte_after
message_at-second b c rest h k = ground arith

message_at-third : (b c d : ℕ) (rest : List ℕ) → d ≢ 0x00 → message_at (b ∷ c ∷ d ∷ rest) ≡ none
unfolding message_at byte_after
message_at-third b c d rest h = ground arith

-- The last byte of a message starts nothing with what follows.
message_at-last : (b : ℕ) (rest : List ℕ) → IsStart rest → message_at (b ∷ rest) ≡ none
unfolding message_at byte_after
message_at-last b rest (inl e) = ground arith
message_at-last b rest (inr (y, more, e, h)) = ground arith

scan-acknowledgement : (rest : List ℕ) → scan (bytes acknowledgement ++ rest) ≡ scan rest
unfolding scan message_at byte_after bytes
scan-acknowledgement rest = refl

scan-notice : (s : ℕ) (rest : List ℕ) → IsStart rest → scan (bytes (notice s) ++ rest) ≡ scan rest
unfolding scan bytes message_at
scan-notice s rest h = ap (λ m. push_some m (scan rest)) (message_at-last s rest h)

scan-level :
    (p : ℕ) (rest : List ℕ)
    → IsStart rest
    → scan (bytes (level p) ++ rest) ≡ meaning (level p) ++ scan rest
unfolding scan message_at byte_after bytes meaning
scan-level p rest h = ground (arith, message_at-last p rest h)

-- A header that some byte behind it contradicts, or that the end of the stream cuts off.
message_at-seventh :
    (a b c d e f t : ℕ) (rest : List ℕ)
    → t ≢ 0x00
    → t ≢ 0x02
    → message_at (a ∷ b ∷ c ∷ d ∷ e ∷ f ∷ t ∷ rest) ≡ none
unfolding message_at byte_after
message_at-seventh a b c d e f t rest h k = ground arith

message_at-sixth :
    (a b c d e f : ℕ) (rest : List ℕ) → f ≢ 0x00 → message_at (a ∷ b ∷ c ∷ d ∷ e ∷ f ∷ rest) ≡ none
unfolding message_at byte_after
message_at-sixth a b c d e f rest h = ground arith

message_at-fourth :
    (a b c d : ℕ) (rest : List ℕ) → d ≢ 0xd6 → d ≢ 0xb1 → message_at (a ∷ b ∷ c ∷ d ∷ rest) ≡ none
unfolding message_at byte_after
message_at-fourth a b c d rest h k = ground arith

-- The windows that reach into what follows the event.
module _ (rest : List ℕ) (st : IsStart rest) where
  message_at-six_left : (a b c d e f : ℕ) → message_at (a ∷ b ∷ c ∷ d ∷ e ∷ f ∷ rest) ≡ none
  unfolding message_at byte_after
  message_at-six_left a b c d e f = elim st [
    | inl h ↦ rw h (ground arith)
    | inr (y, more, h, k) ↦
        rw h (message_at-seventh a b c d e f 0x05 (y ∷ more) (λ x. omega arith) (λ x. omega arith))
  ]

  message_at-five_left : (a b c d e : ℕ) → message_at (a ∷ b ∷ c ∷ d ∷ e ∷ rest) ≡ none
  unfolding message_at byte_after
  message_at-five_left a b c d e = elim st [
    | inl h ↦ rw h (ground arith)
    | inr (y, more, h, k) ↦ rw h (message_at-sixth a b c d e 0x05 (y ∷ more) (λ x. omega arith))
  ]

  message_at-three_left : (a b c : ℕ) → message_at (a ∷ b ∷ c ∷ rest) ≡ none
  unfolding message_at byte_after
  message_at-three_left a b c = elim st [
    | inl h ↦ rw h (ground arith)
    | inr (y, more, h, k) ↦
        rw h (message_at-fourth a b c 0x05 (y ∷ more) (λ x. omega arith) (λ x. omega arith))
  ]

  message_at-two_left : (a b : ℕ) → message_at (a ∷ b ∷ rest) ≡ none
  unfolding message_at byte_after
  message_at-two_left a b = elim st [
    | inl h ↦ rw h (ground arith)
    | inr (y, more, h, k) ↦ rw h (message_at-third a b 0x05 (y ∷ more) (λ x. omega arith))
  ]

-- Nothing begins inside an address, whatever its bytes are.
scan-address :
    (adr : Address) (t u : ℕ) (rest : List ℕ)
    → t ≢ 0
    → t ≢ 2
    → IsStart rest
    → scan (adr.a ∷ adr.b ∷ adr.c ∷ adr.d ∷ adr.e ∷ adr.f ∷ t ∷ u ∷ rest) ≡ scan rest
unfolding scan
scan-address adr t u rest h k st = rw (
  message_at-seventh adr.a adr.b adr.c adr.d adr.e adr.f t (u ∷ rest) h k,
  message_at-sixth adr.b adr.c adr.d adr.e adr.f t (u ∷ rest) h,
  message_at-six_left rest st adr.c adr.d adr.e adr.f t u,
  message_at-five_left rest st adr.d adr.e adr.f t u,
  message_at-third adr.e adr.f t (u ∷ rest) h,
  message_at-three_left rest st adr.f t u,
  message_at-two_left rest st t u,
  message_at-last u rest st,
)

scan-event :
    (up : Bool) (adr : Address) (t u : ℕ) (rest : List ℕ)
    → IsClear (event up adr t u)
    → IsStart rest
    → scan (bytes (event up adr t u) ++ rest) ≡ link up ∷ scan rest
unfolding scan bytes message_at byte_after
scan-event true adr t u rest h st = ap (◌∷◌ (link true)) (scan-address adr t u rest h.0 h.1 st)
scan-event false adr t u rest h st = ap (◌∷◌ (link false)) (scan-address adr t u rest h.0 h.1 st)

scan-bytes :
    (w : Wire) (rest : List ℕ)
    → IsClear w
    → IsStart rest
    → scan (bytes w ++ rest) ≡ meaning w ++ scan rest
unfolding meaning
scan-bytes acknowledgement rest h st = scan-acknowledgement rest
scan-bytes (notice s) rest h st = scan-notice s rest st
scan-bytes (level p) rest h st = scan-level p rest st
scan-bytes (event up adr t u) rest h st = scan-event up adr t u rest h st

pub scan-stream : (ws : List Wire) → All IsClear ws → scan (stream ws) ≡ meanings ws
unfolding stream meanings scan
scan-stream [] h = refl
scan-stream (w ∷ ws) h =
    scan-bytes w (stream ws) h.0 (stream-IsStart ws) ∙ ap (◌++◌ (meaning w)) (scan-stream ws h.1)

-- A report as the dongle fills it: its ID, the count of fresh bytes, a byte that is not read, the
-- fresh bytes, and what earlier exchanges left behind.
abbrev pub report : ℕ → ℕ → List ℕ → List ℕ → List ℕ
report id other new leftovers = id ∷ length new ∷ other ∷ new ++ leftovers

take-append : (xs ys : List ℕ) → take (length xs) (xs ++ ys) ≡ xs
take-append [] ys = refl
take-append (x ∷ xs) ys = ap (◌∷◌ x) (take-append xs ys)

pub fresh-report :
    (id other : ℕ) (new leftovers : List ℕ) → fresh (report id other new leftovers) ≡ new
unfolding fresh
fresh-report id other new leftovers =
    let fits = length-append new leftovers in ground (arith, fits, take-append new leftovers)

-- Whatever the dongle says in the fresh part of a report (acknowledgements, notices, levels and link
-- events with any address, whose next byte is neither 0 nor 2) is what the reader takes out of it,
-- in order, whatever earlier exchanges left behind it.
pub messages-report :
    (id other : ℕ) (ws : List Wire) (leftovers : List ℕ)
    → All IsClear ws
    → messages (report id other (stream ws) leftovers) ≡ meanings ws
unfolding messages
messages-report id other ws leftovers h =
    ap scan (fresh-report id other (stream ws) leftovers) ∙ scan-stream ws h
