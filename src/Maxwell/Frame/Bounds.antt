-- ===== src/Maxwell/Frame/Bounds.antt =====
-- What a report can say at most: the fresh part, and the levels found in it.
use headset_battery_indicato.Prelude.{
  ℕ, zero, suc, ◌≤◌, ◌≡◌, refl, ap, List, [], ◌∷◌, arith, length, take, All,
}
use headset_battery_indicato.Maxwell.Frame.{
  Message, link, battery, fresh, message_at, scan, messages,
}

abbrev pub IsLevel : Message → Type 0
IsLevel (link up) = Unit {0}
IsLevel (battery level) = level ≤ 100

scan-IsLevel : (data' : List ℕ) → All IsLevel (scan data')
unfolding scan message_at
scan-IsLevel [] = tt
scan-IsLevel (b ∷ rest) = ground (arith, scan-IsLevel rest)

-- No report, whatever its bytes, yields a level above 100.
pub messages-IsLevel : (frame : List ℕ) → All IsLevel (messages frame)
unfolding messages
messages-IsLevel frame = scan-IsLevel (fresh frame)

take-all : (n : ℕ) (xs : List ℕ) → length xs ≤ n → take n xs ≡ xs
take-all zero [] h = refl
take-all zero (x ∷ xs) h = absurd (omega arith)
take-all (suc n) [] h = refl
take-all (suc n) (x ∷ xs) h = ap (◌∷◌ x) (take-all n xs (omega arith))

-- The fresh part is as many bytes behind the header as the count says, or all there are.
pub fresh-eq-take :
    (id count other : ℕ) (rest : List ℕ) → fresh (id ∷ count ∷ other ∷ rest) ≡ take count rest
unfolding fresh
fresh-eq-take id count other rest = ground (arith, take-all count rest, take-all (length rest) rest)
