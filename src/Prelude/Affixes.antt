-- ===== src/Prelude/Affixes.antt =====
-- Texts by how they begin and how they end: what the tests of `str` decide.
use Prim.Native.Nat.{ℕ}
use mathlib.Core.Path.{◌≡◌, refl}
use mathlib.Core.Logic.{inl, inr}
use mathlib.Core.Bool.{true}
use mathlib.Core.List.{[], ◌∷◌, ◌++◌}
use native.Mathlib.Omega.{arith}
use headset_battery_indicato.Prelude.Tests.{Text, Bool-cases, ◌==◌}
use headset_battery_indicato.Prelude.Texts.{strip_prefix, starts_with, ends_with}

-- A text that begins with another one, and goes on.
abbrev pub Begins : Text → Text → Type 0
Begins prefix s = (rest : Text) × (s ≡ prefix ++ rest)

pub starts_with-append : (prefix rest : Text) → starts_with prefix (prefix ++ rest) ≡ true
unfolding starts_with strip_prefix
starts_with-append [] rest = refl
starts_with-append (p ∷ prefix) rest =
    let same : (p == p) ≡ true = ground arith in rw same (starts_with-append prefix rest)

pub starts_with-Begins : (prefix s : Text) → starts_with prefix s ≡ true → Begins prefix s
unfolding starts_with strip_prefix
starts_with-Begins [] s h = (s, refl)
starts_with-Begins (p ∷ prefix) [] h = cc
starts_with-Begins (p ∷ prefix) (c ∷ s) h = elim (Bool-cases (p == c)) [
  | inl same ↦
      let (rest, e) = starts_with-Begins prefix s (rw same at h) in
      let equal : p ≡ c = ground (arith, same) in (rest, cc)
  | inr other ↦ cc (rw other at h)
]

pub Begins-starts_with : (prefix s : Text) → Begins prefix s → starts_with prefix s ≡ true
Begins-starts_with prefix s (rest, e) = rw e (starts_with-append prefix rest)

pub ends_with-append : (last : ℕ) (s : Text) → ends_with last (s ++ last ∷ []) ≡ true
unfolding ends_with
ends_with-append last [] = ground arith
ends_with-append last (c ∷ []) = ground arith
ends_with-append last (c ∷ d ∷ s) = ends_with-append last (d ∷ s)

-- A text that ends with a character.
pub ends_with-last :
    (last : ℕ) (s : Text) → ends_with last s ≡ true → (before : Text) × (s ≡ before ++ last ∷ [])
unfolding ends_with
ends_with-last last [] h = cc
ends_with-last last (c ∷ []) h = let equal : c ≡ last = ground (arith, h) in ([], rw equal refl)
ends_with-last last (c ∷ d ∷ s) h =
    let (before, e) = ends_with-last last (d ∷ s) h in (c ∷ before, rw e refl)
