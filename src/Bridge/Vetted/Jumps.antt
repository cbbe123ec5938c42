-- ===== src/Bridge/Vetted/Jumps.antt =====
-- A level that jumps is published on a second opinion only, and on the second one it is.
use headset_battery_indicato.Prelude.{
  ℕ, ◌≤◌, ◌<◌, ◌≡◌, ◌⊎◌, inl, inr, Bool, false, ◌&&◌, Option, none, some, arith, abs_diff, is_some,
  option_eq, Option-cases,
}
use headset_battery_indicato.Bridge.Policy.{
  Reading, vet, second_opinion, max_plausible_step, confirm_tolerance,
}
use headset_battery_indicato.Bridge.Batteries.{VirtualBattery}
use headset_battery_indicato.Bridge.Vetted.{vetted}

-- What the kernel knows after a reading that was offered: the one published, or the one before.
abbrev pub known_after : Option Reading → Reading → Reading
known_after none known = known
known_after (some r) known = r

-- The same message of a reader that numbers them.
abbrev pub same_sample : Option ℕ → Option ℕ → Bool
same_sample a b = is_some a && option_eq a b

-- A jump is published only as the confirmation of what was deferred.
jump-confirms :
    (b : VirtualBattery) (known r p : Reading) (s : Option ℕ)
    → (vetted b known r s).1 ≡ some p
    → max_plausible_step < abs_diff known.percent p.percent
    → (d : ℕ) × (p ≡ r)
      × (b.deferred ≡ some d)
      × (abs_diff d r.percent ≤ confirm_tolerance)
      × (same_sample s b.deferred_sample ≡ false)
unfolding vetted vet second_opinion
jump-confirms b known r p s e j = elim (Option-cases b.deferred) [
  | inl n ↦ absurd (ground arith)
  | inr (d, n) ↦ (d, ground arith, ground arith, ground arith, ground arith)
]

-- What is deferred after a reading is that reading, or nothing.
deferred-vetted :
    (b : VirtualBattery) (known r : Reading) (s : Option ℕ)
    → let b' = (vetted b known r s).0 in
      (b'.deferred ≡ none) ⊎ ((b'.deferred ≡ some r.percent) × (b'.deferred_sample ≡ s))
unfolding vetted
deferred-vetted b known r s = ground arith

-- Whatever the record and the published level are before two successive readings: if the second one
-- makes the published level move by more than 15 points, then it is the second reading that is
-- published, the first one was within 5 points of it, and they were two readings and not one
-- repeated.
pub jump_needs_two :
    (b : VirtualBattery) (known r₁ r₂ p : Reading) (s₁ s₂ : Option ℕ)
    → let (b₁, out₁) = vetted b known r₁ s₁ in
      (vetted b₁ (known_after out₁ known) r₂ s₂).1 ≡ some p
      → max_plausible_step < abs_diff (known_after (vetted b known r₁ s₁).1 known).percent p.percent
      → (p ≡ r₂)
        × (abs_diff r₁.percent r₂.percent ≤ confirm_tolerance)
        × (same_sample s₂ s₁ ≡ false)
jump_needs_two b known r₁ r₂ p s₁ s₂ e j =
    let b₁ = (vetted b known r₁ s₁).0 in
    let known' = known_after (vetted b known r₁ s₁).1 known in
    let (d, published, deferred, near, fresh) = jump-confirms b₁ known' r₂ p s₂ e j in
    ground (arith, deferred-vetted b known r₁ s₁)

-- A reading that jumps is deferred, or taken at once as the confirmation of an earlier one.
jump-cases :
    (b : VirtualBattery) (known r : Reading) (s : Option ℕ)
    → max_plausible_step < abs_diff known.percent r.percent
    → let (b', out) = vetted b known r s in
      ((out ≡ none) × (b'.deferred ≡ some r.percent) × (b'.deferred_sample ≡ s)) ⊎ (out ≡ some r)
unfolding vetted vet second_opinion
jump-cases b known r s j = ground arith

confirmation-shown :
    (b : VirtualBattery) (known r : Reading) (s : Option ℕ)
    → max_plausible_step < abs_diff known.percent r.percent
    → b.deferred ≡ some r.percent
    → same_sample s b.deferred_sample ≡ false
    → (vetted b known r s).1 ≡ some r
unfolding vetted vet second_opinion
confirmation-shown b known r s j d f = ground arith

repetition-shown : (b : VirtualBattery) (r : Reading) (s : Option ℕ) → (vetted b r r s).1 ≡ some r
unfolding vetted vet second_opinion
repetition-shown b r s = ground arith

-- A genuine change is never lost: whatever the record holds, a reading more than 15 points off the
-- published one is published by the time it has been read twice.
pub second_reading_shows :
    (b : VirtualBattery) (known r : Reading) (s₁ s₂ : Option ℕ)
    → max_plausible_step < abs_diff known.percent r.percent
    → same_sample s₂ s₁ ≡ false
    → let (b₁, out₁) = vetted b known r s₁ in (vetted b₁ (known_after out₁ known) r s₂).1 ≡ some r
second_reading_shows b known r s₁ s₂ j f = elim (jump-cases b known r s₁ j) [
  | inl (e, d, s) ↦ rw e (confirmation-shown (vetted b known r s₁).0 known r s₂ j d (rw s f))
  | inr e ↦ rw e (repetition-shown (vetted b known r s₁).0 r s₂)
]
