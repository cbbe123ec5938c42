-- ===== src/Maxwell/Reader/Sessions.antt =====
-- The sessions of the reader of src/maxwell/mod.rs, by their nodes.
use headset_battery_indicato.Prelude.{
  ℕ, ◌≡◌, ◌≢◌, refl, sym, subst, inl, inr, true, none, some, List, [], ◌∷◌, arith, Text, text_eq,
  text_eq_iff, text_eq_refl, Bool-cases,
}
use headset_battery_indicato.Prelude.Assoc.{text_key, nat_eq, lookup, insert}
use headset_battery_indicato.Maxwell.Session.{Dongle, Session, Link}
use headset_battery_indicato.Maxwell.Reader.{put, text_lt, is_listed, close_gone}

pub lookup-put :
    {A : Type 0} (node : Text) (a : A) (m : List (Text × A)) → lookup node (put node a m) ≡ some a
unfolding put lookup
lookup-put node a [] = rw (text_eq_refl node) refl
lookup-put node a ((other, b) ∷ m) = elim (Bool-cases (text_eq other node)) [
  | inl same ↦ rw (same, text_eq_refl node) refl
  | inr different ↦ elim (Bool-cases (text_lt node other)) [
    | inl before ↦ rw (different, before, text_eq_refl node) refl
    | inr behind ↦ rw (different, behind, different) (lookup-put node a m)
  ]
]

-- The session of a dongle that is still listed is kept.
pub lookup-close_gone_listed :
    {D : Type 0} (node : Text) (dongles : List Dongle) (sessions : List (Text × Session D))
    (links : List (ℕ × Link)) (s : Session D)
    → is_listed node dongles ≡ true
    → lookup node sessions ≡ some s
    → lookup node (close_gone dongles sessions links).0 ≡ some s
unfolding close_gone lookup
lookup-close_gone_listed node dongles [] links s l e = e
lookup-close_gone_listed node dongles ((other, x) ∷ sessions) links s l e =
    elim (Bool-cases (text_eq other node)) [
      | inl same ↦
          let kept : is_listed other dongles ≡ true =
            subst (λ n. is_listed n dongles ≡ true) (sym ((text_eq_iff other node).0 same)) l in
          rw kept (rw same (rw same at e))
      | inr different ↦
          let ih = λ (l' : List (ℕ × Link)).
            lookup-close_gone_listed node dongles sessions l' s l (rw different at e) in
          elim (Bool-cases (is_listed other dongles)) [
            | inl kept ↦ rw kept (rw different (ih links))
            | inr gone ↦ rw gone (ih (insert x.product_id x.link_state links))
          ]
    ]

-- A node without a session has none after those of the others were closed.
pub lookup-close_gone :
    {D : Type 0} (node : Text) (dongles : List Dongle) (sessions : List (Text × Session D))
    (links : List (ℕ × Link))
    → lookup node sessions ≡ none
    → lookup node (close_gone dongles sessions links).0 ≡ none
unfolding close_gone lookup
lookup-close_gone node dongles [] links e = refl
lookup-close_gone node dongles ((other, s) ∷ sessions) links e =
    elim (Bool-cases (text_eq other node)) [
      | inl same ↦ absurd (some-ne-none s (rw same at e))
      | inr different ↦
          let ih = λ (l : List (ℕ × Link)).
            lookup-close_gone node dongles sessions l (rw different at e) in
          elim (Bool-cases (is_listed other dongles)) [
            | inl kept ↦ rw kept (rw different (ih links))
            | inr gone ↦ rw gone (ih (insert s.product_id s.link_state links))
          ]
    ]
  where
    some-ne-none : {A : Type 0} (a : A) → some a ≢ none
    some-ne-none a = λ h. ground arith
