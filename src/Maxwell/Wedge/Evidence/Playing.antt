-- ===== src/Maxwell/Wedge/Evidence/Playing.antt =====
-- What sysfs and /proc/asound hold exactly when `playback_running` of src/maxwell/wedge.rs says that
-- the dongle's sound card plays.
use headset_battery_indicato.Prelude.{
  ℕ, ◌≡◌, ◌↔◌, inl, inr, ap, Option-cases, Bool, true, ◌&&◌, Option, some, List, [], ◌∷◌, ◌++◌,
  arith, Text, codes, trim, starts_with, ends_with, any, any_at, any_of, get_elem?, sym, ◌∙◌, ◌⊎◌,
  Bool-cases, false, ◌≢◌, text_eq_iff, Begins, starts_with-Begins, Begins-starts_with,
  ends_with-append, ends_with-last,
}
use headset_battery_indicato.Files.{Files, readable}
use headset_battery_indicato.Maxwell.Wedge.Evidence.{
  running_line, is_running_line, is_playback, entries_of, find_card, sounds, sound_card, pcm_lines,
  pcm_running, plays, listed_pcms, card_running, playback_running,
}

both : (a b : Bool) → (a && b) ≡ true → (a ≡ true) × (b ≡ true)
both a b h = (ground arith, ground arith)

and_true : (a b : Bool) → a ≡ true → b ≡ true → (a && b) ≡ true
and_true a b h k = ground arith

true-ne-false : true ≢ false
true-ne-false h = cc

some_injective : {A : Type 0} {a b : A} → some a ≡ some b → a ≡ b
some_injective h = cc

-- The name of a card's directory, and of a playback PCM's: `card` and a number, `pcm` and the rest,
-- up to the `p` of playback.
abbrev pub IsCard : Text → Type 0
IsCard name = Begins (codes "card") name

abbrev pub IsPlaybackPcm : Text → Type 0
IsPlaybackPcm name = (middle : Text) × (name ≡ codes "pcm" ++ (middle ++ b'p' ∷ []))

-- The first of the names that is a card's.
abbrev pub FirstCard : List Text → Text → Type 0
FirstCard [] card = ⊥
FirstCard (name ∷ names) card =
    (IsCard name × (name ≡ card)) ⊎ ((IsCard name → ⊥) × FirstCard names card)

find_card-FirstCard :
    (names : List Text) (card : Text) → find_card names ≡ some card → FirstCard names card
unfolding find_card
find_card-FirstCard [] card h = cc
find_card-FirstCard (name ∷ names) card h = elim (Bool-cases (starts_with (codes "card") name)) [
  | inl one ↦ inl (starts_with-Begins (codes "card") name one, some_injective (rw one at h))
  | inr other ↦ inr (
    λ begins. absurd (true-ne-false (sym (Begins-starts_with (codes "card") name begins) ∙ other)),
    find_card-FirstCard names card (rw other at h),
  )
]

FirstCard-find_card :
    (names : List Text) (card : Text) → FirstCard names card → find_card names ≡ some card
unfolding find_card
FirstCard-find_card [] card h = absurd h
FirstCard-find_card (name ∷ names) card (inl (one, e)) =
    rw (Begins-starts_with (codes "card") name one) (ap some e)
FirstCard-find_card (name ∷ names) card (inr (other, first)) =
    elim (Bool-cases (starts_with (codes "card") name)) [
      | inl one ↦ absurd (other (starts_with-Begins (codes "card") name one))
      | inr e ↦ rw e (FirstCard-find_card names card first)
    ]

behind_pcm :
    (rest : Text)
    → ends_with b'p' (codes "pcm" ++ rest) ≡ true
    → (middle : Text) × (rest ≡ middle ++ b'p' ∷ [])
unfolding ends_with
behind_pcm [] h = cc
behind_pcm (c ∷ rest) h = ends_with-last b'p' (c ∷ rest) h

is_playback-IsPlaybackPcm : (name : Text) → is_playback name ≡ true → IsPlaybackPcm name
unfolding starts_with is_playback
is_playback-IsPlaybackPcm name h =
    let (starts, ends) = both (starts_with (codes "pcm") name) (ends_with b'p' name) h in
    let (rest, e) = starts_with-Begins (codes "pcm") name starts in
    let (middle, e') = behind_pcm rest (rw e at ends) in
    (middle, e ∙ ap (λ (t : Text). codes "pcm" ++ t) e')

IsPlaybackPcm-is_playback : (name : Text) → IsPlaybackPcm name → is_playback name ≡ true
unfolding starts_with is_playback
IsPlaybackPcm-is_playback name (middle, e) =
    and_true (starts_with (codes "pcm") name) (ends_with b'p' name)
      (Begins-starts_with (codes "pcm") name (middle ++ b'p' ∷ [], e))
      (rw e (ends_with-append b'p' (codes "pcm" ++ middle)))

module _ (f : Files) where
  -- What sysfs and /proc/asound hold when the dongle's sound card plays.
  pub record Playing (proc_asound usb_device : Text) : Type 0 where
    pub card : Text
    pub pcms : List (Option Text)
    pub at_pcm : ℕ
    pub pcm : Text
    pub at_line : ℕ
    pub line : Text
    pub has_card : FirstCard (sounds f usb_device (entries_of (f.read_dir usb_device))) card
    pub lists_pcms : f.read_dir (f.join proc_asound card) ≡ some pcms
    pub has_pcm : get_elem? (readable pcms) at_pcm ≡ some pcm
    pub for_playback : IsPlaybackPcm pcm
    pub has_line : get_elem? (pcm_lines f (f.join proc_asound card) pcm) at_line ≡ some line
    pub says_running : trim line ≡ codes "state: RUNNING"

  found-Playing :
      (proc_asound usb_device card : Text) (pcms : List (Option Text))
      → sound_card f usb_device ≡ some card
      → f.read_dir (f.join proc_asound card) ≡ some pcms
      → any (plays f (f.join proc_asound card)) (readable pcms) ≡ true
      → Playing proc_asound usb_device
  unfolding pcm_running plays sound_card
  found-Playing proc_asound usb_device card pcms c d h =
      let dir = f.join proc_asound card in
      let (i, pcm, e, q) = any_at (plays f dir) (readable pcms) h in
      let (named, running) = both (is_playback pcm) (pcm_running f dir pcm) q in
      let (j, line, e', r) = any_at is_running_line (pcm_lines f dir pcm) running in
      record {
        card = card;
        pcms = pcms;
        at_pcm = i;
        pcm = pcm;
        at_line = j;
        line = line;
        has_card = find_card-FirstCard _ card c;
        lists_pcms = d;
        has_pcm = e;
        for_playback = is_playback-IsPlaybackPcm pcm named;
        has_line = e';
        says_running = (text_eq_iff (trim line) running_line).0 r;
      }

  runs_on :
      (proc_asound usb_device : Text)
      → card_running f proc_asound (sound_card f usb_device) ≡ some true
      → Playing proc_asound usb_device
  unfolding card_running listed_pcms
  runs_on proc_asound usb_device h = elim (Option-cases (sound_card f usb_device)) [
    | inl none_there ↦ cc (rw none_there at h)
    | inr (card, c) ↦
        let on_card = rw c at h in
        elim (Option-cases (f.read_dir (f.join proc_asound card))) [
          | inl unlisted ↦ cc (rw unlisted at on_card)
          | inr (pcms, d) ↦
              found-Playing proc_asound usb_device card pcms c d (some_injective (rw d at on_card))
        ]
  ]

  is_seen :
      (proc_asound usb_device : Text)
      → Playing proc_asound usb_device
      → card_running f proc_asound (sound_card f usb_device) ≡ some true
  unfolding card_running listed_pcms plays pcm_running sound_card
  is_seen proc_asound usb_device p =
      let dir = f.join proc_asound p.card in
      let running =
        any_of is_running_line (pcm_lines f dir p.pcm) p.at_line p.line p.has_line
          ((text_eq_iff (trim p.line) running_line).1 p.says_running) in
      let played = any_of (plays f dir) (readable p.pcms) p.at_pcm p.pcm p.has_pcm (
        and_true (is_playback p.pcm) (pcm_running f dir p.pcm)
          (IsPlaybackPcm-is_playback p.pcm p.for_playback) running) in
      let card_is : sound_card f usb_device ≡ some p.card =
        FirstCard-find_card _ p.card p.has_card in
      rw card_is (rw p.lists_pcms (ap some played))

  pub playback_running_iff :
      (proc_asound usb_device : Text)
      → (playback_running f proc_asound usb_device ≡ some true) ↔ Playing proc_asound usb_device
  unfolding playback_running
  playback_running_iff proc_asound usb_device =
      (runs_on proc_asound usb_device, is_seen proc_asound usb_device)
