-- ===== src/Maxwell/Session/Budget.antt =====
-- The request budget: how many requests a session may send to a dongle that says nothing, whatever
-- its transfers answer and however often the reader passes.
use headset_battery_indicato.Prelude.{
  ℕ, zero, suc, ◌+◌, ◌-◌, ◌*◌, ◌/◌, ◌≤◌, ◌<◌, ◌≡◌, refl, inl, inr, Bool, true, false, Option, none,
  some, List, arith, Bool-cases,
}
use headset_battery_indicato.Prelude.Outcome.{Result, ok, err}
use headset_battery_indicato.Time.{Duration, Instant}
use headset_battery_indicato.Maxwell.Session.{
  Hidraw, Dongle, Session, Link, unknown, up, down, opened, take_messages, take_in, retry_delay,
  due, should_ask, ask, ask_if_due, listen, received, request, answer_buffer, ask_idle_retry,
}

abbrev pub grown : {E : Type 0} → Result E (Unit {0}) → ℕ → ℕ
grown (ok done) n = suc n
grown (err e) n = n

-- A count of the requests written to a device, as an observer on the bus would keep it.
pub record Meter (h : Hidraw) : Type 0 where
  pub written : h.Device → ℕ
  pub written-get_input :
      (d : h.Device) (buffer : List ℕ) → written (h.get_input d buffer).0 ≡ written d
  pub written-write :
      (d : h.Device) (bytes : List ℕ)
      → written (h.write d bytes).0 ≡ grown (h.write d bytes).1 (written d)

-- Nothing was heard: the report said nothing, or could not be fetched.
abbrev pub IsQuiet : {E : Type 0} → Result E Bool → Type 0
IsQuiet (ok heard) = heard ≡ false
IsQuiet (err e) = Unit {0}

module _ (h : Hidraw) (interval listen_first : Duration) where
  abbrev pub asked : Result h.IoError Bool → Session h.Device → Instant → Session h.Device
  asked (ok heard) s now = (ask_if_due h s now interval listen_first).0
  asked (err e) s now = s

  -- What a pass of `Reader::listen_to` does to its session.
  unfoldable pub pass : Session h.Device → ℕ → Instant → Session h.Device
  pass s readings now = let (s', readings', heard) = listen h s readings in asked heard s' now

  -- A history of passes, at instants that do not go back, none of which heard anything.
  pub data Quiet (s₀ : Session h.Device) (t₀ : Instant)
      : ℕ → Session h.Device → Instant → Type 0 where
    start : Quiet s₀ t₀ zero s₀ t₀
    again :
        {k : ℕ} {s : Session h.Device} {t : Instant} (readings : ℕ) (now : Instant)
        → Quiet s₀ t₀ k s t
        → t ≤ now
        → IsQuiet (listen h s readings).2
        → Quiet s₀ t₀ (suc k) (pass s readings now) now

-- What the clock and the counters of a quiet session say of each other.
abbrev pub Spaced : Link → Option Instant → ℕ → Bool → ℕ → Instant → Instant → Type 0
Spaced link none asks pending unanswered t₀ now = (asks ≡ 0) × (pending ≡ false) × (unanswered ≡ 0)
Spaced unknown (some at) asks pending unanswered t₀ now =
    (t₀ + (asks - 3) * ask_idle_retry ≤ at) × (at ≤ now)
Spaced up (some at) asks pending unanswered t₀ now =
    (t₀ ≤ at)
    × (at ≤ now)
    × (asks ≤ 3)
    × (pending ≡ true)
    × (asks ≤ unanswered + 1)
    × (unanswered ≤ 2)
Spaced down (some at) asks pending unanswered t₀ now = (asks ≤ 1) × (t₀ ≤ at) × (at ≤ now)

module _ (h : Hidraw) (m : Meter h) (base t₀ : ℕ) where
  pub record InBudget (k : ℕ) (t : Instant) (s : Session h.Device) : Type 0 where
    pub counted : m.written s.device ≡ base + s.asks
    pub few : s.asks ≤ k
    pub begun : t₀ ≤ t
    pub spaced : Spaced s.link_state s.asked_at s.asks s.pending s.unanswered t₀ t

pub retry_delay_idle : (asks : ℕ) → 3 ≤ asks → retry_delay asks ≡ ask_idle_retry
unfolding retry_delay
retry_delay_idle zero l = refl
retry_delay_idle (suc zero) l = absurd (omega arith)
retry_delay_idle (suc (suc zero)) l = absurd (omega arith)
retry_delay_idle (suc (suc (suc n))) l = refl

-- A listening that heard nothing leaves the session as it was, but for its device.
listen_quiet :
    (h : Hidraw) (s : Session h.Device) (readings : ℕ)
    → IsQuiet (listen h s readings).2
    → (listen h s readings).0 ≡ record s { device = (h.get_input s.device answer_buffer).0 }
unfolding listen received take_in take_messages
listen_quiet h s readings q = ground arith

abbrev pub limit : ℕ
limit = 4_294_967_295

module _ (h : Hidraw) (m : Meter h) (base t₀ k : ℕ) (t now : Instant) (ordered : t ≤ now)
    (room : k < limit) where
  ask-InBudget :
      (s : Session h.Device) (interval listen_first : Duration)
      → InBudget h m base t₀ k t s
      → should_ask s now interval listen_first ≡ true
      → InBudget h m base t₀ (suc k) now (ask h s now).0
  unfolding should_ask due ask
  ask-InBudget s interval listen_first b d =
      ground (arith, m.written-write s.device request, retry_delay_idle s.asks)

  waited-InBudget :
      (s : Session h.Device) → InBudget h m base t₀ k t s → InBudget h m base t₀ (suc k) now s
  waited-InBudget s b = ground arith

  listened-InBudget :
      (s : Session h.Device)
      → InBudget h m base t₀ k t s
      → InBudget h m base t₀ k t (record s { device = (h.get_input s.device answer_buffer).0 })
  listened-InBudget s b = ground (arith, m.written-get_input s.device answer_buffer)

  ask_if_due-InBudget :
      (s : Session h.Device) (interval listen_first : Duration)
      → InBudget h m base t₀ k t s
      → InBudget h m base t₀ (suc k) now (ask_if_due h s now interval listen_first).0
  unfolding ask_if_due
  ask_if_due-InBudget s interval listen_first b =
      elim (Bool-cases (should_ask s now interval listen_first)) [
        | inl e ↦ rw e (ask-InBudget s interval listen_first b e)
        | inr e ↦ rw e (waited-InBudget s b)
      ]

  asked-InBudget :
      (s : Session h.Device) (interval listen_first : Duration) (r : Result h.IoError Bool)
      → InBudget h m base t₀ k t s
      → InBudget h m base t₀ (suc k) now (asked h interval listen_first r s now)
  asked-InBudget s interval listen_first (ok heard) b =
      ask_if_due-InBudget s interval listen_first b
  asked-InBudget s interval listen_first (err e) b = waited-InBudget s b

  pub pass-InBudget :
      (s : Session h.Device) (readings : ℕ) (interval listen_first : Duration)
      → InBudget h m base t₀ k t s
      → IsQuiet (listen h s readings).2
      → InBudget h m base t₀ (suc k) now (pass h interval listen_first s readings now)
  unfolding pass
  pass-InBudget s readings interval listen_first b q =
      rw (listen_quiet h s readings q)
        (asked-InBudget _ interval listen_first (listen h s readings).2 (listened-InBudget s b))

-- A session that was just opened has asked nothing.
pub opened-InBudget :
    (h : Hidraw) (m : Meter h) (d : h.Device) (dongle : Dongle) (belief : Link) (t₀ at : Instant)
    → InBudget h m (m.written d) t₀ 0 t₀ (opened d dongle belief at)
unfolding opened
opened-InBudget h m d dongle belief t₀ at = ground arith

pub InBudget-le :
    (h : Hidraw) (m : Meter h) (base t₀ k : ℕ) (t : Instant) (s : Session h.Device)
    → InBudget h m base t₀ k t s
    → m.written s.device ≤ base + 3 + (t - t₀) / ask_idle_retry
InBudget-le h m base t₀ k t s b = ground arith

module _ (h : Hidraw) (m : Meter h) (interval listen_first : Duration) where
  Quiet-InBudget :
      (d : h.Device) (dongle : Dongle) (belief : Link) (opened_at t₀ : Instant) {k : ℕ}
      {s : Session h.Device} {t : Instant}
      → Quiet h interval listen_first (opened d dongle belief opened_at) t₀ k s t
      → k ≤ limit
      → InBudget h m (m.written d) t₀ k t s
  Quiet-InBudget d dongle belief opened_at t₀ start l =
      opened-InBudget h m d dongle belief t₀ opened_at
  Quiet-InBudget d dongle belief opened_at t₀ (again {k = k} {s = s} {t = t} readings now past o q)
        l =
      pass-InBudget h m _ _ k t now o (omega arith) s readings interval listen_first
        (Quiet-InBudget d dongle belief opened_at t₀ past (omega arith)) q

  -- A session that hears nothing for less than 2^32 passes has written at most three requests, and
  -- one more for every ten minutes since the passes began: whatever the link was believed to be, the
  -- instant that the session took for that of its opening, the cadence, the instants of the passes
  -- and the results of the transfers.
  pub Quiet-budget :
      (d : h.Device) (dongle : Dongle) (belief : Link) (opened_at t₀ : Instant) {k : ℕ}
      {s : Session h.Device} {t : Instant}
      → Quiet h interval listen_first (opened d dongle belief opened_at) t₀ k s t
      → k ≤ limit
      → m.written s.device ≤ m.written d + 3 + (t - t₀) / ask_idle_retry
  Quiet-budget d dongle belief opened_at t₀ {k = k} {s = s} {t = t} q l =
      InBudget-le h m (m.written d) t₀ k t s (Quiet-InBudget d dongle belief opened_at t₀ q l)

gone-InBudget :
    (h : Hidraw) (m : Meter h) (base t₀ k : ℕ) (t : Instant) (s : Session h.Device)
    → InBudget h m base t₀ k t s
    → s.link_state ≡ down
    → m.written s.device ≤ base + 1
gone-InBudget h m base t₀ k t s b e = ground arith

module _ (h : Hidraw) (interval listen_first : Duration) where
  asked-down :
      (s : Session h.Device) (now : Instant) (r : Result h.IoError Bool)
      → s.link_state ≡ down
      → (asked h interval listen_first r s now).link_state ≡ down
  unfolding ask_if_due
  asked-down s now (ok heard) e = ground arith
  asked-down s now (err x) e = e

  pass-down :
      (s : Session h.Device) (readings : ℕ) (now : Instant)
      → s.link_state ≡ down
      → IsQuiet (listen h s readings).2
      → (pass h interval listen_first s readings now).link_state ≡ down
  unfolding pass
  pass-down s readings now e q =
      rw (listen_quiet h s readings q) (asked-down _ now (listen h s readings).2 e)

  Quiet-down :
      {s₀ : Session h.Device} {t₀ : Instant} {k : ℕ} {s : Session h.Device} {t : Instant}
      → s₀.link_state ≡ down
      → Quiet h interval listen_first s₀ t₀ k s t
      → s.link_state ≡ down
  Quiet-down e start = e
  Quiet-down e (again {s = s} readings now past o q) =
      pass-down s readings now (Quiet-down e past) q

  -- A session opened in the belief that the headset is gone writes one request at most while it
  -- hears nothing, however long that lasts, over fewer than 2^32 passes, whatever instant it took
  -- for that of its opening.
  pub gone_asked_once :
      (m : Meter h) (d : h.Device) (dongle : Dongle) (opened_at t₀ : Instant) {k : ℕ}
      {s : Session h.Device} {t : Instant}
      → Quiet h interval listen_first (opened d dongle down opened_at) t₀ k s t
      → k ≤ limit
      → m.written s.device ≤ m.written d + 1
  unfolding opened
  gone_asked_once m d dongle opened_at t₀ {s = s} q l =
      gone-InBudget h m (m.written d) t₀ _ _ s
        (Quiet-InBudget h m interval listen_first d dongle down opened_at t₀ q l)
        (Quiet-down refl q)
