-- ===== src/Maxwell/Session/Mute.antt =====
-- Giving up on a headset that is reported linked but does not answer.
use headset_battery_indicato.Prelude.{
  ℕ, ◌+◌, ◌-◌, ◌≤◌, ◌<◌, ◌≡◌, refl, Bool, true, false, none, arith, leb, if◌then◌else◌,
}
use headset_battery_indicato.Prelude.Outcome.{ok, err}
use headset_battery_indicato.Time.{Duration, Instant, from_secs}
use headset_battery_indicato.Maxwell.Session.Budget.{Meter, retry_delay_idle, limit}
use headset_battery_indicato.Maxwell.Session.{
  Hidraw, Session, unknown, up, due, should_ask, retry_delay, ask, request, ask_idle_retry,
}

-- The strikes against a session once it is asked again.
abbrev struck : Bool → ℕ → ℕ
struck pending unanswered = if pending then unanswered + 1 else unanswered

module _ (h : Hidraw) (m : Meter h) (takes : (d : h.Device) → (h.write d request).1 ≡ ok tt) where
  -- A linked session with fewer than three strikes writes one request.
  record Asked (s s' : Session h.Device) : Type 0 where
    linked : s'.link_state ≡ up
    open_request : s'.pending ≡ true
    strikes : s'.unanswered ≡ struck s.pending s.unanswered
    counted : s'.asks ≡ s.asks + 1
    one_more : m.written s'.device ≡ m.written s.device + 1

  ask-Asked :
      (s : Session h.Device) (now : Instant)
      → s.link_state ≡ up
      → struck s.pending s.unanswered < 3
      → s.asks < limit
      → Asked s (ask h s now).0
  unfolding ask
  ask-Asked s now l few room = ground (arith, takes s.device, m.written-write s.device request)

  given_up :
      (s : Session h.Device) (now later : Instant) (interval listen_first : Duration)
      → s.link_state ≡ up
      → s.pending ≡ true
      → s.unanswered ≡ 2
      → 3 ≤ s.asks
      → let s' = (ask h s now).0 in
        (s'.device ≡ s.device)
        × (s'.link_state ≡ unknown)
        × (s'.level ≡ none)
        × (should_ask s' later interval listen_first ≡ leb ask_idle_retry (later - now))
  unfolding ask should_ask due
  given_up s now later interval listen_first l p u a = ground (arith, retry_delay_idle s.asks)

  -- A session that believes its headset linked, with no request open and no strike against it, is
  -- asked four times while nothing is heard and every write goes through. Three requests are
  -- written, after which the link is still believed to be up. The fourth time nothing is written:
  -- the level and the belief are forgotten, and the next question comes exactly after
  -- `ASK_IDLE_RETRY`, if nothing else is heard and the 32-bit count of requests does not wrap.
  pub unanswered_gives_up :
      (s : Session h.Device) (first second third now later : Instant)
      (interval listen_first : Duration)
      → s.link_state ≡ up
      → s.pending ≡ false
      → s.unanswered ≡ 0
      → s.asks + 3 ≤ limit
      → let s₃ = (ask h (ask h (ask h s first).0 second).0 third).0 in
        let s' = (ask h s₃ now).0 in
        (s₃.link_state ≡ up)
        × (m.written s₃.device ≡ m.written s.device + 3)
        × (m.written s'.device ≡ m.written s.device + 3)
        × (s'.link_state ≡ unknown)
        × (s'.level ≡ none)
        × (should_ask s' later interval listen_first ≡ leb ask_idle_retry (later - now))
  unanswered_gives_up s first second third now later interval listen_first l p u room =
      let s₁ = (ask h s first).0 in
      let s₂ = (ask h s₁ second).0 in
      let s₃ = (ask h s₂ third).0 in
      let a₁ = ask-Asked s first l (ground arith) (omega arith) in
      let k₁ : s₁.unanswered ≡ 0 = ground (arith, a₁.strikes) in
      let a₂ =
        ask-Asked s₁ second a₁.linked (ground (arith, a₁.open_request))
          (ground (arith, a₁.counted)) in
      let k₂ : s₂.unanswered ≡ 1 = ground (arith, a₂.strikes, a₁.open_request) in
      let a₃ =
        ask-Asked s₂ third a₂.linked (ground (arith, a₂.open_request))
          (ground (arith, a₂.counted, a₁.counted)) in
      let k₃ : s₃.unanswered ≡ 2 = ground (arith, a₃.strikes, a₂.open_request) in
      let wrote : m.written s₃.device ≡ m.written s.device + 3 =
        omega (arith, a₁.one_more, a₂.one_more, a₃.one_more) in
      let (same, forgot, no_level, slow) =
        given_up s₃ now later interval listen_first a₃.linked a₃.open_request k₃
          (ground (arith, a₁.counted, a₂.counted, a₃.counted)) in
      (a₃.linked, wrote, rw same wrote, forgot, no_level, slow)

module _ (h : Hidraw) where
  -- The attempt that fails is one more strike against the headset.
  failed_write_strikes :
      (s : Session h.Device) (now : Instant) (e : h.IoError)
      → h.write s.device request ≡ (s.device, err e)
      → s.pending ≡ true
      → s.unanswered < 2
      → ask h s now ≡ (record s { unanswered = s.unanswered + 1 }, err e)
  unfolding ask
  failed_write_strikes s now e w p u = ground arith

  gives_up_at_two :
      (s : Session h.Device) (now later : Instant) (interval listen_first : Duration)
      → s.link_state ≡ up
      → s.pending ≡ true
      → s.unanswered ≡ 2
      → s.asks ≡ 1
      → let s' = (ask h s now).0 in
        ((ask h s now).1 ≡ ok tt)
        × (s'.link_state ≡ unknown)
        × (s'.asks ≡ 1)
        × (should_ask s' later interval listen_first ≡ leb (from_secs 10) (later - now))
  unfolding ask should_ask due retry_delay
  gives_up_at_two s now later interval listen_first l p u a = ground arith

  -- The other way to give up, while every write fails with the same error. With one request out,
  -- two attempts to write the next fail and are reported; the third time nothing is attempted and
  -- no error reported: the session gives up, with one request counted, so that it asks again after
  -- the ten seconds of a quick question instead of `ASK_IDLE_RETRY`.
  pub failed_writes_give_up :
      (s : Session h.Device) (first second now later : Instant) (interval listen_first : Duration)
      → (e : h.IoError) → h.write s.device request ≡ (s.device, err e)
      → s.link_state ≡ up
      → s.pending ≡ true
      → s.unanswered ≡ 0
      → s.asks ≡ 1
      → let s₁ = (ask h s first).0 in
        let s₂ = (ask h s₁ second).0 in
        let s' = (ask h s₂ now).0 in
        ((ask h s first).1 ≡ err e)
        × ((ask h s₁ second).1 ≡ err e)
        × ((ask h s₂ now).1 ≡ ok tt)
        × (s'.link_state ≡ unknown)
        × (s'.asks ≡ 1)
        × (should_ask s' later interval listen_first ≡ leb (from_secs 10) (later - now))
  failed_writes_give_up s first second now later interval listen_first e w l p u a =
      let s₁ = record s { unanswered = s.unanswered + 1 } in
      let s₂ = record s { unanswered = s.unanswered + 1 + 1 } in
      let one : ask h s first ≡ (s₁, err e) = failed_write_strikes s first e w p (omega arith) in
      let two : ask h s₁ second ≡ (s₂, err e) =
        failed_write_strikes s₁ second e w p (omega arith) in
      let (silent, unsure, counted, quick) =
        gives_up_at_two s₂ now later interval listen_first l p (omega arith) a in
      rw (one, two) (refl, refl, silent, unsure, counted, quick)
