-- ===== src/Button/Press.antt =====
-- What a wait answers before its limits: a press that is followed by a release.
use pico_all.Button.Wait.{polls, flags, poll_open, polls-balance}
use pico_all.Base.{
  ℕ, ◌<◌, ◌≡◌, refl, ap, ◌∙◌, Bool, true, false, not, ◌&&◌, ◌||◌, List, [], ◌∷◌, ◌++◌, arith, leb,
  if◌then◌else◌, length,
}
use pico_all.Button.{
  Button, ev_pressed, ev_timeout, ev_cancelled, ev_none, Output, sub32, see_press, poll_event,
  finish_wait, button_wait_poll_state,
}

-- Whether the readings show the button pressed, and later not pressed; `seen` that it was pressed.
abbrev pub released_after_press : Bool → List (Bool × ℕ) → Bool
released_after_press seen [] = false
released_after_press seen ((true, now) ∷ ps) = released_after_press true ps
released_after_press true ((false, now) ∷ ps) = true
released_after_press false ((false, now) ∷ ps) = released_after_press false ps

-- The limits of `button_wait_poll_state` at each poll up to the release, as differences of the
-- clock's `uint32_t`: the timeout counts from the start of the wait, the 15 seconds count from the
-- press, which is at `at` when the button was seen pressed.
abbrev pub InTime : ℕ → ℕ → Bool → ℕ → List (Bool × ℕ) → Type 0
InTime started timeout seen at [] = Unit {0}
InTime started timeout true at ((true, now) ∷ ps) =
    (sub32 now started < timeout) × (sub32 now at < 15000) × InTime started timeout true at ps
InTime started timeout true at ((false, now) ∷ ps) =
    (sub32 now started < timeout) × (sub32 now at < 15000)
InTime started timeout false at ((true, now) ∷ ps) =
    (sub32 now started < timeout) × InTime started timeout true now ps
InTime started timeout false at ((false, now) ∷ ps) =
    (sub32 now started < timeout) × InTime started timeout false at ps

event_within :
    (s : Button) (pressed : Bool) (now : ℕ) (seen : Bool)
    → s.cancel_button ≡ false
    → s.async_button_pressed ≡ seen
    → sub32 now s.async_button_started < s.async_button_timeout
    → (seen ≡ true → sub32 now s.async_button_pressed_at < 15000)
    → poll_event s pressed now ≡ (if seen && not pressed then ev_pressed else ev_none)
unfolding poll_event
event_within s pressed now seen c p before held =
    neither s.cancel_button (leb s.async_button_timeout (sub32 now s.async_button_started))
      (leb 15000 (sub32 now s.async_button_pressed_at)) s.async_button_pressed seen (not pressed) c
      (ground (arith, before)) p (λ e. at_once (sub32 now s.async_button_pressed_at) (held e))
  where
    at_once : (n : ℕ) → n < 15000 → leb 15000 n ≡ false
    at_once n lt = ground arith

    neither :
        (c t h p b u : Bool)
        → c ≡ false
        → t ≡ false
        → p ≡ b
        → (b ≡ true → h ≡ false)
        → (if c
            then ev_cancelled
            else if t || p && h
            then ev_timeout
            else if p && u
            then ev_pressed
            else ev_none)
          ≡ (if b && u then ev_pressed else ev_none)
    neither true t h p b u hc ht hp hh = ground arith
    neither false true h p b u hc ht hp hh = ground arith
    neither false false h true true u hc ht hp hh = rw (hh refl) refl
    neither false false h true false u hc ht hp hh = ground arith
    neither false false h false true u hc ht hp hh = ground arith
    neither false false h false false u hc ht hp hh = refl

poll_within :
    (s s' : Button) (pressed : Bool) (now : ℕ) (seen : Bool)
    → s.async_button_wait ≡ true
    → see_press s pressed now ≡ s'
    → poll_event s' pressed now ≡ (if seen && not pressed then ev_pressed else ev_none)
    → button_wait_poll_state s pressed now
      ≡ finish_wait s' (if seen && not pressed then ev_pressed else ev_none)
poll_within s s' pressed now seen waits saw decided =
    poll_open s pressed now waits
    ∙ ap (λ t. finish_wait t (poll_event t pressed now)) saw
    ∙ ap (λ e. finish_wait s' e) decided

-- The state with the press that was seen at a time.
abbrev pressed_at : Button → ℕ → Button
pressed_at s now = record s { async_button_pressed = true; async_button_pressed_at = now }

see_press-again :
    (s : Button) (pressed : Bool) (now : ℕ)
    → s.async_button_pressed ≡ true
    → see_press s pressed now ≡ s
see_press-again s pressed now e =
    ap (λ (b : Bool). if not b && pressed then pressed_at s now else s) e

see_press-first :
    (s : Button) (now : ℕ)
    → s.async_button_pressed ≡ false
    → see_press s true now ≡ pressed_at s now
see_press-first s now e = ap (λ (b : Bool). if not b && true then pressed_at s now else s) e

see_press-up : (s : Button) (now : ℕ) → see_press s false now ≡ s
see_press-up s now = go s.async_button_pressed
  where
    go : (b : Bool) → (if not b && false then pressed_at s now else s) ≡ s
    go true = refl
    go false = refl

-- Without a wait the polls do nothing.
polls_idle :
    (s : Button) (ps : List (Bool × ℕ)) → s.async_button_wait ≡ false → flags (polls s ps).1 ≡ []
polls_idle s ps h =
    nothing _ (omega (arith, polls-balance s ps, ap {B = ℕ} (λ (b : Bool). if b then 1 else 0) h))
  where
    nothing : (l : List ℕ) → length l ≡ 0 → l ≡ []
    nothing [] e = refl
    nothing (x ∷ l) e = absurd (omega (arith, e))

abbrev pub answer : Bool → List ℕ
answer b = if b then 32 ∷ [] else []

-- What the queue gets from a poll and those behind it.
after : Button × List Output → List (Bool × ℕ) → List ℕ
after first ps = flags (first.1 ++ (polls first.0 ps).1)

answered :
    (ps : List (Bool × ℕ)) (s : Button) (seen : Bool)
    → s.async_button_wait ≡ true
    → s.cancel_button ≡ false
    → s.async_button_pressed ≡ seen
    → InTime s.async_button_started s.async_button_timeout seen s.async_button_pressed_at ps
    → flags (polls s ps).1 ≡ answer (released_after_press seen ps)
unfolding after
answered [] s seen w c e h = refl
answered ((true, now) ∷ ps) s true w c e (before, held, h) =
    ap (λ first. after first ps)
      (poll_within s s true now true w (see_press-again s true now e)
        (event_within s true now true c e before (λ _. held)))
    ∙ answered ps s true w c e h
answered ((false, now) ∷ ps) s true w c e (before, held) =
    ap (λ first. after first ps)
      (poll_within s s false now true w (see_press-again s false now e)
        (event_within s false now true c e before (λ _. held)))
    ∙ ap (λ (l : List ℕ). 32 ∷ l) (polls_idle (finish_wait s ev_pressed).0 ps refl)
answered ((true, now) ∷ ps) s false w c e (before, h) =
    ap (λ first. after first ps)
      (poll_within s (pressed_at s now) true now true w (see_press-first s now e)
        (event_within (pressed_at s now) true now true c refl before (λ _. no_time now)))
    ∙ answered ps (pressed_at s now) true w c refl h
  where
    no_time : (n : ℕ) → sub32 n n < 15000
    no_time n = omega arith
answered ((false, now) ∷ ps) s false w c e (before, h) =
    ap (λ first. after first ps)
      (poll_within s s false now false w (see_press-up s now)
        (event_within s false now false c e before (λ b. ground (arith, b))))
    ∙ answered ps s false w c e h

-- For a wait that is on and not cancelled, and polls that are, up to the release, within its
-- timeout from the start of the wait and within 15 seconds from the press, by a clock that may wrap
-- around: the queue gets the event of a press, and no other, exactly when the button was seen
-- pressed, before or during the polls, and later not pressed.
pub polls-released_after_press :
    (ps : List (Bool × ℕ)) (s : Button)
    → s.async_button_wait ≡ true
    → s.cancel_button ≡ false
    → InTime s.async_button_started s.async_button_timeout s.async_button_pressed
        s.async_button_pressed_at ps
    → flags (polls s ps).1 ≡ answer (released_after_press s.async_button_pressed ps)
polls-released_after_press ps s w c h = answered ps s s.async_button_pressed w c refl h
