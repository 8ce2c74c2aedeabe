-- ===== src/Button/Wait.antt =====
-- A wait for the user's presence over a sequence of polls: it is answered once, and it ends.
use pico_all.Base.{
  ℕ, zero, suc, ◌+◌, ◌≤◌, ◌≡◌, refl, sym, ap, ◌∙◌, subst, inl, inr, Bool, true, false, not, ◌&&◌,
  ◌||◌, List, [], ◌∷◌, ◌++◌, arith, leb, if◌then◌else◌, Bool-cases, length, length-append,
}
use pico_all.Button.{
  Button, ButtonEvent, ev_pressed, ev_timeout, ev_cancelled, ev_none, Output, queue_flag,
  led_notify, signal_emit, pressed_cb, sub32, see_press, poll_event, finish_wait,
  button_wait_poll_state,
}

-- Polls one after another, each with the reading of the button and the time.
abbrev pub polls : Button → List (Bool × ℕ) → Button × List Output
polls s [] = (s, [])
polls s ((pressed, now) ∷ ps) =
    let first = button_wait_poll_state s pressed now in
    let rest = polls first.0 ps in (rest.0, first.1 ++ rest.1)

-- The events that the card's queue gets.
abbrev pub flags : List Output → List ℕ
flags [] = []
flags (queue_flag n ∷ os) = n ∷ flags os
flags (_ ∷ os) = flags os

abbrev pub open_waits : Button → ℕ
open_waits s = if s.async_button_wait then 1 else 0

flags-append : (xs ys : List Output) → flags (xs ++ ys) ≡ flags xs ++ flags ys
flags-append [] ys = refl
flags-append (queue_flag n ∷ xs) ys = ap (λ (l : List ℕ). n ∷ l) (flags-append xs ys)
flags-append (led_notify e ∷ xs) ys = flags-append xs ys
flags-append (signal_emit e ∷ xs) ys = flags-append xs ys
flags-append (pressed_cb n ∷ xs) ys = flags-append xs ys

pub if_fails {ℓ} : {A : Type ℓ} (b : Bool) (x y : A) → b ≡ false → (if not b then x else y) ≡ x
if_fails true x y h = ground arith
if_fails false x y h = refl

pub if_holds {ℓ} : {A : Type ℓ} (b : Bool) (x y : A) → b ≡ true → (if not b then x else y) ≡ y
if_holds true x y h = refl
if_holds false x y h = ground arith

-- Remembering a press changes nothing else.
see_press-keeps {ℓ} :
    {A : Type ℓ} (s : Button) (pressed : Bool) (now : ℕ) (field : Button → A)
    → ((t : ℕ)
        → field (record s { async_button_pressed = true; async_button_pressed_at = t }) ≡ field s)
    → field (see_press s pressed now) ≡ field s
see_press-keeps s pressed now field h = go (not s.async_button_pressed && pressed)
  where
    go :
        (b : Bool)
        → field (
            if b
            then record s { async_button_pressed = true; async_button_pressed_at = now }
            else s)
          ≡ field s
    go true = h now
    go false = refl

pub poll_still :
    (s : Button) (pressed : Bool) (now : ℕ)
    → s.async_button_wait ≡ false
    → button_wait_poll_state s pressed now ≡ (s, [])
unfolding button_wait_poll_state
poll_still s pressed now h = if_fails s.async_button_wait _ _ h

pub poll_open :
    (s : Button) (pressed : Bool) (now : ℕ)
    → s.async_button_wait ≡ true
    → button_wait_poll_state s pressed now
      ≡ finish_wait (see_press s pressed now) (poll_event (see_press s pressed now) pressed now)
unfolding button_wait_poll_state
poll_open s pressed now h = if_holds s.async_button_wait _ _ h

finish_wait-balance :
    (s : Button) (e : ButtonEvent)
    → s.async_button_wait ≡ true
    → length (flags (finish_wait s e).1) + open_waits (finish_wait s e).0 ≡ 1
finish_wait-balance s ev_none h = ap (λ b. 0 + (if b then 1 else 0)) h
finish_wait-balance s ev_pressed h = refl
finish_wait-balance s ev_timeout h = refl
finish_wait-balance s ev_cancelled h = refl

poll-balance :
    (s : Button) (pressed : Bool) (now : ℕ)
    → length (flags (button_wait_poll_state s pressed now).1)
        + open_waits (button_wait_poll_state s pressed now).0
      ≡ open_waits s
poll-balance s pressed now = elim (Bool-cases s.async_button_wait) [
  | inl waits ↦
      ap (λ (o : Button × List Output). length (flags o.1) + open_waits o.0)
        (poll_open s pressed now waits)
      ∙ finish_wait-balance (see_press s pressed now) _
          (see_press-keeps s pressed now (λ t. t.async_button_wait) (λ t. refl) ∙ waits)
      ∙ sym (ap (λ b. if b then 1 else 0) waits)
  | inr idle ↦
      ap (λ (o : Button × List Output). length (flags o.1) + open_waits o.0)
        (poll_still s pressed now idle)
      ∙ omega arith
]

-- Over any polls the events that the queue gets and the waits that are on behind them are as many
-- as the waits that were on: a wait is answered once, and none is answered that is not on.
pub polls-balance :
    (s : Button) (ps : List (Bool × ℕ))
    → length (flags (polls s ps).1) + open_waits (polls s ps).0 ≡ open_waits s
polls-balance s [] = omega arith
polls-balance s ((pressed, now) ∷ ps) =
    let first = button_wait_poll_state s pressed now in
    let rest = polls first.0 ps in
    omega (
      arith,
      poll-balance s pressed now,
      polls-balance first.0 ps,
      ap (λ (l : List ℕ). length l) (flags-append first.1 rest.1),
      length-append (flags first.1) (flags rest.1),
    )

-- A poll does not move the start or the limit of a wait.
abbrev limits : Button → ℕ × ℕ
limits s = (s.async_button_started, s.async_button_timeout)

finish_wait-limits : (s : Button) (e : ButtonEvent) → limits (finish_wait s e).0 ≡ limits s
finish_wait-limits s ev_none = refl
finish_wait-limits s ev_pressed = refl
finish_wait-limits s ev_timeout = refl
finish_wait-limits s ev_cancelled = refl

poll-limits :
    (s : Button) (pressed : Bool) (now : ℕ)
    → limits (button_wait_poll_state s pressed now).0 ≡ limits s
poll-limits s pressed now = elim (Bool-cases s.async_button_wait) [
  | inl waits ↦
      ap (λ (o : Button × List Output). limits o.0) (poll_open s pressed now waits)
      ∙ finish_wait-limits (see_press s pressed now) _
      ∙ see_press-keeps s pressed now limits (λ t. refl)
  | inr idle ↦ ap (λ (o : Button × List Output). limits o.0) (poll_still s pressed now idle)
]

abbrev over : ℕ × ℕ → ℕ → Bool
over l now = leb l.1 (sub32 now l.0)

poll_event-over :
    (s : Button) (pressed : Bool) (now : ℕ)
    → over (limits s) now ≡ true
    → (finish_wait s (poll_event s pressed now)).0.async_button_wait ≡ false
unfolding poll_event
poll_event-over s pressed now h = closes s.cancel_button (over (limits s) now) _ _ h
  where
    closes :
        (c t u : Bool) (e : ButtonEvent)
        → t ≡ true
        → (finish_wait s
            (if c then ev_cancelled else if t || u then ev_timeout else e)).0.async_button_wait
          ≡ false
    closes true t u e h = refl
    closes false true u e h = refl
    closes false false u e h = ground arith

open_closed : (b : Bool) → (if b then suc zero else zero) ≡ zero → b ≡ false
open_closed true h = ground arith
open_closed false h = refl

polls_closed :
    (s : Button) (ps : List (Bool × ℕ))
    → s.async_button_wait ≡ false
    → (polls s ps).0.async_button_wait ≡ false
polls_closed s ps h =
    open_closed _
      (omega (arith, polls-balance s ps, ap {B = ℕ} (λ (b : Bool). if b then 1 else 0) h))

-- A wait is over behind a poll at which its time has passed, whatever the polls before and behind
-- it.
pub polls_end :
    (s : Button) (ps qs : List (Bool × ℕ)) (pressed : Bool) (now : ℕ)
    → s.async_button_timeout ≤ sub32 now s.async_button_started
    → (polls s (ps ++ (pressed, now) ∷ qs)).0.async_button_wait ≡ false
polls_end s [] qs pressed now h = polls_closed _ qs (elim (Bool-cases s.async_button_wait) [
  | inl waits ↦
      ap (λ (o : Button × List Output). o.0.async_button_wait) (poll_open s pressed now waits)
      ∙ poll_event-over (see_press s pressed now) pressed now
          (ap (λ l. over l now) (see_press-keeps s pressed now limits (λ t. refl)) ∙ ground arith)
  | inr idle ↦
      ap (λ (o : Button × List Output). o.0.async_button_wait) (poll_still s pressed now idle)
      ∙ idle
])
polls_end s ((p, t) ∷ ps) qs pressed now h =
    polls_end (button_wait_poll_state s p t).0 ps qs pressed now
      (subst (λ (l : ℕ × ℕ). l.1 ≤ sub32 now l.0) (sym (poll-limits s p t)) h)
