-- ===== src/Button/Task.antt =====
-- `button_task`: how long the button is held, and the count of presses that the callback gets.
use pico_all.Base.{
  ℕ, ◌+◌, ◌%◌, Bool, true, false, not, ◌&&◌, ◌||◌, Option, none, some, List, [], ◌∷◌, ltb, leb,
  ◌==◌, if◌then◌else◌,
}
use pico_all.Button.{Button, Output, pressed_cb, sub32, add32, button_wait_poll_state}

-- How long the button is held.
unfoldable pub hold_step : Button → Bool → ℕ → Button
hold_step s current now =
    if current && not s.button_hold_state
    then record s { button_hold_started = now; button_pressed_duration = 0 }
    else if not current && s.button_hold_state
    then record s {
      button_pressed_duration =
          if s.button_hold_started == 0 then 0 else sub32 now s.button_hold_started;
      button_hold_started = 0;
    }
    else if current && s.button_hold_state && not (s.button_hold_started == 0)
    then record s { button_pressed_duration = sub32 now s.button_hold_started }
    else s

-- A release that comes in time counts as one more press (a `uint8_t`).
unfoldable pub press_step : Button → Bool → ℕ → Button
press_step s current now =
    let counted =
      if s.button_pressed_time == 0 || ltb now (add32 s.button_pressed_time 1000)
      then (s.button_press + 1) % 256
      else s.button_press in
    if (current && s.button_pressed_state) || (not current && not s.button_pressed_state)
    then s
    else if current
    then record s { button_pressed_state = true }
    else record s {
      button_press = counted;
      button_pressed_time = now;
      button_pressed_state = false;
    }

-- A second after the last release the callback gets the count.
unfoldable pub report_step : Button → ℕ → Button × List Output
report_step s now =
    if ltb 0 s.button_pressed_time
      && ltb 0 s.button_press
      && ltb (add32 s.button_pressed_time 1000) now
      && not s.button_pressed_state
    then (record s { button_pressed_time = 0; button_press = 0 }, pressed_cb s.button_press ∷ [])
    else (s, [])

-- What the task does with a reading while no wait is on.
unfoldable pub idle_step : Bool → Button → Bool → ℕ → Button × List Output
unfolding hold_step press_step report_step
idle_step has_callback s current now =
    let held = record (hold_step s current now) { button_hold_state = current } in
    if has_callback then report_step (press_step held current now) now else (held, [])

-- `button_task`. `busy` is `is_busy()`, `lockout` that the other core was stopped in time (always,
-- on a platform with no such step). While a wait is on, the button and the clock are read again for
-- `button_wait_poll`.
unfoldable pub button_task :
    (has_callback busy lockout : Bool) → Button → ℕ → Bool → Bool → ℕ → Button × List Output
unfolding idle_step button_wait_poll_state
button_task has_callback busy lockout s now current current' now' =
    let polled = record s { button_last_poll = now } in
    if not
      (ltb 1000 now && leb 10 (sub32 now s.button_last_poll) && (s.async_button_wait || not busy))
    then (s, [])
    else if not lockout
    then (s, [])
    else if s.async_button_wait
    then button_wait_poll_state polled current' now'
    else idle_step has_callback polled current now

-- `button_timeout_seconds`, of `phy_data.up_btn_present` and `phy_data.up_btn`
pub button_timeout_seconds : Option ℕ → ℕ
button_timeout_seconds none = 0
button_timeout_seconds (some up_btn) = up_btn
