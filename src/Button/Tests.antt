-- ===== src/Button/Tests.antt =====
-- Runs of the button's wait, and its theorems at concrete inputs.
use pico_all.Button.Press.{released_after_press, InTime, answer, polls-released_after_press}
use pico_all.Base.{ℕ, ◌+◌, ◌≤◌, ◌≡◌, refl, Bool, true, false, List, [], ◌∷◌, ◌++◌, arith, length}
use pico_all.Button.{
  Button, pressed_cb, sub32, button_wait_start_timeout, poll_event, button_wait_poll_state,
}
use pico_all.Button.Wait.{polls, flags, open_waits, polls-balance, polls_end}
use pico_all.Button.Task.{hold_step, press_step, report_step, idle_step, button_task}

abbrev at_rest : Button
at_rest = record {
  req_button_pending = false;
  async_button_wait = false;
  async_button_pressed = false;
  async_button_started = 0;
  async_button_pressed_at = 0;
  async_button_timeout = 0;
  async_button_led_mode = 3;
  cancel_button = false;
  force_button_wait = false;
  led_mode = 3;
  button_pressed_state = false;
  button_pressed_time = 0;
  button_press = 0;
  button_hold_state = false;
  button_hold_started = 0;
  button_last_poll = 0;
  button_pressed_duration = 0;
}

-- A wait of two seconds that begins shortly before the clock wraps.
abbrev waiting : Button
unfolding button_wait_start_timeout
waiting = (button_wait_start_timeout 9 at_rest 2 false 4294967000).0

abbrev press_and_release : List (Bool × ℕ)
press_and_release = (false, 4294967100) ∷ (true, 4294967200) ∷ (false, 10) ∷ (true, 20) ∷ []

answered : flags (polls waiting press_and_release).1 ≡ 32 ∷ []
unfolding waiting button_wait_start_timeout button_wait_poll_state poll_event
answered = refl

given_up : flags (polls waiting ((false, 4294967100) ∷ (false, 1704) ∷ [])).1 ≡ 16 ∷ []
unfolding waiting button_wait_start_timeout button_wait_poll_state poll_event
given_up = refl

counts_presses :
    (button_task true false true
      (record at_rest { button_press = 2; button_pressed_time = 5000 })
      6001
      false
      false
      0).1
    ≡ pressed_cb 2 ∷ []
unfolding button_task idle_step hold_step press_step report_step
counts_presses = refl

polls-balance_example :
    length (flags (polls waiting press_and_release).1)
      + open_waits (polls waiting press_and_release).0
    ≡ open_waits waiting
polls-balance_example = polls-balance waiting press_and_release

polls_end_example :
    (polls waiting (((false, 4294967100) ∷ []) ++ (false, 1704) ∷ [])).0.async_button_wait ≡ false
unfolding waiting button_wait_start_timeout
polls_end_example = polls_end waiting ((false, 4294967100) ∷ []) [] false 1704 two_seconds
  where
    two_seconds : waiting.async_button_timeout ≤ sub32 1704 waiting.async_button_started
    two_seconds = omega arith

-- A wait of a minute in which the button goes down 45 seconds after its start, behind the wrap of
-- the clock.
abbrev late_press : List (Bool × ℕ)
late_press = (false, 100) ∷ (true, 37704) ∷ (true, 37804) ∷ (false, 47904) ∷ (false, 90000) ∷ []

abbrev minute : Button
unfolding button_wait_start_timeout
minute = (button_wait_start_timeout 9 at_rest 60 false 4294960000).0

polls-released_after_press_example :
    flags (polls minute late_press).1
    ≡ answer (released_after_press minute.async_button_pressed late_press)
unfolding minute button_wait_start_timeout
polls-released_after_press_example =
    polls-released_after_press late_press minute refl refl late_press-InTime
  where
    late_press-InTime :
        InTime minute.async_button_started minute.async_button_timeout minute.async_button_pressed
          minute.async_button_pressed_at late_press
    late_press-InTime = ground arith
