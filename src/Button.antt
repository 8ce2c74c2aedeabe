-- ===== src/Button.antt =====
-- pico-keys-sdk/src/button.c: the wait for the user's presence, and the button's task. What the
-- code sends (events to the card's queue, signals, flashes of the light, the callback) is a list of
-- outputs. Times are milliseconds in a `uint32_t`. It is the build without ENABLE_EMULATION.
pub mod Wait
pub mod Task
pub mod Press
mod Tests
use pico_all.Base.{
  ℕ, ◌+◌, ◌-◌, ◌*◌, ◌/◌, ◌%◌, Bool, true, false, not, ◌&&◌, ◌||◌, List, [], ◌∷◌, leb, ◌==◌,
  if◌then◌else◌,
}

-- The statics of button.c, the flags that others set (`cancel_button`, `force_button_wait`), and
-- the mode of the light that `led_get_mode` and `led_set_mode` share.
pub record Button : Type 0 where
  pub req_button_pending : Bool
  pub async_button_wait : Bool
  pub async_button_pressed : Bool
  pub async_button_started : ℕ
  pub async_button_pressed_at : ℕ
  pub async_button_timeout : ℕ
  pub async_button_led_mode : ℕ
  pub cancel_button : Bool
  pub force_button_wait : Bool
  pub led_mode : ℕ
  pub button_pressed_state : Bool
  pub button_pressed_time : ℕ
  pub button_press : ℕ
  pub button_hold_state : Bool
  pub button_hold_started : ℕ
  pub button_last_poll : ℕ
  pub button_pressed_duration : ℕ

pub data ButtonEvent : Type 0 where
  ev_pressed ev_timeout ev_cancelled ev_none : ButtonEvent

pub data Signal : Type 0 where
  presence_request : ℕ → Signal
  presence_completed presence_timeout presence_cancelled : Signal

pub data Output : Type 0 where
  queue_flag : ℕ → Output
  led_notify : ButtonEvent → Output
  signal_emit : Signal → Output
  pressed_cb : ℕ → Output

-- `(uint32_t)(a - b)` and `(uint32_t)(a + b)`
abbrev pub sub32 : ℕ → ℕ → ℕ
sub32 a b = (a + 4294967296 - b) % 4294967296

abbrev pub add32 : ℕ → ℕ → ℕ
add32 a b = (a + b) % 4294967296

-- `button_wait_start_timeout`, with what `picok_board_button_read` and `board_millis` return and
-- the value of MODE_BUTTON.
pub button_wait_start_timeout : ℕ → Button → ℕ → Bool → ℕ → Button × List Output
button_wait_start_timeout mode_button s timeout_seconds pressed now =
    let button_timeout = timeout_seconds * 1000 % 4294967296 in
    let timeout = if button_timeout == 0 then 60000 else button_timeout in
    if button_timeout == 0 && not s.force_button_wait
    then (s, signal_emit presence_completed ∷ queue_flag 32 ∷ [])
    else (
      record s {
        cancel_button = false;
        async_button_wait = true;
        async_button_pressed = pressed;
        async_button_started = now;
        async_button_pressed_at = now;
        async_button_timeout = timeout;
        async_button_led_mode = s.led_mode;
        req_button_pending = true;
        led_mode = mode_button;
      },
      signal_emit (presence_request (timeout / 1000)) ∷ [],
    )

-- The press that `button_wait_poll_state` remembers.
abbrev pub see_press : Button → Bool → ℕ → Button
see_press s pressed now =
    if not s.async_button_pressed && pressed
    then record s { async_button_pressed = true; async_button_pressed_at = now }
    else s

-- The event that `button_wait_poll_state` decides on.
pub poll_event : Button → Bool → ℕ → ButtonEvent
poll_event s pressed now =
    if s.cancel_button
    then ev_cancelled
    else if leb s.async_button_timeout (sub32 now s.async_button_started)
        || s.async_button_pressed && leb 15000 (sub32 now s.async_button_pressed_at)
    then ev_timeout
    else if s.async_button_pressed && not pressed
    then ev_pressed
    else ev_none

abbrev pub event_outputs : ButtonEvent → List Output
event_outputs ev_none = []
event_outputs ev_pressed =
    led_notify ev_pressed ∷ queue_flag 32 ∷ signal_emit presence_completed ∷ []
event_outputs ev_timeout = led_notify ev_timeout ∷ queue_flag 16 ∷ signal_emit presence_timeout ∷ []
event_outputs ev_cancelled = queue_flag 64 ∷ signal_emit presence_cancelled ∷ []

-- The end of `button_wait_poll_state`, behind the choice of the event.
abbrev pub finish_wait : Button → ButtonEvent → Button × List Output
finish_wait s ev_none = (s, [])
finish_wait s e = (
  record s {
    async_button_wait = false;
    req_button_pending = false;
    led_mode = s.async_button_led_mode;
  },
  event_outputs e,
)

-- `button_wait_poll_state`
pub button_wait_poll_state : Button → Bool → ℕ → Button × List Output
unfolding poll_event
button_wait_poll_state s pressed now =
    let s' = see_press s pressed now in
    if not s.async_button_wait then (s, []) else finish_wait s' (poll_event s' pressed now)
