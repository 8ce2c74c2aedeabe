-- ===== src/Hid/Tests.antt =====
-- Runs of the CTAPHID layer of hid.c.
use pico_all.Hid.Transmit.Response.{join_frames-drain}
use pico_all.Hid.Transmit.{write_success, Tx, exec_finished_cont, drain, join_frames}
use pico_all.Base.{
  ℕ, zero, suc, ◌+◌, ◌*◌, ◌<◌, ◌≡◌, refl, subst, ◌≢◌, inl, true, false, none, some, List, [], ◌∷◌,
  ◌++◌, arith, ◌==◌, if◌then◌else◌, replicate,
}
use pico_all.Hid.Frame.{
  Frame, no_thread, Hid, respond, exec_finished, overran, answered, Device, ctaphid_error,
  err_channel_busy,
}
use pico_all.Hid.Receive.{ctap_error, begin_message, receive_init, add_data, receive_cont, receive}
use pico_all.Hid.Process.{
  allocate_from, process_init, process_ping, process_command, process_packet, process_nopacket,
}
use pico_all.Hid.Dispatch.{Delivered}
use pico_all.Hid.Assembly.{first_frame, message_frames, run, idle_polls, run_polled, AllPrompt}
use pico_all.Hid.Assembly.Message.{run-message_frames}
use pico_all.Hid.Busy.{Undisturbed, run-Undisturbed}
use pico_all.Hid.Channels.{IsChannel, channel_after, channel_after_distinct}

abbrev no_frame : Frame
no_frame = record { cid = 0; cmd = 0; payload = [] }

-- The state at the start.
abbrev powered : Hid
powered = record {
  msg_len = 0;
  msg_data = [];
  last_req = no_frame;
  last_cmd = 0;
  last_seq = 0;
  last_cmd_time = 0;
  last_packet_time = 0;
  lock = 0;
  lock_cid = 0;
  next_cid = 1;
  thread = no_thread;
  is_nk = false;
  cbor_active = false;
  cancel_pending = false;
  cancel_button = false;
  busy = none;
}

abbrev device : Device
device = record {
  version_major = 7;
  version_minor = 2;
  sdk_version_major = 8;
  sdk_version_minor = 6;
  serial_id = 1 ∷ 2 ∷ 3 ∷ 4 ∷ 5 ∷ 6 ∷ 7 ∷ 8 ∷ [];
  oath_enabled = true;
}

abbrev request : List ℕ
request = 4 ∷ replicate 99 6

abbrev ticks : ℕ → ℕ
ticks i = 1000 + i

-- A frame every 400 milliseconds; `hid_task` runs long before the first one, and twice before each
-- further one.
abbrev frame_times : ℕ → ℕ
frame_times i = 1000 + 400 * i

abbrev idle_times : ℕ → List ℕ
idle_times zero = 3 ∷ 900 ∷ []
idle_times (suc i) = (1005 + 400 * i) ∷ (1399 + 400 * i) ∷ []

idle_times-AllPrompt : (i : ℕ) → i < 128 → AllPrompt (frame_times i) (idle_times (i + 1))
idle_times-AllPrompt i lt = subst (λ (n : ℕ). AllPrompt (frame_times i) (idle_times n)) next within
  where
    within : AllPrompt (frame_times i) (idle_times (suc i))
    within = ground arith

    next : suc i ≡ i + 1
    next = omega arith

run-message_frames_example : Delivered 0x90 request (
    run_polled frame_times idle_times device (answered 2) 0 (message_frames 5 0x90 request) powered)
run-message_frames_example =
    run-message_frames frame_times idle_times device (answered 2) 5 0x90 request powered
      (omega arith, omega arith) refl refl (omega arith) (λ e. omega arith)
      (λ i lt. omega (arith, lt)) idle_times-AllPrompt refl refl (inl refl)

-- A host that lets 501 milliseconds go by loses its message: the rest of it is no message.
too_late :
    (run_polled
      (λ i. 1000 + 600 * i)
      (λ i. if i == 0 then [] else 1501 ∷ [])
      device
      (answered 2)
      0
      (message_frames 5 0x90 request)
      powered).1
    ≡ respond 5 ctaphid_error 1 (5 ∷ []) ∷ []
unfolding process_packet receive receive_init receive_cont begin_message add_data process_command
    process_nopacket idle_polls ctap_error
too_late = refl

abbrev working : Hid
working = record powered {
  last_req = record { cid = 5; cmd = 0x90; payload = 0 ∷ 1 ∷ 4 ∷ [] };
  last_cmd = 0x90;
  cbor_active = true;
}

abbrev other_init : Frame
other_init = record { cid = 4294967295; cmd = 0x86; payload = 0 ∷ 8 ∷ replicate 57 1 }

abbrev cancel_frame : Frame
cancel_frame = record { cid = 5; cmd = 0x91; payload = replicate 59 0 }

run-Undisturbed_example :
    Undisturbed working true
      (run ticks device (answered 0) 0 (other_init ∷ cancel_frame ∷ []) working)
run-Undisturbed_example =
    run-Undisturbed ticks device (answered 0) 0 (other_init ∷ cancel_frame ∷ []) working refl

channel_after_distinct_example :
    IsChannel (channel_after 0 1) × (channel_after 0 1 ≢ channel_after 1 1)
channel_after_distinct_example =
    channel_after_distinct 1 0 1 (omega arith, omega arith) (omega arith) (omega arith)

-- A first request on the broadcast channel opens the channel 1.
init_opens : (process_packet 3 device (answered 0) other_init powered).0.next_cid ≡ 2
unfolding process_packet receive receive_init begin_message process_command process_init
    allocate_from
init_opens = refl

-- A ping of 100 bytes goes back whole.
ping_echoes :
    (run ticks device (answered 0) 0 (message_frames 5 0x81 request) powered).1
    ≡ exec_finished request ∷ []
unfolding process_packet receive receive_init receive_cont begin_message add_data process_command
    process_ping
ping_echoes = refl

-- A frame in the middle of another channel's message is refused.
interrupted :
    (run ticks device
      (answered 0)
      0
      (first_frame 5 0x90 request ∷ first_frame 6 0x90 request ∷ [])
      powered).1
    ≡ respond 6 ctaphid_error 1 (err_channel_busy ∷ []) ∷ []
unfolding process_packet receive receive_init begin_message process_command ctap_error
interrupted = refl

-- A response of 150 bytes in a transmit buffer.
abbrev response : List ℕ
response = replicate 70 1 ++ replicate 80 2

abbrev transmit : Tx
transmit = record {
  buffer = replicate 7 0 ++ (response ++ replicate 1891 3);
  r_ptr = 0;
  w_ptr = 0;
  resp = 0;
  send_size = 0;
  status = write_success;
  busy_inflight = false;
}

join_frames-drain_example :
    join_frames (drain 36 (exec_finished_cont 5 0x90 150 7 transmit)) ≡ some (0x90, response)
join_frames-drain_example =
    join_frames-drain 5 0x90 response (replicate 1891 3) transmit (omega arith)
      (λ e. omega (arith, e)) (omega arith) (omega arith) refl refl refl refl refl (omega arith)

-- Shortly before the clock wraps around, a message is dropped a millisecond behind its last frame.
dropped_early :
    (process_nopacket 4294967200 5 (record powered {
      msg_len = 100;
      msg_data = 7 ∷ [];
      last_packet_time = 4294967199;
    })).0.msg_data
    ≡ []
unfolding process_nopacket ctap_error
dropped_early = refl

-- A ping of one byte more than the buffer of the response has room for.
ping_overruns :
    (process_ping no_frame
      (record powered { msg_len = 2042; msg_data = replicate 2042 6; last_cmd = 0x81 })).1
    ≡ overran (replicate 2042 6) ∷ []
unfolding process_ping
ping_overruns = refl
