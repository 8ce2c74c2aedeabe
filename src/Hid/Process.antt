-- ===== src/Hid/Process.antt =====
-- `driver_process_usb_packet_hid` of hid.c: the second half, which looks at the command, and the
-- whole; and what is done without a packet.
use pico_all.Base.{
  ℕ, zero, suc, ◌*◌, ◌%◌, Bool, true, false, not, ◌&&◌, ◌||◌, List, [], ◌∷◌, ◌++◌, ltb, leb, ◌==◌,
  if◌then◌else◌, length, take,
}
use pico_all.Bytes.{byte_at}
use pico_all.Hid.Frame.{
  Frame, is_init, frame_len, init_data, cid_broadcast, cid_bytes, apdu_type, cbor_type, Hid,
  fido_app, u2f_app, oath_app, Output, respond, echo, exec_finished, overran, apdu_process,
  cbor_process, select_app, card_exit, init_fido, sleep, keepalive, send_event, card_start, Answer,
  failed, answered, Device, ctaphid_ping, ctaphid_msg, ctaphid_lock, ctaphid_init, ctaphid_wink,
  ctaphid_cbor, ctaphid_cancel, ctaphid_sync, ctaphid_vendor_first, ctaphid_version, ctaphid_uuid,
  ctaphid_otp, ctaphid_admin, err_invalid_cmd, err_invalid_parameter, err_invalid_len,
  err_msg_timeout, err_channel_busy,
}
use pico_all.Hid.Receive.{
  add32, Received, dropped, refused, taken, ctap_error, cancel_request, refuse_busy, receive,
}

-- The loop of `allocate_cid`: two rounds are enough, since the round behind a reserved number gets
-- the number 1.
unfoldable pub allocate_from : ℕ → ℕ → ℕ × ℕ
allocate_from zero next = (next, next)
allocate_from (suc fuel) next =
    let bumped = add32 next 1 in
    let next' = if bumped == 0 || bumped == cid_broadcast then 1 else bumped in
    let again = allocate_from fuel next' in
    if next == 0 || next == cid_broadcast then again else (next, next')

-- `allocate_cid`: the channel and the new `next_cid`.
abbrev pub allocate_cid : ℕ → ℕ × ℕ
allocate_cid next = allocate_from 2 next

-- `msg_packet.len = msg_packet.current_len = 0; last_packet_time = 0;`
abbrev pub finish_message : Hid → Hid
finish_message s = record s { msg_len = 0; msg_data = []; last_packet_time = 0 }

abbrev pub is_complete : Hid → Bool
is_complete s = s.msg_len == length s.msg_data && ltb 0 s.msg_len

abbrev pub is_ready : Hid → Bool
is_ready s = s.msg_len == 0 || is_complete s

-- The data of a message: those that were put together, or those of the one frame.
abbrev pub message : Frame → Hid → List ℕ
message f s = if is_complete s then s.msg_data else take (frame_len f) (init_data f)

unfoldable pub process_init : Device → Frame → Hid → Hid × List Output
process_init dev f s =
    let (cid, next) =
      if f.cid == cid_broadcast then allocate_cid s.next_cid else (f.cid, s.next_cid) in
    (
      finish_message (record s { next_cid = next }),
      card_exit
          ∷ select_app fido_app
          ∷ init_fido
          ∷ respond f.cid ctaphid_init 17 (
              take 8 (init_data f)
              ++ (cid_bytes cid ++ 2 ∷ dev.version_major ∷ dev.version_minor ∷ 0 ∷ 5 ∷ []))
          ∷ [],
    )

pub process_wink : Frame → Hid → Hid × List Output
process_wink f s =
    if not (frame_len f == 0)
    then ctap_error f.cid err_invalid_len s
    else (finish_message s, sleep ∷ echo f ∷ [])

-- What fits behind the header's 7 bytes in the buffer of USB_BUFFER_SIZE bytes.
abbrev pub echo_room : ℕ
echo_room = 2041

-- The copy of a message into the buffer of the response has no test of its length: a longer message
-- is written over what stands behind the buffer (`overran`), and what the program does then is left
-- open.
unfoldable pub process_ping : Frame → Hid → Hid × List Output
process_ping f s = (
  finish_message s,
  (if is_complete s
        then (if ltb echo_room (length s.msg_data)
            then overran s.msg_data
            else exec_finished s.msg_data)
        else respond f.cid s.last_cmd (frame_len f) (take (frame_len f) (init_data f)))
      ∷ [],
)

pub process_lock : ℕ → Frame → Hid → Hid × List Output
process_lock now f s =
    let seconds = byte_at (init_data f) 0 in
    if not (frame_len f == 1)
    then ctap_error f.cid err_invalid_len s
    else if ltb 10 seconds
    then ctap_error f.cid err_invalid_parameter s
    else if ltb now s.lock && not (f.cid == s.lock_cid)
    then ctap_error f.cid err_channel_busy s
    else (
      finish_message (record s {
        lock = if seconds == 0 then 0 else add32 now (seconds * 1000);
        lock_cid = if seconds == 0 then 0 else f.cid;
      }),
      respond f.cid f.cmd 0 [] ∷ [],
    )

-- The end of the function: the thread that is to be started.
unfoldable pub start_thread : Answer → Hid → Hid × List Output
start_thread (failed e) s = (s, [])
start_thread (answered n) s =
    if n == 0
    then (s, [])
    else if n == 1
    then (s, card_start apdu_type ∷ send_event ∷ [])
    else if n == 2
    then (record s { cbor_active = true }, card_start cbor_type ∷ send_event ∷ [])
    else (s, send_event ∷ [])

-- The application that gets the commands of a message.
abbrev pub selected : Device → Bool → List Output
selected dev true = if dev.oath_enabled then select_app oath_app ∷ [] else []
selected dev false = select_app u2f_app ∷ []

unfoldable pub process_msg : Device → Answer → Frame → Hid → Hid × List Output
process_msg dev answer f s =
    let otp = s.last_cmd == ctaphid_otp in
    let (s', out) =
      start_thread answer (finish_message (record s { is_nk = otp; thread = apdu_type })) in
    (s', selected dev otp ++ (apdu_process (message f s) ∷ out))

-- What follows `cbor_process`.
unfoldable pub cbor_answered : Answer → ℕ → Hid → Hid × List Output
cbor_answered (failed e) cid s = ctap_error cid (e % 256) s
cbor_answered (answered n) cid s =
    let (s', out) = start_thread (answered n) s in (s', keepalive ∷ out)

unfoldable pub process_cbor : Answer → Frame → Hid → Hid × List Output
process_cbor answer f s =
    let (s', out) =
      cbor_answered answer f.cid
        (finish_message (record s { thread = cbor_type; cancel_button = false })) in
    (s', select_app fido_app ∷ cbor_process s.last_cmd (message f s) ∷ out)

-- The commands in the order of the source. `f.cmd` is a sequence number behind a continuation, and no
-- command then.
unfoldable pub process_command : ℕ → Device → Answer → Frame → Hid → Hid × List Output
process_command now dev answer f s =
    if f.cmd == ctaphid_init
    then process_init dev f s
    else if f.cmd == ctaphid_wink
    then process_wink f s
    else if (s.last_cmd == ctaphid_ping || s.last_cmd == ctaphid_sync) && is_ready s
    then process_ping f s
    else if f.cmd == ctaphid_lock
    then process_lock now f s
    else if f.cmd == ctaphid_uuid
    then (finish_message s, respond f.cid f.cmd 16 dev.serial_id ∷ [])
    else if f.cmd == ctaphid_version
    then (
      finish_message s,
      respond f.cid f.cmd 4 (dev.sdk_version_major ∷ dev.sdk_version_minor ∷ []) ∷ [],
    )
    else if f.cmd == ctaphid_admin
    then (
      finish_message s,
      (if byte_at (init_data f) 0 == 128
            then respond f.cid f.cmd 5 (0 ∷ 255 ∷ 255 ∷ 255 ∷ 0 ∷ [])
            else respond f.cid f.cmd 0 [])
          ∷ [],
    )
    else if (s.last_cmd == ctaphid_msg || s.last_cmd == ctaphid_otp) && is_ready s
    then process_msg dev answer f s
    else if (s.last_cmd == ctaphid_cbor || leb ctaphid_vendor_first s.last_cmd) && is_ready s
    then process_cbor answer f s
    else if s.msg_len == 0
    then ctap_error f.cid err_invalid_cmd s
    else (s, [])

abbrev pub received : ℕ → Device → Answer → Frame → Hid → Received → Hid × List Output
received now dev answer f s (dropped s') = (s', [])
received now dev answer f s (refused e) = ctap_error f.cid e s
received now dev answer f s (taken s') = process_command now dev answer f s'

-- `driver_process_usb_packet_hid` at the time `now`; `answer` is what the call of `apdu_process` or
-- `cbor_process` answers, if there is one.
unfoldable pub process_packet : ℕ → Device → Answer → Frame → Hid → Hid × List Output
process_packet now dev answer f s =
    let s1 = record s { last_packet_time = now; is_nk = false } in
    if is_init f && f.cmd == ctaphid_cancel
    then (cancel_request f s, [])
    else if s.cbor_active
    then (refuse_busy f s, [])
    else received now dev answer f s1 (receive now f s1)

abbrev pub timed_out : Hid × List Output → Hid × List Output
timed_out (s, out) = (finish_message s, out)

-- `driver_process_usb_nopacket_hid`; the channel is that of the last request.
unfoldable pub process_nopacket : ℕ → ℕ → Hid → Hid × List Output
process_nopacket now cid s =
    if ltb 0 s.last_packet_time && ltb (add32 s.last_packet_time 500) now
    then timed_out (ctap_error cid err_msg_timeout s)
    else (s, [])
