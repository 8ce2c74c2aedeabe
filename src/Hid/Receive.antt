-- ===== src/Hid/Receive.antt =====
-- The first half of `driver_process_usb_packet_hid` of hid.c: what a frame does to the message that
-- is put together, before its command is looked at.
use pico_all.Base.{
  ℕ, ◌+◌, ◌-◌, ◌%◌, min, Bool, true, not, ◌&&◌, ◌||◌, none, some, List, [], ◌∷◌, ◌++◌, ltb, ◌==◌,
  if◌then◌else◌, length, take,
}
use pico_all.Hid.Frame.{
  Frame, is_init, frame_len, init_data, cid_broadcast, max_packet_size, Hid, Output, respond,
  ctaphid_init, ctaphid_cbor, ctaphid_error, err_invalid_len, err_invalid_seq, err_channel_busy,
  err_invalid_channel,
}

-- `uint32_t` addition.
abbrev pub add32 : ℕ → ℕ → ℕ
add32 a b = (a + b) % 4294967296

-- A frame is dropped, refused with an error, or taken.
pub data Received : Type 0 where
  dropped : Hid → Received
  refused : ℕ → Received
  taken : Hid → Received

-- `ctap_error`
unfoldable pub ctap_error : ℕ → ℕ → Hid → Hid × List Output
ctap_error cid e s = (record s { last_packet_time = 0 }, respond cid ctaphid_error 1 (e ∷ []) ∷ [])

-- A CANCEL: it is for the request that a worker has, or for none.
unfoldable pub cancel_request : Frame → Hid → Hid
cancel_request f s =
    if frame_len f == 0 && s.cbor_active && s.last_cmd == ctaphid_cbor && f.cid == s.last_req.cid
    then record s { cancel_pending = true; cancel_button = true }
    else s

-- A frame while a worker has a request.
unfoldable pub refuse_busy : Frame → Hid → Hid
refuse_busy f s = elim s.busy [
  | none ↦ if is_init f then record s { busy = some f.cid } else s
  | some c ↦ s
]

-- A first frame begins a message.
unfoldable pub begin_message : ℕ → Frame → Hid → Hid
begin_message now f s =
    let long = ltb 57 (frame_len f) in
    record s {
      msg_len = if long then frame_len f else 0;
      msg_data = if long then take 57 (init_data f) else [];
      last_req = f;
      last_cmd = f.cmd;
      last_seq = 0;
      last_cmd_time = now;
    }

unfoldable pub receive_init : ℕ → Frame → Hid → Received
receive_init now f s =
    if ltb max_packet_size (frame_len f)
    then refused err_invalid_len
    else if ltb 0 s.msg_len && ltb now (add32 s.last_cmd_time 100) && not (f.cmd == ctaphid_init)
    then (if s.last_req.cid == f.cid then refused err_invalid_seq else refused err_channel_busy)
    else taken (begin_message now f s)

-- A continuation adds to the message of its channel.
unfoldable pub add_data : Frame → Hid → Hid
add_data f s = record s {
  msg_data = s.msg_data ++ take (min 59 (s.msg_len - length s.msg_data)) f.payload;
  last_req = f;
  last_seq = (s.last_seq + 1) % 256;
}

unfoldable pub receive_cont : ℕ → Frame → Hid → Received
receive_cont now f s =
    if not (s.last_seq == f.cmd)
    then refused err_invalid_seq
    else if s.last_req.cid == f.cid
    then taken (add_data f s)
    else if ltb now (add32 s.last_cmd_time 100)
    then refused err_channel_busy
    else taken s

abbrev pub channel_invalid : Frame → Bool
channel_invalid f =
    f.cid == 0 || f.cid == cid_broadcast && (not (is_init f) || not (f.cmd == ctaphid_init))

abbrev pub locked_out : ℕ → Frame → Hid → Bool
locked_out now f s =
    ltb now s.lock
    && not (f.cid == s.lock_cid)
    && not (f.cid == cid_broadcast && f.cmd == ctaphid_init)

-- `last_packet_time` is `now` in what is taken.
unfoldable pub receive : ℕ → Frame → Hid → Received
receive now f s =
    if not (is_init f) && s.msg_len == 0
    then dropped (record s { last_packet_time = 0 })
    else if channel_invalid f
    then refused err_invalid_channel
    else if locked_out now f s
    then refused err_channel_busy
    else if is_init f
    then receive_init now f s
    else receive_cont now f s
