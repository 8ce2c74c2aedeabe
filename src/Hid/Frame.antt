-- ===== src/Hid/Frame.antt =====
-- The frames of pico-keys-sdk/src/usb/hid/ctap_hid.h, the state of hid.c, and what it hands out.
use pico_all.Base.{ℕ, ◌+◌, ◌*◌, ◌/◌, ◌%◌, Bool, Option, List, [], ◌∷◌, leb, drop}
use pico_all.Bytes.{byte_at}

-- A `CTAPHID_FRAME`: the channel, the byte that is the command of a first frame and the sequence
-- number of a continuation, and the 59 bytes behind it.
pub record Frame : Type 0 where
  pub cid : ℕ
  pub cmd : ℕ
  pub payload : List ℕ

-- `FRAME_TYPE(f) == TYPE_INIT`: bit 7 of the byte.
abbrev pub is_init : Frame → Bool
is_init f = leb 128 f.cmd

-- `MSG_LEN` and `init.data`.
abbrev pub frame_len : Frame → ℕ
frame_len f = byte_at f.payload 0 * 256 + byte_at f.payload 1

abbrev pub init_data : Frame → List ℕ
init_data f = drop 2 f.payload

abbrev pub cid_broadcast : ℕ
cid_broadcast = 4294967295

-- A channel in memory, on a little-endian board.
abbrev pub cid_bytes : ℕ → List ℕ
cid_bytes n = (n % 256) ∷ (n / 256 % 256) ∷ (n / 65536 % 256) ∷ (n / 16777216 % 256) ∷ []

-- `CTAP_MAX_PACKET_SIZE`
abbrev pub max_packet_size : ℕ
max_packet_size = 7609

-- `thread_type`: 1 is APDU, 2 is CBOR.
pub data ThreadType : Type 0 where
  no_thread apdu_type cbor_type : ThreadType

-- The static variables. `msg_data` are the first `current_len` bytes of the data of `msg_packet`, so
-- its length is `current_len`; `busy` is the channel of a pending `busy_response`.
pub record Hid : Type 0 where
  pub msg_len : ℕ
  pub msg_data : List ℕ
  pub last_req : Frame
  pub last_cmd : ℕ
  pub last_seq : ℕ
  pub last_cmd_time : ℕ
  pub last_packet_time : ℕ
  pub lock : ℕ
  pub lock_cid : ℕ
  pub next_cid : ℕ
  pub thread : ThreadType
  pub is_nk : Bool
  pub cbor_active : Bool
  pub cancel_pending : Bool
  pub cancel_button : Bool
  pub busy : Option ℕ

-- The applications that `select_app` is called with.
pub data Applet : Type 0 where
  fido_app u2f_app oath_app : Applet

-- What a call does outside of its state, in order: a response of one frame is written, with its
-- channel, command, length and first data bytes, zeros behind them; the request is echoed; a
-- response of any length is given to `driver_exec_finished_hid`; `apdu_process` and `cbor_process`
-- get a message; and the rest.
pub data Output : Type 0 where
  respond : ℕ → ℕ → ℕ → List ℕ → Output
  echo : Frame → Output
  exec_finished : List ℕ → Output
  overran : List ℕ → Output
  apdu_process : List ℕ → Output
  cbor_process : ℕ → List ℕ → Output
  select_app : Applet → Output
  card_exit init_fido sleep keepalive send_event : Output
  card_start : ThreadType → Output

-- What `apdu_process` or `cbor_process` answers, when it is called: a negative error, or the
-- thread that is to be started, 0 for none.
pub data Answer : Type 0 where
  failed : ℕ → Answer
  answered : ℕ → Answer

-- `get_version_major`, `get_version_minor` or the constants, and `pico_serial`.
pub record Device : Type 0 where
  pub version_major : ℕ
  pub version_minor : ℕ
  pub sdk_version_major : ℕ
  pub sdk_version_minor : ℕ
  pub serial_id : List ℕ
  pub oath_enabled : Bool

-- The commands of ctap_hid.h, with `TYPE_INIT`.
abbrev pub ctaphid_ping : ℕ
ctaphid_ping = 0x81

abbrev pub ctaphid_msg : ℕ
ctaphid_msg = 0x83

abbrev pub ctaphid_lock : ℕ
ctaphid_lock = 0x84

abbrev pub ctaphid_init : ℕ
ctaphid_init = 0x86

abbrev pub ctaphid_wink : ℕ
ctaphid_wink = 0x88

abbrev pub ctaphid_cbor : ℕ
ctaphid_cbor = 0x90

abbrev pub ctaphid_cancel : ℕ
ctaphid_cancel = 0x91

abbrev pub ctaphid_sync : ℕ
ctaphid_sync = 0xbc

abbrev pub ctaphid_error : ℕ
ctaphid_error = 0xbf

abbrev pub ctaphid_vendor_first : ℕ
ctaphid_vendor_first = 0xc0

abbrev pub ctaphid_version : ℕ
ctaphid_version = 0xe1

abbrev pub ctaphid_uuid : ℕ
ctaphid_uuid = 0xe2

abbrev pub ctaphid_otp : ℕ
ctaphid_otp = 0xf0

abbrev pub ctaphid_admin : ℕ
ctaphid_admin = 0xf2

abbrev pub err_invalid_cmd : ℕ
err_invalid_cmd = 1

abbrev pub err_invalid_parameter : ℕ
err_invalid_parameter = 2

abbrev pub err_invalid_len : ℕ
err_invalid_len = 3

abbrev pub err_invalid_seq : ℕ
err_invalid_seq = 4

abbrev pub err_msg_timeout : ℕ
err_msg_timeout = 5

abbrev pub err_channel_busy : ℕ
err_channel_busy = 6

abbrev pub err_invalid_channel : ℕ
err_invalid_channel = 11
