-- ===== src/Hid/Dispatch.antt =====
-- What the second half of `driver_process_usb_packet_hid` hands on: nothing while a message is
-- incomplete, and the message once it is complete.
use pico_all.Hid.Receive.{ctap_error}
use pico_all.Base.{
  ℕ, ◌≤◌, ◌≡◌, refl, ap, ◌∙◌, ◌⊎◌, inl, inr, Bool, true, false, not, ◌&&◌, ◌||◌, List, [], ◌∷◌,
  ◌++◌, arith, ltb, leb, ◌==◌, if◌then◌else◌, Bool-cases, length, take,
}
use pico_all.Hid.Frame.{
  Frame, frame_len, init_data, apdu_type, cbor_type, Hid, Output, respond, exec_finished,
  apdu_process, cbor_process, Answer, failed, answered, Device, ctaphid_ping, ctaphid_msg,
  ctaphid_lock, ctaphid_init, ctaphid_wink, ctaphid_cbor, ctaphid_sync, ctaphid_error,
  ctaphid_vendor_first, ctaphid_version, ctaphid_uuid, ctaphid_otp, ctaphid_admin,
}
use pico_all.Hid.Process.{
  finish_message, is_complete, is_ready, message, echo_room, process_ping, start_thread, selected,
  process_msg, cbor_answered, process_cbor, process_command,
}

-- The commands that are looked at in the frame itself.
abbrev pub is_plain : ℕ → Bool
is_plain c =
    not (c == ctaphid_init)
    && not (c == ctaphid_wink)
    && not (c == ctaphid_lock)
    && not (c == ctaphid_uuid)
    && not (c == ctaphid_version)
    && not (c == ctaphid_admin)

-- The commands whose messages are handed on.
abbrev pub takes_message : ℕ → Bool
takes_message c =
    c == ctaphid_ping
    || c == ctaphid_sync
    || c == ctaphid_msg
    || c == ctaphid_otp
    || c == ctaphid_cbor
    || leb ctaphid_vendor_first c

-- The commands whose messages go back to the host as they are.
abbrev pub echoes : ℕ → Bool
echoes c = c == ctaphid_ping || c == ctaphid_sync

-- The messages that outputs hand on: to a worker, or back to the host, but for errors.
abbrev pub handed : List Output → List (List ℕ)
handed [] = []
handed (respond cid cmd n d ∷ os) = if cmd == ctaphid_error then handed os else d ∷ handed os
handed (exec_finished d ∷ os) = d ∷ handed os
handed (apdu_process d ∷ os) = d ∷ handed os
handed (cbor_process c d ∷ os) = d ∷ handed os
handed (_ ∷ os) = handed os

-- The message of a step is handed on, once, and no message is open behind it.
pub record Delivered (cmd : ℕ) (d : List ℕ) (out : Hid × List Output) : Type 0 where
  pub once : handed out.1 ≡ d ∷ []
  pub closed : out.0.msg_len ≡ 0
  pub empty : out.0.msg_data ≡ []
  pub command : out.0.last_cmd ≡ cmd

module _ (now : ℕ) (dev : Device) (answer : Answer) (f : Frame) (s : Hid) where
  pub process_command_waits :
      is_plain f.cmd ≡ true → is_ready s ≡ false → process_command now dev answer f s ≡ (s, [])
  unfolding process_command
  process_command_waits plain incomplete = ground arith

  ping-Delivered :
      (s.last_cmd == ctaphid_error) ≡ false
      → length (message f s) ≤ echo_room
      → Delivered s.last_cmd (message f s) (process_ping f s)
  unfolding process_ping
  ping-Delivered other room = elim (Bool-cases (is_complete s)) [
    | inl whole ↦
        let fits : ltb echo_room (length s.msg_data) ≡ false =
          no_overrun (is_complete s) s.msg_data (take (frame_len f) (init_data f)) whole room in
        rw (whole, fits) (record { once = refl; closed = refl; empty = refl; command = refl })
    | inr one ↦
        rw one (record { once = rw other refl; closed = refl; empty = refl; command = refl })
  ]
    where
      no_overrun :
          (b : Bool) (x y : List ℕ)
          → b ≡ true
          → length (if b then x else y) ≤ echo_room
          → ltb echo_room (length x) ≡ false
      no_overrun true x y e h = ground (arith, h)
      no_overrun false x y e h = ground (arith, e)

start_thread-handed :
    (answer : Answer) (s : Hid)
    → (handed (start_thread answer s).1 ≡ [])
      × ((start_thread answer s).0.msg_len ≡ s.msg_len)
      × ((start_thread answer s).0.msg_data ≡ s.msg_data)
      × ((start_thread answer s).0.last_cmd ≡ s.last_cmd)
unfolding start_thread
start_thread-handed (failed e) s = (refl, refl, refl, refl)
start_thread-handed (answered n) s = elim (Bool-cases (n == 0)) [
  | inl none_started ↦ rw none_started (refl, refl, refl, refl)
  | inr more ↦ elim (Bool-cases (n == 1)) [
    | inl one ↦ rw (more, one) (refl, refl, refl, refl)
    | inr other ↦ elim (Bool-cases (n == 2)) [
      | inl two ↦ rw (more, other, two) (refl, refl, refl, refl)
      | inr rest ↦ rw (more, other, rest) (refl, refl, refl, refl)
    ]
  ]
]

cbor_answered-handed :
    (answer : Answer) (cid : ℕ) (s : Hid)
    → (handed (cbor_answered answer cid s).1 ≡ [])
      × ((cbor_answered answer cid s).0.msg_len ≡ s.msg_len)
      × ((cbor_answered answer cid s).0.msg_data ≡ s.msg_data)
      × ((cbor_answered answer cid s).0.last_cmd ≡ s.last_cmd)
unfolding cbor_answered ctap_error
cbor_answered-handed (failed e) cid s = (refl, refl, refl, refl)
cbor_answered-handed (answered n) cid s = start_thread-handed (answered n) s

selected-handed :
    (dev : Device) (otp : Bool) (rest : List Output)
    → handed (selected dev otp ++ rest) ≡ handed rest
selected-handed dev true rest = elim (Bool-cases dev.oath_enabled) [
  | inl on ↦ rw on refl
  | inr off ↦ rw off refl
]
selected-handed dev false rest = refl

module _ (dev : Device) (answer : Answer) (f : Frame) (s : Hid) where
  msg-Delivered : Delivered s.last_cmd (message f s) (process_msg dev answer f s)
  unfolding process_msg
  msg-Delivered =
      let otp = s.last_cmd == ctaphid_otp in
      let s1 = finish_message (record s { is_nk = otp; thread = apdu_type }) in
      let (nothing, closed', empty', command') = start_thread-handed answer s1 in
      record {
        once =
            selected-handed dev otp (apdu_process (message f s) ∷ (start_thread answer s1).1)
            ∙ ap (λ (l : List (List ℕ)). message f s ∷ l) nothing;
        closed = closed';
        empty = empty';
        command = command';
      }

  cbor-Delivered : Delivered s.last_cmd (message f s) (process_cbor answer f s)
  unfolding process_cbor
  cbor-Delivered =
      let s1 = finish_message (record s { thread = cbor_type; cancel_button = false }) in
      let (nothing, closed', empty', command') = cbor_answered-handed answer f.cid s1 in
      record {
        once = ap (λ (l : List (List ℕ)). message f s ∷ l) nothing;
        closed = closed';
        empty = empty';
        command = command';
      }

abbrev carries_apdu : ℕ → Bool
carries_apdu c = c == ctaphid_msg || c == ctaphid_otp

abbrev carries_cbor : ℕ → Bool
carries_cbor c = c == ctaphid_cbor || leb ctaphid_vendor_first c

kinds :
    (c : ℕ)
    → takes_message c ≡ true
    → (echoes c ≡ true)
      ⊎ ((echoes c ≡ false) × (carries_apdu c ≡ true))
      ⊎ ((echoes c ≡ false) × (carries_apdu c ≡ false) × (carries_cbor c ≡ true))
kinds c takes = ground arith

echoes_no_error : (c : ℕ) → echoes c ≡ true → (c == ctaphid_error) ≡ false
echoes_no_error c e = ground arith

module _ (now : ℕ) (dev : Device) (answer : Answer) (f : Frame) (s : Hid) where
  process_command-ping :
      is_plain f.cmd ≡ true
      → is_ready s ≡ true
      → echoes s.last_cmd ≡ true
      → process_command now dev answer f s ≡ process_ping f s
  unfolding process_command
  process_command-ping plain ready e = ground arith

  process_command-msg :
      is_plain f.cmd ≡ true
      → is_ready s ≡ true
      → echoes s.last_cmd ≡ false
      → carries_apdu s.last_cmd ≡ true
      → process_command now dev answer f s ≡ process_msg dev answer f s
  unfolding process_command
  process_command-msg plain ready e a = ground arith

  process_command-cbor :
      is_plain f.cmd ≡ true
      → is_ready s ≡ true
      → echoes s.last_cmd ≡ false
      → carries_apdu s.last_cmd ≡ false
      → carries_cbor s.last_cmd ≡ true
      → process_command now dev answer f s ≡ process_cbor answer f s
  unfolding process_command
  process_command-cbor plain ready e a c = ground arith

  -- A complete message of a command that takes one is handed on.
  pub process_command-Delivered :
      is_plain f.cmd ≡ true
      → takes_message s.last_cmd ≡ true
      → is_ready s ≡ true
      → (echoes s.last_cmd ≡ true → length (message f s) ≤ echo_room)
      → Delivered s.last_cmd (message f s) (process_command now dev answer f s)
  process_command-Delivered plain takes ready room = elim (kinds s.last_cmd takes) [
    | inl e ↦
        rw (process_command-ping plain ready e)
          (ping-Delivered now dev answer f s (echoes_no_error s.last_cmd e) (room e))
    | inr (inl (e, a)) ↦ rw (process_command-msg plain ready e a) (msg-Delivered dev answer f s)
    | inr (inr (e, a, c)) ↦
        rw (process_command-cbor plain ready e a c) (cbor-Delivered dev answer f s)
  ]
