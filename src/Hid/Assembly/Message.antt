-- ===== src/Hid/Assembly/Message.antt =====
-- A whole message over a channel, from its first frame on, as hid.c takes it, with `hid_task` between
-- the frames.
use pico_all.Base.{
  ℕ, ◌+◌, ◌-◌, ◌/◌, ◌≤◌, ◌<◌, ◌≡◌, refl, sym, ap, ◌∙◌, subst, ◌⊎◌, inl, inr, Bool, true, false,
  List, [], ◌++◌, arith, ltb, leb, ◌==◌, if◌then◌else◌, Bool-cases, length, take, drop, replicate,
  take-append-drop, length-take, length-drop, take-append, take_front, take_past,
}
use pico_all.Hid.Frame.{
  frame_len, init_data, cid_broadcast, max_packet_size, Hid, Output, Answer, Device, ctaphid_init,
  ctaphid_cancel,
}
use pico_all.Hid.Receive.{begin_message, receive_init, receive}
use pico_all.Hid.Process.{
  is_complete, is_ready, message, echo_room, process_command, process_packet,
}
use pico_all.Hid.Dispatch.{
  is_plain, takes_message, echoes, handed, Delivered, process_command_waits,
  process_command-Delivered,
}
use pico_all.Hid.Assembly.{
  first_frame, next_frames, message_frames, idle_polls, run_polled, AllPrompt, Collects, entered,
  unlocked-passes, Delivered-as, room_as, unfilled, run_nothing, idle_polls-Rests,
}
use pico_all.Hid.Assembly.Continuations.{run-next_frames}

first_kind :
    (c : ℕ)
    → takes_message c ≡ true
    → (leb 128 c ≡ true) × ((c == ctaphid_cancel) ≡ false) × ((c == ctaphid_init) ≡ false)
first_kind c takes = ground arith

module _ (now : ℕ) (dev : Device) (answer : Answer) (cid c : ℕ) (d : List ℕ) (s : Hid)
    (valid : (0 < cid) × (cid < cid_broadcast)) (takes : takes_message c ≡ true)
    (plain : is_plain c ≡ true) (fits : length d ≤ max_packet_size) (closed : s.msg_len ≡ 0)
    (idle : s.cbor_active ≡ false) (unlocked : (s.lock ≡ 0) ⊎ (s.lock_cid ≡ cid)) where
  first_length : frame_len (first_frame cid c d) ≡ length d
  first_length = omega arith

  first_step :
      process_packet now dev answer (first_frame cid c d) s
      ≡ process_command now dev answer
          (first_frame cid c d)
          (begin_message now (first_frame cid c d) (entered now s))
  unfolding process_packet receive receive_init
  first_step =
      let (starts, no_cancel, no_init) = first_kind c takes in
      let no_zero : (cid == 0) ≡ false = ground (arith, valid) in
      let no_broadcast : (cid == cid_broadcast) ≡ false = ground (arith, valid) in
      let small : ltb max_packet_size (length d) ≡ false = ground (arith, fits) in
      rw
        (
          unlocked-passes now (first_frame cid c d) s unlocked,
          starts,
          no_cancel,
          idle,
          no_zero,
          no_broadcast,
          first_length,
          small,
          closed,
        )
        refl

  first_long :
      57 < length d
      → Collects cid c
          (length d)
          (take 57 d)
          0
          (begin_message now (first_frame cid c d) (entered now s))
  unfolding begin_message
  first_long long =
      let more : ltb 57 (length d) ≡ true = ground (arith, long) in
      record {
        expected = rw (first_length, more) refl;
        bytes_so_far =
            rw (first_length, more)
              (take_front (take 57 d) (replicate (57 - length (take 57 d)) 0) 57
                (omega (arith, length-take 57 d, long)));
        channel = refl;
        command = refl;
        sequence = refl;
        idle = idle;
        unlocked = unlocked;
      }

  first-heard : (begin_message now (first_frame cid c d) (entered now s)).last_packet_time ≡ now
  unfolding begin_message
  first-heard = refl

  short_parts :
      length d ≤ 57
      → ((begin_message now (first_frame cid c d) (entered now s)).msg_len ≡ 0)
        × ((begin_message now (first_frame cid c d) (entered now s)).last_cmd ≡ c)
  unfolding begin_message
  short_parts short =
      let less : ltb 57 (length d) ≡ false = ground (arith, short) in
      (rw (first_length, less) refl, refl)

  first_short :
      length d ≤ 57
      → (echoes c ≡ true → length d ≤ echo_room)
      → Delivered c d (process_packet now dev answer (first_frame cid c d) s)
  first_short short room =
      let f = first_frame cid c d in
      let s' = begin_message now f (entered now s) in
      let (no_len, command') = short_parts short in
      let whole : take 57 d ≡ d = take_past 57 d short in
      let data_part : take (frame_len f) (init_data f) ≡ d =
        rw (first_length, whole) (take-append d (replicate (57 - length d) 0)) in
      let carried : message f s' ≡ d =
        single (is_complete s') s'.msg_data (take (frame_len f) (init_data f))
          (no_message s' no_len)
        ∙ data_part in
      rw first_step (
        Delivered-as c s'.last_cmd (message f s') d (process_command now dev answer f s') command'
          carried
          (process_command-Delivered now dev answer f s' plain (ap takes_message command' ∙ takes)
            (ready_one s' no_len) (room_as c s'.last_cmd (message f s') d command' carried room)))
    where
      single : (b : Bool) (x y : List ℕ) → b ≡ false → (if b then x else y) ≡ y
      single b x y e = rw e refl

      no_message : (s' : Hid) → s'.msg_len ≡ 0 → is_complete s' ≡ false
      no_message s' e = ground (arith, e)

      ready_one : (s' : Hid) → s'.msg_len ≡ 0 → is_ready s' ≡ true
      ready_one s' e = ground (arith, e)

  first_waits :
      57 < length d
      → process_packet now dev answer (first_frame cid c d) s
        ≡ (begin_message now (first_frame cid c d) (entered now s), [])
  first_waits long =
      let f = first_frame cid c d in
      let s' = begin_message now f (entered now s) in
      let h = first_long long in
      first_step
      ∙ process_command_waits now dev answer f s' plain (
          unfilled (length d) s' h.expected
            (ap (λ (l : List ℕ). length l) h.bytes_so_far ∙ length-take 57 d) (omega (arith, long)))

-- The frames from a state in which `hid_task` was not due.
module _ (clock : ℕ → ℕ) (polls : ℕ → List ℕ) (dev : Device) (answer : Answer) (cid c : ℕ)
    (d : List ℕ) (valid : (0 < cid) × (cid < cid_broadcast)) (takes : takes_message c ≡ true)
    (plain : is_plain c ≡ true) (fits : length d ≤ max_packet_size)
    (room : echoes c ≡ true → length d ≤ echo_room)
    (no_wrap : (i : ℕ) → i < 128 → clock i + 500 < 4294967296)
    (prompt : (i : ℕ) → i < 128 → AllPrompt (clock i) (polls (i + 1))) where
  -- The first frame and those behind it.
  abbrev sent : Hid → Hid × List Output
  sent s =
      let step = process_packet (clock 0) dev answer (first_frame cid c d) s in
      let rest =
        run_polled clock polls dev answer 1
          (next_frames cid 0 ((length d - 57 + 58) / 59) (drop 57 d)) step.0 in
      (rest.0, step.1 ++ rest.1)

  sent-Delivered :
      (s : Hid)
      → s.msg_len ≡ 0
      → s.cbor_active ≡ false
      → (s.lock ≡ 0) ⊎ (s.lock_cid ≡ cid)
      → Delivered c d (sent s)
  sent-Delivered s closed idle unlocked = elim (Bool-cases (ltb 57 (length d))) [
    | inl long ↦
        let f = first_frame cid c d in
        let now = clock 0 in
        let many : 57 < length d = ground (arith, long) in
        let left = length-drop 57 d in
        let next =
          run-next_frames clock polls no_wrap prompt dev answer cid c (length d) valid takes 0
            ((length d - 57 + 58) / 59) (take 57 d) (drop 57 d)
            (begin_message now f (entered now s))
            (first_long now dev answer cid c d s valid takes plain fits closed idle unlocked many)
            (first-heard now dev answer cid c d s valid takes plain fits closed idle unlocked)
            (omega (arith, fits)) (omega (arith, left, many)) (omega (arith, left, many))
            (omega (arith, left, many)) (omega (arith, left, many, length-take 57 d))
            (subst (λ (l : List ℕ). echoes c ≡ true → length l ≤ echo_room)
              (sym (take-append-drop 57 d)) room) in
        rw (first_waits now dev answer cid c d s valid takes plain fits closed idle unlocked many)
          (rw (take-append-drop 57 d) at next)
    | inr short ↦
        let none_more : (length d - 57 + 58) / 59 ≡ 0 = ground (arith, short) in
        rw none_more (
          run_nothing c d (process_packet (clock 0) dev answer (first_frame cid c d) s) (
            first_short (clock 0) dev answer cid c d s valid takes plain fits closed idle unlocked
              (ground (arith, short)) room))
  ]

quiet-Delivered :
    (c : ℕ) (d : List ℕ) (s : Hid) (before : List Output) (out : Hid × List Output)
    → ((l : List Output) → handed (before ++ l) ≡ handed l)
    → Delivered c d out
    → Delivered c d (out.0, before ++ out.1)
quiet-Delivered c d s before out quiet h = record {
  once = quiet out.1 ∙ h.once;
  closed = h.closed;
  empty = h.empty;
  command = h.command;
}

-- A message of a command that takes one, of any length that fits in `CTAP_MAX_PACKET_SIZE`, and for
-- PING and SYNC in the buffer of the response, which a host sends in frames over its channel, with
-- no other frame between and with `hid_task` at any times before the first frame and at times of at
-- most 500 ms behind the last frame before each further one, by a clock that does not wrap around in
-- them: where no message is open, no worker has a request and no other channel has the lock, the
-- message is handed on with all its bytes, once, behind the last frame, and no message is open then.
pub run-message_frames :
    (clock : ℕ → ℕ) (polls : ℕ → List ℕ) (dev : Device) (answer : Answer) (cid c : ℕ) (d : List ℕ)
    (s : Hid)
    → (0 < cid) × (cid < cid_broadcast)
    → takes_message c ≡ true
    → is_plain c ≡ true
    → length d ≤ max_packet_size
    → (echoes c ≡ true → length d ≤ echo_room)
    → ((i : ℕ) → i < 128 → clock i + 500 < 4294967296)
    → ((i : ℕ) → i < 128 → AllPrompt (clock i) (polls (i + 1)))
    → s.msg_len ≡ 0
    → s.cbor_active ≡ false
    → (s.lock ≡ 0) ⊎ (s.lock_cid ≡ cid)
    → Delivered c d (run_polled clock polls dev answer 0 (message_frames cid c d) s)
run-message_frames clock polls dev answer cid c d s valid takes plain fits room no_wrap prompt
      closed idle unlocked =
    let before = idle_polls (polls 0) s in
    let r = idle_polls-Rests (polls 0) s closed in
    quiet-Delivered c d s before.1
      (sent clock polls dev answer cid c d valid takes plain fits room no_wrap prompt before.0)
      r.quiet
      (sent-Delivered clock polls dev answer cid c d valid takes plain fits room no_wrap prompt
        before.0 r.closed (r.worker ∙ idle) (still unlocked))
  where
    still :
        (s.lock ≡ 0) ⊎ (s.lock_cid ≡ cid)
        → ((idle_polls (polls 0) s).0.lock ≡ 0) ⊎ ((idle_polls (polls 0) s).0.lock_cid ≡ cid)
    still (inl e) = inl ((idle_polls-Rests (polls 0) s closed).same_lock ∙ e)
    still (inr e) = inr ((idle_polls-Rests (polls 0) s closed).same_lock_cid ∙ e)
