-- ===== src/Hid/Assembly/Continuations.antt =====
-- The continuation frames of a message, as hid.c takes them.
use mathlib.Core.List.{append_assoc}
use pico_all.Base.{
  ℕ, zero, suc, ◌+◌, ◌-◌, ◌*◌, ◌≤◌, ◌<◌, min, ◌≡◌, refl, sym, ap, ◌∙◌, subst, true, false, List, [],
  ◌++◌, arith, leb, ◌==◌, length, length-append, take, drop, take-append-drop, length-take,
  length-drop, take_past,
}
use pico_all.Hid.Frame.{frame_len, init_data, cid_broadcast, Hid, Answer, Device}
use pico_all.Hid.Receive.{add_data, receive_cont, receive}
use pico_all.Hid.Process.{is_complete, message, echo_room, process_command, process_packet}
use pico_all.Hid.Dispatch.{
  is_plain, takes_message, echoes, Delivered, process_command_waits, process_command-Delivered,
}
use pico_all.Hid.Assembly.{
  padded, next_frame, next_frames, run_polled, AllPrompt, idle_polls-AllPrompt, Collects, entered,
  unlocked-passes, take-padded, same_if, Delivered-as, room_as, filled, unfilled, or_right,
  run_nothing,
}

module _ (now : ℕ) (dev : Device) (answer : Answer) (cid c size k : ℕ) (x rest : List ℕ) (s : Hid)
    (h : Collects cid c size x k s) (valid : (0 < cid) × (cid < cid_broadcast)) (low : k < 128)
    (more : 0 < length rest) (all : length x + length rest ≡ size) where
  pub cont_step :
      process_packet now dev answer (next_frame cid k rest) s
      ≡ process_command now dev answer
          (next_frame cid k rest)
          (add_data (next_frame cid k rest) (entered now s))
  unfolding process_packet receive receive_cont
  cont_step =
      let f = next_frame cid k rest in
      let opened : (s.msg_len == 0) ≡ false = ground (arith, h.expected, all, more) in
      let turn : (s.last_seq == k) ≡ true = ground (arith, h.sequence) in
      let same : (s.last_req.cid == cid) ≡ true = ground (arith, h.channel) in
      let no_init : leb 128 k ≡ false = ground (arith, low) in
      let no_zero : (cid == 0) ≡ false = ground (arith, valid) in
      let no_broadcast : (cid == cid_broadcast) ≡ false = ground (arith, valid) in
      rw
        (
          unlocked-passes now f s h.unlocked,
          no_init,
          h.idle,
          opened,
          no_zero,
          no_broadcast,
          turn,
          same,
        )
        refl

  pub cont-Collects :
      Collects cid c size
        (x ++ take 59 rest)
        (k + 1)
        (add_data (next_frame cid k rest) (entered now s))
  unfolding add_data
  cont-Collects = record {
    expected = h.expected;
    bytes_so_far =
        ap (λ l. l ++ take (min 59 (s.msg_len - length s.msg_data)) (padded 59 rest)) h.bytes_so_far
        ∙ ap (λ l. x ++ l)
            (rw (h.expected, h.bytes_so_far)
              (ap (λ (i : ℕ). take i (padded 59 rest)) (omega (arith, all))
                ∙ take-padded 59 (length rest) rest (sym (length-take 59 rest))));
    channel = refl;
    command = h.command;
    sequence = omega (arith, h.sequence, low);
    idle = h.idle;
    unlocked = h.unlocked;
  }

  pub cont-heard : (add_data (next_frame cid k rest) (entered now s)).last_packet_time ≡ now
  unfolding add_data
  cont-heard = refl

plain_sequence : (k : ℕ) → k < 128 → is_plain k ≡ true
plain_sequence k h = ground arith

-- Behind the last continuation the message is handed on.
cont_last :
    (now : ℕ) (dev : Device) (answer : Answer) (cid c size k : ℕ) (x rest : List ℕ) (s : Hid)
    → Collects cid c size x k s
    → (0 < cid) × (cid < cid_broadcast)
    → k < 128
    → takes_message c ≡ true
    → 0 < length rest
    → length rest ≤ 59
    → length x + length rest ≡ size
    → (echoes c ≡ true → length (x ++ rest) ≤ echo_room)
    → Delivered c (x ++ rest) (process_packet now dev answer (next_frame cid k rest) s)
cont_last now dev answer cid c size k x rest s h valid low takes more short all room =
    let f = next_frame cid k rest in
    let s' = add_data f (entered now s) in
    let h' = cont-Collects now dev answer cid c size k x rest s h valid low more all in
    let whole : take 59 rest ≡ rest = take_past 59 rest short in
    let complete : is_complete s' ≡ true =
      filled size s' h'.expected
        (ap (λ (l : List ℕ). length l) (h'.bytes_so_far ∙ ap (λ l. x ++ l) whole)
          ∙ length-append x rest
          ∙ all)
        (omega (arith, more, all)) in
    let carried : message f s' ≡ x ++ rest =
      same_if (is_complete s') s'.msg_data (take (frame_len f) (init_data f)) complete
      ∙ h'.bytes_so_far
      ∙ ap (λ l. x ++ l) whole in
    rw (cont_step now dev answer cid c size k x rest s h valid low more all) (
      Delivered-as c s'.last_cmd (message f s') (x ++ rest) (process_command now dev answer f s')
        h'.command carried
        (process_command-Delivered now dev answer f s' (plain_sequence k low)
          (ap takes_message h'.command ∙ takes)
          (or_right (s'.msg_len == 0) (is_complete s') complete)
          (room_as c s'.last_cmd (message f s') (x ++ rest) h'.command carried room)))

pub cont_more :
    (now : ℕ) (dev : Device) (answer : Answer) (cid c size k : ℕ) (x rest : List ℕ) (s : Hid)
    → Collects cid c size x k s
    → (0 < cid) × (cid < cid_broadcast)
    → k < 128
    → 59 < length rest
    → length x + length rest ≡ size
    → process_packet now dev answer (next_frame cid k rest) s
      ≡ (add_data (next_frame cid k rest) (entered now s), [])
cont_more now dev answer cid c size k x rest s h valid low long all =
    let f = next_frame cid k rest in
    let h' =
      cont-Collects now dev answer cid c size k x rest s h valid low (omega (arith, long)) all in
    cont_step now dev answer cid c size k x rest s h valid low (omega (arith, long)) all
    ∙ process_command_waits now dev answer f (add_data f (entered now s)) (plain_sequence k low) (
        unfilled size (add_data f (entered now s)) h'.expected
          (ap (λ (l : List ℕ). length l) h'.bytes_so_far ∙ length-append x (take 59 rest))
          (omega (arith, all, long, length-take 59 rest)))

-- The continuations of a message, up to the last one.
module _ (clock : ℕ → ℕ) (polls : ℕ → List ℕ)
    (no_wrap : (i : ℕ) → i < 128 → clock i + 500 < 4294967296)
    (prompt : (i : ℕ) → i < 128 → AllPrompt (clock i) (polls (i + 1))) (dev : Device)
    (answer : Answer) (cid c size : ℕ) (valid : (0 < cid) × (cid < cid_broadcast))
    (takes : takes_message c ≡ true) where
  pub run-next_frames :
      (k n : ℕ) (x rest : List ℕ) (s : Hid)
      → Collects cid c size x k s
      → s.last_packet_time ≡ clock k
      → k + n ≤ 128
      → 0 < length rest
      → length rest ≤ 59 * n
      → 59 * n < length rest + 59
      → length x + length rest ≡ size
      → (echoes c ≡ true → length (x ++ rest) ≤ echo_room)
      → Delivered c
          (x ++ rest)
          (run_polled clock polls dev answer (k + 1) (next_frames cid k n rest) s)
  run-next_frames k zero x rest s h heard low more le lt all room = absurd (omega (arith, more, le))
  run-next_frames k (suc zero) x rest s h heard low more le lt all room =
      rw
        (idle_polls-AllPrompt (clock k) (polls (k + 1)) s heard (no_wrap k (omega (arith, low)))
          (prompt k (omega (arith, low))))
        (run_nothing c (x ++ rest)
          (process_packet (clock (k + 1)) dev answer (next_frame cid k rest) s)
          (cont_last (clock (k + 1)) dev answer cid c size k x rest s h valid (omega (arith, low))
            takes more (omega (arith, le)) all room))
  run-next_frames k (suc (suc n)) x rest s h heard low more le lt all room =
      let f = next_frame cid k rest in
      let now = clock (k + 1) in
      let long : 59 < length rest = omega (arith, lt) in
      let h' =
        cont-Collects now dev answer cid c size k x rest s h valid (omega (arith, low)) more all in
      let parts = length-take 59 rest in
      let left = length-drop 59 rest in
      let joined : (x ++ take 59 rest) ++ drop 59 rest ≡ x ++ rest =
        append_assoc x (take 59 rest) (drop 59 rest)
        ∙ ap (λ l. x ++ l) (take-append-drop 59 rest) in
      let next =
        run-next_frames (k + 1) (suc n) (x ++ take 59 rest) (drop 59 rest)
          (add_data f (entered now s)) h'
          (cont-heard now dev answer cid c size k x rest s h valid (omega (arith, low)) more all)
          (omega (arith, low)) (omega (arith, left, long)) (omega (arith, left, le))
          (omega (arith, left, lt, long))
          (omega (arith, left, parts, long, all, length-append x (take 59 rest)))
          (subst (λ (l : List ℕ). echoes c ≡ true → length l ≤ echo_room) (sym joined) room) in
      rw
        (
          idle_polls-AllPrompt (clock k) (polls (k + 1)) s heard (no_wrap k (omega (arith, low)))
              (prompt k (omega (arith, low))),
          cont_more now dev answer cid c size k x rest s h valid (omega (arith, low)) long all,
        )
        (rw joined at next)
