-- ===== src/Hid/Assembly.antt =====
-- A host that sends messages in frames to `driver_process_usb_packet_hid` of hid.c, and the state
-- while a message is put together.
pub mod Continuations
pub mod Message
use mathlib.Core.List.{append-nil, append_assoc}
use pico_all.Base.{
  ℕ, zero, suc, ◌+◌, ◌-◌, ◌/◌, ◌%◌, ◌≤◌, ◌<◌, min, ◌≡◌, refl, sym, ap, ◌∙◌, subst, ◌⊎◌, inl, inr,
  Bool, true, false, ◌&&◌, ◌||◌, List, [], ◌∷◌, ◌++◌, arith, ltb, if◌then◌else◌, length, take, drop,
  replicate, take_front,
}
use pico_all.Hid.Frame.{Frame, Hid, Output, Answer, Device, err_msg_timeout}
use pico_all.Hid.Receive.{add32, ctap_error, locked_out}
use pico_all.Hid.Process.{
  is_complete, is_ready, echo_room, process_packet, timed_out, process_nopacket,
}
use pico_all.Hid.Dispatch.{echoes, handed, Delivered}

-- The frames of a host: the first one carries 57 bytes, each of the others 59, and the last is
-- filled up with zeros.
abbrev pub padded : ℕ → List ℕ → List ℕ
padded n d = take n d ++ replicate (n - length (take n d)) 0

abbrev pub first_frame : ℕ → ℕ → List ℕ → Frame
first_frame cid c d = record {
  cid = cid;
  cmd = c;
  payload = length d / 256 ∷ length d % 256 ∷ padded 57 d;
}

abbrev pub next_frame : ℕ → ℕ → List ℕ → Frame
next_frame cid k d = record { cid = cid; cmd = k; payload = padded 59 d }

-- `n` continuations from the sequence number `k` on.
abbrev pub next_frames : ℕ → ℕ → ℕ → List ℕ → List Frame
next_frames cid k zero d = []
next_frames cid k (suc n) d = next_frame cid k d ∷ next_frames cid (k + 1) n (drop 59 d)

abbrev pub message_frames : ℕ → ℕ → List ℕ → List Frame
message_frames cid c d =
    first_frame cid c d ∷ next_frames cid 0 ((length d - 57 + 58) / 59) (drop 57 d)

-- Frames one after another, the frame `i` at the time `clock i`, and no `hid_task` between them.
abbrev pub run : (ℕ → ℕ) → Device → Answer → ℕ → List Frame → Hid → Hid × List Output
run clock dev answer i [] s = (s, [])
run clock dev answer i (f ∷ fs) s =
    let step = process_packet (clock i) dev answer f s in
    let rest = run clock dev answer (i + 1) fs step.0 in (rest.0, step.1 ++ rest.1)

pub same_else {ℓ} : {A : Type ℓ} (b : Bool) (x y : A) → b ≡ false → (if b then x else y) ≡ y
same_else b x y e = rw e refl

-- `hid_task` at these times, with no frame at hand.
unfoldable pub idle_polls : List ℕ → Hid → Hid × List Output
idle_polls [] s = (s, [])
idle_polls (t ∷ ts) s =
    let step = process_nopacket t s.last_req.cid s in
    let rest = idle_polls ts step.0 in (rest.0, step.1 ++ rest.1)

-- The frames again, with `hid_task` at the times `polls i` before the frame `i`.
abbrev pub run_polled :
    (ℕ → ℕ) → (ℕ → List ℕ) → Device → Answer → ℕ → List Frame → Hid → Hid × List Output
run_polled clock polls dev answer i [] s = (s, [])
run_polled clock polls dev answer i (f ∷ fs) s =
    let idle = idle_polls (polls i) s in
    let step = process_packet (clock i) dev answer f idle.0 in
    let rest = run_polled clock polls dev answer (i + 1) fs step.0 in
    (rest.0, idle.1 ++ (step.1 ++ rest.1))

-- No time is more than 500 milliseconds behind the last frame.
abbrev pub AllPrompt : ℕ → List ℕ → Type 0
AllPrompt last [] = Unit {0}
AllPrompt last (t ∷ ts) = (t ≤ last + 500) × AllPrompt last ts

pub idle_polls-AllPrompt :
    (last : ℕ) (ts : List ℕ) (s : Hid)
    → s.last_packet_time ≡ last
    → last + 500 < 4294967296
    → AllPrompt last ts
    → idle_polls ts s ≡ (s, [])
unfolding idle_polls process_nopacket
idle_polls-AllPrompt last [] s e w h = refl
idle_polls-AllPrompt last (t ∷ ts) s e w (prompt, h) =
    ap
      (λ (step : Hid × List Output). ((idle_polls ts step.0).0, step.1 ++ (idle_polls ts step.0).1))
      (same_else (ltb 0 s.last_packet_time && ltb (add32 s.last_packet_time 500) t) _ _
        (in_time s.last_packet_time e))
    ∙ idle_polls-AllPrompt last ts s e w h
  where
    in_time : (p : ℕ) → p ≡ last → (ltb 0 p && ltb (add32 p 500) t) ≡ false
    in_time p e = ground (arith, e, w, prompt)

-- A message of `size` bytes is being put together, and has the bytes `x`.
pub record Collects (cid c size : ℕ) (x : List ℕ) (k : ℕ) (s : Hid) : Type 0 where
  pub expected : s.msg_len ≡ size
  pub bytes_so_far : s.msg_data ≡ x
  pub channel : s.last_req.cid ≡ cid
  pub command : s.last_cmd ≡ c
  pub sequence : s.last_seq ≡ k
  pub idle : s.cbor_active ≡ false
  pub unlocked : (s.lock ≡ 0) ⊎ (s.lock_cid ≡ cid)

abbrev pub entered : ℕ → Hid → Hid
entered now s = record s { last_packet_time = now; is_nk = false }

pub unlocked-passes :
    (now : ℕ) (f : Frame) (s : Hid)
    → (s.lock ≡ 0) ⊎ (s.lock_cid ≡ f.cid)
    → locked_out now f s ≡ false
unlocked-passes now f s (inl e) = ground arith
unlocked-passes now f s (inr e) = ground arith

pub take-padded :
    (n m : ℕ) (d : List ℕ) → min n m ≡ length (take n d) → take (min n m) (padded n d) ≡ take n d
take-padded n m d e = take_front (take n d) _ (min n m) (sym e)

pub same_if {ℓ} : {A : Type ℓ} (b : Bool) (x y : A) → b ≡ true → (if b then x else y) ≡ x
same_if b x y e = rw e refl

pub Delivered-as :
    (c c' : ℕ) (d d' : List ℕ) (out : Hid × List Output)
    → c' ≡ c
    → d ≡ d'
    → Delivered c' d out
    → Delivered c d' out
Delivered-as c c' d d' out e e' h = record {
  once = h.once ∙ ap (λ l. l ∷ []) e';
  closed = h.closed;
  empty = h.empty;
  command = h.command ∙ e;
}

-- The room of the buffer for an echo, over equations of the command and the message.
pub room_as :
    (c c' : ℕ) (d d' : List ℕ)
    → c' ≡ c
    → d ≡ d'
    → (echoes c ≡ true → length d' ≤ echo_room)
    → echoes c' ≡ true
    → length d ≤ echo_room
room_as c c' d d' e e' room k =
    subst (λ (l : List ℕ). length l ≤ echo_room) (sym e') (room (sym (ap echoes e) ∙ k))

pub filled :
    (size : ℕ) (s : Hid)
    → s.msg_len ≡ size
    → length s.msg_data ≡ size
    → 0 < size
    → is_complete s ≡ true
filled size s e e' pos = ground arith

pub unfilled :
    (size : ℕ) (s : Hid) {m : ℕ}
    → s.msg_len ≡ size
    → length s.msg_data ≡ m
    → (m < size)
    → is_ready s ≡ false
unfilled size s e e' short = ground arith

pub or_right : (a b : Bool) → b ≡ true → (a || b) ≡ true
or_right true b e = refl
or_right false b e = e

pub run_nothing :
    (c : ℕ) (d : List ℕ) (step : Hid × List Output)
    → Delivered c d step
    → Delivered c d (step.0, step.1 ++ [])
run_nothing c d (s, out) h = rw (append-nil out) h

-- While no message is open, `hid_task` hands on nothing and opens none.
pub record Rests (s : Hid) (out : Hid × List Output) : Type 0 where
  pub closed : out.0.msg_len ≡ 0
  pub worker : out.0.cbor_active ≡ s.cbor_active
  pub same_lock : out.0.lock ≡ s.lock
  pub same_lock_cid : out.0.lock_cid ≡ s.lock_cid
  pub quiet : (l : List Output) → handed (out.1 ++ l) ≡ handed l

process_nopacket-Rests :
    (t : ℕ) (s : Hid) → s.msg_len ≡ 0 → Rests s (process_nopacket t s.last_req.cid s)
unfolding process_nopacket ctap_error
process_nopacket-Rests t s e = go (ltb 0 s.last_packet_time && ltb (add32 s.last_packet_time 500) t)
  where
    go :
        (b : Bool)
        → Rests s (if b then timed_out (ctap_error s.last_req.cid err_msg_timeout s) else (s, []))
    go true = record {
      closed = refl;
      worker = refl;
      same_lock = refl;
      same_lock_cid = refl;
      quiet = λ l. refl;
    }
    go false = record {
      closed = e;
      worker = refl;
      same_lock = refl;
      same_lock_cid = refl;
      quiet = λ l. refl;
    }

pub idle_polls-Rests : (ts : List ℕ) (s : Hid) → s.msg_len ≡ 0 → Rests s (idle_polls ts s)
unfolding idle_polls
idle_polls-Rests [] s e = record {
  closed = e;
  worker = refl;
  same_lock = refl;
  same_lock_cid = refl;
  quiet = λ l. refl;
}
idle_polls-Rests (t ∷ ts) s e =
    let step = process_nopacket t s.last_req.cid s in
    let first = process_nopacket-Rests t s e in
    let rest = idle_polls-Rests ts step.0 first.closed in
    record {
      closed = rest.closed;
      worker = rest.worker ∙ first.worker;
      same_lock = rest.same_lock ∙ first.same_lock;
      same_lock_cid = rest.same_lock_cid ∙ first.same_lock_cid;
      quiet = λ l.
          ap handed (append_assoc step.1 (idle_polls ts step.0).1 l)
          ∙ first.quiet ((idle_polls ts step.0).1 ++ l)
          ∙ rest.quiet l;
    }
