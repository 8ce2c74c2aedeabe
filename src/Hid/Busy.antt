-- ===== src/Hid/Busy.antt =====
-- Frames that arrive in hid.c while a worker has a request.
use pico_all.Hid.Assembly.{run, same_else, same_if}
use pico_all.Base.{
  ℕ, ◌+◌, ◌≡◌, refl, ap, ◌∙◌, inl, inr, Bool, true, false, ◌&&◌, ◌||◌, Option, none, some, List, [],
  ◌∷◌, ◌++◌, arith, ◌==◌, if◌then◌else◌, Bool-cases,
}
use pico_all.Hid.Frame.{
  Frame, is_init, frame_len, Hid, Output, Answer, Device, ctaphid_cbor, ctaphid_cancel,
}
use pico_all.Hid.Receive.{cancel_request, refuse_busy}
use pico_all.Hid.Process.{process_packet}

abbrev pub is_cancel : Frame → Bool
is_cancel f = is_init f && f.cmd == ctaphid_cancel

abbrev names_request : Hid → Frame → Bool
names_request s f = frame_len f == 0 && s.last_cmd == ctaphid_cbor && f.cid == s.last_req.cid

-- A CANCEL for the request of the worker.
abbrev pub cancels : Hid → Frame → Bool
cancels s f = is_cancel f && names_request s f

abbrev pub any_cancels : Hid → List Frame → Bool
any_cancels s [] = false
any_cancels s (f ∷ fs) = cancels s f || any_cancels s fs

-- Nothing changed but the busy reply that waits and the marks of a CANCEL.
pub record Undisturbed (s : Hid) (cancelled : Bool) (out : Hid × List Output) : Type 0 where
  pub silent : out.1 ≡ []
  pub kept : out.0 ≡ record s {
    busy = out.0.busy;
    cancel_pending = out.0.cancel_pending;
    cancel_button = out.0.cancel_button;
  }
  pub pending : out.0.cancel_pending ≡ (s.cancel_pending || cancelled)
  pub button : out.0.cancel_button ≡ (s.cancel_button || cancelled)

or_false : (b : Bool) → b ≡ (b || false)
or_false true = refl
or_false false = refl

or_true : (b : Bool) → true ≡ (b || true)
or_true true = refl
or_true false = refl

or_assoc : (a b c : Bool) → ((a || b) || c) ≡ (a || (b || c))
or_assoc true b c = refl
or_assoc false b c = refl

unchanged : (s : Hid) → Undisturbed s false (s, [])
unchanged s = record {
  silent = refl;
  kept = refl;
  pending = or_false s.cancel_pending;
  button = or_false s.cancel_button;
}

module _ (now : ℕ) (dev : Device) (answer : Answer) (f : Frame) (s : Hid) where
  refuse_busy-Undisturbed : Undisturbed s false (refuse_busy f s, [])
  unfolding refuse_busy
  refuse_busy-Undisturbed = go s.busy
    where
      go :
          (o : Option ℕ)
          → Undisturbed s false (
            (elim o [
              | none ↦ if is_init f then record s { busy = some f.cid } else s
              | some c ↦ s
            ]),
            [],
          )
      go (some c) = unchanged s
      go none = elim (Bool-cases (is_init f)) [
        | inl first ↦ rw first (record {
          silent = refl;
          kept = refl;
          pending = or_false s.cancel_pending;
          button = or_false s.cancel_button;
        })
        | inr later ↦ rw later (unchanged s)
      ]

  abbrev marked : Hid
  marked = record s { cancel_pending = true; cancel_button = true }

  cancel_request_hit : s.cbor_active ≡ true → names_request s f ≡ true → cancel_request f s ≡ marked
  unfolding cancel_request
  cancel_request_hit active hit = same_if _ marked s (ground (arith, active, hit))

  cancel_request_miss : names_request s f ≡ false → cancel_request f s ≡ s
  unfolding cancel_request
  cancel_request_miss miss = same_else _ marked s (ground (arith, miss))

  cancel_request-Undisturbed :
      s.cbor_active ≡ true → Undisturbed s (names_request s f) (cancel_request f s, [])
  cancel_request-Undisturbed active = elim (Bool-cases (names_request s f)) [
    | inl hit ↦
        rw (cancel_request_hit active hit, hit)
          (record {
            silent = refl;
            kept = refl;
            pending = or_true s.cancel_pending;
            button = or_true s.cancel_button;
          })
    | inr miss ↦ rw (cancel_request_miss miss, miss) (unchanged s)
  ]

  process_cancel : is_cancel f ≡ true → process_packet now dev answer f s ≡ (cancel_request f s, [])
  unfolding process_packet
  process_cancel stop = same_if (is_cancel f) _ _ stop

  process_busy :
      is_cancel f ≡ false
      → s.cbor_active ≡ true
      → process_packet now dev answer f s ≡ (refuse_busy f s, [])
  unfolding process_packet
  process_busy other active = same_else (is_cancel f) _ _ other ∙ same_if s.cbor_active _ _ active

  process_packet-Undisturbed :
      s.cbor_active ≡ true → Undisturbed s (cancels s f) (process_packet now dev answer f s)
  process_packet-Undisturbed active = elim (Bool-cases (is_cancel f)) [
    | inl stop ↦ rw (process_cancel stop, stop) (cancel_request-Undisturbed active)
    | inr other ↦ rw (process_busy other active, other) refuse_busy-Undisturbed
  ]

joined :
    (s : Hid) (a b : Bool) (first : Hid × List Output) (rest : Hid × List Output)
    → Undisturbed s a first
    → Undisturbed first.0 b rest
    → Undisturbed s (a || b) (rest.0, first.1 ++ rest.1)
joined s a b (s', out) (s'', out') h k = record {
  silent = rw (h.silent, k.silent) refl;
  kept =
      k.kept
      ∙ ap
          (λ (t : Hid). record t {
            busy = s''.busy;
            cancel_pending = s''.cancel_pending;
            cancel_button = s''.cancel_button;
          })
          h.kept;
  pending = k.pending ∙ ap (λ (p : Bool). p || b) h.pending ∙ or_assoc s.cancel_pending a b;
  button = k.button ∙ ap (λ (p : Bool). p || b) h.button ∙ or_assoc s.cancel_button a b;
}

same_request :
    (s s' : Hid) (fs : List Frame)
    → s'.last_cmd ≡ s.last_cmd
    → s'.last_req ≡ s.last_req
    → any_cancels s' fs ≡ any_cancels s fs
same_request s s' [] e e' = refl
same_request s s' (f ∷ fs) e e' = rw (same_request s s' fs e e', e, e') refl

-- While a worker has a request, frames of any kind, at whatever times, call nothing and send
-- nothing, and leave the request and all else that the state holds as they are, but for the channel
-- of the busy reply that waits; and the wait for the user is cancelled, now or before, exactly if
-- one of them is a CANCEL without data on the channel of the request, and the request is CBOR.
pub run-Undisturbed :
    (clock : ℕ → ℕ) (dev : Device) (answer : Answer) (i : ℕ) (fs : List Frame) (s : Hid)
    → s.cbor_active ≡ true
    → Undisturbed s (any_cancels s fs) (run clock dev answer i fs s)
run-Undisturbed clock dev answer i [] s active = unchanged s
run-Undisturbed clock dev answer i (f ∷ fs) s active =
    let step = process_packet (clock i) dev answer f s in
    let h = process_packet-Undisturbed (clock i) dev answer f s active in
    let rest =
      run-Undisturbed clock dev answer (i + 1) fs step.0
        (ap (λ (t : Hid). t.cbor_active) h.kept ∙ active) in
    joined s (cancels s f) (any_cancels s fs) step (run clock dev answer (i + 1) fs step.0) h (
      rw
        (same_request s step.0 fs (ap (λ (t : Hid). t.last_cmd) h.kept)
          (ap (λ (t : Hid). t.last_req) h.kept))
        at rest)
