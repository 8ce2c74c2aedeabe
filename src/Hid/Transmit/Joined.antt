-- ===== src/Hid/Transmit/Joined.antt =====
-- The reports that hid.c sends for a response, joined by a host, are the response.
use mathlib.Core.List.{append_assoc, append-nil}
use pico_all.Base.{
  ℕ, zero, suc, ◌+◌, ◌-◌, ◌*◌, ◌≤◌, ◌<◌, ◌≡◌, refl, sym, ap, ◌∙◌, inl, inr, true, false, not, ◌&&◌,
  none, some, List, [], ◌∷◌, ◌++◌, arith, ltb, leb, if◌then◌else◌, ltb→lt, ==_self, Bool-cases,
  length, length-append, take, drop, take-append-drop, length-take, length-drop, drop-drop,
  drop_front, take_shorter,
}
use pico_all.Bytes.{byte_at, same_bytes}
use pico_all.Hid.Frame.{cid_bytes}
use pico_all.Hid.Assembly.{same_else, same_if}
use pico_all.Hid.Transmit.{
  write_pending, write_success, Tx, splice, is_keepalive, is_pending, sent_part, note_sent,
  next_header, rewind, report_complete, send_next, drain, join_rest,
}

-- The continuation `k` is to be sent, and the data `rest` from it on, with `junk` behind them.
pub record Sending (cid k : ℕ) (rest junk : List ℕ) (t : Tx) : Type 0 where
  pub front : drop t.r_ptr t.buffer ≡ cid_bytes cid ++ (k ∷ (rest ++ junk))
  pub left : t.send_size ≡ length rest
  pub place : t.resp ≡ t.r_ptr
  pub stop : t.w_ptr ≡ t.r_ptr + length rest + 5
  pub free : is_pending t.status ≡ false
  pub own : t.busy_inflight ≡ false

abbrev pub report : Tx → List ℕ
report t = take 64 (drop t.r_ptr t.buffer)

abbrev pub sending : Tx → Tx
sending t = record t { status = write_pending }

abbrev pub noted : ℕ → Tx → Tx
noted c t = record t { status = write_success; send_size = t.send_size - sent_part c }

abbrev pub advanced : List ℕ → ℕ → Tx → Tx
advanced x c t = record t {
  buffer = splice t.buffer (t.resp + 59) (take 4 x ++ (if leb 128 c then 0 else c + 1) ∷ []);
  resp = t.resp + 59;
  r_ptr = t.r_ptr + 59;
}

pub complete-noted :
    (x : List ℕ) (c : ℕ) (t : Tx)
    → t.busy_inflight ≡ false
    → byte_at x 4 ≡ c
    → report_complete x (sending t) ≡ rewind (next_header x c (noted c t))
unfolding report_complete note_sent
complete-noted x c t own e =
    same_else t.busy_inflight _ _ own ∙ ap (λ (c : ℕ). rewind (next_header x c (noted c t))) e

pub next_header_more :
    (x : List ℕ) (c : ℕ) (t : Tx)
    → is_keepalive c ≡ false
    → 0 < t.send_size - sent_part c
    → next_header x c (noted c t) ≡ advanced x c (noted c t)
unfolding next_header
next_header_more x c t no_keepalive more =
    same_if (true && not (is_keepalive c)) _ _ (ground (arith, no_keepalive))
    ∙ same_if (ltb 0 (t.send_size - sent_part c)) _ _ (ground (arith, more))

pub next_header_last :
    (x : List ℕ) (c : ℕ) (t : Tx)
    → is_keepalive c ≡ false
    → t.send_size - sent_part c ≡ 0
    → next_header x c (noted c t) ≡ record (noted c t) { r_ptr = t.r_ptr + 64 }
unfolding next_header
next_header_last x c t no_keepalive last =
    same_if (true && not (is_keepalive c)) _ _ (ground (arith, no_keepalive))
    ∙ same_else (ltb 0 (t.send_size - sent_part c)) _ _ (ground (arith, last))

pub rewind_later : (t : Tx) → t.r_ptr < t.w_ptr → rewind t ≡ t
unfolding rewind
rewind_later t h = same_else (leb t.w_ptr t.r_ptr) _ _ (ground (arith, h))

pub rewind_now : (t : Tx) → t.w_ptr ≤ t.r_ptr → rewind t ≡ record t { r_ptr = 0; w_ptr = 0 }
unfolding rewind
rewind_now t h = same_if (leb t.w_ptr t.r_ptr) _ _ (ground (arith, h))

-- What a write leaves behind its place.
pub drop-splice :
    (b : List ℕ) (p : ℕ) (x : List ℕ)
    → p ≤ length b
    → drop p (splice b p x) ≡ x ++ drop (p + length x) b
drop-splice b p x le =
    drop_front (take p b) (x ++ drop (p + length x) b) p (omega (arith, length-take p b, le))

pub nothing_left : (t : Tx) → t.w_ptr ≤ t.r_ptr → send_next t ≡ none
unfolding send_next
nothing_left t h =
    same_else (ltb t.r_ptr t.w_ptr && not (is_pending t.status)) _ _ (ground (arith, h))

pub something_left :
    (t : Tx) → t.r_ptr < t.w_ptr → is_pending t.status ≡ false → send_next t ≡ some (report t)
unfolding send_next
something_left t h free =
    same_if (ltb t.r_ptr t.w_ptr && not (is_pending t.status)) _ _ (ground (arith, h, free))

low_byte : (k : ℕ) → k < 128 → (sent_part k ≡ 59) × (is_keepalive k ≡ false) × (leb 128 k ≡ false)
low_byte k h = ground (arith, h)

pub drop_shorter : (n : ℕ) (xs ys : List ℕ) → n ≤ length xs → drop n (xs ++ ys) ≡ drop n xs ++ ys
drop_shorter zero xs ys h = refl
drop_shorter (suc n) [] ys h = absurd (omega (arith, h))
drop_shorter (suc n) (x ∷ xs) ys h = drop_shorter n xs ys (omega (arith, h))

same_bytes_self : (l : List ℕ) → same_bytes l l ≡ true
unfolding same_bytes
same_bytes_self [] = refl
same_bytes_self (x ∷ l) = rw (==_self x) (same_bytes_self l)

drop_later : (b : List ℕ) (p m : ℕ) (x : List ℕ) → drop p b ≡ x → drop (p + m) b ≡ drop m x
drop_later b p m x e = sym (drop-drop b p m) ∙ ap (λ l. drop m l) e

module _ (cid k : ℕ) (rest junk : List ℕ) (t : Tx) (h : Sending cid k rest junk t)
    (low : k < 127) where
  report_of :
      (take 4 (report t) ≡ cid_bytes cid)
      × (byte_at (report t) 4 ≡ k)
      × (drop 5 (report t) ≡ take 59 (rest ++ junk))
  report_of = rw h.front (refl, refl, refl)

  completed_more :
      59 < length rest → report_complete (report t) (sending t) ≡ advanced (report t) k (noted k t)
  completed_more long =
      let (part, quiet, cont) = low_byte k (omega (arith, low)) in
      let more : 0 < t.send_size - sent_part k = omega (arith, part, h.left, long) in
      complete-noted (report t) k t h.own (report_of.1)
      ∙ ap rewind (next_header_more (report t) k t quiet more)
      ∙ rewind_later (advanced (report t) k (noted k t)) (omega (arith, h.stop, long))

  completed_last :
      length rest ≤ 59
      → 0 < length rest
      → report_complete (report t) (sending t) ≡ record (noted k t) { r_ptr = 0; w_ptr = 0 }
  completed_last short more =
      let (part, quiet, cont) = low_byte k (omega (arith, low)) in
      let last : t.send_size - sent_part k ≡ 0 = omega (arith, part, h.left, short) in
      complete-noted (report t) k t h.own (report_of.1)
      ∙ ap rewind (next_header_last (report t) k t quiet last)
      ∙ rewind_now (record (noted k t) { r_ptr = t.r_ptr + 64 }) (omega (arith, h.stop, short))

  within : t.r_ptr + (5 + length (rest ++ junk)) ≤ length t.buffer
  within = omega (arith, length-drop t.r_ptr t.buffer, ap (λ (l : List ℕ). length l) h.front)

  behind : 59 < length rest → drop (t.r_ptr + 59 + 5) t.buffer ≡ drop 59 rest ++ junk
  behind long =
      ap (λ (i : ℕ). drop i t.buffer) (omega arith)
      ∙ drop_later t.buffer t.r_ptr 64 (cid_bytes cid ++ (k ∷ (rest ++ junk))) h.front
      ∙ drop_shorter 59 rest junk (omega (arith, long))

  advanced-Sending :
      59 < length rest → Sending cid (k + 1) (drop 59 rest) junk (advanced (report t) k (noted k t))
  advanced-Sending long =
      let (part, quiet, cont) = low_byte k (omega (arith, low)) in
      let (channel, number, content) = report_of in
      record {
        front =
            rw (h.place, channel, cont)
              (drop-splice t.buffer (t.r_ptr + 59) (cid_bytes cid ++ (k + 1) ∷ [])
                  (omega (arith, within, long, length-append rest junk))
                ∙ ap (λ l. cid_bytes cid ++ ((k + 1) ∷ l)) (behind long));
        left = omega (arith, part, h.left, length-drop 59 rest);
        place = omega (arith, h.place);
        stop = omega (arith, h.stop, length-drop 59 rest, long);
        free = refl;
        own = h.own;
      }

join_step :
    (c : List ℕ) (k : ℕ) (f d : List ℕ) (fs : List (List ℕ))
    → take 4 f ≡ c
    → byte_at f 4 ≡ k
    → join_rest c (k + 1) fs ≡ some d
    → join_rest c k (f ∷ fs) ≡ some (drop 5 f ++ d)
join_step c k f d fs e e' rest = rw (e, e', same_bytes_self c, ==_self k, rest) refl

pub not_ltb : (a b : ℕ) → ltb a b ≡ false → b ≤ a
not_ltb a b h = ground arith

pub drain-some :
    (n : ℕ) (t : Tx) (x : List ℕ)
    → send_next t ≡ some x
    → drain (suc n) t ≡ x ∷ drain n (report_complete x (sending t))
drain-some n t x e = rw (e, drain) refl

pub drain-none : (n : ℕ) (t : Tx) → send_next t ≡ none → drain n t ≡ []
drain-none zero t e = refl
drain-none (suc n) t e = rw (e, drain) refl

pub take_longer :
    (n : ℕ) (xs ys : List ℕ) → length xs ≤ n → take n (xs ++ ys) ≡ xs ++ take (n - length xs) ys
take_longer n [] ys h = ap (λ (i : ℕ). take i ys) (omega arith)
take_longer zero (x ∷ xs) ys h = absurd (omega (arith, h))
take_longer (suc n) (x ∷ xs) ys h =
    let e : suc n - suc (length xs) ≡ n - length xs = omega arith in
    rw e (ap (λ l. x ∷ l) (take_longer n xs ys (omega (arith, h))))

-- The reports from the continuation `k` on give the data from it on.
pub drain-Sending :
    (n cid k : ℕ) (rest junk : List ℕ) (t : Tx)
    → Sending cid k rest junk t
    → 0 < length rest
    → length rest ≤ 59 * n
    → k + n < 128
    → (j : List ℕ) × (join_rest (cid_bytes cid) k (drain (suc n) t) ≡ some (rest ++ j))
drain-Sending zero cid k rest junk t h more le low = absurd (omega (arith, more, le))
drain-Sending (suc n) cid k rest junk t h more le low =
    let (channel, number, content) = report_of cid k rest junk t h (omega (arith, low)) in
    elim (Bool-cases (ltb 59 (length rest))) [
      | inl test ↦
          let long : 59 < length rest = ltb→lt 59 (length rest) test in
          let (j, joined) =
            drain-Sending n cid (k + 1) (drop 59 rest) junk (advanced (report t) k (noted k t))
              (advanced-Sending cid k rest junk t h (omega (arith, low)) long)
              (omega (arith, long, length-drop 59 rest)) (omega (arith, le, length-drop 59 rest))
              (omega (arith, low)) in
          let next = completed_more cid k rest junk t h (omega (arith, low)) long in
          (
            j,
            ap (λ l. join_rest (cid_bytes cid) k l)
                  (drain-some (suc n) t (report t)
                      (something_left t (omega (arith, h.stop, more)) h.free)
                    ∙ ap (λ (u : Tx). report t ∷ drain (suc n) u) next)
                ∙ join_step (cid_bytes cid) k (report t) (drop 59 rest ++ j) _ channel number joined
                ∙ ap some (whole j long content),
          )
      | inr test ↦
          let short : length rest ≤ 59 = not_ltb 59 (length rest) test in
          let next = completed_last cid k rest junk t h (omega (arith, low)) short more in
          (
            take (59 - length rest) junk,
            ap (λ l. join_rest (cid_bytes cid) k l)
                  (drain-some (suc n) t (report t)
                      (something_left t (omega (arith, h.stop, more)) h.free)
                    ∙ ap (λ (u : Tx). report t ∷ drain (suc n) u) next
                    ∙ ap (λ l. report t ∷ l)
                        (drain-none (suc n) (record (noted k t) { r_ptr = 0; w_ptr = 0 })
                          (nothing_left (record (noted k t) { r_ptr = 0; w_ptr = 0 })
                            (omega arith))))
                ∙ join_step (cid_bytes cid) k (report t) [] [] channel number refl
                ∙ ap some
                    (append-nil (drop 5 (report t)) ∙ content ∙ take_longer 59 rest junk short),
          )
    ]
  where
    whole :
        (j : List ℕ)
        → 59 < length rest
        → drop 5 (report t) ≡ take 59 (rest ++ junk)
        → drop 5 (report t) ++ (drop 59 rest ++ j) ≡ rest ++ j
    whole j long content =
        ap (λ l. l ++ (drop 59 rest ++ j))
          (content ∙ take_shorter rest junk 59 (omega (arith, long)))
        ∙ sym (append_assoc (take 59 rest) (drop 59 rest) j)
        ∙ ap (λ l. l ++ j) (take-append-drop 59 rest)
