-- ===== src/Hid/Transmit/Response.antt =====
-- A whole response that hid.c sends, from its first report on.
use mathlib.Core.List.{append_assoc, append-nil}
use pico_all.Base.{
  ℕ, suc, ◌+◌, ◌-◌, ◌*◌, ◌/◌, ◌%◌, ◌≤◌, ◌<◌, ◌≡◌, refl, sym, ap, ◌∙◌, ◌≢◌, inl, inr, true, false,
  some, List, [], ◌∷◌, ◌++◌, arith, ltb, leb, ltb→lt, Bool-cases, length, length-append, take, drop,
  take-append-drop, length-take, length-drop, take-append, drop_front, take_shorter,
}
use pico_all.Bytes.{byte_at}
use pico_all.Hid.Frame.{cid_bytes}
use pico_all.Hid.Transmit.{
  Tx, exec_finished_cont, is_keepalive, is_pending, sent_part, rewind, report_complete, drain,
  join_rest, join_first, join_frames,
}
use pico_all.Hid.Transmit.Joined.{
  Sending, report, sending, noted, advanced, complete-noted, next_header_more, next_header_last,
  rewind_later, rewind_now, nothing_left, something_left, drop_shorter, not_ltb, drain-some,
  drain-none, take_longer, drain-Sending,
}

first_byte :
    (c : ℕ) → 128 ≤ c → c ≢ 187 → (sent_part c ≡ 57) × (is_keepalive c ≡ false) × (leb 128 c ≡ true)
first_byte c h ne = ground arith

join_all :
    (c f : List ℕ) (fs : List (List ℕ)) (rest : List ℕ) (cmd n : ℕ) (d : List ℕ)
    → take 4 f ≡ c
    → byte_at f 4 ≡ cmd
    → byte_at f 5 * 256 + byte_at f 6 ≡ n
    → join_rest c 0 fs ≡ some rest
    → take n (drop 7 f ++ rest) ≡ d
    → join_frames (f ∷ fs) ≡ some (cmd, d)
join_all c f fs rest cmd n d channel command size others whole =
    ap (λ h. join_first f (join_rest h 0 fs)) channel
    ∙ ap (join_first f) others
    ∙ ap (λ (k : ℕ). some (k, take (byte_at f 5 * 256 + byte_at f 6) (drop 7 f ++ rest))) command
    ∙ ap (λ (k : ℕ). some (cmd, take k (drop 7 f ++ rest))) size
    ∙ ap (λ l. some (cmd, l)) whole

module _ (cid cmd : ℕ) (d junk : List ℕ) (t : Tx) (high : 128 ≤ cmd) (other : cmd ≢ 187)
    (some_data : 0 < length d) (fits : length d < 65536) (ready : drop 7 t.buffer ≡ d ++ junk)
    (r_zero : t.r_ptr ≡ 0) (w_zero : t.w_ptr ≡ 0) (free : is_pending t.status ≡ false)
    (own : t.busy_inflight ≡ false) where
  abbrev started : Tx
  started = record t {
    buffer = cid_bytes cid ++ (cmd ∷ (length d / 256 % 256) ∷ (length d % 256) ∷ (d ++ junk));
    resp = 0;
    send_size = length d;
    w_ptr = length d + 7;
    r_ptr = 0;
  }

  exec_started : exec_finished_cont cid cmd (length d) 7 t ≡ started
  unfolding exec_finished_cont
  exec_started =
      rw (ready, r_zero, w_zero) (ap (λ (w : ℕ). record started { w_ptr = w }) (omega arith))

  first_report :
      (take 4 (report started) ≡ cid_bytes cid)
      × (byte_at (report started) 4 ≡ cmd)
      × (byte_at (report started) 5 * 256 + byte_at (report started) 6 ≡ length d)
      × (drop 7 (report started) ≡ take 57 (d ++ junk))
  first_report = (refl, refl, omega (arith, fits), refl)

  first_last :
      length d ≤ 57
      → report_complete (report started) (sending started)
        ≡ record (noted cmd started) { r_ptr = 0; w_ptr = 0 }
  first_last short =
      let (part, quiet, init) = first_byte cmd high other in
      complete-noted (report started) cmd started own refl
      ∙ ap rewind (next_header_last (report started) cmd started quiet (omega (arith, part, short)))
      ∙ rewind_now (record (noted cmd started) { r_ptr = 64 }) (omega (arith, short))

  first_more :
      57 < length d
      → report_complete (report started) (sending started)
        ≡ advanced (report started) cmd (noted cmd started)
  first_more long =
      let (part, quiet, init) = first_byte cmd high other in
      complete-noted (report started) cmd started own refl
      ∙ ap rewind (next_header_more (report started) cmd started quiet (omega (arith, part, long)))
      ∙ rewind_later (advanced (report started) cmd (noted cmd started)) (omega (arith, long))

  first-Sending :
      57 < length d
      → Sending cid 0 (drop 57 d) junk (advanced (report started) cmd (noted cmd started))
  first-Sending long =
      let (part, quiet, init) = first_byte cmd high other in
      record {
        front = rw init (
            drop_front (take 52 (d ++ junk)) (cid_bytes cid ++ (0 ∷ drop 57 (d ++ junk))) 52
              (omega (arith, length-take 52 (d ++ junk), length-append d junk, long))
            ∙ ap (λ l. cid_bytes cid ++ (0 ∷ l)) (drop_shorter 57 d junk (omega (arith, long))));
        left = omega (arith, part, length-drop 57 d);
        place = refl;
        stop = omega (arith, length-drop 57 d, long);
        free = refl;
        own = own;
      }

  joined_by :
      (fs : List (List ℕ)) (rest : List ℕ)
      → join_rest (cid_bytes cid) 0 fs ≡ some rest
      → (j : List ℕ) × (take 57 (d ++ junk) ++ rest ≡ d ++ j)
      → join_frames (report started ∷ fs) ≡ some (cmd, d)
  joined_by fs rest e (j, whole) =
      let (channel, command, size, content) = first_report in
      join_all (cid_bytes cid) (report started) fs rest cmd (length d) d channel command size e
        (rw (content, whole) (take-append d j))

  drained :
      (n : ℕ)
      → length d ≤ 57 + 59 * n
      → n < 128
      → join_frames (drain (suc (suc n)) started) ≡ some (cmd, d)
  drained n le low = elim (Bool-cases (ltb 57 (length d))) [
    | inl test ↦
        let long : 57 < length d = ltb→lt 57 (length d) test in
        let (j, rest) =
          drain-Sending n cid 0 (drop 57 d) junk (advanced (report started) cmd (noted cmd started))
            (first-Sending long) (omega (arith, length-drop 57 d, long))
            (omega (arith, length-drop 57 d, le)) (omega (arith, low)) in
        ap join_frames
          (leaving n ∙ ap (λ (u : Tx). report started ∷ drain (suc n) u) (first_more long))
        ∙ joined_by (drain (suc n) (advanced (report started) cmd (noted cmd started)))
            (drop 57 d ++ j) rest (j, front_part j long)
    | inr test ↦
        let short : length d ≤ 57 = not_ltb 57 (length d) test in
        let over : Tx = record (noted cmd started) { r_ptr = 0; w_ptr = 0 } in
        ap join_frames (
          leaving n
          ∙ ap (λ (u : Tx). report started ∷ drain (suc n) u) (first_last short)
          ∙ ap (λ l. report started ∷ l)
              (drain-none (suc n) over (nothing_left over (omega arith))))
        ∙ joined_by [] [] refl (
          take (57 - length d) junk,
          append-nil (take 57 (d ++ junk)) ∙ take_longer 57 d junk short,
        )
  ]
    where
      leaving :
          (n : ℕ)
          → drain (suc (suc n)) started
            ≡ report started ∷ drain (suc n) (report_complete (report started) (sending started))
      leaving n =
          drain-some (suc n) started (report started) (something_left started (omega arith) free)

      front_part : (j : List ℕ) → 57 < length d → take 57 (d ++ junk) ++ (drop 57 d ++ j) ≡ d ++ j
      front_part j long =
          ap (λ l. l ++ (drop 57 d ++ j)) (take_shorter d junk 57 (omega (arith, long)))
          ∙ sym (append_assoc (take 57 d) (drop 57 d) j)
          ∙ ap (λ l. l ++ j) (take-append-drop 57 d)

  -- A response of 1 to 1983 bytes, whose reports all lie in the transmit buffer of 2048 bytes, that
  -- stands in the buffer from place 7 on when nothing is being sent, with a command that is no
  -- KEEPALIVE: 36 rounds of sending, each report completed before the next is sent, give reports that
  -- a host, which checks their channel and sequence numbers, joins to the command and the response.
  pub join_frames-drain :
      length d ≤ 1983
      → (join_frames (drain 36 (exec_finished_cont cid cmd (length d) 7 t)) ≡ some (cmd, d))
  join_frames-drain small =
      ap (λ (u : Tx). join_frames (drain 36 u)) exec_started
      ∙ drained 34 (omega (arith, small)) (omega arith)
