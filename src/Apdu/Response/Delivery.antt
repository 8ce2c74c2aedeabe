-- ===== src/Apdu/Response/Delivery.antt =====
-- A response that is split over GET RESPONSE commands arrives whole.
use mathlib.Core.Path.{ap₂}
use mathlib.Core.List.{append_assoc, append-nil}
use pico_all.Base.{
  ℕ, ◌+◌, ◌-◌, ◌/◌, ◌%◌, ◌≤◌, ◌<◌, ◌≡◌, refl, ap, ◌∙◌, subst, ◌≢◌, inl, inr, true, false, some,
  List, [], ◌∷◌, ◌++◌, arith, leb, ◌==◌, if◌then◌else◌, Bool-cases, length, length-append, take,
  drop, take-append-drop, length-drop, At, drop-append_self, At-set_two,
}
use pico_all.Bytes.{AllBytes, AllBytes-drop}
use pico_all.Apdu.Response.{
  Response, write_two, sent, split_at, apdu_finish, apdu_next, continue_response, apdu_process,
}
use pico_all.Apdu.Response.Masking.{Ready, Masked, Masked→Ready, take_part, split_at-Split}

-- Everything that the host is sent: what `apdu_next` sends, and the answers to GET RESPONSE
-- commands with the expected lengths `nes`, up to the first that is not answered from the pending
-- response.
unfoldable pub get_responses : Response → List ℕ → List (List ℕ)
get_responses r [] = []
get_responses r (ne ∷ nes) =
    let (r', run, out) = apdu_process (record r { ne = ne }) 0xc0 in
    let rest = get_responses r' nes in if run then [] else out ∷ rest

unfoldable pub exchange : Response → List ℕ → List (List ℕ)
exchange r nes =
    let (r', size) = apdu_next (apdu_finish r) in sent r'.rdata 0 size ∷ get_responses r' nes

-- The data of all the answers: each without its last two bytes, the status.
abbrev pub payloads : List (List ℕ) → List ℕ
payloads [] = []
payloads (c ∷ cs) = take (length c - 2) c ++ payloads cs

-- The status of the last answer.
abbrev pub last_status : List (List ℕ) → List ℕ
last_status [] = []
last_status (c ∷ []) = drop (length c - 2) c
last_status (c ∷ d ∷ cs) = last_status (d ∷ cs)

abbrev pub total : List ℕ → ℕ
total [] = 0
total (n ∷ ns) = n + total ns

-- The answers carry the data `rest`, and the last of them the status.
abbrev Delivers : List (List ℕ) → List ℕ → ℕ → ℕ → Type 0
Delivers cs rest s1 s2 = (payloads cs ≡ rest) × (last_status cs ≡ s1 ∷ s2 ∷ [])

Delivers-one : (rest : List ℕ) (s1 s2 : ℕ) → Delivers ((rest ++ s1 ∷ s2 ∷ []) ∷ []) rest s1 s2
Delivers-one rest s1 s2 =
    let size : length (rest ++ s1 ∷ s2 ∷ []) - 2 ≡ length rest =
      omega (arith, length-append rest (s1 ∷ s2 ∷ [])) in
    let data_part = take_part rest (s1 ∷ s2 ∷ []) (length (rest ++ s1 ∷ s2 ∷ []) - 2) size in
    (append-nil _ ∙ data_part, rw size (drop-append_self rest (s1 ∷ s2 ∷ [])))

Delivers-more :
    (t rest : List ℕ) (x y : ℕ) (d : List ℕ) (cs : List (List ℕ)) (s1 s2 : ℕ)
    → Delivers (d ∷ cs) rest s1 s2
    → Delivers ((t ++ x ∷ y ∷ []) ∷ d ∷ cs) (t ++ rest) s1 s2
Delivers-more t rest x y d cs s1 s2 (data_part, status) =
    let size : length (t ++ x ∷ y ∷ []) - 2 ≡ length t =
      omega (arith, length-append t (x ∷ y ∷ [])) in
    (rw data_part (ap (λ (l : List ℕ). l ++ rest) (take_part t (x ∷ y ∷ []) _ size)), status)

process_pending :
    (r : Response) (g : ℕ)
    → r.pending ≡ true
    → r.rdata_gr ≡ some g
    → apdu_process r 0xc0 ≡ ((continue_response r g).0, false, (continue_response r g).1)
unfolding apdu_process
process_pending r g p e = simp (p, e)

process_idle : (r : Response) → r.pending ≡ false → (apdu_process r 0xc0).1 ≡ true
unfolding apdu_process
process_idle r p = simp p

get_responses_idle : (r : Response) (nes : List ℕ) → r.pending ≡ false → get_responses r nes ≡ []
unfolding get_responses
get_responses_idle r [] p = refl
get_responses_idle r (ne ∷ nes) p = rw (process_idle (record r { ne = ne }) p)

get_responses_pending :
    (r : Response) (g ne : ℕ) (nes : List ℕ)
    → r.pending ≡ true
    → r.rdata_gr ≡ some g
    → get_responses r (ne ∷ nes)
      ≡ (continue_response (record r { ne = ne }) g).1
        ∷ get_responses (continue_response (record r { ne = ne }) g).0 nes
unfolding get_responses
get_responses_pending r g ne nes p e = rw (process_pending (record r { ne = ne }) g p e)

-- The buffer with the saved bytes put back.
abbrev restored : Response → ℕ → ℕ → Response
restored r g ne = record r {
  rdata = write_two r.rdata g (r.rdata_bk / 256) (r.rdata_bk % 256);
  ne = ne;
}

continue_last :
    (r : Response) (g ne : ℕ)
    → r.rlen ≤ ne
    → ((continue_response (record r { ne = ne }) g).0.pending ≡ false)
      × ((continue_response (record r { ne = ne }) g).1
          ≡ sent (restored r g ne).rdata g ((r.rlen + 2) % 65536))
unfolding continue_response
continue_last r g ne h = let all : leb r.rlen ne ≡ true = ground arith in (rw all, rw all)

continue_more :
    (r : Response) (g ne : ℕ)
    → ne < r.rlen
    → continue_response (record r { ne = ne }) g ≡ (
      split_at (restored r g ne) (g + ne) ne,
      sent (split_at (restored r g ne) (g + ne) ne).rdata g ((ne + 2) % 65536),
    )
unfolding continue_response
continue_more r g ne h = let some_left : leb r.rlen ne ≡ false = ground arith in rw some_left

sent_whole :
    (d : List ℕ) (g : ℕ) (rest junk : List ℕ) (s1 s2 n : ℕ)
    → At d g ((rest ++ s1 ∷ s2 ∷ []) ++ junk)
    → n ≡ length rest
    → length rest < 65534
    → sent d g ((n + 2) % 65536) ≡ rest ++ s1 ∷ s2 ∷ []
sent_whole d g rest junk s1 s2 n h e room = rw h.suffix (
    take_part (rest ++ s1 ∷ s2 ∷ []) junk ((n + 2) % 65536)
      (omega (arith, length-append rest (s1 ∷ s2 ∷ []))))

get_responses-Cons :
    (r : Response) (rest : List ℕ) (s1 s2 : ℕ) (nes : List ℕ)
    → Masked r rest s1 s2
    → AllBytes rest
    → s1 < 256
    → s2 < 256
    → length rest < 65534
    → 0 < length rest
    → length rest ≤ total nes
    → (d : List ℕ) × (cs : List (List ℕ)) × (get_responses r nes ≡ d ∷ cs)
      × Delivers (d ∷ cs) rest s1 s2
get_responses-Cons r rest s1 s2 [] m h h1 h2 room some_left enough = absurd (omega arith)
get_responses-Cons r rest s1 s2 (ne ∷ nes) m h h1 h2 room some_left enough =
    elim (Bool-cases (leb r.rlen ne)) [
      | inl all ↦
          let (off, out) = continue_last r m.g ne (ground arith) in
          let v = Masked→Ready r rest s1 s2 m in
          (
            rest ++ s1 ∷ s2 ∷ [],
            [],
            get_responses_pending r m.g ne nes m.waits m.at_g
                ∙ ap₂ (λ (d : List ℕ) (cs : List (List ℕ)). d ∷ cs)
                    (out ∙ sent_whole _ m.g rest v.junk s1 s2 r.rlen v.place m.size room)
                    (get_responses_idle _ nes off),
            Delivers-one rest s1 s2,
          )
      | inr part ↦
          let lt : ne < length rest = ground (arith, m.size) in
          let v = Masked→Ready r rest s1 s2 m in
          let ready : Ready (restored r m.g ne) m.g rest s1 s2 = record {
            junk = v.junk;
            place = v.place;
            size = m.size;
          } in
          let s = split_at-Split (restored r m.g ne) m.g ne rest s1 s2 ready h h1 h2 lt room in
          let (d, cs, e, del) =
            get_responses-Cons (split_at (restored r m.g ne) (m.g + ne) ne) (drop ne rest) s1 s2 nes
              s.left (AllBytes-drop ne rest h) h1 h2 (omega (arith, length-drop ne rest))
              (omega (arith, length-drop ne rest)) (omega (arith, length-drop ne rest)) in
          (
            take ne rest ++ 0x61 ∷ s.y ∷ [],
            d ∷ cs,
            get_responses_pending r m.g ne nes m.waits m.at_g
                ∙ rw (continue_more r m.g ne (omega (arith, m.size)), s.out, e) refl,
            subst (λ l. Delivers ((take ne rest ++ 0x61 ∷ s.y ∷ []) ∷ d ∷ cs) l s1 s2)
                (take-append-drop ne rest)
                (Delivers-more (take ne rest) (drop ne rest) 0x61 s.y d cs s1 s2 del),
          )
    ]

-- A response in the buffer, with room for the status behind it.
pub record IsResponse (r : Response) (d : List ℕ) : Type 0 where
  pub x : ℕ
  pub y : ℕ
  pub junk : List ℕ
  pub place : At r.rdata 0 (d ++ x ∷ y ∷ junk)
  pub size : r.rlen ≡ length d
  pub data_bytes : AllBytes d
  pub short : length d < 65534
  pub some_status : r.sw ≢ 0
  pub status_bound : r.sw < 65536

apdu_finish-Ready :
    (r : Response) (d : List ℕ)
    → IsResponse r d
    → Ready (apdu_finish r) 0 d (r.sw / 256 % 256) (r.sw % 256)
unfolding apdu_finish
apdu_finish-Ready r d v =
    let at : 0 + length d ≡ r.rlen = omega (arith, v.size) in
    record {
      junk = v.junk;
      place =
          rw (← append_assoc d ((r.sw / 256 % 256) ∷ (r.sw % 256) ∷ []) v.junk, at) at
            (At-set_two d v.junk v.x v.y (r.sw / 256 % 256) (r.sw % 256) v.place);
      size = v.size;
    }

next_whole :
    (r : Response)
    → r.sw ≢ 0
    → r.rlen ≤ r.ne
    → apdu_next (apdu_finish r) ≡ (record (apdu_finish r) { pending = false }, (r.rlen + 2) % 65536)
unfolding apdu_next apdu_finish
next_whole r s h = ground arith

next_split :
    (r : Response)
    → r.sw ≢ 0
    → r.ne < r.rlen
    → apdu_next (apdu_finish r) ≡ (split_at (apdu_finish r) (0 + r.ne) r.ne, (r.ne + 2) % 65536)
unfolding apdu_next apdu_finish
next_split r s h =
    let at : 0 + r.ne ≡ r.ne = omega arith in
    let more : leb r.rlen r.ne ≡ false = ground arith in
    let set : (r.sw == 0) ≡ false = ground arith in rw (at, more, set)

exchange_whole :
    (r : Response) (d : List ℕ) (nes : List ℕ)
    → IsResponse r d
    → r.rlen ≤ r.ne
    → Delivers (exchange r nes) d (r.sw / 256 % 256) (r.sw % 256)
unfolding exchange
exchange_whole r d nes v all =
    let w = apdu_finish-Ready r d v in
    rw
      (
        next_whole r v.some_status all,
        sent_whole _ 0 d w.junk _ _ r.rlen w.place v.size v.short,
        get_responses_idle (record (apdu_finish r) { pending = false }) nes refl,
      )
      (Delivers-one d (r.sw / 256 % 256) (r.sw % 256))

exchange_split :
    (r : Response) (d : List ℕ) (nes : List ℕ)
    → IsResponse r d
    → r.ne < r.rlen
    → length d ≤ r.ne + total nes
    → Delivers (exchange r nes) d (r.sw / 256 % 256) (r.sw % 256)
unfolding exchange
exchange_split r d nes v part enough =
    let w = apdu_finish-Ready r d v in
    let h1 : r.sw / 256 % 256 < 256 = omega arith in
    let h2 : r.sw % 256 < 256 = omega arith in
    let lt : r.ne < length d = omega (arith, v.size) in
    let s =
      split_at-Split (apdu_finish r) 0 r.ne d (r.sw / 256 % 256) (r.sw % 256) w v.data_bytes h1 h2
        lt v.short in
    let (c, cs, e, del) =
      get_responses-Cons (split_at (apdu_finish r) (0 + r.ne) r.ne) (drop r.ne d) _ _ nes s.left
        (AllBytes-drop r.ne d v.data_bytes) h1 h2 (omega (arith, v.short, length-drop r.ne d))
        (omega (arith, length-drop r.ne d)) (omega (arith, length-drop r.ne d)) in
    rw (next_split r v.some_status part, s.out, e)
      (subst
        (λ l.
          Delivers ((take r.ne d ++ 0x61 ∷ s.y ∷ []) ∷ c ∷ cs) l (r.sw / 256 % 256) (r.sw % 256))
        (take-append-drop r.ne d) (Delivers-more (take r.ne d) (drop r.ne d) 0x61 s.y c cs _ _ del))

-- A response of up to 65533 bytes with a non-zero status reaches the host whole: when the length
-- that the command expects and those of the GET RESPONSE commands that follow add up to the
-- response's length at least, the data of the answers, joined, is the response's data, and the last
-- answer ends with its status word.
pub exchange_delivers :
    (r : Response) (d : List ℕ) (nes : List ℕ)
    → IsResponse r d
    → length d ≤ r.ne + total nes
    → (payloads (exchange r nes) ≡ d)
      × (last_status (exchange r nes) ≡ (r.sw / 256 % 256) ∷ (r.sw % 256) ∷ [])
exchange_delivers r d nes v enough = elim (Bool-cases (leb r.rlen r.ne)) [
  | inl all ↦ exchange_whole r d nes v (ground arith)
  | inr part ↦ exchange_split r d nes v (ground arith) enough
]
