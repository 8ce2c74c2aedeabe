-- ===== src/Audit/Appended.antt =====
-- The log behind the operations of src/fido/audit.c: an appended entry, a counted run, and the
-- folded window.
use pico_all.Base.{
  ℕ, ◌+◌, ◌-◌, ◌%◌, ◌≤◌, ◌<◌, ◌≡◌, refl, sym, ap, ◌∙◌, ◌≢◌, ◌⊎◌, inl, inr, Option, some, List, [],
  ◌∷◌, ◌++◌, arith, ◌==◌, if◌then◌else◌, Bool-cases, length, set, length-append, length-set, take,
  replicate, length-take, length-replicate, set-append_self, get_or-set_self, get_or-set_ne,
  take-set, get_or_end,
}
use pico_all.Bytes.{IsU32}
use pico_all.Audit.Journal.{rd32, Journal, slot}
use pico_all.Audit.Append.{
  Clock, make_entry, aux_mask, set_slot, mark, write_entry, make_room, append_one, append_event,
}
use pico_all.Audit.Log.{
  IsJournal, Represents, slots_set_self, entry_length-set, IfSome, IfSome-and_then, Logged, HasRoom,
  make_room-Logged, write_entry-Logged,
}

pub make_entry-length :
    (c : Clock) (n ev aux : ℕ) (detail : List ℕ) → length (make_entry c n ev aux detail) ≡ 20
unfolding make_entry
make_entry-length c n ev aux detail = omega (
  arith,
  length-append (take 8 detail) (replicate (10 - length (take 8 detail)) 0),
  length-replicate {A = ℕ} (10 - length (take 8 detail)) 0,
  length-take 8 detail,
)

pub make_entry-number :
    (c : Clock) (n ev aux : ℕ) (detail : List ℕ)
    → IsU32 n
    → rd32 (make_entry c n ev aux detail) 0 ≡ n
unfolding make_entry
make_entry-number c n ev aux detail h = omega (arith, h)

-- The entry as it is saved.
abbrev pub final_entry : Clock → ℕ → ℕ → ℕ → List ℕ → List ℕ
final_entry c n ev aux detail =
    let e = make_entry c n ev aux detail in if ev == 21 then set e 12 (aux_mask aux) else e

pub rd32-set : (e : List ℕ) (i v : ℕ) → 4 ≤ i → rd32 (set e i v) 0 ≡ rd32 e 0
rd32-set e i v h =
    rw
      (
        get_or-set_ne e i 0 v 0 (λ k. omega (arith, h, k)),
        get_or-set_ne e i 1 v 0 (λ k. omega (arith, h, k)),
        get_or-set_ne e i 2 v 0 (λ k. omega (arith, h, k)),
        get_or-set_ne e i 3 v 0 (λ k. omega (arith, h, k)),
      )
      refl

-- Entries of one window are the same or stand in different slots.
same_or_apart :
    (n m s : ℕ)
    → s ≤ n
    → n < s + 128
    → s ≤ m
    → m < s + 128
    → (n ≡ m) ⊎ ((n ≢ m) × (n % 128 ≢ m % 128))
same_or_apart n m s a b c d = elim (Bool-cases (n == m)) [
  | inl e ↦ inl (ground (arith, e))
  | inr e ↦
      let ne : n ≢ m = λ k. ground (arith, e, k) in inr (ne, λ k. ne (omega (arith, a, b, c, d, k)))
]

module _ (sha : List ℕ → Option (List ℕ))
    (digest_length : (m d : List ℕ) → sha m ≡ some d → length d ≡ 32) (seed : List ℕ) where
  -- The journal of a log whose newest entry is in the window.
  abbrev pub Newest : List (List ℕ) → ℕ → Journal → Type 0
  Newest log n j = Logged sha seed log n j × (j.start < j.next)

  pub append_one-Logged :
      (log : List (List ℕ)) (c : Clock) (ev aux : ℕ) (detail : List ℕ) (j : Journal)
      → IsJournal j
      → Represents sha seed log j
      → IfSome
          (Newest (log ++ make_entry c j.next ev aux detail ∷ []) (j.next + 1))
          (append_one sha c ev aux detail j)
  unfolding append_one
  append_one-Logged log c ev aux detail j w r = elim (Bool-cases (j.next == 4294967295)) [
    | inl last ↦ rw last tt
    | inr there ↦
        let below : j.next < 4294967295 = ground (arith, w.next_fits) in
        rw there (
          IfSome-and_then (λ j'. Logged sha seed log j.next j' × HasRoom sha j')
            (Newest (log ++ make_entry c j.next ev aux detail ∷ []) (j.next + 1)) (make_room sha j)
            (λ j'. some (write_entry (make_entry c j.next ev aux detail) j'))
            (make_room-Logged sha digest_length seed log j w r) (written below))
  ]
    where
      written :
          j.next < 4294967295
          → (j' : Journal) → Logged sha seed log j.next j' × HasRoom sha j'
          → Newest
              (log ++ make_entry c j.next ev aux detail ∷ [])
              (j.next + 1)
              (write_entry (make_entry c j.next ev aux detail) j')
      written below j' ((w', r', same), room) =
          let e = make_entry c j.next ev aux detail in
          let done =
            write_entry-Logged sha seed log e j' (make_entry-length c j.next ev aux detail)
              (make_entry-number c j.next ev aux detail (omega (arith, below)) ∙ sym same)
              (omega (arith, below, same)) room (w', r', refl) in
          ((done.0, done.1, ap (λ (n : ℕ). n + 1) same), omega (arith, w'.started))

  -- Another entry with the same number in the place of one that is retained.
  pub set_slot-Logged :
      (log : List (List ℕ)) (j : Journal) (n k : ℕ) (e : List ℕ)
      → j.start ≤ n
      → n < j.next
      → length e ≡ 20
      → rd32 e 0 ≡ n
      → Logged sha seed log k j
      → Logged sha seed (set log n e) k (set_slot j n e)
  set_slot-Logged log j n k e a lt size number (w, r, same) = (
    record {
      version_one = w.version_one;
      next_fits = w.next_fits;
      started = w.started;
      window = w.window;
      anchor_length = w.anchor_length;
      slots_length = length-set j.slots (n % 128) e ∙ w.slots_length;
      entry_length = entry_length-set j.slots (n % 128) e size w.entry_length;
      own_number = λ m b c.
          elim (same_or_apart n m j.start a (omega (arith, lt, w.window)) b
            (omega (arith, c, w.window))) [
              | inl eq ↦ rw (← eq, slots_set_self j.slots n e w.slots_length) number
              | inr (ne, places) ↦
                  rw (get_or-set_ne j.slots (n % 128) (m % 128) e [] places) (w.own_number m b c)
            ];
    },
    record {
      count = length-set log n e ∙ r.count;
      anchored = rw (take-set log j.start n e a) r.anchored;
      shown = λ m b c.
          elim (same_or_apart n m j.start a (omega (arith, lt, w.window)) b
            (omega (arith, c, w.window))) [
              | inl eq ↦
                  rw
                    (
                      ← eq,
                      slots_set_self j.slots n e w.slots_length,
                      get_or-set_self log n e [] (omega (arith, lt, r.count)),
                    )
                    refl
              | inr (ne, places) ↦
                  rw
                    (
                      get_or-set_ne j.slots (n % 128) (m % 128) e [] places,
                      get_or-set_ne log n m e [] ne,
                    )
                    (r.shown m b c)
            ];
    },
    same,
  )

  mark-Logged :
      (log : List (List ℕ)) (e : List ℕ) (j : Journal) (ev aux k : ℕ)
      → length e ≡ 20
      → length log + 1 ≡ k
      → rd32 e 0 ≡ length log
      → j.start < j.next
      → Logged sha seed (log ++ e ∷ []) k j
      → Logged sha seed
          (log ++ (if ev == 21 then set e 12 (aux_mask aux) else e) ∷ [])
          k
          (mark ev aux j)
  unfolding mark
  mark-Logged log e j ev aux k size long number room l = elim (Bool-cases (ev == 21)) [
    | inl write ↦
        let (w, r, same) = l in
        let last : j.next - 1 ≡ length log = omega (arith, long, same) in
        let there : slot j (length log) ≡ e =
          r.shown (length log) (omega (arith, room, last)) (omega (arith, room, last))
          ∙ get_or_end log e [] (length log) refl in
        rw (write, last, there, ← set-append_self log [] e (set e 12 (aux_mask aux)))
          (set_slot-Logged (log ++ e ∷ []) j (length log) k (set e 12 (aux_mask aux))
            (omega (arith, room, last)) (omega (arith, room, last))
            (length-set e 12 (aux_mask aux) ∙ size)
            (rd32-set e 12 (aux_mask aux) (omega arith) ∙ number) l)
    | inr other ↦ rw other l
  ]

  pub append_event-Logged :
      (log : List (List ℕ)) (c : Clock) (ev aux : ℕ) (detail : List ℕ) (j : Journal)
      → IsJournal j
      → Represents sha seed log j
      → IfSome
          (Logged sha seed (log ++ final_entry c j.next ev aux detail ∷ []) (j.next + 1))
          (append_event sha c ev aux detail j)
  unfolding append_event
  append_event-Logged log c ev aux detail j w r =
      IfSome-and_then (Newest (log ++ e ∷ []) (j.next + 1))
        (Logged sha seed (log ++ final_entry c j.next ev aux detail ∷ []) (j.next + 1))
        (append_one sha c ev aux detail j) (λ j'. some (mark ev aux j'))
        (append_one-Logged log c ev aux detail j w r) marked
    where
      e : List ℕ
      e = make_entry c j.next ev aux detail

      marked :
          (j' : Journal)
          → Newest (log ++ e ∷ []) (j.next + 1) j'
          → Logged sha seed
              (log ++ final_entry c j.next ev aux detail ∷ [])
              (j.next + 1)
              (mark ev aux j')
      marked j' (l, room) =
          mark-Logged log e j' ev aux (j.next + 1) (make_entry-length c j.next ev aux detail)
            (ap (λ (n : ℕ). n + 1) r.count)
            (make_entry-number c j.next ev aux detail w.next_fits ∙ sym r.count) room l
