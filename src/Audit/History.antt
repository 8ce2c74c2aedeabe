-- ===== src/Audit/History.antt =====
-- The head of the chain, what an export shows of it, and the folding of the window in
-- src/fido/audit.c.
use pico_all.Base.{
  ℕ, zero, suc, ◌+◌, ◌-◌, ◌%◌, ◌≤◌, ◌<◌, ◌≡◌, refl, sym, ap, ◌∙◌, Option, none, some, List, [], ◌∷◌,
  ◌++◌, arith, length, get_or, take, drop, replicate, take-append-drop, length-drop,
  length-replicate, take_front, take_whole, drop_whole, drop_front, drop_next,
}
use pico_all.Audit.Journal.{
  Journal, slot, chunks, joined, and_then, empty_slots, fresh, chain_slots, head, chain_all,
}
use pico_all.Audit.Append.{scrub}
use pico_all.Audit.Card.{copied, export_of}
use pico_all.Audit.Log.{
  IsJournal, Represents, IfSome, IfSome-and_then, chain_all-append, chain_slots_log, Logged,
}

-- The chunks of entries of 20 bytes, joined, are the entries.
pub chunks-joined :
    (k : ℕ) (s : List (List ℕ))
    → length s ≡ k
    → ((i : ℕ) → i < k → length (get_or s i []) ≡ 20)
    → chunks k (joined s) ≡ s
unfolding chunks
chunks-joined zero [] e h = refl
chunks-joined zero (x ∷ s) e h = absurd (omega (arith, e))
chunks-joined (suc k) [] e h = absurd (omega (arith, e))
chunks-joined (suc k) (x ∷ s) e h =
    rw
      (
        take_front x (joined s) 20 (h 0 (omega arith)),
        drop_front x (joined s) 20 (h 0 (omega arith)),
      )
      (ap (λ l. x ∷ l)
        (chunks-joined k s (omega (arith, e)) (λ i lt. h (suc i) (omega (arith, lt)))))

get_or-replicate {ℓ} : {A : Type ℓ} (n i : ℕ) (a d : A) → i < n → get_or (replicate n a) i d ≡ a
get_or-replicate zero i a d lt = absurd (omega (arith, lt))
get_or-replicate (suc n) zero a d lt = refl
get_or-replicate (suc n) (suc i) a d lt = get_or-replicate n i a d (omega (arith, lt))

-- A journal that is begun stands for the empty log.
pub fresh-Logged :
    (sha : List ℕ → Option (List ℕ)) (seed : List ℕ)
    → length seed ≡ 32
    → Logged sha seed [] 0 (fresh seed)
fresh-Logged sha seed size = (
  record {
    version_one = refl;
    next_fits = omega arith;
    started = omega arith;
    window = omega arith;
    anchor_length = size;
    slots_length = length-replicate 128 (replicate {A = ℕ} 20 0);
    entry_length = λ i lt.
        ap (λ (l : List ℕ). length l) (get_or-replicate 128 i (replicate {A = ℕ} 20 0) [] lt)
        ∙ length-replicate {A = ℕ} 20 0;
    own_number = λ n b c. absurd (omega (arith, b, c));
  },
  record { count = refl; anchored = refl; shown = λ n b c. absurd (omega (arith, b, c)) },
  refl,
)

chain_slots-length :
    (sha : List ℕ → Option (List ℕ))
    → ((m d : List ℕ) → sha m ≡ some d → length d ≡ 32)
    → (j : Journal) (h : List ℕ) (n k : ℕ) → length h ≡ 32
    → IfSome (λ h'. length h' ≡ 32) (chain_slots sha j h n k)
chain_slots-length sha d j h n zero e = e
chain_slots-length sha d j h n (suc k) e =
    IfSome-and_then (λ h'. length h' ≡ 32) (λ h'. length h' ≡ 32) (sha (h ++ slot j n))
      (λ h'. chain_slots sha j h' (n + 1) k)
      (digest-IfSome (sha (h ++ slot j n)) (d (h ++ slot j n)))
      (λ h' e'. chain_slots-length sha d j h' (n + 1) k e')
  where
    digest-IfSome :
        (o : Option (List ℕ))
        → ((x : List ℕ) → o ≡ some x → length x ≡ 32)
        → IfSome (λ h'. length h' ≡ 32) o
    digest-IfSome none k = tt
    digest-IfSome (some x) k = k x refl

module _ (sha : List ℕ → Option (List ℕ))
    (digest_length : (m d : List ℕ) → sha m ≡ some d → length d ≡ 32) (seed : List ℕ)
    (log : List (List ℕ)) (j : Journal) (w : IsJournal j) (r : Represents sha seed log j) where
  window_entries :
      chain_slots sha j j.anchor j.start (j.next - j.start)
      ≡ chain_all sha j.anchor (drop j.start log)
  window_entries =
      chain_slots_log sha j log j.anchor j.start (j.next - j.start)
        (omega (arith, r.count, w.started)) (λ m a b. r.shown m a (omega (arith, b, a, w.started)))
      ∙ ap (λ l. chain_all sha j.anchor l)
          (take_whole (j.next - j.start) (drop j.start log)
            (omega (arith, r.count, length-drop j.start log)))

  -- The head is the hash chain over all that was ever recorded.
  head-Represents : head sha j ≡ chain_all sha seed log
  unfolding head
  head-Represents =
      window_entries
      ∙ sym (
          ap (λ l. chain_all sha seed l) (sym (take-append-drop j.start log))
          ∙ chain_all-append sha seed (take j.start log) (drop j.start log)
          ∙ ap (λ o. and_then o (λ h. chain_all sha h (drop j.start log))) r.anchored)

  copied-log : (n k : ℕ) → j.start ≤ n → n + k ≡ j.next → chunks k (copied j n k) ≡ drop n log
  unfolding chunks
  copied-log n zero a e = sym (drop_whole n log (omega (arith, e, r.count)))
  copied-log n (suc k) a e =
      let size : length (slot j n) ≡ 20 = w.entry_length (n % 128) (omega arith) in
      rw
        (
          take_front (slot j n) (copied j (n + 1) k) 20 size,
          drop_front (slot j n) (copied j (n + 1) k) 20 size,
          copied-log (n + 1) k (omega (arith, a)) (omega (arith, e)),
          drop_next log n [] (omega (arith, e, r.count)),
          r.shown n a (omega (arith, e)),
        )
        refl

  exported :
      chain_all sha
        (export_of j).anchor
        (chunks ((export_of j).next - (export_of j).start) (export_of j).entries)
      ≡ chain_all sha seed log
  unfolding export_of
  exported =
      ap (λ l. chain_all sha j.anchor l)
        (copied-log j.start (j.next - j.start) (omega arith) (omega (arith, w.started)))
      ∙ sym (
          ap (λ l. chain_all sha seed l) (sym (take-append-drop j.start log))
          ∙ chain_all-append sha seed (take j.start log) (drop j.start log)
          ∙ ap (λ o. and_then o (λ h. chain_all sha h (drop j.start log))) r.anchored)

  -- For a journal with its window in order that stands for a log, and a digest of 32 bytes: the
  -- head that is signed is the hash chain over the whole log, and whoever chains the exported
  -- entries, cut into pieces of 20 bytes, onto the exported anchor gets that head.
  pub head-export_of :
      (head sha j ≡ chain_all sha seed log)
      × (chain_all sha
            (export_of j).anchor
            (chunks ((export_of j).next - (export_of j).start) (export_of j).entries)
          ≡ head sha j)
  head-export_of = (head-Represents, exported ∙ sym head-Represents)

  -- What folding leaves: nothing where the chain over the log cannot be made, and else the same log
  -- behind an empty window, with the chain as the anchor and no byte of an entry in the ring.
  abbrev pub Scrubbed : Option Journal → Type 0
  Scrubbed none = chain_all sha seed log ≡ none
  Scrubbed (some j') =
      Logged sha seed log j.next j'
      × (j'.start ≡ j.next)
      × (chain_all sha seed log ≡ some j'.anchor)
      × ((i : ℕ) → i < 128 → get_or j'.slots i [] ≡ replicate 20 0)

  folded :
      (o : Option (List ℕ))
      → head sha j ≡ o
      → IfSome (λ h. length h ≡ 32) o
      → Scrubbed
          (and_then o (λ h. some (record j { anchor = h; start = j.next; slots = empty_slots })))
  folded none e size = sym head-Represents ∙ e
  folded (some h) e size = (
    (
      record {
        version_one = w.version_one;
        next_fits = w.next_fits;
        started = omega arith;
        window = omega arith;
        anchor_length = size;
        slots_length = length-replicate 128 (replicate {A = ℕ} 20 0);
        entry_length = λ i lt.
            ap (λ (l : List ℕ). length l) (get_or-replicate 128 i (replicate {A = ℕ} 20 0) [] lt)
            ∙ length-replicate {A = ℕ} 20 0;
        own_number = λ n b c. absurd (omega (arith, b, c));
      },
      record {
        count = r.count;
        anchored =
            ap (λ l. chain_all sha seed l) (take_whole j.next log r.count)
            ∙ sym head-Represents
            ∙ e;
        shown = λ n b c. absurd (omega (arith, b, c));
      },
      refl,
    ),
    refl,
    sym head-Represents ∙ e,
    λ i lt. get_or-replicate 128 i (replicate {A = ℕ} 20 0) [] lt,
  )

  -- For a journal with its window in order that stands for a log, and a digest of 32 bytes: folding
  -- fails only where a digest of the chain over the log fails, and else leaves a journal in order
  -- that stands for the same log and goes on with the same number, with an empty window, the chain
  -- over the whole log as its anchor, and twenty zeros in each of the 128 slots.
  pub scrub-Logged : Scrubbed (scrub sha j)
  unfolding scrub head
  scrub-Logged =
      folded (head sha j) refl
        (chain_slots-length sha digest_length j j.anchor j.start (j.next - j.start) w.anchor_length)
