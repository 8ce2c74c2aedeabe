-- ===== src/Audit/Coalesced.antt =====
-- What the walk for a run in src/fido/audit.c does to the journal and its log.
use pico_all.Base.{
  ℕ, ◌+◌, ◌-◌, ◌%◌, ◌≡◌, refl, ◌∙◌, Option, none, some, List, [], arith, length, set, get_or,
}
use pico_all.Bytes.{AllBytes, byte_at-IsByte}
use pico_all.Audit.Journal.{Journal, slot}
use pico_all.Audit.Append.{count_offset, bump, find_run, set_slot, coalesce}
use pico_all.Audit.Log.{IsJournal, Represents, Logged}
use pico_all.Audit.Appended.{set_slot-Logged}
use pico_all.Audit.Runs.{
  IsNewestRun, find_run-newest, bump-length, bump-number, IsCounted, bump-IsCounted,
}

module _ (sha : List ℕ → Option (List ℕ))
    (digest_length : (m d : List ℕ) → sha m ≡ some d → length d ≡ 32) (seed : List ℕ) where
  -- Either no entry is a run of the event, or the newest one is counted up in the log.
  abbrev pub Coalesced : List (List ℕ) → ℕ → ℕ → Journal → Option Journal → Type 0
  Coalesced log ev aux j none = IsNewestRun j ev none
  Coalesced log ev aux j (some j') =
      (m : ℕ) × (e : List ℕ) × IsNewestRun j ev (some m)
      × IsCounted ev aux (slot j m) e
      × Logged sha seed (set log m e) j.next j'

  counted_at :
      (log : List (List ℕ)) (ev aux : ℕ) (j : Journal)
      → IsJournal j
      → Represents sha seed log j
      → ((i : ℕ) → AllBytes (get_or j.slots i []))
      → (o : Option ℕ) → IsNewestRun j ev o
      → Coalesced log ev aux j
          (elim o [ none ↦ none | some n ↦ some (set_slot j n (bump ev aux (slot j n))) ])
  counted_at log ev aux j w r b none h = h
  counted_at log ev aux j w r b (some m) h =
      let a = h.0 in
      let lt = h.1 in
      let size : length (slot j m) ≡ 20 = w.entry_length (m % 128) (omega arith) in
      (
        m,
        bump ev aux (slot j m),
        h,
        bump-IsCounted ev aux (slot j m) size (
            omega (
              arith,
              byte_at-IsByte (slot j m) (count_offset ev) (b (m % 128)),
              byte_at-IsByte (slot j m) (count_offset ev + 1) (b (m % 128)),
            )),
        set_slot-Logged sha digest_length seed log j m j.next (bump ev aux (slot j m)) a lt
            (bump-length ev aux (slot j m) ∙ size)
            (bump-number ev aux (slot j m) ∙ w.own_number m a lt) (w, r, refl),
      )

  pub coalesce-Coalesced :
      (log : List (List ℕ)) (ev aux : ℕ) (j : Journal)
      → IsJournal j
      → Represents sha seed log j
      → ((i : ℕ) → AllBytes (get_or j.slots i []))
      → Coalesced log ev aux j (coalesce ev aux j)
  unfolding coalesce
  coalesce-Coalesced log ev aux j w r b =
      counted_at log ev aux j w r b (find_run j ev j.next (j.next - j.start)) (
        find_run-newest j ev j.next (j.next - j.start) (omega (arith, w.started)) (omega arith)
          (λ i le lt. absurd (omega (arith, le, lt))))
