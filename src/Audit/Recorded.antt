-- ===== src/Audit/Recorded.antt =====
-- The log behind a call of `append` of src/fido/audit.c, from the file that is read to the file
-- that is saved.
use mathlib.Core.List.{append_assoc}
use pico_all.Audit.Loaded.{load-IsJournal}
use pico_all.Audit.Saved.{load-encode}
use pico_all.Audit.Card.{synced, put_into, put, save, store_event}
use pico_all.Store.Files.{FileSystem}
use pico_all.Base.{
  ℕ, ◌+◌, ◌≡◌, refl, sym, ap, ◌∙◌, ◌⊎◌, inl, inr, Bool, true, false, ◌&&◌, Option, none, some, List,
  [], ◌∷◌, ◌++◌, arith, if◌then◌else◌, length, get_or,
}
use pico_all.Bytes.{AllBytes, Result, ok, err}
use pico_all.Audit.Journal.{Journal, encode, load}
use pico_all.Audit.Append.{
  Clock, make_entry, coalesce, append_one, boot_entry, append_event, record_event,
}
use pico_all.Audit.Log.{IsJournal, Represents, IfSome, IfSome-and_then, Logged}
use pico_all.Audit.Appended.{final_entry, Newest, append_one-Logged, append_event-Logged}
use pico_all.Audit.Runs.{IsNewestRun}
use pico_all.Audit.Coalesced.{Coalesced, coalesce-Coalesced}

-- The entries that a call appends behind `n` entries.
abbrev pub new_entries : Clock → Clock → Bool → ℕ → ℕ → List ℕ → ℕ → List (List ℕ)
new_entries c0 c boot_logged ev aux detail n =
    if boot_logged
    then final_entry c n ev aux detail ∷ []
    else make_entry c0 n 1 0 [] ∷ final_entry c (n + 1) ev aux detail ∷ []

IfSome-weaken {ℓ} :
    {A : Type ℓ} (P Q : A → Type 0) (o : Option A) → IfSome P o → ((a : A) → P a → Q a) → IfSome Q o
IfSome-weaken P Q none h k = tt
IfSome-weaken P Q (some a) h k = k a h

module _ (sha : List ℕ → Option (List ℕ))
    (digest_length : (m d : List ℕ) → sha m ≡ some d → length d ≡ 32) (seed : List ℕ) where
  abbrev pub Stands : List (List ℕ) → Journal → Type 0
  Stands log j = IsJournal j × Represents sha seed log j

  stands : (log : List (List ℕ)) (k : ℕ) (j : Journal) → Logged sha seed log k j → Stands log j
  stands log k j (w, r, same) = (w, r)

  -- A call appends its entries, where it looks for no run or finds none, or counts a run up.
  abbrev pub Recorded :
      List (List ℕ) → Clock → Clock → Bool → Bool → ℕ → ℕ → List ℕ → Journal → Journal → Type 0
  Recorded log c0 c boot_logged run ev aux detail j j' =
      (((boot_logged && run) ≡ true → IsNewestRun j ev none)
        × Stands (log ++ new_entries c0 c boot_logged ev aux detail j.next) j')
      ⊎ (((boot_logged && run) ≡ true) × Coalesced sha digest_length seed log ev aux j (some j'))

  module _ (log : List (List ℕ)) (c0 c : Clock) (ev aux : ℕ) (detail : List ℕ) (j : Journal)
      (w : IsJournal j) (r : Represents sha seed log j)
      (b : (i : ℕ) → AllBytes (get_or j.slots i [])) where
    appended :
        (boot_logged run : Bool)
        → ((boot_logged && run) ≡ true → IsNewestRun j ev none)
        → boot_logged ≡ true
        → IfSome
            (Recorded log c0 c boot_logged run ev aux detail j)
            (append_event sha c ev aux detail j)
    appended boot_logged run h booted =
        IfSome-weaken _ (Recorded log c0 c boot_logged run ev aux detail j)
          (append_event sha c ev aux detail j)
          (append_event-Logged sha digest_length seed log c ev aux detail j w r)
          (λ j' l. inl (
            h,
            rw booted (stands (log ++ final_entry c j.next ev aux detail ∷ []) (j.next + 1) j' l),
          ))

    behind_boot :
        (j' : Journal) (run : Bool)
        → Newest sha digest_length seed (log ++ make_entry c0 j.next 1 0 [] ∷ []) (j.next + 1) j'
        → IfSome (Recorded log c0 c false run ev aux detail j) (append_event sha c ev aux detail j')
    behind_boot j' run ((w', r', same), room) =
        IfSome-weaken _ (Recorded log c0 c false run ev aux detail j)
          (append_event sha c ev aux detail j')
          (append_event-Logged sha digest_length seed (log ++ make_entry c0 j.next 1 0 [] ∷ []) c ev
            aux detail j' w' r')
          (λ j'' l. inl ((λ no. ground (arith, no)), both j'' (stands _ (j'.next + 1) j'' l)))
      where
        both :
            (j'' : Journal)
            → Stands
                ((log ++ make_entry c0 j.next 1 0 [] ∷ [])
                  ++ final_entry c j'.next ev aux detail ∷ [])
                j''
            → Stands (log ++ new_entries c0 c false ev aux detail j.next) j''
        both j'' h =
            rw
              (
                same,
                append_assoc log (make_entry c0 j.next 1 0 [] ∷ [])
                    (final_entry c (j.next + 1) ev aux detail ∷ []),
              )
              at h

    counted_or :
        (o : Option Journal)
        → Coalesced sha digest_length seed log ev aux j o
        → IfSome
            (Recorded log c0 c true true ev aux detail j)
            (elim o [ none ↦ append_event sha c ev aux detail j | some counted ↦ some counted ])
    counted_or none h = appended true true (λ _. h) refl
    counted_or (some j') h = inr (refl, h)

    pub record_event-Recorded :
        (boot_logged run : Bool)
        → IfSome
            (Recorded log c0 c boot_logged run ev aux detail j)
            (record_event sha c0 c boot_logged run ev aux detail j)
    unfolding record_event boot_entry
    record_event-Recorded false run =
        IfSome-and_then _ (Recorded log c0 c false run ev aux detail j) (append_one sha c0 1 0 [] j)
          (append_event sha c ev aux detail)
          (append_one-Logged sha digest_length seed log c0 1 0 [] j w r)
          (λ j' l. behind_boot j' run l)
    record_event-Recorded true false = appended true false (λ no. ground (arith, no)) refl
    record_event-Recorded true true =
        counted_or (coalesce ev aux j)
          (coalesce-Coalesced sha digest_length seed log ev aux j w r b)

  Recorded-IsJournal :
      (log : List (List ℕ)) (c0 c : Clock) (boot_logged run : Bool) (ev aux : ℕ) (detail : List ℕ)
      (j j' : Journal)
      → Recorded log c0 c boot_logged run ev aux detail j j'
      → IsJournal j'
  Recorded-IsJournal log c0 c boot_logged run ev aux detail j j' (inl (h, (w, r))) = w
  Recorded-IsJournal log c0 c boot_logged run ev aux detail j j'
        (inr (h, (m, e, n, k, (w, r, same)))) =
      w

module _ (files : FileSystem) where
  synced-contents :
      (out : files.Fs × Result (Unit {0})) (fs' : files.Fs) (f : ℕ) (d : List ℕ)
      → (out.1 ≡ ok tt → files.contents out.0 f ≡ d)
      → synced files out ≡ (fs', true)
      → files.contents fs' f ≡ d
  synced-contents (fs, err c) fs' f d h e = ground (arith, e)
  synced-contents (fs, ok v) fs' f d h e =
      sym (ap (λ (o : files.Fs × Bool). files.contents o.0 f) e) ∙ files.commit_keeps fs f ∙ h refl

  -- A file that `put` reports as stored has the data.
  put-contents :
      (fs fs' : files.Fs) (f : ℕ) (d : List ℕ)
      → put files fs f d ≡ (fs', true)
      → files.contents fs' f ≡ d
  unfolding put
  put-contents fs fs' f d = go (if files.is_file fs f then some fs else files.file_new fs f)
    where
      go : (o : Option files.Fs) → put_into files fs f d o ≡ (fs', true) → files.contents fs' f ≡ d
      go none e = ground (arith, e)
      go (some fs'') e =
          synced-contents (files.put_data fs'' f d) fs' f d (files.put_writes fs'' f d) e

  module _ (sha : List ℕ → Option (List ℕ))
      (digest_length : (m d : List ℕ) → sha m ≡ some d → length d ≡ 32) (serial seed : List ℕ) where
    saved-IfSome :
        (P : Journal → Type 0) (fs fs' : files.Fs) (f : ℕ) (o : Option Journal)
        → IfSome P o
        → ((j' : Journal) → P j' → IsJournal j')
        → save files sha serial fs f o ≡ (fs', true)
        → (j' : Journal) × (load sha serial (files.contents fs' f) ≡ some j') × P j'
    saved-IfSome P fs fs' f none h k e = ground (arith, e)
    saved-IfSome P fs fs' f (some j') h k e = (
      j',
      ap (λ b. load sha serial b) (put-contents fs fs' f (encode j') e)
          ∙ load-encode sha serial j' (k j' h),
      h,
    )

    -- For a digest of 32 bytes: where the file of the journal holds bytes and is read as a journal
    -- that stands for a log, and the part of `append` from `load` on reports its record as stored,
    -- the file is afterwards read as a journal in order that stands for the log with the new entries
    -- behind it, the boot's first where it was not logged; or, for a run behind a logged boot that
    -- has an entry in the window, for the log with the newest entry of the event counted up.
    pub store_event-Recorded :
        (log : List (List ℕ)) (c0 c : Clock) (boot_logged run : Bool) (ev aux : ℕ) (detail : List ℕ)
        (fs fs' : files.Fs) (f : ℕ) (j : Journal)
        → AllBytes (files.contents fs f)
        → load sha serial (files.contents fs f) ≡ some j
        → Represents sha seed log j
        → store_event files sha serial c0 c boot_logged run ev aux detail fs f ≡ (fs', true)
        → (j' : Journal) × (load sha serial (files.contents fs' f) ≡ some j')
          × Recorded sha digest_length seed log c0 c boot_logged run ev aux detail j j'
    unfolding store_event
    store_event-Recorded log c0 c boot_logged run ev aux detail fs fs' f j h read r e =
        let (w, b) = load-IsJournal sha digest_length serial (files.contents fs f) j h read in
        saved-IfSome (Recorded sha digest_length seed log c0 c boot_logged run ev aux detail j) fs
          fs' f (record_event sha c0 c boot_logged run ev aux detail j)
          (record_event-Recorded sha digest_length seed log c0 c ev aux detail j w r b boot_logged
            run)
          (Recorded-IsJournal sha digest_length seed log c0 c boot_logged run ev aux detail j)
          (rw read at e)
