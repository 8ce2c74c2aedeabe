-- ===== src/Container/RecordId/Counter.antt =====
-- The counter of record identifiers never goes back.
use pico_all.Store.Txn.Open.{Handles, HandlesFit}
use pico_all.Base.{ℕ, ◌+◌, ◌<◌, ◌≡◌, sym, ◌∙◌, subst, ◌⊎◌, inl, inr, Bool}
use pico_all.Bytes.{Result, ok, err}
use pico_all.Store.Files.{FileSystem}
use pico_all.Store.Txn.Layout.{Authenticator, Layout}
use pico_all.Store.Txn.Record.{Fits}
use pico_all.Store.Txn.Steps.{Post, Post-beside}
use pico_all.Container.RecordId.{put_record_id, put_next_id, record_id_allocate}
use pico_all.Container.RecordId.Counts.{Counts, put_record_id-Counts}
use pico_all.Container.RecordId.Reading.{Next, behind_open-Counts}

module _ (files : FileSystem) (auth : Authenticator) (calloc : ℕ → Bool) where
  -- What holds behind an error, and behind a success.
  abbrev pub KeptOrNext : Layout → ℕ → files.Fs × Handles → Type 0
  KeptOrNext l id (fs, h) =
      HandlesFit h
      × (Counts auth (files.contents fs) l id ⊎ Counts auth (files.contents fs) l (id + 1))

  abbrev pub IsNext : Layout → ℕ → files.Fs × Handles → ℕ → Type 0
  IsNext l id (fs, h) n =
      HandlesFit h
      × (n ≡ id + 1)
      × (n < 18446744073709551616)
      × Counts auth (files.contents fs) l (id + 1)

  -- Where the counter object holds the last identifier id, a 64-bit word, and the handles are in
  -- range: behind an error of file_object_record_id_allocate the counter holds id or id + 1; behind
  -- a success the returned identifier is id + 1, a 64-bit word, and the counter holds it; and the
  -- handles are in range again.
  pub record_id_allocate-IsNext :
      (fs : files.Fs) (h : Handles) (l : Layout) (id : ℕ)
      → Fits l
      → HandlesFit h
      → id < 18446744073709551616
      → Counts auth (files.contents fs) l id
      → Post (KeptOrNext l id) (IsNext l id) (record_id_allocate files auth calloc fs h l)
  unfolding record_id_allocate
  record_id_allocate-IsNext fs h l id fits hf small c =
      allocated _ (behind_open-Counts files auth l (files.contents fs) id h small hf c)
    where
      next_to :
          (fs' : files.Fs) (n : ℕ)
          → n ≡ id + 1
          → Counts auth (files.contents fs') l n
          → Counts auth (files.contents fs') l (id + 1)
      next_to fs' n = subst (λ k. Counts auth (files.contents fs') l k)

      either :
          (fs' : files.Fs) (n : ℕ)
          → n ≡ id + 1
          → Counts auth (files.contents fs') l id ⊎ Counts auth (files.contents fs') l n
          → Counts auth (files.contents fs') l id ⊎ Counts auth (files.contents fs') l (id + 1)
      either fs' n e (inl old) = inl old
      either fs' n e (inr new) = inr (next_to fs' n e new)

      allocated :
          (found : Handles × Result ℕ)
          → Post HandlesFit (Next files auth l id) found
          → Post (KeptOrNext l id) (IsNext l id) (put_next_id files auth calloc fs l found)
      allocated (h', err code) good = (good, inl c)
      allocated (h', ok n) (good, next, bound) =
          Post-beside
            (λ fs'. Counts auth (files.contents fs') l id ⊎ Counts auth (files.contents fs') l n)
            (λ fs' k. (k ≡ n) × Counts auth (files.contents fs') l n) (KeptOrNext l id)
            (IsNext l id) (put_record_id files auth calloc fs l n) h'
            (put_record_id-Counts files auth calloc l fits fs id n c)
            (λ fs' counts. (good, either fs' n next counts))
            (λ fs' k (same, counts). (
              good,
              same ∙ next,
              subst (λ m. m < 18446744073709551616) (sym same) bound,
              next_to fs' n next counts,
            ))
