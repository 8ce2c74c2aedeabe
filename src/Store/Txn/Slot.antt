-- ===== src/Store/Txn/Slot.antt =====
-- What reading gives behind a write to the slot that is not current.
use pico_all.Base.{
  ℕ, ◌+◌, ◌<◌, ◌≡◌, refl, sym, ap, ◌∙◌, ◌⊎◌, inl, inr, Bool, true, List, [], arith, length,
}
use pico_all.Bytes.{err_file_not_found, Result, ok, err}
use pico_all.Store.Files.{FileSystem}
use pico_all.Store.Txn.Layout.{Authenticator, Layout, record_fid, commit_fid, TxnState}
use pico_all.Store.Txn.Recover.{parse_commit, recover}
use pico_all.Store.Txn.Write.{put_slot}
use pico_all.Store.Txn.Record.{Fits}
use pico_all.Store.Txn.Commit.{Written, live, parse_commit-Written}
use pico_all.Store.Txn.Steps.{Post, Post-frame}
use pico_all.Store.Txn.Put.{Frame, Uncommitted, Committed, Outcome, put_slot-Post}
use pico_all.Store.Txn.Local.{parse_commit_slot, parse_commit-local}
use pico_all.Store.Txn.Apart.{Apart}

-- A state that the store has written: a live commit stands in the slot of its record, and the
-- generation is a `uint32_t`.
pub record Steady (s : TxnState) : Type 0 where
  pub own_slot : (s.deleted ≡ true) ⊎ (s.record_slot ≡ s.commit_slot)
  pub width : s.generation < 4294967296

module _ (files : FileSystem) (auth : Authenticator) (calloc : ℕ → Bool) where
  -- A commit that was emptied is not there.
  parse_commit-nil :
      (contents : ℕ → List ℕ) (l : Layout) (slot : ℕ)
      → contents (commit_fid l slot) ≡ []
      → parse_commit auth contents l slot ≡ err err_file_not_found
  unfolding parse_commit
  parse_commit-nil contents l slot e = rw e

  -- The other slot keeps its commit.
  Frame-parse_commit :
      (l : Layout) (o t g : ℕ) (d : List ℕ) (fs fs' : files.Fs) (s : TxnState)
      → Apart files l o t
      → Steady s
      → parse_commit auth (files.contents fs) l o ≡ ok s
      → Frame files auth calloc l t g d fs fs'
      → parse_commit auth (files.contents fs') l o ≡ ok s
  unfolding Frame
  Frame-parse_commit l o t g d fs fs' s a st e frame =
      parse_commit-local auth (files.contents fs) (files.contents fs') l o s e
        (frame (commit_fid l o) a.other_commit_dynamic a.commits a.commit-record)
        (named st.own_slot)
    where
      kept :
          s.record_slot ≡ o
          → files.contents fs' (record_fid l s.record_slot)
            ≡ files.contents fs (record_fid l s.record_slot)
      kept h = rw h (frame (record_fid l o) a.other_record_dynamic a.record-commit a.records)

      named :
          (s.deleted ≡ true) ⊎ (s.record_slot ≡ s.commit_slot)
          → (s.deleted ≡ true)
            ⊎ (files.contents fs' (record_fid l s.record_slot)
                ≡ files.contents fs (record_fid l s.record_slot))
      named (inl gone) = inl gone
      named (inr own) = inr (kept (own ∙ parse_commit_slot auth (files.contents fs) l o s e))

  -- The object reads as the new state, and its slot has the record and the commit of the data.
  abbrev pub IsNew : Layout → List ℕ → TxnState → files.Fs → Type 0
  IsNew l d new fs =
      (recover auth (files.contents fs) l ≡ ok new)
      × Written auth (files.contents fs) l new.commit_slot new.generation d
      × new.generation < 4294967296

  -- The object reads as before, and the two files of its slot are as they were.
  abbrev pub IsOld : files.Fs → Layout → TxnState → files.Fs → Type 0
  IsOld fs l old fs' =
      (recover auth (files.contents fs') l ≡ ok old)
      × (files.contents fs' (record_fid l old.commit_slot)
          ≡ files.contents fs (record_fid l old.commit_slot))
      × (files.contents fs' (commit_fid l old.commit_slot)
          ≡ files.contents fs (commit_fid l old.commit_slot))

  Frame-kept :
      (l : Layout) (o t g : ℕ) (d : List ℕ) (fs fs' : files.Fs) (s : TxnState)
      → Apart files l o t
      → s.commit_slot ≡ o
      → Frame files auth calloc l t g d fs fs'
      → recover auth (files.contents fs') l ≡ ok s
      → IsOld fs l s fs'
  unfolding Frame
  Frame-kept l o t g d fs fs' s a own frame e = (
    e,
    ap (λ k. files.contents fs' (record_fid l k)) own
        ∙ frame (record_fid l o) a.other_record_dynamic a.record-commit a.records
        ∙ sym (ap (λ k. files.contents fs (record_fid l k)) own),
    ap (λ k. files.contents fs' (commit_fid l k)) own
        ∙ frame (commit_fid l o) a.other_commit_dynamic a.commits a.commit-record
        ∙ sym (ap (λ k. files.contents fs (commit_fid l k)) own),
  )

  -- The old object or the new one behind an error, and the new one behind a success.
  abbrev pub OldOrNew :
      files.Fs → Layout → List ℕ → TxnState → TxnState → files.Fs × Result (Unit {0}) → Type 0
  OldOrNew fs l d old new out =
      Post (λ fs'. IsOld fs l old fs' ⊎ IsNew l d new fs') (λ fs' _. IsNew l d new fs') out

  pub put_slot-OldOrNew :
      (l : Layout) (o t : ℕ) (d : List ℕ) (fs : files.Fs) (s : TxnState)
      → Apart files l o t
      → ((contents : ℕ → List ℕ) (p : Result TxnState)
          → parse_commit auth contents l o ≡ ok s
          → parse_commit auth contents l t ≡ p
          → (p ≡ err err_file_not_found → recover auth contents l ≡ ok s)
            × (p ≡ ok (live t (s.generation + 1) (length d))
                → recover auth contents l ≡ ok (live t (s.generation + 1) (length d))))
      → Fits l
      → t < 2
      → Steady s
      → s.generation < 4294967295
      → parse_commit auth (files.contents fs) l o ≡ ok s
      → OldOrNew fs l d s
          (live t (s.generation + 1) (length d))
          (put_slot files auth calloc fs l t (s.generation + 1) d)
  unfolding Outcome Uncommitted Committed
  put_slot-OldOrNew l o t d fs s a read fits ht st small e =
      Post-frame (λ _. Unit {0}) (Outcome files auth calloc l t (s.generation + 1) d fs)
        (λ fs' _. Committed files auth calloc l t (s.generation + 1) d fs fs') _ _
        (put_slot files auth calloc fs l t (s.generation + 1) d) tt
        (put_slot-Post files auth calloc l t (s.generation + 1) d fs a.slot_fids)
        (λ fs' _. either fs') (λ fs' _ _. new fs')
    where
      new :
          (fs' : files.Fs)
          → Committed files auth calloc l t (s.generation + 1) d fs fs'
          → IsNew l d (live t (s.generation + 1) (length d)) fs'
      new fs' (frame, w) = (
        (read (files.contents fs') _ (Frame-parse_commit l o t _ d fs fs' s a st e frame) (
              parse_commit-Written auth (files.contents fs') l t (s.generation + 1) d fits ht
                (omega arith) (omega arith) w)).1
            refl,
        w,
        omega arith,
      )

      either :
          (fs' : files.Fs)
          → Outcome files auth calloc l t (s.generation + 1) d fs fs'
          → IsOld fs l s fs' ⊎ IsNew l d (live t (s.generation + 1) (length d)) fs'
      either fs' (inr c) = inr (new fs' c)
      either fs' (inl (frame, u)) = inl (
          Frame-kept l o t _ d fs fs' s a (parse_commit_slot auth (files.contents fs) l o s e) frame
            ((read (files.contents fs') _ (Frame-parse_commit l o t _ d fs fs' s a st e frame)
                (parse_commit-nil (files.contents fs') l t u)).0
              refl))
