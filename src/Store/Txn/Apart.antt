-- ===== src/Store/Txn/Apart.antt =====
-- The files of a valid layout, and the choice between two commits.
use pico_all.Base.{ℕ, ◌<◌, ◌≡◌, sym, ◌≢◌, ◌⊎◌, true, false, arith}
use pico_all.Bytes.{Result, ok}
use pico_all.Store.Files.{FileSystem}
use pico_all.Store.Txn.Layout.{Layout, record_fid, commit_fid, TxnState, fid_valid, layout_valid}
use pico_all.Store.Txn.Recover.{invalid_record, select_slot, choose}
use pico_all.Store.Txn.Put.{SlotFids}

-- The files of a valid layout.
pub record Apart (files : FileSystem) (l : Layout) (o t : ℕ) : Type 0 where
  pub slot_fids : SlotFids files l t
  pub commits : commit_fid l o ≢ commit_fid l t
  pub commit-record : commit_fid l o ≢ record_fid l t
  pub records : record_fid l o ≢ record_fid l t
  pub record-commit : record_fid l o ≢ commit_fid l t
  pub other_record_dynamic : files.is_static (record_fid l o) ≡ false
  pub other_commit_dynamic : files.is_static (commit_fid l o) ≡ false

layout_valid-distinct :
    (files : FileSystem) (l : Layout)
    → layout_valid files l ≡ true
    → (l.record_fid_1 ≢ l.record_fid_0)
      × (l.commit_fid_0 ≢ l.record_fid_0)
      × (l.commit_fid_0 ≢ l.record_fid_1)
      × (l.commit_fid_1 ≢ l.record_fid_0)
      × (l.commit_fid_1 ≢ l.record_fid_1)
      × (l.commit_fid_1 ≢ l.commit_fid_0)
unfolding layout_valid fid_valid
layout_valid-distinct files l h = ground arith

layout_valid-dynamic :
    (files : FileSystem) (l : Layout)
    → layout_valid files l ≡ true
    → (files.is_static l.record_fid_0 ≡ false)
      × (files.is_static l.record_fid_1 ≡ false)
      × (files.is_static l.commit_fid_0 ≡ false)
      × (files.is_static l.commit_fid_1 ≡ false)
unfolding layout_valid fid_valid
layout_valid-dynamic files l h = ground arith

pub choose_newer : (s t : TxnState) → s.generation < t.generation → choose (ok s) (ok t) ≡ ok t
unfolding choose select_slot
choose_newer s t h = ground arith

pub choose_older : (s t : TxnState) → s.generation < t.generation → choose (ok t) (ok s) ≡ ok t
unfolding choose select_slot
choose_older s t h = ground arith

pub choose_one :
    (p q : Result TxnState) (s : TxnState) → choose p q ≡ ok s → (p ≡ ok s) ⊎ (q ≡ ok s)
unfolding choose select_slot invalid_record
choose_one p q s h = ground arith

pub first-Apart :
    (files : FileSystem) (l : Layout) → layout_valid files l ≡ true → Apart files l 1 0
first-Apart files l h =
    let (rr, cr, cr', dr, dr', dc) = layout_valid-distinct files l h in
    let (s0, s1, s2, s3) = layout_valid-dynamic files l h in
    record {
      slot_fids = record { different = λ e. cr (sym e); record_dynamic = s0; commit_dynamic = s2 };
      commits = dc;
      commit-record = dr;
      records = rr;
      record-commit = λ e. cr' (sym e);
      other_record_dynamic = s1;
      other_commit_dynamic = s3;
    }

pub second-Apart :
    (files : FileSystem) (l : Layout) → layout_valid files l ≡ true → Apart files l 0 1
second-Apart files l h =
    let (rr, cr, cr', dr, dr', dc) = layout_valid-distinct files l h in
    let (s0, s1, s2, s3) = layout_valid-dynamic files l h in
    record {
      slot_fids = record { different = λ e. dr' (sym e); record_dynamic = s1; commit_dynamic = s3 };
      commits = λ e. dc (sym e);
      commit-record = cr';
      records = λ e. rr (sym e);
      record-commit = λ e. dr (sym e);
      other_record_dynamic = s0;
      other_commit_dynamic = s2;
    }
