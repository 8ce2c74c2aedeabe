-- ===== src/Store/Txn/Write.antt =====
-- Writing a transactional object: `file_object_txn_put`, `file_object_txn_delete` and their parts.
-- Each part takes the file system and gives it back with its result, so an error leaves what was
-- done before it. `calloc` says whether an allocation of that size succeeds.
use pico_all.Base.{
  ℕ, ◌+◌, bit_xor, Bool, true, false, not, ◌||◌, Option, none, some, List, [], ◌++◌, ltb, ◌==◌,
  if◌then◌else◌, length,
}
use pico_all.Bytes.{
  err_null_param, err_null_param, err_null_param, err_null_param, err_no_memory, err_memory_fatal,
  err_null_param, err_file_not_found, wrong_length, wrong_data, Result, ok, err, ByteArray, null,
  bytes,
}
use pico_all.Store.Files.{FileSystem}
use pico_all.Store.Txn.Layout.{
  Authenticator, Layout, record_fid, commit_fid, layout_valid, zeros, record_header, commit_header,
}
use pico_all.Store.Txn.Recover.{auth_buffer, recover}

-- `if (r == PICOKEYS_OK) r = ...;`
abbrev pub then_step {ℓ κ} :
    {S : Type 0} {A : Type ℓ} {B : Type κ} → S × Result A → (S → A → S × Result B) → S × Result B
then_step (fs, err c) next = (fs, err c)
then_step (fs, ok v) next = next fs v

module _ (files : FileSystem) where
  -- `file_object_txn_remove_file`
  unfoldable pub remove_file : files.Fs → ℕ → files.Fs × Result (Unit {0})
  remove_file fs fid =
      if not (files.is_file fs fid)
      then (fs, ok tt)
      else if files.is_static fid
      then (fs, err wrong_data)
      else files.delete_no_commit fs fid

  -- The second half of `file_object_txn_replace_file`
  unfoldable pub create_file : files.Fs → ℕ → List ℕ → files.Fs × Result (Unit {0})
  create_file fs fid d = elim (files.file_new fs fid) [
    | none ↦ (fs, err err_no_memory)
    | some fs' ↦ files.put_data fs' fid d
  ]

  -- `file_object_txn_replace_file`
  unfoldable pub replace_file : files.Fs → ℕ → List ℕ → files.Fs × Result (Unit {0})
  replace_file fs fid d = then_step (remove_file fs fid) (λ fs' _. create_file fs' fid d)

  -- `!flash_commit_sync(...)` as an error.
  unfoldable pub sync : files.Fs → files.Fs × Result (Unit {0})
  sync fs =
      let (fs', done) = files.commit_sync fs in (fs', if done then ok tt else err err_memory_fatal)

module _ (files : FileSystem) (auth : Authenticator) (calloc : ℕ → Bool) where
  -- The end of `file_object_txn_write_record`, behind the computation of the code.
  unfoldable pub store_record :
      files.Fs → ℕ → List ℕ → List ℕ → Result (List ℕ) → files.Fs × Result (List ℕ)
  store_record fs fid header d (err c) = (fs, err c)
  store_record fs fid header d (ok tag) =
      then_step (replace_file files fs fid (header ++ (d ++ tag))) (λ fs' _. (fs', ok tag))

  -- `file_object_txn_write_record`; the result is the record's code.
  unfoldable pub write_record : files.Fs → Layout → ℕ → ℕ → ℕ → List ℕ → files.Fs × Result (List ℕ)
  write_record fs l slot generation record_id d =
      let header = record_header l slot generation record_id (length d) in
      if ltb 4294967247 (length d)
      then (fs, err err_no_memory)
      else if not (calloc (32 + length d + 16))
      then (fs, err err_memory_fatal)
      else store_record fs (record_fid l slot) header d (auth_buffer auth header d)

module _ (files : FileSystem) (auth : Authenticator) where
  -- The end of `file_object_txn_write_commit`, behind the computation of the code.
  unfoldable pub store_commit :
      files.Fs → ℕ → List ℕ → Result (List ℕ) → files.Fs × Result (Unit {0})
  store_commit fs fid header (err c) = (fs, err c)
  store_commit fs fid header (ok tag) = replace_file files fs fid (header ++ tag)

  -- `file_object_txn_write_commit`
  unfoldable pub write_commit :
      files.Fs → Layout → ℕ → ℕ → ℕ → ℕ → ℕ → List ℕ → Bool → files.Fs × Result (Unit {0})
  write_commit fs l slot record_slot generation record_id n record_tag deleted =
      let header = commit_header l slot record_slot generation record_id n record_tag deleted in
      store_commit fs (commit_fid l slot) header (auth_buffer auth header [])

module _ (auth : Authenticator) where
  -- `file_object_txn_next_state`: the slot to write to, and the generation.
  unfoldable pub next_state : (ℕ → List ℕ) → Layout → Result (ℕ × ℕ)
  next_state contents l = elim (recover auth contents l) [
    | ok s ↦
        if s.generation == 4294967295
        then err wrong_data
        else ok (bit_xor s.commit_slot 1, s.generation + 1)
    | err err_file_not_found ↦ ok (0, 1)
    | err c ↦ err c
  ]

module _ (files : FileSystem) (auth : Authenticator) (calloc : ℕ → Bool) where
  -- The part of `file_object_txn_put` behind the choice of the slot.
  unfoldable pub put_slot : files.Fs → Layout → ℕ → ℕ → List ℕ → files.Fs × Result (Unit {0})
  put_slot fs l target generation d =
      then_step (remove_file files fs (commit_fid l target)) λ fs1 _.
        then_step (remove_file files fs1 (record_fid l target)) λ fs2 _.
          then_step (write_record files auth calloc fs2 l target generation generation d) λ fs3 tag.
            then_step (sync files fs3) λ fs4 _.
              then_step
                (write_commit files auth fs4 l target target generation generation (length d) tag
                  false)
                λ fs5 _. sync files fs5

-- `file_object_txn_put` and `file_object_txn_delete`. An authenticator with a callback missing is
-- none; the layout is not null.
module _ (files : FileSystem) (calloc : ℕ → Bool) where
  unfoldable pub txn_put :
      files.Fs → Layout → Option Authenticator → ByteArray → files.Fs × Result (Unit {0})
  txn_put fs l none data' = (fs, err err_null_param)
  txn_put fs l (some auth) (null n) =
      if not (layout_valid files l) || ltb 0 n
      then (fs, err err_null_param)
      else elim (next_state auth (files.contents fs) l) [
        | err c ↦ (fs, err c)
        | ok choice ↦ put_slot files auth calloc fs l choice.0 choice.1 []
      ]
  txn_put fs l (some auth) (bytes d) =
      if not (layout_valid files l)
      then (fs, err err_null_param)
      else if ltb 4294967295 (length d)
      then (fs, err wrong_length)
      else elim (next_state auth (files.contents fs) l) [
        | err c ↦ (fs, err c)
        | ok choice ↦ put_slot files auth calloc fs l choice.0 choice.1 d
      ]

module _ (files : FileSystem) (auth : Authenticator) where
  -- The part of `file_object_txn_delete` behind the recovery.
  pub delete_slot : files.Fs → Layout → ℕ → ℕ → files.Fs × Result (Unit {0})
  delete_slot fs l target generation =
      then_step (remove_file files fs (commit_fid l target)) λ fs1 _.
        then_step (remove_file files fs1 (record_fid l target)) λ fs2 _.
          then_step (sync files fs2) λ fs3 _.
            then_step (write_commit files auth fs3 l target 255 generation 0 0 (zeros 16) true)
              λ fs4 _. sync files fs4

module _ (files : FileSystem) where
  pub txn_delete : files.Fs → Layout → Option Authenticator → files.Fs × Result (Unit {0})
  txn_delete fs l none = (fs, err err_null_param)
  txn_delete fs l (some auth) =
      if not (layout_valid files l)
      then (fs, err err_null_param)
      else elim (recover auth (files.contents fs) l) [
        | err c ↦ (fs, err c)
        | ok s ↦
            if s.deleted || s.generation == 4294967295
            then (fs, err (if s.deleted then err_file_not_found else wrong_data))
            else delete_slot files auth fs l (bit_xor s.commit_slot 1) (s.generation + 1)
      ]
