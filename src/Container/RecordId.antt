-- ===== src/Container/RecordId.antt =====
-- The counter of record identifiers: `file_object_record_id_allocate`.
pub mod Counts
pub mod Reading
pub mod Counter
mod Tests
use pico_all.Base.{ℕ, ◌+◌, Bool, not, ◌&&◌, ◌||◌, some, List, [], ◌∷◌, ◌++◌, ◌==◌, take}
use pico_all.Bytes.{
  err_file_not_found, wrong_data, Result, ok, err, bytes, byte_at, get_uint64_be, put_uint64_be,
  ◌>>=◌, refuse, same_bytes,
}
use pico_all.Store.Files.{FileSystem}
use pico_all.Store.Txn.Layout.{Authenticator, Layout}
use pico_all.Store.Txn.Handles.{HandleEntry, txn_get_info, txn_read_at, txn_close}
use pico_all.Store.Txn.Open.{Handles, txn_open}
use pico_all.Store.Txn.Write.{then_step, txn_put}

-- `file_object_record_id_magic`: "PKRI"
abbrev pub record_id_magic : List ℕ
record_id_magic = 0x50 ∷ 0x4B ∷ 0x52 ∷ 0x49 ∷ []

-- The 16 bytes that hold the last identifier.
abbrev pub record_id_state : ℕ → List ℕ
record_id_state id = record_id_magic ++ (1 ∷ 0 ∷ 0 ∷ 0 ∷ put_uint64_be id)

-- The test of the bytes that were read.
pub record_id_state_valid : List ℕ → Bool
unfolding same_bytes
record_id_state_valid state =
    same_bytes (take 4 state) record_id_magic
    && byte_at state 4 == 1
    && byte_at state 5 == 0
    && byte_at state 6 == 0
    && byte_at state 7 == 0

-- The identifier behind the one that was read.
pub following_id : List ℕ → Result ℕ
following_id state =
    let previous_id = get_uint64_be state 8 in
    refuse (previous_id == 0 || previous_id == 18446744073709551615) wrong_data
      (ok (previous_id + 1))

module _ (auth : Authenticator) where
  -- What `file_object_record_id_allocate` does with an open handle, before it closes it.
  pub read_next_id : (ℕ → List ℕ) → List HandleEntry → ℕ → Result ℕ
  unfolding record_id_state_valid following_id
  read_next_id contents table handle = txn_get_info auth contents table handle >>= λ info.
      refuse (not (info.0 == 16)) wrong_data (
        txn_read_at auth contents table handle 0 16 >>= λ state.
        refuse (not (record_id_state_valid state)) wrong_data (following_id state))

  -- The result of reading comes first, then that of closing.
  pub read_and_close : (ℕ → List ℕ) → Handles → ℕ → Handles × Result ℕ
  unfolding read_next_id
  read_and_close contents h handle =
      let (table, closed) = txn_close h.table handle in
      (
        record h { table = table },
        read_next_id contents h.table handle >>= λ next_id. closed >>= λ _. ok next_id,
      )

  -- What it does behind `file_object_txn_open`.
  pub behind_open : (ℕ → List ℕ) → Handles × Result ℕ → Handles × Result ℕ
  unfolding read_and_close
  behind_open contents (h, ok handle) = read_and_close contents h handle
  behind_open contents (h, err err_file_not_found) = (h, ok 1)
  behind_open contents (h, err c) = (h, err c)

module _ (files : FileSystem) (auth : Authenticator) (calloc : ℕ → Bool) where
  -- The two writes, the second into the other slot.
  pub put_record_id : files.Fs → Layout → ℕ → files.Fs × Result ℕ
  put_record_id fs l next_id =
      let state = bytes (record_id_state next_id) in
      then_step (txn_put files calloc fs l (some auth) state)
        λ fs1 _. then_step (txn_put files calloc fs1 l (some auth) state) λ fs2 _. (fs2, ok next_id)

  -- What it does behind the choice of the identifier.
  pub put_next_id : files.Fs → Layout → Handles × Result ℕ → (files.Fs × Handles) × Result ℕ
  unfolding put_record_id
  put_next_id fs l (h, err c) = ((fs, h), err c)
  put_next_id fs l (h, ok next_id) =
      let (fs', result) = put_record_id fs l next_id in ((fs', h), result)

  -- `file_object_record_id_allocate`, with its pointers not null and no callback missing.
  pub record_id_allocate : files.Fs → Handles → Layout → (files.Fs × Handles) × Result ℕ
  unfolding behind_open put_next_id
  record_id_allocate fs h l =
      let contents = files.contents fs in
      put_next_id fs l (behind_open auth contents (txn_open files contents h l (some auth)))
