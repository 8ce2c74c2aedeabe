-- ===== src/Store/Object.antt =====
-- pico-keys-sdk/src/fs/object_store.c: an object in one file, behind a header of 20 bytes.
pub mod Parse
pub mod Put
mod Tests
use pico_all.Base.{
  ℕ, ◌+◌, ◌-◌, Bool, not, ◌&&◌, ◌||◌, none, some, List, [], ◌∷◌, ◌++◌, ltb, ◌==◌, if◌then◌else◌,
  length, take,
}
use pico_all.Bytes.{
  err_no_memory, err_memory_fatal, err_null_param, err_file_not_found, exec_error, wrong_data,
  Result, ok, err, byte_at, get_uint16_be, put_uint16_be, get_uint32_be, put_uint32_be, ◌>>=◌,
  refuse, same_bytes,
}
use pico_all.Store.Files.{FileSystem, file_read_at}

-- `file_object_id_t`
pub record ObjectId : Type 0 where
  pub namespace_id : ℕ
  pub object_type : ℕ
  pub fid : ℕ

-- `file_object_record_t`
pub record ObjectRecord : Type 0 where
  pub payload_offset : ℕ
  pub payload_size : ℕ
  pub generation : ℕ

-- `file_object_magic`: "PKO1"
abbrev pub object_magic : List ℕ
object_magic = 0x50 ∷ 0x4B ∷ 0x4F ∷ 0x31 ∷ []

-- `file_object_id_valid`, of an identifier that is not null
pub id_valid : ObjectId → Bool
id_valid id = not (id.fid == 0) && not (id.fid == 65535)

-- The 20 bytes of the header, as `file_object_put` fills them in.
pub store_header : ObjectId → ℕ → ℕ → List ℕ
store_header id generation n =
    object_magic
    ++ (1 ∷ 20 ∷ put_uint16_be id.namespace_id
        ++ (put_uint16_be id.object_type
            ++ (put_uint16_be id.fid ++ (put_uint32_be generation ++ put_uint32_be n))))

-- The test of a header in `file_object_parse`. The file that `file_search` found for an identifier
-- has this identifier.
pub store_header_valid : List ℕ → ObjectId → ℕ → Bool
unfolding same_bytes
store_header_valid h id file_size =
    same_bytes (take 4 h) object_magic
    && byte_at h 4 == 1
    && byte_at h 5 == 20
    && get_uint16_be h 6 == id.namespace_id
    && get_uint16_be h 8 == id.object_type
    && get_uint16_be h 10 == id.fid
    && not (get_uint32_be h 12 == 0)
    && get_uint32_be h 16 == file_size - 20

pub parse_header : List ℕ → ObjectId → ℕ → Result ObjectRecord
unfolding store_header_valid
parse_header h id file_size = refuse (not (store_header_valid h id file_size)) wrong_data (
    ok (record {
      payload_offset = 20;
      payload_size = get_uint32_be h 16;
      generation = get_uint32_be h 12;
    }))

pub parse_read : Result (List ℕ) → ObjectId → ℕ → Result ObjectRecord
unfolding parse_header
parse_read (err c) id file_size = err exec_error
parse_read (ok h) id file_size = parse_header h id file_size

-- `file_object_parse` of the file that `file_search` finds, with this data; no data where there is
-- no file.
pub object_parse : List ℕ → ObjectId → Result ObjectRecord
unfolding id_valid parse_header file_read_at
object_parse file id = refuse (not (id_valid id) || length file == 0) err_file_not_found (
    refuse (ltb (length file) 20) wrong_data (parse_read (file_read_at file 0 20) id (length file)))

-- The generation that `file_object_put` writes.
pub put_generation : List ℕ → ObjectId → Result ℕ
unfolding object_parse
put_generation file id =
    let behind = object_parse file id >>= λ current.
    refuse (current.generation == 4294967295) wrong_data (ok (current.generation + 1)) in
    if ltb 0 (length file) then behind else ok 1

module _ (files : FileSystem) (calloc : ℕ → Bool) where
  -- The end of `file_object_put`, on a file that is there.
  pub put_record : files.Fs → ObjectId → ℕ → List ℕ → files.Fs × Result (Unit {0})
  unfolding store_header
  put_record fs id generation d =
      if ltb 4294967275 (length d)
      then (fs, err err_no_memory)
      else if not (calloc (20 + length d))
      then (fs, err err_memory_fatal)
      else files.put_data fs id.fid (store_header id generation (length d) ++ d)

  pub put_at : files.Fs → ObjectId → List ℕ → Result ℕ → files.Fs × Result (Unit {0})
  unfolding put_record
  put_at fs id d (err c) = (fs, err c)
  put_at fs id d (ok generation) =
      if files.is_file fs id.fid
      then put_record fs id generation d
      else elim (files.file_new fs id.fid) [
        | none ↦ (fs, err err_no_memory)
        | some fs' ↦ put_record fs' id generation d
      ]

  -- `file_object_put` of data that are not null, in a file that a search finds or that is new.
  pub object_put : files.Fs → ObjectId → List ℕ → files.Fs × Result (Unit {0})
  unfolding put_at put_generation
  object_put fs id d =
      if not (id_valid id) || ltb 4294967295 (length d)
      then (fs, err err_null_param)
      else put_at fs id d (put_generation (files.contents fs id.fid) id)

-- `file_object_delete_no_commit`
module _ (files : FileSystem) where
  pub object_delete_no_commit : files.Fs → ObjectId → files.Fs × Result (Unit {0})
  object_delete_no_commit fs id =
      if not (id_valid id)
      then (fs, err err_null_param)
      else elim (object_parse (files.contents fs id.fid) id) [
        | err c ↦ (fs, err c)
        | ok r ↦ files.delete_no_commit fs id.fid
      ]
