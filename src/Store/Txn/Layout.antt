-- ===== src/Store/Txn/Layout.antt =====
-- The bytes of the record and commit files, and the authenticator.
use pico_all.Base.{
  ℕ, bit_and, bit_or, bit_xor, ◌≡◌, Bool, not, ◌&&◌, ◌||◌, List, [], ◌∷◌, ◌++◌, ◌==◌, if◌then◌else◌,
  length, take, replicate,
}
use pico_all.Bytes.{
  AllBytes, Result, ok, byte_at, get_uint16_be, put_uint16_be, get_uint32_be, put_uint32_be, ◌>>=◌,
  same_bytes,
}
use pico_all.Store.Files.{FileSystem}

-- `file_object_authenticator_t` with its four callbacks present: a code over a stream of bytes. Its
-- `abort` reports nothing and gives up a computation whose result is not used.
pub record Authenticator : Type 1 where
  pub Ctx : Type 0
  pub start : Result Ctx
  pub update : Ctx → List ℕ → Result Ctx
  pub finish : Ctx → Result (List ℕ)
  -- The code is of the bytes, however they are cut into updates, and it has 16 bytes.
  pub update_nil : (c : Ctx) → update c [] ≡ ok c
  pub update-append :
      (c : Ctx) (xs ys : List ℕ) → update c (xs ++ ys) ≡ (update c xs >>= λ c'. update c' ys)
  pub finish_length : (c : Ctx) (t : List ℕ) → finish c ≡ ok t → length t ≡ 16
  pub finish-AllBytes : (c : Ctx) (t : List ℕ) → finish c ≡ ok t → AllBytes t

pub record Layout : Type 0 where
  pub namespace_id : ℕ
  pub object_type : ℕ
  pub object_id : ℕ
  pub record_fid_0 : ℕ
  pub record_fid_1 : ℕ
  pub commit_fid_0 : ℕ
  pub commit_fid_1 : ℕ

-- `layout->record_fid[slot]` and `layout->commit_fid[slot]`, for the slots 0 and 1.
abbrev pub record_fid : Layout → ℕ → ℕ
record_fid l slot = if slot == 0 then l.record_fid_0 else l.record_fid_1

abbrev pub commit_fid : Layout → ℕ → ℕ
commit_fid l slot = if slot == 0 then l.commit_fid_0 else l.commit_fid_1

pub record TxnState : Type 0 where
  pub generation : ℕ
  pub record_id : ℕ
  pub payload_size : ℕ
  pub commit_slot : ℕ
  pub record_slot : ℕ
  pub deleted : Bool

-- One of the four file identifiers: no reserved value, and no static file.
unfoldable pub fid_valid : FileSystem → ℕ → Bool
fid_valid files fid = not (fid == 0 || fid == 65535 || files.is_static fid)

-- The inner loop compares each identifier with those before it.
unfoldable pub layout_valid : FileSystem → Layout → Bool
unfolding fid_valid
layout_valid files l =
    fid_valid files l.record_fid_0
    && fid_valid files l.record_fid_1
    && not (l.record_fid_1 == l.record_fid_0)
    && fid_valid files l.commit_fid_0
    && not (l.commit_fid_0 == l.record_fid_0 || l.commit_fid_0 == l.record_fid_1)
    && fid_valid files l.commit_fid_1
    && not (
        l.commit_fid_1 == l.record_fid_0
        || l.commit_fid_1 == l.record_fid_1
        || l.commit_fid_1 == l.commit_fid_0)

-- `difference |= left[i] ^ right[i]`
unfoldable pub tag_difference : ℕ → List ℕ → List ℕ → ℕ
tag_difference d [] r = d
tag_difference d (a ∷ l) [] = d
tag_difference d (a ∷ l) (b ∷ r) = tag_difference (bit_or d (bit_xor a b)) l r

-- Every call is on 16 bytes on both sides, so all of them are compared.
unfoldable pub tag_equal : List ℕ → List ℕ → Bool
unfolding tag_difference
tag_equal l r = tag_difference 0 l r == 0

-- "PKR2" and "PKC2".
abbrev pub record_magic : List ℕ
record_magic = 0x50 ∷ 0x4B ∷ 0x52 ∷ 0x32 ∷ []

abbrev pub commit_magic : List ℕ
commit_magic = 0x50 ∷ 0x4B ∷ 0x43 ∷ 0x32 ∷ []

abbrev pub zeros : ℕ → List ℕ
zeros n = replicate n 0

-- The 32 bytes of a record's header, as `file_object_txn_write_record` fills them in.
unfoldable pub record_header : Layout → ℕ → ℕ → ℕ → ℕ → List ℕ
record_header l slot generation record_id n =
    record_magic
    ++ (1 ∷ 32 ∷ slot ∷ 0 ∷ put_uint16_be l.namespace_id
        ++ (put_uint16_be l.object_type
            ++ (put_uint32_be l.object_id
                ++ (put_uint32_be generation
                    ++ (put_uint32_be record_id
                        ++ (put_uint32_be n ++ (put_uint16_be (record_fid l slot) ++ zeros 2)))))))

-- The test of a record's header in `file_object_txn_validate_record`.
unfoldable pub record_header_valid : Layout → ℕ → ℕ → ℕ → ℕ → List ℕ → Bool
unfolding same_bytes
record_header_valid l slot generation record_id payload_size h =
    same_bytes (take 4 h) record_magic
    && byte_at h 4 == 1
    && byte_at h 5 == 32
    && byte_at h 6 == slot
    && byte_at h 7 == 0
    && get_uint16_be h 8 == l.namespace_id
    && get_uint16_be h 10 == l.object_type
    && get_uint32_be h 12 == l.object_id
    && get_uint32_be h 16 == generation
    && get_uint32_be h 20 == record_id
    && get_uint32_be h 24 == payload_size
    && get_uint16_be h 28 == record_fid l slot
    && get_uint16_be h 30 == 0

-- The 48 bytes that a commit's code covers, as `file_object_txn_write_commit` fills them in.
unfoldable pub commit_header : Layout → ℕ → ℕ → ℕ → ℕ → ℕ → List ℕ → Bool → List ℕ
commit_header l slot record_slot generation record_id n record_tag deleted =
    commit_magic
    ++ (1 ∷ 48 ∷ slot ∷ 0x7f ∷ put_uint16_be l.namespace_id
        ++ (put_uint16_be l.object_type
            ++ (put_uint32_be l.object_id
                ++ (put_uint32_be generation
                    ++ (if deleted
                        then zeros 6 ++ (0xff ∷ 0x01 ∷ zeros 20)
                        else put_uint32_be record_id
                          ++ (put_uint16_be (record_fid l record_slot)
                              ++ (record_slot ∷ 0 ∷ put_uint32_be n ++ record_tag)))))))

-- The test of a commit's header in `file_object_txn_parse_commit`, before the code is checked.
unfoldable pub commit_header_valid : Layout → ℕ → List ℕ → Bool
unfolding same_bytes
commit_header_valid l slot c =
    same_bytes (take 4 c) commit_magic
    && byte_at c 4 == 1
    && byte_at c 5 == 48
    && byte_at c 6 == slot
    && byte_at c 7 == 0x7f
    && get_uint16_be c 8 == l.namespace_id
    && get_uint16_be c 10 == l.object_type
    && get_uint32_be c 12 == l.object_id
    && not (get_uint32_be c 16 == 0)
    && bit_and (byte_at c 27) 0xfffffffe == 0
