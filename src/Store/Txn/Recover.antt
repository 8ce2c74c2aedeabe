-- ===== src/Store/Txn/Recover.antt =====
-- Reading a transactional object: the codes, the validation of a record and of a commit, and the
-- choice between the two slots.
use pico_all.Base.{
  min, ℕ, zero, suc, ◌+◌, ◌-◌, bit_and, Bool, true, false, not, ◌||◌, Option, none, some, List, [],
  ltb, ◌==◌, if◌then◌else◌, length, take, drop,
}
use pico_all.Bytes.{
  Code, err_file_not_found, wrong_data, wrong_signature, Result, ok, err, byte_at, get_uint16_be,
  get_uint32_be, ◌>>=◌, refuse,
}
use pico_all.Store.Files.{file_read_at}
use pico_all.Store.Txn.Layout.{
  Authenticator, Layout, record_fid, commit_fid, TxnState, tag_equal, zeros, record_header_valid,
  commit_header_valid,
}

module _ (auth : Authenticator) where
  -- `file_object_txn_auth_buffer`
  unfoldable pub auth_buffer : List ℕ → List ℕ → Result (List ℕ)
  auth_buffer first second = do
    c ← auth.start
    c' ← auth.update c first
    c'' ← (if ltb 0 (length second) then auth.update c' second else ok c')
    auth.finish c''

  -- The loop of `file_object_txn_auth_record` over the record's file, in rounds; each takes a byte
  -- at least.
  unfoldable pub auth_chunks : ℕ → List ℕ → ℕ → ℕ → auth.Ctx → Result auth.Ctx
  auth_chunks zero file payload_size offset c = ok c
  auth_chunks (suc rounds) file payload_size offset c =
      let chunk = min 256 (payload_size - offset) in
      let round = file_read_at file (32 + offset) chunk >>= λ buffer.
      auth.update c buffer >>= λ c'. auth_chunks rounds file payload_size (offset + chunk) c' in
      if ltb offset payload_size then round else ok c

  -- `file_object_txn_auth_record`
  unfoldable pub auth_record : List ℕ → List ℕ → ℕ → Result (List ℕ)
  auth_record file header payload_size = do
    c ← auth.start
    c' ← auth.update c header
    c'' ← auth_chunks payload_size file payload_size 0 c'
    auth.finish c''

  -- The codes of a record that has a valid header: the computed one against the stored one and the
  -- one in the commit.
  unfoldable pub check_record_tags : List ℕ → List ℕ → ℕ → List ℕ → Result (Unit {0})
  check_record_tags file header payload_size commit_record_tag = do
    calculated ← auth_record file header payload_size
    stored ← file_read_at file (32 + payload_size) 16
    refuse (not (tag_equal calculated stored) || not (tag_equal calculated commit_record_tag))
        wrong_signature (ok tt)

  -- `file_object_txn_validate_record` on the data of the slot's record file; `UINT32_MAX - 32 - 16`
  -- bounds the payload.
  unfoldable pub validate_record : List ℕ → Layout → ℕ → ℕ → ℕ → ℕ → List ℕ → Result (Unit {0})
  validate_record file l slot generation record_id payload_size commit_record_tag =
      refuse (ltb 1 slot) wrong_data (
        refuse (length file == 0) err_file_not_found (
          refuse (ltb 4294967247 payload_size || not (length file == 32 + payload_size + 16))
            wrong_data
            (file_read_at file 0 32 >>= λ header.
              refuse (not (record_header_valid l slot generation record_id payload_size header))
                wrong_data (check_record_tags file header payload_size commit_record_tag))))

-- The fields of a commit that `file_object_txn_parse_commit` reads.
unfoldable pub commit_state : ℕ → List ℕ → TxnState
commit_state slot c = record {
  generation = get_uint32_be c 16;
  record_id = get_uint32_be c 20;
  payload_size = get_uint32_be c 28;
  commit_slot = slot;
  record_slot = byte_at c 26;
  deleted = not (bit_and (byte_at c 27) 1 == 0);
}

module _ (auth : Authenticator) where
  -- The end of `file_object_txn_parse_commit`: a deleted commit names no record, and a live one a
  -- valid record. `file` is the data of the record file of the commit's record slot.
  unfoldable pub check_target : List ℕ → Layout → List ℕ → TxnState → Result TxnState
  check_target file l c s =
      let record_tag = take 16 (drop 32 c) in
      if s.deleted
      then refuse
          (not (s.record_id == 0)
            || not (s.payload_size == 0)
            || not (get_uint16_be c 24 == 0)
            || not (s.record_slot == 255)
            || not (tag_equal record_tag (zeros 16)))
          wrong_data (ok s)
      else refuse
          (ltb 1 s.record_slot
            || not (get_uint16_be c 24 == record_fid l s.record_slot)
            || s.record_id == 0)
          wrong_data
          (validate_record auth file l s.record_slot s.generation s.record_id s.payload_size
              record_tag
            >>= λ _. ok s)

  -- The code of a commit with a valid header, and what it commits to.
  unfoldable pub check_commit : (ℕ → List ℕ) → Layout → ℕ → List ℕ → Result TxnState
  check_commit contents l slot c = do
    calculated ← auth_buffer auth (take 48 c) []
    refuse (not (tag_equal calculated (drop 48 c))) wrong_signature
        (check_target (contents (record_fid l (byte_at c 26))) l c (commit_state slot c))

  -- `file_object_txn_parse_commit`, over the data of the files.
  unfoldable pub parse_commit : (ℕ → List ℕ) → Layout → ℕ → Result TxnState
  parse_commit contents l slot =
      let file = contents (commit_fid l slot) in
      refuse (length file == 0) err_file_not_found (
        refuse (not (length file == 64)) wrong_data (
          file_read_at file 0 64 >>= λ c.
          refuse (not (commit_header_valid l slot c)) wrong_data (check_commit contents l slot c)))

-- `file_object_txn_invalid_record`
unfoldable pub invalid_record : Code → Bool
invalid_record err_file_not_found = true
invalid_record wrong_data = true
invalid_record wrong_signature = true
invalid_record _ = false

-- One round of the loop of `file_object_txn_recover`: what was selected, and the slot's candidate.
unfoldable pub select_slot : Option TxnState → Result TxnState → Result (Option TxnState)
unfolding invalid_record
select_slot selected (err c) = if invalid_record c then ok selected else err c
select_slot none (ok candidate) = ok (some candidate)
select_slot (some s) (ok candidate) =
    if candidate.generation == s.generation
    then err wrong_data
    else if ltb s.generation candidate.generation
    then ok (some candidate)
    else ok (some s)

-- `file_object_txn_recover`, given what the commits of the two slots parse to. The second commit is
-- parsed only if the first round does not return; parsing changes nothing.
unfoldable pub choose : Result TxnState → Result TxnState → Result TxnState
unfolding select_slot
choose first second = do
  one ← select_slot none first
  two ← select_slot one second
  elim two [ none ↦ err err_file_not_found | some s ↦ ok s ]

module _ (auth : Authenticator) where
  unfoldable pub recover : (ℕ → List ℕ) → Layout → Result TxnState
  unfolding choose
  recover contents l = choose (parse_commit auth contents l 0) (parse_commit auth contents l 1)
