-- ===== src/Store/Txn/Commit.antt =====
-- A commit that was written with its record parses to what was written.
use pico_all.Results.{uint16_round, uint32_round}
use pico_all.Store.Txn.Codes.{read_all, auth_buffer-finish, tag_equal_self}
use pico_all.Base.{
  ℕ, ◌≤◌, ◌<◌, ◌≡◌, refl, sym, true, false, List, [], ◌++◌, arith, ltb, ◌==◌, ==_self, length,
  length-append, take, drop, take-append, take_front, drop_front,
}
use pico_all.Bytes.{ok, byte_at, get_uint16_be, same_bytes}
use pico_all.Store.Txn.Layout.{
  Authenticator, Layout, record_fid, commit_fid, TxnState, tag_equal, record_header, commit_header,
  commit_header_valid,
}
use pico_all.Store.Txn.Recover.{
  auth_buffer, validate_record, commit_state, check_target, check_commit, parse_commit,
}
use pico_all.Store.Txn.Record.{Fits, record_fid-IsU16, validate_record-written}

-- What a slot holds after `file_object_txn_put` has written its record and its commit.
pub record Written (auth : Authenticator) (contents : ℕ → List ℕ) (l : Layout) (slot : ℕ) (g : ℕ)
    (d : List ℕ) : Type 0 where
  pub record_tag : List ℕ
  pub commit_tag : List ℕ
  pub record_file :
      contents (record_fid l slot) ≡ record_header l slot g g (length d) ++ (d ++ record_tag)
  pub commit_file :
      contents (commit_fid l slot)
      ≡ commit_header l slot slot g g (length d) record_tag false ++ commit_tag
  pub record_code : auth_buffer auth (record_header l slot g g (length d)) d ≡ ok record_tag
  pub commit_code :
      auth_buffer auth (commit_header l slot slot g g (length d) record_tag false) []
      ≡ ok commit_tag
  pub payload_bound : length d ≤ 4294967247

-- The state that a live commit of a slot stands for.
abbrev pub live : ℕ → ℕ → ℕ → TxnState
live slot g n = record {
  generation = g;
  record_id = g;
  payload_size = n;
  commit_slot = slot;
  record_slot = slot;
  deleted = false;
}

length-commit_header :
    (l : Layout) (slot r g id n : ℕ) (t : List ℕ)
    → length t ≡ 16
    → length (commit_header l slot r g id n t false) ≡ 48
unfolding commit_header
length-commit_header l slot r g id n t e = rw e

commit_header-valid :
    (l : Layout) (slot r g id n : ℕ) (t u : List ℕ)
    → Fits l
    → 0 < g
    → g < 4294967296
    → commit_header_valid l slot (commit_header l slot r g id n t false ++ u) ≡ true
unfolding commit_header commit_header_valid same_bytes
commit_header-valid l slot r g id n t u h pos hg =
    let e : (g == 0) ≡ false = ground arith in
    rw
      (
        uint16_round l.namespace_id h.namespace_width,
        uint16_round l.object_type h.type_width,
        uint32_round l.object_id h.id_width,
        uint32_round g hg,
        ==_self slot,
      )
      (rw (==_self l.namespace_id, ==_self l.object_type, ==_self l.object_id, e))

commit_state-written :
    (l : Layout) (slot g n : ℕ) (t u : List ℕ)
    → g < 4294967296
    → n < 4294967296
    → commit_state slot (commit_header l slot slot g g n t false ++ u) ≡ live slot g n
unfolding commit_header commit_state
commit_state-written l slot g n t u hg hn = rw (uint32_round g hg, uint32_round n hn)

commit_target :
    (l : Layout) (slot r g id n : ℕ) (t u : List ℕ)
    → Fits l
    → get_uint16_be (commit_header l slot r g id n t false ++ u) 24 ≡ record_fid l r
unfolding commit_header
commit_target l slot r g id n t u h = uint16_round (record_fid l r) (record_fid-IsU16 l r h)

commit_record_tag :
    (l : Layout) (slot r g id n : ℕ) (t u : List ℕ)
    → length t ≡ 16
    → take 16 (drop 32 (commit_header l slot r g id n t false ++ u)) ≡ t
unfolding commit_header
commit_record_tag l slot r g id n t u e = rw (sym e) (take-append t u)

pub record_slot_byte :
    (l : Layout) (slot r g id n : ℕ) (t u : List ℕ)
    → byte_at (commit_header l slot r g id n t false ++ u) 26 ≡ r
unfolding commit_header
record_slot_byte l slot r g id n t u = refl

module _ (auth : Authenticator) where
  code_size : (xs ys t : List ℕ) → auth_buffer auth xs ys ≡ ok t → length t ≡ 16
  code_size xs ys t e =
      let fin = auth_buffer-finish auth xs ys t e in auth.finish_length fin.0 t fin.1

  code_same : (xs ys t : List ℕ) → auth_buffer auth xs ys ≡ ok t → tag_equal t t ≡ true
  code_same xs ys t e =
      let fin = auth_buffer-finish auth xs ys t e in
      tag_equal_self t (auth.finish-AllBytes fin.0 t fin.1)

  check_target-written :
      (file : List ℕ) (l : Layout) (slot g n : ℕ) (t u : List ℕ)
      → Fits l
      → slot < 2
      → 0 < g
      → length t ≡ 16
      → validate_record auth file l slot g g n t ≡ ok tt
      → check_target auth file l (commit_header l slot slot g g n t false ++ u) (live slot g n)
        ≡ ok (live slot g n)
  unfolding check_target
  check_target-written file l slot g n t u fits hs pos size v =
      let h1 : ltb 1 slot ≡ false = ground arith in
      let h2 : (g == 0) ≡ false = ground arith in
      rw (
        h1,
        h2,
        commit_target l slot slot g g n t u fits,
        ==_self (record_fid l slot),
        commit_record_tag l slot slot g g n t u size,
        v,
      )

  -- Where the fields of the layout and the generation, which is not 0, have the width of their C
  -- types: a slot that holds a record and a commit as they are written is parsed back to the state
  -- that was written.
  pub parse_commit-Written :
      (contents : ℕ → List ℕ) (l : Layout) (slot g : ℕ) (d : List ℕ)
      → Fits l
      → slot < 2
      → 0 < g
      → g < 4294967296
      → Written auth contents l slot g d
      → parse_commit auth contents l slot ≡ ok (live slot g (length d))
  unfolding parse_commit check_commit
  parse_commit-Written contents l slot g d fits hs pos hg w =
      let header = commit_header l slot slot g g (length d) w.record_tag false in
      let size_r = code_size _ _ _ w.record_code in
      let size_c = code_size _ _ _ w.commit_code in
      let size_h = length-commit_header l slot slot g g (length d) w.record_tag size_r in
      let total : length (header ++ w.commit_tag) ≡ 64 =
        omega (arith, size_c, size_h, length-append header w.commit_tag) in
      let some_data : (length (header ++ w.commit_tag) == 0) ≡ false = ground arith in
      let fit : (length (header ++ w.commit_tag) == 64) ≡ true = rw total in
      let small : length d < 4294967296 = omega (arith, w.payload_bound) in
      let valid =
        validate_record-written auth l slot g g d w.record_tag fits hs hg hg w.payload_bound
          w.record_code in
      rw
        (
          w.commit_file,
          some_data,
          fit,
          read_all (header ++ w.commit_tag) 64 (sym total),
          commit_header-valid l slot slot g g (length d) w.record_tag w.commit_tag fits pos hg,
          take_front header w.commit_tag 48 size_h,
          drop_front header w.commit_tag 48 size_h,
          w.commit_code,
          code_same _ _ _ w.commit_code,
          record_slot_byte l slot slot g g (length d) w.record_tag w.commit_tag,
          commit_state-written l slot g (length d) w.record_tag w.commit_tag hg small,
          w.record_file,
        )
        (check_target-written _ l slot g (length d) w.record_tag w.commit_tag fits hs pos size_r
          valid)
