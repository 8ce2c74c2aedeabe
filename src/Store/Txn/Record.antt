-- ===== src/Store/Txn/Record.antt =====
-- A record that was written is a valid record.
use mathlib.Core.List.{append_assoc}
use pico_all.Results.{uint16_round, uint32_round}
use pico_all.Store.Files.{file_read_at}
use pico_all.Store.Txn.Codes.{
  read_front, read_back, auth_record-auth_buffer, auth_buffer-finish, tag_equal_self,
}
use pico_all.Store.Txn.Recover.{auth_buffer, auth_record, check_record_tags, validate_record}
use pico_all.Base.{
  ℕ, ◌+◌, ◌≤◌, ◌<◌, ◌≡◌, refl, sym, ap, ◌∙◌, true, false, List, ◌++◌, arith, ltb, ◌==◌,
  if◌then◌else◌, ==_self, length, length-append, take-append, drop_front,
}
use pico_all.Bytes.{IsU16, ok, same_bytes}
use pico_all.Store.Txn.Layout.{
  Authenticator, Layout, record_fid, tag_equal, record_header, record_header_valid,
}

-- The widths of the fields of `file_object_txn_layout_t`.
pub record Fits (l : Layout) : Type 0 where
  pub namespace_width : IsU16 l.namespace_id
  pub type_width : IsU16 l.object_type
  pub id_width : l.object_id < 4294967296
  pub record_0_width : IsU16 l.record_fid_0
  pub record_1_width : IsU16 l.record_fid_1
  pub commit_0_width : IsU16 l.commit_fid_0
  pub commit_1_width : IsU16 l.commit_fid_1

pub record_fid-IsU16 : (l : Layout) (slot : ℕ) → Fits l → IsU16 (record_fid l slot)
record_fid-IsU16 l slot h =
    elim (slot == 0) as (λ b. IsU16 (if b then l.record_fid_0 else l.record_fid_1)) [
      | true ↦ h.record_0_width
      | false ↦ h.record_1_width
    ]

pub length-record_header :
    (l : Layout) (slot g id n : ℕ) → length (record_header l slot g id n) ≡ 32
unfolding record_header
length-record_header l slot g id n = refl

pub record_header-valid :
    (l : Layout) (slot g id n : ℕ)
    → Fits l
    → g < 4294967296
    → id < 4294967296
    → n < 4294967296
    → record_header_valid l slot g id n (record_header l slot g id n) ≡ true
unfolding record_header record_header_valid same_bytes
record_header-valid l slot g id n h hg hid hn =
    rw
      (
        uint16_round l.namespace_id h.namespace_width,
        uint16_round l.object_type h.type_width,
        uint32_round l.object_id h.id_width,
        uint32_round g hg,
        uint32_round id hid,
        uint32_round n hn,
        uint16_round (record_fid l slot) (record_fid-IsU16 l slot h),
        ==_self slot,
      )
      (rw (
        ==_self l.namespace_id,
        ==_self l.object_type,
        ==_self l.object_id,
        ==_self g,
        ==_self id,
        ==_self n,
        ==_self (record_fid l slot),
      ))

module _ (auth : Authenticator) where
  check_record_tags-written :
      (header d tag : List ℕ)
      → length header ≡ 32
      → auth_buffer auth header d ≡ ok tag
      → check_record_tags auth (header ++ (d ++ tag)) header (length d) tag ≡ ok tt
  unfolding check_record_tags
  check_record_tags-written header d tag n e =
      let fin = auth_buffer-finish auth header d tag e in
      let size : length tag ≡ 16 = auth.finish_length fin.0 tag fin.1 in
      let same : tag_equal tag tag ≡ true =
        tag_equal_self tag (auth.finish-AllBytes fin.0 tag fin.1) in
      let total : length (header ++ (d ++ tag)) ≡ 32 + length d + 16 =
        omega (arith, n, size, length-append header (d ++ tag), length-append d tag) in
      let code : auth_record auth (header ++ (d ++ tag)) header (length d) ≡ ok tag =
        auth_record-auth_buffer auth (header ++ (d ++ tag)) header (length d) (omega (arith, total))
        ∙ rw (drop_front header (d ++ tag) 32 n, take-append d tag) e in
      let stored : file_read_at (header ++ (d ++ tag)) (32 + length d) 16 ≡ ok tag =
        ap (λ f. file_read_at f (32 + length d) 16) (sym (append_assoc header d tag))
        ∙ read_back (header ++ d) tag (32 + length d) 16 (omega (arith, n, length-append header d))
            (sym size) in
      rw (code, stored, same)

  pub validate_record-written :
      (l : Layout) (slot g id : ℕ) (d tag : List ℕ)
      → Fits l
      → slot < 2
      → g < 4294967296
      → id < 4294967296
      → length d ≤ 4294967247
      → auth_buffer auth (record_header l slot g id (length d)) d ≡ ok tag
      → validate_record auth
          (record_header l slot g id (length d) ++ (d ++ tag))
          l
          slot
          g
          id
          (length d)
          tag
        ≡ ok tt
  unfolding validate_record check_record_tags
  validate_record-written l slot g id d tag fits hs hg hid hd e =
      let header = record_header l slot g id (length d) in
      let h1 : ltb 1 slot ≡ false = ground arith in
      let h2 : ltb 4294967247 (length d) ≡ false = ground arith in
      let fin = auth_buffer-finish auth header d tag e in
      let size : length tag ≡ 16 = auth.finish_length fin.0 tag fin.1 in
      let total : length (header ++ (d ++ tag)) ≡ 32 + length d + 16 = omega (
        arith,
        length-record_header l slot g id (length d),
        size,
        length-append header (d ++ tag),
        length-append d tag,
      ) in
      let some_data : (length (header ++ (d ++ tag)) == 0) ≡ false = ground arith in
      let fit : (length (header ++ (d ++ tag)) == 32 + length d + 16) ≡ true =
        rw total (==_self _) in
      rw
        (
          h1,
          h2,
          some_data,
          fit,
          read_front header (d ++ tag) 32 (sym (length-record_header l slot g id (length d))),
          record_header-valid l slot g id (length d) fits hg hid (omega arith),
        )
        (check_record_tags-written header d tag (length-record_header l slot g id (length d)) e)
