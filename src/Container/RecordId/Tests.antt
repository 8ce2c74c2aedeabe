-- ===== src/Container/RecordId/Tests.antt =====
-- Runs of the counter of record identifiers, and its theorem at a concrete input.
use pico_all.Store.Tokens.{allocate_loop}
use pico_all.Base.{ℕ, ◌≡◌, refl, Bool, false, List, [], ◌∷◌, ◌++◌, arith, ltb, ◌==◌, if◌then◌else◌}
use pico_all.Bytes.{ok, same_bytes}
use pico_all.Store.Files.{file_read_at}
use pico_all.Store.Files.Memory.{Disk, memory}
use pico_all.Store.Toy.{toy_code, toy_auth}
use pico_all.Store.Txn.Layout.{
  Layout, fid_valid, layout_valid, tag_difference, tag_equal, record_header, record_header_valid,
  commit_header, commit_header_valid,
}
use pico_all.Store.Txn.Recover.{
  auth_buffer, auth_chunks, auth_record, check_record_tags, validate_record, commit_state,
  check_target, check_commit, parse_commit, invalid_record, select_slot, choose, recover,
}
use pico_all.Store.Txn.Record.{Fits}
use pico_all.Store.Txn.Commit.{Written, live}
use pico_all.Store.Txn.Steps.{Post}
use pico_all.Store.Txn.Handles.{
  find_handle, same_object, resolve, txn_get_info, txn_read_at, free_entry, txn_close,
}
use pico_all.Store.Txn.Open.{
  Handles, handle_in_use, allocate_token, place_entry, open_entry, txn_open, HandlesFit,
}
use pico_all.Store.Txn.Write.{
  remove_file, create_file, replace_file, sync, store_record, write_record, store_commit,
  write_commit, next_state, put_slot, txn_put,
}
use pico_all.Container.RecordId.{
  record_id_state, record_id_state_valid, following_id, read_next_id, read_and_close, behind_open,
  put_record_id, put_next_id, record_id_allocate,
}
use pico_all.Container.RecordId.Counts.{Counts}
use pico_all.Container.RecordId.Counter.{KeptOrNext, IsNext, record_id_allocate-IsNext}

abbrev layout : Layout
layout = record {
  namespace_id = 3;
  object_type = 2;
  object_id = 1;
  record_fid_0 = 0x2001;
  record_fid_1 = 0x2002;
  commit_fid_0 = 0x2003;
  commit_fid_1 = 0x2004;
}

layout-Fits : Fits layout
layout-Fits = record {
  namespace_width = omega arith;
  type_width = omega arith;
  id_width = omega arith;
  record_0_width = omega arith;
  record_1_width = omega arith;
  commit_0_width = omega arith;
  commit_1_width = omega arith;
}

abbrev room : ℕ → Bool
room n = ltb n 4096

-- The record and the commit of the identifier 41.
abbrev header : List ℕ
unfolding record_header
header = record_header layout 0 1 1 16

abbrev tag : List ℕ
tag = toy_code (header ++ record_id_state 41)

abbrev commit : List ℕ
unfolding commit_header
commit = commit_header layout 0 0 1 1 16 tag false

abbrev disk : Disk
disk = record {
  files = λ f.
      if f == 0x2001
      then header ++ (record_id_state 41 ++ tag)
      else if f == 0x2003
      then commit ++ toy_code commit
      else [];
  budget = 100;
}

reads : recover toy_auth disk.files layout ≡ ok (live 0 1 16)
unfolding header commit recover parse_commit check_commit check_target check_record_tags
    validate_record auth_record auth_chunks auth_buffer choose select_slot invalid_record
    commit_state record_header_valid commit_header_valid tag_equal tag_difference same_bytes
    file_read_at record_header commit_header
reads = refl

disk-Written : Written toy_auth disk.files layout 0 1 (record_id_state 41)
unfolding header commit auth_buffer
disk-Written = record {
  record_tag = tag;
  commit_tag = toy_code commit;
  record_file = refl;
  commit_file = refl;
  record_code = refl;
  commit_code = refl;
  payload_bound = omega arith;
}

abbrev handles : Handles
handles = record { table = free_entry ∷ free_entry ∷ free_entry ∷ free_entry ∷ []; next = 1 }

handles-HandlesFit : HandlesFit handles
handles-HandlesFit = record { table_size = refl; next_width = omega arith }

disk-Counts : Counts toy_auth disk.files layout 41
disk-Counts = record {
  slot = 0;
  generation = 1;
  bound = omega arith;
  state = reads;
  written = disk-Written;
}

allocates : (record_id_allocate memory toy_auth room disk handles layout).1 ≡ ok 42
unfolding header commit txn_put layout_valid fid_valid next_state put_slot remove_file create_file
    replace_file store_commit store_record sync write_commit write_record recover parse_commit
    check_commit check_target check_record_tags validate_record auth_record auth_chunks auth_buffer
    choose select_slot invalid_record commit_state record_header_valid commit_header_valid tag_equal
    tag_difference same_bytes file_read_at record_header commit_header txn_open open_entry
    allocate_token allocate_loop handle_in_use find_handle place_entry record_id_allocate
    put_next_id behind_open read_and_close read_next_id txn_get_info txn_read_at resolve same_object
    record_id_state_valid following_id put_record_id txn_close
allocates = refl

record_id_allocate-IsNext_example :
    Post
      (KeptOrNext memory toy_auth room layout 41)
      (IsNext memory toy_auth room layout 41)
      (record_id_allocate memory toy_auth room disk handles layout)
record_id_allocate-IsNext_example =
    record_id_allocate-IsNext memory toy_auth room disk handles layout 41 layout-Fits
      handles-HandlesFit (omega arith) disk-Counts
