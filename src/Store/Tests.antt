-- ===== src/Store/Tests.antt =====
-- Runs of the transactional object store on a file system in memory, and its theorems at concrete
-- inputs.
use pico_all.Store.Txn.Opened.{OpenedIn, txn_open-Opened, txn_put-txn_read_at}
use pico_all.Store.Txn.Open.{
  Handles, handle_in_use, allocate_token, place_entry, open_entry, txn_open, HandlesFit,
  allocate_token-IsFresh,
}
use pico_all.Store.Tokens.{allocate_loop, IsFresh}
use pico_all.Store.Toy.{toy_code, toy_auth}
use pico_all.Store.Txn.Stale.{IsStale, txn_put-IsStale}
use pico_all.Store.Txn.Handles.{HandleEntry, find_handle, txn_read_at, free_entry, txn_close}
use pico_all.Store.Txn.Steps.{Post}
use pico_all.Store.Txn.Atomic.{txn_put-OldOrNew}
use pico_all.Store.Txn.Slot.{Steady, OldOrNew}
use pico_all.Store.Txn.Write.{
  remove_file, create_file, replace_file, sync, store_record, write_record, store_commit,
  write_commit, next_state, put_slot, txn_put,
}
use pico_all.Store.Txn.Codes.{auth_record-auth_buffer}
use pico_all.Store.Files.{file_read_at}
use pico_all.Store.Txn.Record.{Fits, length-record_header}
use pico_all.Store.Txn.Commit.{Written, live}
use pico_all.Store.Txn.Recover.{
  auth_buffer, auth_chunks, auth_record, check_record_tags, validate_record, commit_state,
  check_target, check_commit, parse_commit, invalid_record, select_slot, choose, recover,
}
use pico_all.Base.{
  ℕ, ◌+◌, ◌≤◌, bit_xor, ◌≡◌, refl, ap, inr, Bool, false, some, List, [], ◌∷◌, ◌++◌, arith, ltb,
  ◌==◌, if◌then◌else◌, length, length-append, take, drop,
}
use pico_all.Bytes.{Result, ok, bytes, same_bytes}
use pico_all.Store.Files.Memory.{Disk, memory}
use pico_all.Store.Txn.Layout.{
  Layout, TxnState, fid_valid, layout_valid, tag_difference, tag_equal, record_header,
  record_header_valid, commit_header, commit_header_valid,
}

abbrev layout : Layout
layout = record {
  namespace_id = 3;
  object_type = 2;
  object_id = 70000;
  record_fid_0 = 0x1001;
  record_fid_1 = 0x1002;
  commit_fid_0 = 0x1003;
  commit_fid_1 = 0x1004;
}

layout-Fits : Fits layout
layout-Fits = record {
  namespace_width = omega arith;
  type_width = omega arith;
  id_width = omega arith;
  record_0_width = omega arith;
  record_1_width = omega arith;
  commit_0_width = omega arith;
  commit_1_width = omega arith;
}

abbrev blank : Disk
blank = record { files = λ _. []; budget = 100 }

abbrev room : ℕ → Bool
room n = ltb n 4096

-- The first record, and the commit that makes it valid.
abbrev first_header : List ℕ
unfolding record_header
first_header = record_header layout 0 1 1 3

abbrev first_tag : List ℕ
first_tag = toy_code (first_header ++ (1 ∷ 2 ∷ 3 ∷ []))

abbrev first_commit : List ℕ
unfolding commit_header
first_commit = commit_header layout 0 0 1 1 3 first_tag false

abbrev first_disk : Disk
first_disk = record {
  files = λ f.
      if f == 0x1001
      then first_header ++ (1 ∷ 2 ∷ 3 ∷ first_tag)
      else if f == 0x1003
      then first_commit ++ toy_code first_commit
      else [];
  budget = 100;
}

reads_first : recover toy_auth first_disk.files layout ≡ ok (live 0 1 3)
unfolding first_header first_commit recover parse_commit check_commit check_target check_record_tags
    validate_record auth_record auth_chunks auth_buffer choose select_slot invalid_record
    commit_state record_header_valid commit_header_valid tag_equal tag_difference same_bytes
    file_read_at record_header commit_header
reads_first = refl

abbrev second_state : TxnState
second_state = live (bit_xor 0 1) (1 + 1) 2

first_state-Steady : Steady (live 0 1 3)
first_state-Steady = record { own_slot = inr refl; width = omega arith }

txn_put-OldOrNew_example :
    OldOrNew memory toy_auth room first_disk layout
      (8 ∷ 9 ∷ [])
      (live 0 1 3)
      second_state
      (txn_put memory room first_disk layout (some toy_auth) (bytes (8 ∷ 9 ∷ [])))
txn_put-OldOrNew_example =
    txn_put-OldOrNew memory toy_auth room layout (bytes (8 ∷ 9 ∷ [])) first_disk (live 0 1 3)
      layout-Fits first_state-Steady reads_first

first_disk-Written : Written toy_auth first_disk.files layout 0 1 (1 ∷ 2 ∷ 3 ∷ [])
unfolding first_header first_commit auth_buffer
first_disk-Written = record {
  record_tag = first_tag;
  commit_tag = toy_code first_commit;
  record_file = refl;
  commit_file = refl;
  record_code = refl;
  commit_code = refl;
  payload_bound = omega arith;
}

auth_record-auth_buffer_example :
    auth_record toy_auth (first_header ++ (1 ∷ 2 ∷ 3 ∷ first_tag)) first_header 3
    ≡ auth_buffer toy_auth first_header (take 3 (drop 32 (first_header ++ (1 ∷ 2 ∷ 3 ∷ first_tag))))
unfolding first_header
auth_record-auth_buffer_example =
    auth_record-auth_buffer toy_auth (first_header ++ (1 ∷ 2 ∷ 3 ∷ first_tag)) first_header 3
      first_fits
  where
    first_fits : 32 + 3 ≤ length (first_header ++ (1 ∷ 2 ∷ 3 ∷ first_tag))
    first_fits = omega (
      arith,
      length-append first_header (1 ∷ 2 ∷ 3 ∷ first_tag),
      length-record_header layout 0 1 1 3,
    )

abbrev table : List HandleEntry
table = record { layout = layout; state = live 0 1 3; token = 7 } ∷ []

finds : find_handle table 7 ≡ some (record { layout = layout; state = live 0 1 3; token = 7 })
unfolding find_handle
finds = refl

closes : (txn_close table 7).1 ≡ ok tt
unfolding txn_close find_handle
closes = refl

txn_put-IsStale_example :
    Post
      (λ _. Unit {0})
      (λ fs _. IsStale toy_auth fs.files table 7)
      (txn_put memory room first_disk layout (some toy_auth) (bytes (8 ∷ 9 ∷ [])))
txn_put-IsStale_example =
    txn_put-IsStale memory toy_auth room layout (bytes (8 ∷ 9 ∷ [])) first_disk (live 0 1 3) table 7
      7 layout-Fits first_state-Steady reads_first finds

abbrev no_handles : Handles
no_handles = record { table = free_entry ∷ free_entry ∷ free_entry ∷ free_entry ∷ []; next = 1 }

no_handles-HandlesFit : HandlesFit no_handles
no_handles-HandlesFit = record { table_size = refl; next_width = omega arith }

-- The counter stands before its wrap, and the token behind it is in use.
abbrev last_token : Handles
last_token = record {
  table =
      record { layout = layout; state = live 0 1 3; token = 4294967295 }
      ∷ free_entry
      ∷ free_entry
      ∷ free_entry
      ∷ [];
  next = 4294967295;
}

passes_over : allocate_token last_token ≡ (1, 2)
unfolding allocate_token allocate_loop handle_in_use find_handle
passes_over = refl

allocate_token-IsFresh_example :
    IsFresh (handle_in_use last_token.table) (allocate_token last_token).0
allocate_token-IsFresh_example =
    allocate_token-IsFresh last_token (record { table_size = refl; next_width = omega arith })

txn_open-Opened_example :
    Post
      (λ h'. h' ≡ no_handles)
      (OpenedIn first_disk.files toy_auth no_handles layout)
      (txn_open memory first_disk.files no_handles layout (some toy_auth))
txn_open-Opened_example =
    txn_open-Opened memory first_disk.files no_handles layout toy_auth no_handles-HandlesFit

abbrev put_out : Disk × Result (Unit {0})
put_out = txn_put memory room first_disk layout (some toy_auth) (bytes (8 ∷ 9 ∷ []))

puts : put_out.1 ≡ ok tt
unfolding first_header first_commit txn_put layout_valid fid_valid next_state put_slot remove_file
    create_file replace_file store_commit store_record sync write_commit write_record recover
    parse_commit check_commit check_target check_record_tags validate_record auth_record auth_chunks
    auth_buffer choose select_slot invalid_record commit_state record_header_valid
    commit_header_valid tag_equal tag_difference same_bytes file_read_at record_header commit_header
puts = refl

abbrev opened : Handles × Result ℕ
opened = txn_open memory put_out.0.files no_handles layout (some toy_auth)

opens : opened.1 ≡ ok 1
unfolding first_header first_commit txn_put layout_valid fid_valid next_state put_slot remove_file
    create_file replace_file store_commit store_record sync write_commit write_record recover
    parse_commit check_commit check_target check_record_tags validate_record auth_record auth_chunks
    auth_buffer choose select_slot invalid_record commit_state record_header_valid
    commit_header_valid tag_equal tag_difference same_bytes file_read_at record_header commit_header
    txn_open open_entry allocate_token allocate_loop handle_in_use find_handle place_entry
opens = refl

txn_put-txn_read_at_example :
    txn_read_at toy_auth put_out.0.files opened.0.table 1 1 1 ≡ ok (9 ∷ [])
txn_put-txn_read_at_example =
    txn_put-txn_read_at memory room toy_auth layout (bytes (8 ∷ 9 ∷ [])) first_disk put_out.0
      (live 0 1 3) no_handles opened.0 1 1 1 layout-Fits first_state-Steady no_handles-HandlesFit
      reads_first (ap (λ (r : Result (Unit {0})). (put_out.0, r)) puts)
      (ap (λ (r : Result ℕ). (opened.0, r)) opens) (omega arith)
