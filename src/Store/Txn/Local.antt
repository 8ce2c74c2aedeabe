-- ===== src/Store/Txn/Local.antt =====
-- What a parsed commit depends on: its own file, and the record file that it names.
use pico_all.Results.{bind_ok, refuse_ok, ok_injective, either_ok}
use pico_all.Base.{
  ℕ, ◌≡◌, sym, ap, subst, ◌⊎◌, inl, inr, true, false, not, List, [], ◌==◌, length, take, drop,
}
use pico_all.Bytes.{ok, byte_at}
use pico_all.Store.Files.{file_read_at}
use pico_all.Store.Txn.Layout.{
  Authenticator, Layout, record_fid, commit_fid, TxnState, tag_equal, commit_header_valid,
}
use pico_all.Store.Txn.Recover.{auth_buffer, commit_state, check_target, check_commit, parse_commit}

-- A commit is of its slot, and accepts any record file with the same data; one of a deleted object
-- accepts any.
module _ (auth : Authenticator) where
  check_target-local :
      (file file' : List ℕ) (l : Layout) (c : List ℕ) (s t : TxnState)
      → check_target auth file l c s ≡ ok t
      → (s.deleted ≡ true) ⊎ (file' ≡ file)
      → check_target auth file' l c s ≡ ok t
  unfolding check_target
  check_target-local file file' l c s t e (inl gone) =
      rw (gone, check_target) (rw (gone, check_target) at e)
  check_target-local file file' l c s t e (inr same) = rw same e

  check_target_state :
      (file : List ℕ) (l : Layout) (c : List ℕ) (s t : TxnState)
      → check_target auth file l c s ≡ ok t
      → t ≡ s
  unfolding check_target
  check_target_state file l c s t e = elim (either_ok s.deleted _ _ t e) [
    | inl gone ↦ sym (ok_injective s t (refuse_ok _ _ (ok s) t gone).1)
    | inr alive ↦ sym (ok_injective s t (bind_ok _ (λ _. ok s) t (refuse_ok _ _ _ t alive).1).2)
  ]

  -- What an accepted commit has passed.
  record Accepted (contents : ℕ → List ℕ) (l : Layout) (slot : ℕ) (s : TxnState) : Type 0 where
    c : List ℕ
    code : List ℕ
    nonempty : (length (contents (commit_fid l slot)) == 0) ≡ false
    fit : not (length (contents (commit_fid l slot)) == 64) ≡ false
    read : file_read_at (contents (commit_fid l slot)) 0 64 ≡ ok c
    header : not (commit_header_valid l slot c) ≡ false
    calculated : auth_buffer auth (take 48 c) [] ≡ ok code
    same_code : not (tag_equal code (drop 48 c)) ≡ false
    target :
        check_target auth (contents (record_fid l (byte_at c 26))) l c (commit_state slot c) ≡ ok s

  parse_commit-Accepted :
      (contents : ℕ → List ℕ) (l : Layout) (slot : ℕ) (s : TxnState)
      → parse_commit auth contents l slot ≡ ok s
      → Accepted contents l slot s
  unfolding parse_commit check_commit
  parse_commit-Accepted contents l slot s e =
      let r1 = refuse_ok (length (contents (commit_fid l slot)) == 0) _ _ s e in
      let r2 = refuse_ok (not (length (contents (commit_fid l slot)) == 64)) _ _ s r1.1 in
      let b1 = bind_ok (file_read_at (contents (commit_fid l slot)) 0 64) _ s r2.1 in
      let r3 = refuse_ok (not (commit_header_valid l slot b1.0)) _ _ s b1.2 in
      let b2 = bind_ok (auth_buffer auth (take 48 b1.0) []) _ s r3.1 in
      let r4 = refuse_ok (not (tag_equal b2.0 (drop 48 b1.0))) _ _ s b2.2 in
      record {
        c = b1.0;
        code = b2.0;
        nonempty = r1.0;
        fit = r2.0;
        read = b1.1;
        header = r3.0;
        calculated = b2.1;
        same_code = r4.0;
        target = r4.1;
      }

  pub parse_commit_slot :
      (contents : ℕ → List ℕ) (l : Layout) (slot : ℕ) (s : TxnState)
      → parse_commit auth contents l slot ≡ ok s
      → s.commit_slot ≡ slot
  unfolding commit_state
  parse_commit_slot contents l slot s e =
      let a = parse_commit-Accepted contents l slot s e in
      ap (λ (t : TxnState). t.commit_slot)
        (check_target_state _ l a.c (commit_state slot a.c) s a.target)

  -- A commit parses to the same when its own file and the record file that it names have the same
  -- data; one of a deleted object whatever the record files have.
  pub parse_commit-local :
      (contents contents' : ℕ → List ℕ) (l : Layout) (slot : ℕ) (s : TxnState)
      → parse_commit auth contents l slot ≡ ok s
      → contents' (commit_fid l slot) ≡ contents (commit_fid l slot)
      → (s.deleted ≡ true)
        ⊎ (contents' (record_fid l s.record_slot) ≡ contents (record_fid l s.record_slot))
      → parse_commit auth contents' l slot ≡ ok s
  unfolding parse_commit check_commit commit_state
  parse_commit-local contents contents' l slot s e same names =
      let a = parse_commit-Accepted contents l slot s e in
      let state = check_target_state _ l a.c (commit_state slot a.c) s a.target in
      let named =
        subst
          (λ (t : TxnState).
            (t.deleted ≡ true)
            ⊎ (contents' (record_fid l t.record_slot) ≡ contents (record_fid l t.record_slot)))
          state names in
      rw (same, a.nonempty, a.fit, a.read, a.header, a.calculated, a.same_code)
        (check_target-local _ _ l a.c (commit_state slot a.c) s a.target named)
