-- ===== src/Store/Txn/Handles.antt =====
-- Reading through a handle: `file_object_txn_resolve`, `file_object_txn_get_info`,
-- `file_object_txn_read_at` and `file_object_txn_close`. The table is the list of its entries; a
-- free one has the token 0.
use pico_all.Store.Txn.Codes.{file_read_at-ok}
use pico_all.Base.{
  ℕ, ◌+◌, ◌-◌, ◌≤◌, ◌≡◌, refl, sym, ap, ◌∙◌, Bool, true, false, not, ◌&&◌, ◌||◌, Option, none, some,
  List, [], ◌∷◌, ◌++◌, arith, ltb, ◌==◌, if◌then◌else◌, ==_self, length, length-append, take, drop,
  drop-append, take_within,
}
use pico_all.Bytes.{Code, wrong_length, err_stale_handle, Result, ok, err, ◌>>=◌, refuse}
use pico_all.Store.Files.{file_read_at}
use pico_all.Store.Txn.Layout.{Authenticator, Layout, record_fid, TxnState, record_header}
use pico_all.Store.Txn.Recover.{invalid_record, recover}
use pico_all.Store.Txn.Record.{length-record_header}
use pico_all.Store.Txn.Commit.{Written, live}

pub record HandleEntry : Type 0 where
  pub layout : Layout
  pub state : TxnState
  pub token : ℕ

-- The loop of `file_object_txn_find_handle`.
abbrev pub find_entry : List HandleEntry → ℕ → Option HandleEntry
find_entry [] handle = none
find_entry (e ∷ es) handle =
    let rest = find_entry es handle in if e.token == handle then some e else rest

-- `file_object_txn_find_handle`
unfoldable pub find_handle : List HandleEntry → ℕ → Option HandleEntry
find_handle table handle = if handle == 0 then none else find_entry table handle

-- An error of the recovery, as `file_object_txn_resolve` reports it.
pub resolve_error : Code → Code
unfolding invalid_record
resolve_error c = if invalid_record c then err_stale_handle else c

-- What `file_object_txn_resolve` compares of the recovered state and the entry's.
unfoldable pub same_object : TxnState → TxnState → Bool
same_object recovered state =
    not recovered.deleted
    && recovered.generation == state.generation
    && recovered.record_id == state.record_id
    && recovered.record_slot == state.record_slot
    && recovered.payload_size == state.payload_size

module _ (auth : Authenticator) where
  -- `file_object_txn_resolve`, which gives the entry and the recovered state.
  unfoldable pub resolve : (ℕ → List ℕ) → List HandleEntry → ℕ → Result (HandleEntry × TxnState)
  unfolding find_handle resolve_error same_object
  resolve contents table handle = elim (find_handle table handle) [
    | none ↦ err err_stale_handle
    | some e ↦ elim (recover auth contents e.layout) [
      | err c ↦ err (resolve_error c)
      | ok s ↦ if same_object s e.state then ok (e, s) else err err_stale_handle
    ]
  ]

  -- `file_object_txn_get_info`: the payload's size and the generation.
  unfoldable pub txn_get_info : (ℕ → List ℕ) → List HandleEntry → ℕ → Result (ℕ × ℕ)
  unfolding resolve
  txn_get_info contents table handle = do
    (e, s) ← resolve contents table handle
    ok (s.payload_size, s.generation)

  -- `file_object_txn_read_at` into a buffer of `n` bytes that is not null.
  unfoldable pub txn_read_at : (ℕ → List ℕ) → List HandleEntry → ℕ → ℕ → ℕ → Result (List ℕ)
  unfolding resolve
  txn_read_at contents table handle offset n = resolve contents table handle >>= λ found.
      refuse (ltb found.1.payload_size offset || ltb (found.1.payload_size - offset) n) wrong_length
        (file_read_at (contents (record_fid found.0.layout found.1.record_slot)) (32 + offset) n)

abbrev pub free_entry : HandleEntry
free_entry = record {
  layout = record {
    namespace_id = 0;
    object_type = 0;
    object_id = 0;
    record_fid_0 = 0;
    record_fid_1 = 0;
    commit_fid_0 = 0;
    commit_fid_1 = 0;
  };
  state = record {
    generation = 0;
    record_id = 0;
    payload_size = 0;
    commit_slot = 0;
    record_slot = 0;
    deleted = false;
  };
  token = 0;
}

-- `file_object_txn_close`: the entry is zeroed.
abbrev pub close_entry : List HandleEntry → ℕ → List HandleEntry
close_entry [] handle = []
close_entry (e ∷ es) handle =
    let rest = close_entry es handle in if e.token == handle then free_entry ∷ es else e ∷ rest

unfoldable pub txn_close : List HandleEntry → ℕ → List HandleEntry × Result (Unit {0})
unfolding find_handle
txn_close table handle = elim (find_handle table handle) [
  | none ↦ (table, err err_stale_handle)
  | some e ↦ (close_entry table handle, ok tt)
]

read_payload :
    (header d t : List ℕ) (offset n : ℕ)
    → length header ≡ 32
    → offset + n ≤ length d
    → file_read_at (header ++ (d ++ t)) (32 + offset) n ≡ ok (take n (drop offset d))
read_payload header d t offset n e le =
    file_read_at-ok (header ++ (d ++ t)) (32 + offset) n
      (omega (arith, e, le, length-append header (d ++ t), length-append d t))
    ∙ ap (λ k. ok (take n (drop (k + offset) (header ++ (d ++ t))))) (sym e)
    ∙ ap (λ l. ok (take n l)) (drop-append header (d ++ t) offset)
    ∙ ap ok (take_within d t offset n le)

module _ (auth : Authenticator) where
  resolve-same :
      (contents : ℕ → List ℕ) (table : List HandleEntry) (handle : ℕ) (e : HandleEntry)
      (s : TxnState)
      → find_handle table handle ≡ some e
      → recover auth contents e.layout ≡ ok s
      → same_object s e.state ≡ true
      → resolve auth contents table handle ≡ ok (e, s)
  unfolding resolve
  resolve-same contents table handle e s found state same = rw (found, resolve) (rw (state, same))

  pub resolve-stale :
      (contents : ℕ → List ℕ) (table : List HandleEntry) (handle : ℕ) (e : HandleEntry)
      (s : TxnState)
      → find_handle table handle ≡ some e
      → recover auth contents e.layout ≡ ok s
      → same_object s e.state ≡ false
      → resolve auth contents table handle ≡ err err_stale_handle
  unfolding resolve
  resolve-stale contents table handle e s found state same = rw (found, resolve) (rw (state, same))

  live-same : (slot g n : ℕ) → same_object (live slot g n) (live slot g n) ≡ true
  unfolding same_object
  live-same slot g n = rw (==_self g, ==_self slot, ==_self n)

  pub txn_get_info-live :
      (contents : ℕ → List ℕ) (table : List HandleEntry) (handle : ℕ) (l : Layout)
      (token slot g n : ℕ)
      → find_handle table handle
        ≡ some (record { layout = l; state = live slot g n; token = token })
      → recover auth contents l ≡ ok (live slot g n)
      → txn_get_info auth contents table handle ≡ ok (n, g)
  unfolding txn_get_info
  txn_get_info-live contents table handle l token slot g n found state =
      rw (resolve-same contents table handle _ _ found state (live-same slot g n)) refl

  -- A handle whose state is that of the object as it was written reads the bytes that were written,
  -- for any part of them.
  pub txn_read_at-Written :
      (contents : ℕ → List ℕ) (table : List HandleEntry) (handle : ℕ) (l : Layout)
      (token slot g : ℕ) (d : List ℕ) (offset n : ℕ)
      → find_handle table handle
        ≡ some (record { layout = l; state = live slot g (length d); token = token })
      → recover auth contents l ≡ ok (live slot g (length d))
      → Written auth contents l slot g d
      → offset + n ≤ length d
      → txn_read_at auth contents table handle offset n ≡ ok (take n (drop offset d))
  unfolding txn_read_at
  txn_read_at-Written contents table handle l token slot g d offset n found state w le =
      let h1 : ltb (length d) offset ≡ false = ground arith in
      let h2 : ltb (length d - offset) n ≡ false = ground arith in
      rw
        (
          resolve-same contents table handle _ _ found state (live-same slot g (length d)),
          h1,
          h2,
          w.record_file,
        )
        (read_payload (record_header l slot g g (length d)) d w.record_tag offset n
          (length-record_header l slot g g (length d)) le)
