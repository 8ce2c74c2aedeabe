-- ===== src/Store/Txn/Opened.antt =====
-- What `file_object_txn_open` does to the handles, and reading through the handle that it returns.
use pico_all.Store.Txn.Recover.{recover}
use pico_all.Store.Txn.Commit.{Written, live}
use pico_all.Results.{ok_injective}
use pico_all.Store.Txn.Write.{txn_put}
use pico_all.Store.Txn.Record.{Fits}
use pico_all.Store.Txn.Atomic.{payload, txn_put-OldOrNew}
use pico_all.Store.Txn.Slot.{Steady, IsNew, IsOld}
use pico_all.Store.Files.{FileSystem}
use pico_all.Bytes.{IsU32, err_file_not_found, Result, ok, err, ByteArray}
use pico_all.Base.{
  ℕ, zero, suc, ◌+◌, ◌%◌, ◌≤◌, ◌<◌, bit_xor, ◌≡◌, refl, sym, ◌∙◌, subst, ◌≢◌, ◌⊎◌, inl, inr, Bool,
  false, none, some, List, arith, ◌==◌, if◌then◌else◌, Bool-cases, Option-cases, length, take, drop,
}
use pico_all.Store.Tokens.{allocate_loop, IsFresh}
use pico_all.Store.Txn.Layout.{Authenticator, Layout, TxnState, layout_valid}
use pico_all.Store.Txn.Steps.{Post, Post-ok, Post-if, Post-frame}
use pico_all.Store.Txn.Handles.{
  HandleEntry, find_entry, find_handle, txn_read_at, txn_read_at-Written,
}
use pico_all.Store.Txn.Open.{
  Handles, handle_in_use, allocate_token, place_entry, open_entry, txn_open, HandlesFit,
  allocate_token-IsFresh, place_entry-Placed,
}

-- A new handle: it was not in use, its entry is the object, and the other handles are as they were.
pub record Opened (h : Handles) (l : Layout) (s : TxnState) (h' : Handles) (token : ℕ)
    : Type 0 where
  pub fits : HandlesFit h'
  pub fresh : IsFresh (handle_in_use h.table) token
  pub found : find_handle h'.table token ≡ some (record { layout = l; state = s; token = token })
  pub others : (n : ℕ) → n ≢ token → find_handle h'.table n ≡ find_handle h.table n

not_in_use :
    (table : List HandleEntry) (n : ℕ)
    → n ≢ 0
    → handle_in_use table n ≡ false
    → find_entry table n ≡ none
unfolding handle_in_use find_handle
not_in_use table n ne h = elim (Option-cases (find_entry table n)) [
  | inl missing ↦ missing
  | inr (e, there) ↦
      let nonzero : (n == 0) ≡ false = ground arith in
      ground (arith, rw (handle_in_use, find_handle, nonzero, there) at h)
]

find_entry-find_handle :
    (table : List HandleEntry) (n : ℕ) → n ≢ 0 → find_handle table n ≡ find_entry table n
unfolding find_handle
find_entry-find_handle table n ne = ground arith

find_handle_same :
    (table table' : List HandleEntry) (token : ℕ)
    → ((n : ℕ) → n ≢ token → n ≢ 0 → find_entry table' n ≡ find_entry table n)
    → (n : ℕ) → n ≢ token
    → find_handle table' n ≡ find_handle table n
unfolding find_handle
find_handle_same table table' token h n ne = elim (Bool-cases (n == 0)) [
  | inl nothing ↦ rw nothing refl
  | inr other ↦ rw other (h n ne (ground arith))
]

allocate_loop-next :
    (in_use : ℕ → Bool) (rounds next : ℕ)
    → next < 4294967296
    → (allocate_loop in_use rounds next).1 < 4294967296
unfolding allocate_loop
allocate_loop-next in_use zero next h = h
allocate_loop-next in_use (suc rounds) next h =
    ground (arith, allocate_loop-next in_use rounds ((next + 1) % 4294967296))

next_fits : (h : Handles) → HandlesFit h → IsU32 (allocate_token h).1
unfolding allocate_token
next_fits h fits =
    allocate_loop-next (handle_in_use h.table) (length h.table + 2) h.next fits.next_width

pub open_entry-Opened :
    (h : Handles) (l : Layout) (s : TxnState)
    → HandlesFit h
    → Post (λ h'. h' ≡ h) (λ h' token. Opened h l s h' token) (open_entry h l s)
unfolding open_entry
open_entry-Opened h l s fits = elim (Option-cases (place_entry entry h.table)) [
  | inl full ↦ rw (full, open_entry) refl
  | inr (table', placed) ↦
      let fresh = allocate_token-IsFresh h fits in
      let (size, found, kept) =
        place_entry-Placed entry h.table table' (not_in_use h.table entry.token fresh.0 fresh.2)
          placed in
      rw (placed, open_entry)
        (record {
          fits = record { table_size = size ∙ fits.table_size; next_width = next_fits h fits };
          fresh = fresh;
          found = find_entry-find_handle table' entry.token fresh.0 ∙ found;
          others = find_handle_same h.table table' entry.token kept;
        })
]
  where
    entry : HandleEntry
    entry = record { layout = l; state = s; token = (allocate_token h).0 }

-- What a successful opening gives.
abbrev pub OpenedIn : (ℕ → List ℕ) → Authenticator → Handles → Layout → Handles → ℕ → Type 0
OpenedIn contents auth h l h' token =
    (s : TxnState) × (recover auth contents l ≡ ok s) × (s.deleted ≡ false) × Opened h l s h' token

module _ (files : FileSystem) where
  -- For a table of four entries and a counter in range: an error of file_object_txn_open leaves the
  -- handles as they were. Behind a success the object is recovered and not deleted; the token was
  -- not in use; its entry is the object with its state; every other handle is as it was; and the
  -- table and the counter are in range again.
  pub txn_open-Opened :
      (contents : ℕ → List ℕ) (h : Handles) (l : Layout) (auth : Authenticator)
      → HandlesFit h
      → Post
          (λ h'. h' ≡ h)
          (λ h' token. OpenedIn contents auth h l h' token)
          (txn_open files contents h l (some auth))
  unfolding txn_open
  txn_open-Opened contents h l auth fits = elim (Bool-cases (layout_valid files l)) [
    | inr bad ↦ rw (bad, txn_open) refl
    | inl good ↦ rw (good, txn_open) (recovered_to (recover auth contents l) refl)
  ]
    where
      recovered_to :
          (r : Result TxnState)
          → recover auth contents l ≡ r
          → Post
              (λ h'. h' ≡ h)
              (OpenedIn contents auth h l)
              (elim r as (λ _. Handles × Result ℕ) [
                | err c ↦ (h, err c)
                | ok s ↦ if s.deleted then (h, err err_file_not_found) else open_entry h l s
              ])
      recovered_to (err c) e = refl
      recovered_to (ok s) e =
          Post-if (λ h'. h' ≡ h) (OpenedIn contents auth h l) s.deleted (h, err err_file_not_found)
            (open_entry h l s) (λ _. refl)
            (λ alive.
              Post-frame (λ _. Unit {0}) (λ h'. h' ≡ h) (Opened h l s) (λ h'. h' ≡ h)
                (OpenedIn contents auth h l) (open_entry h l s) tt (open_entry-Opened h l s fits)
                (λ _ _ same. same) (λ _ _ _ o. (s, e, alive, o)))

  -- For a table of four entries and a counter in range, and an object that a slot holds and that is
  -- recovered from it: the handle that file_object_txn_open returns reads every part of the data.
  pub txn_open-readable :
      (contents : ℕ → List ℕ) (h h' : Handles) (l : Layout) (auth : Authenticator)
      (token slot g : ℕ) (d : List ℕ) (offset n : ℕ)
      → HandlesFit h
      → recover auth contents l ≡ ok (live slot g (length d))
      → Written auth contents l slot g d
      → txn_open files contents h l (some auth) ≡ (h', ok token)
      → offset + n ≤ length d
      → txn_read_at auth contents h'.table token offset n ≡ ok (take n (drop offset d))
  txn_open-readable contents h h' l auth token slot g d offset n fits state w e le =
      let (s, recovered, _, opened) =
        Post-ok (λ h'. h' ≡ h) (OpenedIn contents auth h l)
          (txn_open files contents h l (some auth)) h' token e
          (txn_open-Opened contents h l auth fits) in
      txn_read_at-Written auth contents h'.table token l token slot g d offset n
        (subst
          (λ t. find_handle h'.table token ≡ some (record { layout = l; state = t; token = token }))
          (ok_injective s (live slot g (length d)) (sym recovered ∙ state)) opened.found)
        state w le

  -- For an object whose recovered state s is one that the store writes, a table of four entries and
  -- a counter in range: when file_object_txn_put succeeds and file_object_txn_open then gives a
  -- handle, file_object_txn_read_at through it reads every part of the data that was put.
  pub txn_put-txn_read_at :
      (calloc : ℕ → Bool) (auth : Authenticator) (l : Layout) (data' : ByteArray)
      (fs fs' : files.Fs) (s : TxnState) (h h' : Handles) (token offset n : ℕ)
      → Fits l
      → Steady s
      → HandlesFit h
      → recover auth (files.contents fs) l ≡ ok s
      → txn_put files calloc fs l (some auth) data' ≡ (fs', ok tt)
      → txn_open files (files.contents fs') h l (some auth) ≡ (h', ok token)
      → offset + n ≤ length (payload data')
      → txn_read_at auth (files.contents fs') h'.table token offset n
        ≡ ok (take n (drop offset (payload data')))
  txn_put-txn_read_at calloc auth l data' fs fs' s h h' token offset n fits st hf e put opened le =
      let (state, w, _) =
        Post-ok
          (λ fs1.
            IsOld files auth calloc fs l s fs1
            ⊎ IsNew files auth calloc l (payload data')
                (live (bit_xor s.commit_slot 1) (s.generation + 1) (length (payload data'))) fs1)
          (λ fs1 _.
            IsNew files auth calloc l (payload data')
              (live (bit_xor s.commit_slot 1) (s.generation + 1) (length (payload data'))) fs1)
          (txn_put files calloc fs l (some auth) data') fs' tt put
          (txn_put-OldOrNew files auth calloc l data' fs s fits st e) in
      txn_open-readable (files.contents fs') h h' l auth token (bit_xor s.commit_slot 1)
        (s.generation + 1) (payload data') offset n hf state w opened le
