-- ===== src/Container/RecordId/Reading.antt =====
-- What reading the counter of record identifiers gives.
use pico_all.Store.Txn.Opened.{Opened, open_entry-Opened}
use pico_all.Store.Txn.Handles.{
  HandleEntry, find_handle, close_entry, txn_close, txn_get_info-live, txn_read_at-Written,
}
use pico_all.Store.Txn.Open.{Handles, allocate_token, place_entry, open_entry, txn_open, HandlesFit}
use pico_all.Results.{bind_ok, refuse_ok, ok_injective, uint64_round}
use pico_all.Base.{
  ℕ, suc, ◌+◌, ◌<◌, ◌≡◌, refl, sym, ap, ◌∙◌, subst, ◌≢◌, inl, inr, false, ◌||◌, Option, none, some,
  List, [], ◌∷◌, arith, ◌==◌, Bool-cases, length,
}
use pico_all.Bytes.{
  Code, err_no_memory, wrong_data, Result, ok, err, get_uint64_be, ◌>>=◌, same_bytes,
}
use pico_all.Store.Files.{FileSystem}
use pico_all.Store.Txn.Layout.{Authenticator, Layout, TxnState, layout_valid}
use pico_all.Store.Txn.Commit.{live}
use pico_all.Store.Txn.Steps.{Post, Post-result}
use pico_all.Container.RecordId.{
  record_id_state, record_id_state_valid, following_id, read_next_id, read_and_close, behind_open,
}
use pico_all.Container.RecordId.Counts.{Counts}

read_next_id-Counts :
    (auth : Authenticator) (contents : ℕ → List ℕ) (l : Layout) (id : ℕ) (table : List HandleEntry)
    (handle token : ℕ) (c : Counts auth contents l id)
    → find_handle table handle
      ≡ some (record { layout = l; state = live c.slot c.generation 16; token = token })
    → read_next_id auth contents table handle ≡ following_id (record_id_state id)
unfolding read_next_id record_id_state_valid same_bytes
read_next_id-Counts auth contents l id table handle token c found =
    rw
      (
        txn_get_info-live auth contents table handle l token c.slot c.generation 16 found c.state,
        txn_read_at-Written auth contents table handle l token c.slot c.generation
            (record_id_state id) 0 16 found c.state c.written (omega arith),
      )
      refl

following_id-record_id_state :
    (id n : ℕ)
    → id < 18446744073709551616
    → following_id (record_id_state id) ≡ ok n
    → (n ≡ id + 1) × (n < 18446744073709551616)
unfolding following_id
following_id-record_id_state id n h e =
    let round : get_uint64_be (record_id_state id) 8 ≡ id = uint64_round id h in
    let (in_range, next) =
      refuse_ok (id == 0 || id == 18446744073709551615) wrong_data (ok (id + 1)) n
        (rw (round, following_id) at e) in
    let same : id + 1 ≡ n = ok_injective (id + 1) n next in
    let last : (id == 18446744073709551615) ≡ false = ground (arith, in_range) in
    let below : id ≢ 18446744073709551615 = ground (arith, last) in
    (sym same, omega (arith, same, below))

length-close_entry :
    (table : List HandleEntry) (handle : ℕ) → length (close_entry table handle) ≡ length table
length-close_entry [] handle = refl
length-close_entry (e ∷ es) handle = elim (Bool-cases (e.token == handle)) [
  | inl same ↦ rw same refl
  | inr other ↦ rw other (ap suc (length-close_entry es handle))
]

txn_close-length :
    (table : List HandleEntry) (handle : ℕ) → length (txn_close table handle).0 ≡ length table
unfolding txn_close
txn_close-length table handle = by_entry (find_handle table handle) refl
  where
    by_entry :
        (r : Option HandleEntry)
        → find_handle table handle ≡ r
        → length (txn_close table handle).0 ≡ length table
    by_entry none e = rw (e, txn_close) refl
    by_entry (some entry) e = rw (e, txn_close) (length-close_entry table handle)

open_entry_no_memory :
    (h h' : Handles) (l : Layout) (s : TxnState) (c : Code)
    → open_entry h l s ≡ (h', err c)
    → c ≡ err_no_memory
unfolding open_entry
open_entry_no_memory h h' l s c e = by_place (place_entry _ h.table) refl
  where
    entry : HandleEntry
    entry = record { layout = l; state = s; token = (allocate_token h).0 }

    by_place : (r : Option (List HandleEntry)) → place_entry entry h.table ≡ r → c ≡ err_no_memory
    by_place none full =
        ground (arith, ap (λ (o : Handles × Result ℕ). o.1) (rw (full, open_entry) at e))
    by_place (some table) placed =
        ground (arith, ap (λ (o : Handles × Result ℕ). o.1) (rw (placed, open_entry) at e))

module _ (files : FileSystem) (auth : Authenticator) (l : Layout) where
  -- The identifier that is found behind the last one.
  abbrev pub Next : ℕ → Handles → ℕ → Type 0
  Next id h n = HandlesFit h × (n ≡ id + 1) × (n < 18446744073709551616)

  read_and_close-Counts :
      (contents : ℕ → List ℕ) (id : ℕ) (h : Handles) (handle : ℕ) (c : Counts auth contents l id)
      → id < 18446744073709551616
      → HandlesFit h
      → find_handle h.table handle
        ≡ some (record { layout = l; state = live c.slot c.generation 16; token = handle })
      → Post HandlesFit (Next id) (read_and_close auth contents h handle)
  unfolding read_and_close
  read_and_close-Counts contents id h handle c small fits found =
      Post-result HandlesFit (Next id) (read_and_close auth contents h handle) (λ _ _. closed)
        λ n e.
          let (v, read, rest) =
            bind_ok (read_next_id auth contents h.table handle)
              (λ next_id. (txn_close h.table handle).1 >>= λ _. ok next_id) n e in
          let (_, _, last) = bind_ok (txn_close h.table handle).1 (λ _. ok v) n rest in
          let same : v ≡ n = ok_injective v n last in
          let (next, bound) =
            following_id-record_id_state id v small
              (sym (read_next_id-Counts auth contents l id h.table handle handle c found) ∙ read) in
          (closed, sym same ∙ next, subst (λ k. k < 18446744073709551616) same bound)
    where
      closed : HandlesFit (record h { table = (txn_close h.table handle).0 })
      closed = record {
        table_size = txn_close-length h.table handle ∙ fits.table_size;
        next_width = fits.next_width;
      }

  pub behind_open-Counts :
      (contents : ℕ → List ℕ) (id : ℕ) (h : Handles)
      → id < 18446744073709551616
      → HandlesFit h
      → Counts auth contents l id
      → Post HandlesFit
          (Next id)
          (behind_open auth contents (txn_open files contents h l (some auth)))
  unfolding txn_open behind_open
  behind_open-Counts contents id h small fits c = elim (Bool-cases (layout_valid files l)) [
    | inl good ↦
        rw (c.state, good, txn_open) (opened (open_entry h l s) refl (open_entry-Opened h l s fits))
    | inr bad ↦ rw (bad, txn_open) fits
  ]
    where
      s : TxnState
      s = live c.slot c.generation 16

      opened :
          (out : Handles × Result ℕ)
          → open_entry h l s ≡ out
          → Post (λ h'. h' ≡ h) (Opened h l s) out
          → Post HandlesFit (Next id) (behind_open auth contents out)
      opened (h', ok token) e o = read_and_close-Counts contents id h' token c small o.fits o.found
      opened (h', err code) e same =
          rw (open_entry_no_memory h h' l s code e) (subst HandlesFit (sym same) fits)
