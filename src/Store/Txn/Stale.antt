-- ===== src/Store/Txn/Stale.antt =====
-- A handle does not outlive a write of its object.
use pico_all.Base.{
  ℕ, ◌+◌, bit_xor, ◌≡◌, refl, ap, ◌∙◌, ◌⊎◌, Bool, true, false, not, ◌&&◌, some, List, arith, ◌==◌,
  length,
}
use pico_all.Bytes.{err_stale_handle, ok, err, ByteArray}
use pico_all.Store.Files.{FileSystem}
use pico_all.Store.Txn.Layout.{Authenticator, Layout, TxnState}
use pico_all.Store.Txn.Recover.{recover}
use pico_all.Store.Txn.Write.{txn_put}
use pico_all.Store.Txn.Record.{Fits}
use pico_all.Store.Txn.Commit.{live}
use pico_all.Store.Txn.Steps.{Post, Post-frame}
use pico_all.Store.Txn.Slot.{Steady, IsNew, IsOld}
use pico_all.Store.Txn.Atomic.{payload, txn_put-OldOrNew}
use pico_all.Store.Txn.Handles.{
  HandleEntry, find_handle, same_object, resolve, txn_get_info, txn_read_at, resolve-stale,
}

and_fails : (b : Bool) → (b && false) ≡ false
and_fails true = refl
and_fails false = refl

newer-differs : (new s : TxnState) → new.generation ≡ s.generation + 1 → same_object new s ≡ false
unfolding same_object
newer-differs new s e =
    let differs : (new.generation == s.generation) ≡ false = ground arith in
    ap
      (λ b.
        b
        && new.record_id == s.record_id
        && new.record_slot == s.record_slot
        && new.payload_size == s.payload_size)
      (ap (λ b. not new.deleted && b) differs ∙ and_fails (not new.deleted))

-- The calls that read through the handle report that it is stale.
abbrev pub IsStale : Authenticator → (ℕ → List ℕ) → List HandleEntry → ℕ → Type 0
IsStale auth contents table handle =
    (txn_get_info auth contents table handle ≡ err err_stale_handle)
    × ((offset n : ℕ) → txn_read_at auth contents table handle offset n ≡ err err_stale_handle)

module _ (files : FileSystem) (auth : Authenticator) (calloc : ℕ → Bool) where
  -- For an object whose recovered state s is one that the store writes, and a handle with the state
  -- s: behind a success of file_object_txn_put the handle is stale for the calls that read through
  -- it.
  pub txn_put-IsStale :
      (l : Layout) (data' : ByteArray) (fs : files.Fs) (s : TxnState) (table : List HandleEntry)
      (handle token : ℕ)
      → Fits l
      → Steady s
      → recover auth (files.contents fs) l ≡ ok s
      → find_handle table handle ≡ some (record { layout = l; state = s; token = token })
      → Post
          (λ _. Unit {0})
          (λ fs' _. IsStale auth (files.contents fs') table handle)
          (txn_put files calloc fs l (some auth) data')
  unfolding txn_get_info txn_read_at
  txn_put-IsStale l data' fs s table handle token fits st e found =
      Post-frame (λ _. Unit {0})
        (λ fs'.
          IsOld files auth calloc fs l s fs' ⊎ IsNew files auth calloc l (payload data') new fs')
        (λ fs' _. IsNew files auth calloc l (payload data') new fs') (λ _. Unit {0})
        (λ fs' _. IsStale auth (files.contents fs') table handle)
        (txn_put files calloc fs l (some auth) data') tt
        (txn_put-OldOrNew files auth calloc l data' fs s fits st e) (λ fs' _ _. tt)
        (λ fs' _ _ h. (
          rw (unresolved (files.contents fs') h.0),
          λ offset n. rw (unresolved (files.contents fs') h.0),
        ))
    where
      new : TxnState
      new = live (bit_xor s.commit_slot 1) (s.generation + 1) (length (payload data'))

      unresolved :
          (contents : ℕ → List ℕ)
          → recover auth contents l ≡ ok new
          → resolve auth contents table handle ≡ err err_stale_handle
      unresolved contents h =
          resolve-stale auth contents table handle _ new found h (newer-differs new s refl)
