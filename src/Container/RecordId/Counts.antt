-- ===== src/Container/RecordId/Counts.antt =====
-- What a write of the counter of record identifiers leaves.
use pico_all.Base.{ℕ, ◌+◌, ◌<◌, bit_xor, ◌≡◌, refl, ◌∙◌, ◌⊎◌, inl, inr, Bool, some, List}
use pico_all.Bytes.{ok, bytes}
use pico_all.Store.Files.{FileSystem}
use pico_all.Store.Txn.Layout.{Authenticator, Layout, record_fid, commit_fid, TxnState}
use pico_all.Store.Txn.Recover.{recover}
use pico_all.Store.Txn.Record.{Fits}
use pico_all.Store.Txn.Commit.{Written, live}
use pico_all.Store.Txn.Steps.{Post, Post-then_step, Post-weaken, Post-frame}
use pico_all.Store.Txn.Slot.{IsNew, IsOld}
use pico_all.Store.Txn.Atomic.{txn_put-OldOrNew}
use pico_all.Store.Txn.Write.{txn_put}
use pico_all.Container.RecordId.{record_id_state, put_record_id}

-- The object has this identifier as the last one.
pub record Counts (auth : Authenticator) (contents : ℕ → List ℕ) (l : Layout) (id : ℕ)
    : Type 0 where
  pub slot : ℕ
  pub generation : ℕ
  pub bound : generation < 4294967296
  pub state : recover auth contents l ≡ ok (live slot generation 16)
  pub written : Written auth contents l slot generation (record_id_state id)

-- What is written depends on the two files of its slot.
Written-same :
    (auth : Authenticator) (contents contents' : ℕ → List ℕ) (l : Layout) (slot g : ℕ) (d : List ℕ)
    → contents' (record_fid l slot) ≡ contents (record_fid l slot)
    → contents' (commit_fid l slot) ≡ contents (commit_fid l slot)
    → Written auth contents l slot g d
    → Written auth contents' l slot g d
Written-same auth contents contents' l slot g d r c w = record {
  record_tag = w.record_tag;
  commit_tag = w.commit_tag;
  record_file = r ∙ w.record_file;
  commit_file = c ∙ w.commit_file;
  record_code = w.record_code;
  commit_code = w.commit_code;
  payload_bound = w.payload_bound;
}

module _ (files : FileSystem) (auth : Authenticator) (calloc : ℕ → Bool) (l : Layout)
    (fits : Fits l) where
  abbrev CountsAt : ℕ → files.Fs → Type 0
  CountsAt id fs = Counts auth (files.contents fs) l id

  -- A write of an identifier leaves the old one behind an error, or gives the new one.
  txn_put-Counts :
      (fs : files.Fs) (id next_id : ℕ)
      → CountsAt id fs
      → Post
          (λ fs'. CountsAt id fs' ⊎ CountsAt next_id fs')
          (λ fs' _. CountsAt next_id fs')
          (txn_put files calloc fs l (some auth) (bytes (record_id_state next_id)))
  txn_put-Counts fs id next_id c =
      Post-frame (λ _. Unit {0})
        (λ fs'.
          IsOld files auth calloc fs l s fs'
          ⊎ IsNew files auth calloc l (record_id_state next_id) new fs')
        (λ fs' _. IsNew files auth calloc l (record_id_state next_id) new fs')
        (λ fs'. CountsAt id fs' ⊎ CountsAt next_id fs') (λ fs' _. CountsAt next_id fs')
        (txn_put files calloc fs l (some auth) (bytes (record_id_state next_id))) tt
        (txn_put-OldOrNew files auth calloc l (bytes (record_id_state next_id)) fs s fits
          (record { own_slot = inr refl; width = c.bound }) c.state)
        (λ fs' _. either fs') (λ fs' _ _. after fs')
    where
      s : TxnState
      s = live c.slot c.generation 16

      new : TxnState
      new = live (bit_xor c.slot 1) (c.generation + 1) 16

      after :
          (fs' : files.Fs)
          → IsNew files auth calloc l (record_id_state next_id) new fs'
          → CountsAt next_id fs'
      after fs' (state, written, bound) = record {
        slot = bit_xor c.slot 1;
        generation = c.generation + 1;
        bound = bound;
        state = state;
        written = written;
      }

      either :
          (fs' : files.Fs)
          → IsOld files auth calloc fs l s fs'
            ⊎ IsNew files auth calloc l (record_id_state next_id) new fs'
          → CountsAt id fs' ⊎ CountsAt next_id fs'
      either fs' (inr h) = inr (after fs' h)
      either fs' (inl (state, r, m)) = inl (record {
        slot = c.slot;
        generation = c.generation;
        bound = c.bound;
        state = state;
        written = Written-same auth _ _ l c.slot c.generation (record_id_state id) r m c.written;
      })

  pub put_record_id-Counts :
      (fs : files.Fs) (id next_id : ℕ)
      → CountsAt id fs
      → Post
          (λ fs'. CountsAt id fs' ⊎ CountsAt next_id fs')
          (λ fs' n. (n ≡ next_id) × CountsAt next_id fs')
          (put_record_id files auth calloc fs l next_id)
  unfolding put_record_id
  put_record_id-Counts fs id next_id c =
      Post-then_step (λ fs'. CountsAt id fs' ⊎ CountsAt next_id fs') (λ fs' _. CountsAt next_id fs')
        (λ fs' n. (n ≡ next_id) × CountsAt next_id fs')
        (txn_put files calloc fs l (some auth) (bytes (record_id_state next_id))) _
        (txn_put-Counts fs id next_id c)
        λ fs1 _ c1.
          Post-then_step (λ fs'. CountsAt id fs' ⊎ CountsAt next_id fs')
            (λ fs' _. CountsAt next_id fs') (λ fs' n. (n ≡ next_id) × CountsAt next_id fs')
            (txn_put files calloc fs1 l (some auth) (bytes (record_id_state next_id))) _
            (Post-weaken (λ fs'. CountsAt next_id fs' ⊎ CountsAt next_id fs')
              (λ fs'. CountsAt id fs' ⊎ CountsAt next_id fs') (λ fs' _. CountsAt next_id fs')
              (txn_put files calloc fs1 l (some auth) (bytes (record_id_state next_id)))
              (λ _. same_either) (txn_put-Counts fs1 next_id next_id c1))
            λ fs2 _ c2. (refl, c2)
    where
      same_either : {A B : Type 0} → B ⊎ B → A ⊎ B
      same_either (inl b) = inr b
      same_either (inr b) = inr b
