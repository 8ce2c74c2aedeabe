-- ===== src/Store/Txn/Atomic.antt =====
-- A write of an object that can be read leaves the old object or the new one.
use pico_all.Base.{
  ℕ, ◌+◌, ◌<◌, bit_xor, ◌≡◌, refl, sym, ap, subst, inl, inr, Bool, true, some, List, [], arith, ltb,
  ◌==◌, Bool-cases, length,
}
use pico_all.Bytes.{ok, err, ByteArray, null, bytes}
use pico_all.Store.Files.{FileSystem}
use pico_all.Store.Txn.Layout.{Authenticator, Layout, TxnState, layout_valid}
use pico_all.Store.Txn.Recover.{parse_commit, choose, recover}
use pico_all.Store.Txn.Write.{next_state, put_slot, txn_put}
use pico_all.Store.Txn.Record.{Fits}
use pico_all.Store.Txn.Commit.{live}
use pico_all.Store.Txn.Local.{parse_commit_slot}
use pico_all.Store.Txn.Apart.{choose_newer, choose_older, choose_one, first-Apart, second-Apart}
use pico_all.Store.Txn.Slot.{Steady, OldOrNew, put_slot-OldOrNew}

module _ (files : FileSystem) (auth : Authenticator) (calloc : ℕ → Bool) where
  put_second :
      (l : Layout) (d : List ℕ) (fs : files.Fs) (s : TxnState)
      → layout_valid files l ≡ true
      → Fits l
      → Steady s
      → s.generation < 4294967295
      → parse_commit auth (files.contents fs) l 0 ≡ ok s
      → OldOrNew files auth calloc fs l d s
          (live 1 (s.generation + 1) (length d))
          (put_slot files auth calloc fs l 1 (s.generation + 1) d)
  unfolding recover choose
  put_second l d fs s h fits st small e =
      put_slot-OldOrNew files auth calloc l 0 1 d fs s (second-Apart files l h)
        (λ contents p e0 e1. (
          λ q. rw (e0, e1, q),
          λ q. rw (e0, e1, q) (choose_newer s (live 1 (s.generation + 1) (length d)) (omega arith)),
        ))
        fits (omega arith) st small e

  put_first :
      (l : Layout) (d : List ℕ) (fs : files.Fs) (s : TxnState)
      → layout_valid files l ≡ true
      → Fits l
      → Steady s
      → s.generation < 4294967295
      → parse_commit auth (files.contents fs) l 1 ≡ ok s
      → OldOrNew files auth calloc fs l d s
          (live 0 (s.generation + 1) (length d))
          (put_slot files auth calloc fs l 0 (s.generation + 1) d)
  unfolding recover choose
  put_first l d fs s h fits st small e =
      put_slot-OldOrNew files auth calloc l 1 0 d fs s (first-Apart files l h)
        (λ contents p e1 e0. (
          λ q. rw (e0, e1, q),
          λ q. rw (e0, e1, q) (choose_older s (live 0 (s.generation + 1) (length d)) (omega arith)),
        ))
        fits (omega arith) st small e

  put_next :
      (l : Layout) (d : List ℕ) (fs : files.Fs) (s : TxnState)
      → layout_valid files l ≡ true
      → Fits l
      → Steady s
      → s.generation < 4294967295
      → recover auth (files.contents fs) l ≡ ok s
      → OldOrNew files auth calloc fs l d s
          (live (bit_xor s.commit_slot 1) (s.generation + 1) (length d))
          (put_slot files auth calloc fs l (bit_xor s.commit_slot 1) (s.generation + 1) d)
  unfolding recover
  put_next l d fs s h fits st small e = elim (choose_one _ _ s e) [
    | inl first ↦
        at 1 (ap (λ k. bit_xor k 1) (parse_commit_slot auth (files.contents fs) l 0 s first))
          (put_second l d fs s h fits st small first)
    | inr second ↦
        at 0 (ap (λ k. bit_xor k 1) (parse_commit_slot auth (files.contents fs) l 1 s second))
          (put_first l d fs s h fits st small second)
  ]
    where
      at :
          (t : ℕ)
          → bit_xor s.commit_slot 1 ≡ t
          → OldOrNew files auth calloc fs l d s
              (live t (s.generation + 1) (length d))
              (put_slot files auth calloc fs l t (s.generation + 1) d)
          → OldOrNew files auth calloc fs l d s
              (live (bit_xor s.commit_slot 1) (s.generation + 1) (length d))
              (put_slot files auth calloc fs l (bit_xor s.commit_slot 1) (s.generation + 1) d)
      at t p h' =
          subst
            (λ k.
              OldOrNew files auth calloc fs l d s (live k (s.generation + 1) (length d))
                (put_slot files auth calloc fs l k (s.generation + 1) d))
            (sym p) h'

-- The bytes of a payload.
abbrev pub payload : ByteArray → List ℕ
payload (null n) = []
payload (bytes d) = d

module _ (files : FileSystem) (auth : Authenticator) (calloc : ℕ → Bool) where
  put_choice :
      (l : Layout) (d : List ℕ) (fs : files.Fs) (s : TxnState)
      → layout_valid files l ≡ true
      → Fits l
      → Steady s
      → recover auth (files.contents fs) l ≡ ok s
      → OldOrNew files auth calloc fs l d s
          (live (bit_xor s.commit_slot 1) (s.generation + 1) (length d))
          (elim (next_state auth (files.contents fs) l) [
            | err c ↦ (fs, err c)
            | ok choice ↦ put_slot files auth calloc fs l choice.0 choice.1 d
          ])
  unfolding next_state
  put_choice l d fs s h fits st e = elim (Bool-cases (s.generation == 4294967295)) [
    | inl last ↦ rw (e, last) (inl (e, refl, refl))
    | inr more ↦
        let bound = st.width in
        let small : s.generation < 4294967295 = ground arith in
        rw (e, more) (put_next files auth calloc l d fs s h fits st small e)
  ]

  -- For an object whose recovered state s is one that the store writes, and for any file system
  -- that meets the laws of FileSystem: behind an error of file_object_txn_put the object still
  -- reads as s, with the two files of its slot as they were, or as the new state; behind a success
  -- it reads as the new state: the other slot, the next generation and the length of the data,
  -- where the slot holds the record of the data and its commit.
  pub txn_put-OldOrNew :
      (l : Layout) (data' : ByteArray) (fs : files.Fs) (s : TxnState)
      → Fits l
      → Steady s
      → recover auth (files.contents fs) l ≡ ok s
      → OldOrNew files auth calloc fs l
          (payload data')
          s
          (live (bit_xor s.commit_slot 1) (s.generation + 1) (length (payload data')))
          (txn_put files calloc fs l (some auth) data')
  unfolding txn_put
  txn_put-OldOrNew l (null n) fs s fits st e = elim (Bool-cases (layout_valid files l)) [
    | inr bad ↦ rw bad (inl (e, refl, refl))
    | inl good ↦ elim (Bool-cases (ltb 0 n)) [
      | inl claims ↦ rw (good, claims) (inl (e, refl, refl))
      | inr nothing ↦ rw (good, nothing) (put_choice l [] fs s good fits st e)
    ]
  ]
  txn_put-OldOrNew l (bytes d) fs s fits st e = elim (Bool-cases (layout_valid files l)) [
    | inr bad ↦ rw bad (inl (e, refl, refl))
    | inl good ↦ elim (Bool-cases (ltb 4294967295 (length d))) [
      | inl long ↦ rw (good, long) (inl (e, refl, refl))
      | inr short ↦ rw (good, short) (put_choice l d fs s good fits st e)
    ]
  ]
