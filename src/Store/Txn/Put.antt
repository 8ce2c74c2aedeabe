-- ===== src/Store/Txn/Put.antt =====
-- What a write leaves in the files: on every path the slot that is written to has no commit, or the
-- record and the commit of the new data; of the files in no table, no other changes.
use pico_all.Results.{Result-cases}
use pico_all.Base.{
  ℕ, ◌+◌, ◌≤◌, ◌≡◌, sym, ◌∙◌, ◌≢◌, ◌⊎◌, inl, inr, Bool, false, List, [], ◌++◌, arith, ltb,
  Bool-cases, length,
}
use pico_all.Bytes.{Result, ok}
use pico_all.Store.Files.{FileSystem}
use pico_all.Store.Txn.Layout.{
  Authenticator, Layout, record_fid, commit_fid, record_header, commit_header,
}
use pico_all.Store.Txn.Recover.{auth_buffer}
use pico_all.Store.Txn.Write.{
  then_step, remove_file, replace_file, sync, store_record, write_record, store_commit,
  write_commit, put_slot,
}
use pico_all.Store.Txn.Commit.{Written}
use pico_all.Store.Txn.Steps.{
  Post, Post-then_step, Post-any, Post-weaken, Post-frame, remove_file-other, remove_file-empties,
  sync-keeps, replace_file-other, replace_file-Post,
}

-- The two files of a slot differ, and neither is static.
pub record SlotFids (files : FileSystem) (l : Layout) (target : ℕ) : Type 0 where
  pub different : record_fid l target ≢ commit_fid l target
  pub record_dynamic : files.is_static (record_fid l target) ≡ false
  pub commit_dynamic : files.is_static (commit_fid l target) ≡ false

module _ (files : FileSystem) (auth : Authenticator) (calloc : ℕ → Bool) (l : Layout) (target g : ℕ)
    (d : List ℕ) (start : files.Fs) where
  -- No file that is in no table has changed but the two of the slot.
  unfoldable pub Frame : files.Fs → Type 0
  Frame fs =
      (f : ℕ)
      → files.is_static f ≡ false
      → f ≢ commit_fid l target
      → f ≢ record_fid l target
      → files.contents fs f ≡ files.contents start f

  unfoldable pub Uncommitted : files.Fs → Type 0
  Uncommitted fs = Frame fs × (files.contents fs (commit_fid l target) ≡ [])

  unfoldable pub Committed : files.Fs → Type 0
  Committed fs = Frame fs × Written auth (files.contents fs) l target g d

  record Recorded (fs : files.Fs) (tag : List ℕ) : Type 0 where
    uncommitted : Uncommitted fs
    recorded :
        files.contents fs (record_fid l target)
        ≡ record_header l target g g (length d) ++ (d ++ tag)
    code : auth_buffer auth (record_header l target g g (length d)) d ≡ ok tag
    bound : length d ≤ 4294967247

  record_keeps :
      (fs fs' : files.Fs)
      → Uncommitted fs
      → ((f : ℕ)
          → files.is_static f ≡ false
          → f ≢ record_fid l target
          → files.contents fs' f ≡ files.contents fs f)
      → SlotFids files l target
      → Uncommitted fs'
  unfolding Uncommitted Frame
  record_keeps fs fs' u same k = (
    λ f s c r. same f s r ∙ u.0 f s c r,
    same (commit_fid l target) k.commit_dynamic (λ e. k.different (sym e)) ∙ u.1,
  )

  store_record-Post :
      (fs : files.Fs) (tag : List ℕ)
      → Uncommitted fs
      → SlotFids files l target
      → auth_buffer auth (record_header l target g g (length d)) d ≡ ok tag
      → length d ≤ 4294967247
      → Post Uncommitted Recorded (
          store_record files auth calloc fs
            (record_fid l target)
            (record_header l target g g (length d))
            d
            (ok tag))
  unfolding store_record
  store_record-Post fs tag u k e le =
      Post-then_step Uncommitted (λ fs' _. Recorded fs' tag) Recorded
        (replace_file files fs (record_fid l target) file) (λ fs' _. (fs', ok tag))
        (Post-frame Uncommitted (λ fs'. files.contents fs' (record_fid l target) ≡ [])
          (λ fs' _. files.contents fs' (record_fid l target) ≡ file) Uncommitted
          (λ fs' _. Recorded fs' tag) (replace_file files fs (record_fid l target) file)
          (record_keeps fs _ u
            (λ f s ne. replace_file-other files fs (record_fid l target) f file s ne) k)
          (replace_file-Post files fs (record_fid l target) file k.record_dynamic) (λ fs' a h. a)
          (λ fs' v a h. record { uncommitted = a; recorded = h; code = e; bound = le }))
        (λ fs' _ h. h)
    where
      file : List ℕ
      file = record_header l target g g (length d) ++ (d ++ tag)

  write_record-Post :
      (fs : files.Fs)
      → Uncommitted fs
      → SlotFids files l target
      → Post Uncommitted Recorded (write_record files auth calloc fs l target g g d)
  unfolding write_record store_record
  write_record-Post fs u k = elim (Bool-cases (ltb 4294967247 (length d))) [
    | inl long ↦ rw long u
    | inr fits ↦ elim (Bool-cases (calloc (32 + length d + 16))) [
      | inr full ↦ rw (fits, full) u
      | inl room ↦
          elim (Result-cases (auth_buffer auth (record_header l target g g (length d)) d)) [
            | inl (c, e) ↦ rw (fits, room, e) u
            | inr (tag, e) ↦ rw (fits, room, e) (store_record-Post fs tag u k e (ground arith))
          ]
    ]
  ]

  start_keeps :
      (fs fs' : files.Fs)
      → Frame fs
      → ((f : ℕ)
          → files.is_static f ≡ false
          → f ≢ commit_fid l target
          → files.contents fs' f ≡ files.contents fs f)
      → Frame fs'
  unfolding Frame
  start_keeps fs fs' u same f s c r = same f s c ∙ u f s c r

  write_commit-Post :
      (fs : files.Fs) (tag : List ℕ)
      → Recorded fs tag
      → SlotFids files l target
      → Post Uncommitted
          (λ fs' _. Committed fs')
          (write_commit files auth fs l target target g g (length d) tag false)
  unfolding write_commit store_commit Uncommitted Committed
  write_commit-Post fs tag h k =
      elim (Result-cases
        (auth_buffer auth (commit_header l target target g g (length d) tag false) [])) [
          | inl (c, e) ↦ rw e h.uncommitted
          | inr (code, e) ↦ rw e (store code e)
        ]
    where
      file : List ℕ → List ℕ
      file code = commit_header l target target g g (length d) tag false ++ code

      Others : files.Fs → Type 0
      Others fs' =
          (f : ℕ)
          → files.is_static f ≡ false
          → f ≢ commit_fid l target
          → files.contents fs' f ≡ files.contents fs f

      store :
          (code : List ℕ)
          → auth_buffer auth (commit_header l target target g g (length d) tag false) [] ≡ ok code
          → Post Uncommitted
              (λ fs' _. Committed fs')
              (replace_file files fs (commit_fid l target) (file code))
      store code e =
          Post-frame Others (λ fs'. files.contents fs' (commit_fid l target) ≡ [])
            (λ fs' _. files.contents fs' (commit_fid l target) ≡ file code) Uncommitted
            (λ fs' _. Committed fs') (replace_file files fs (commit_fid l target) (file code))
            (λ f s ne. replace_file-other files fs (commit_fid l target) f (file code) s ne)
            (replace_file-Post files fs (commit_fid l target) (file code) k.commit_dynamic)
            (λ fs' o b. (start_keeps fs fs' h.uncommitted.0 o, b))
            (λ fs' v o b. (
              start_keeps fs fs' h.uncommitted.0 o,
              record {
                record_tag = tag;
                commit_tag = code;
                record_file = o (record_fid l target) k.record_dynamic k.different ∙ h.recorded;
                commit_file = b;
                record_code = h.code;
                commit_code = e;
                payload_bound = h.bound;
              },
            ))

  Committed-same :
      (fs fs' : files.Fs)
      → ((f : ℕ) → files.contents fs' f ≡ files.contents fs f)
      → Committed fs
      → Committed fs'
  unfolding Committed Frame
  Committed-same fs fs' same (frame, w) = (
    λ f s c r. same f ∙ frame f s c r,
    record {
      record_tag = w.record_tag;
      commit_tag = w.commit_tag;
      record_file = same (record_fid l target) ∙ w.record_file;
      commit_file = same (commit_fid l target) ∙ w.commit_file;
      record_code = w.record_code;
      commit_code = w.commit_code;
      payload_bound = w.payload_bound;
    },
  )

  Uncommitted-same :
      (fs fs' : files.Fs)
      → ((f : ℕ) → files.contents fs' f ≡ files.contents fs f)
      → Uncommitted fs
      → Uncommitted fs'
  unfolding Uncommitted Frame
  Uncommitted-same fs fs' same (frame, u) =
      (λ f s c r. same f ∙ frame f s c r, same (commit_fid l target) ∙ u)

  Recorded-same :
      (tag : List ℕ) (fs fs' : files.Fs)
      → ((f : ℕ) → files.contents fs' f ≡ files.contents fs f)
      → Recorded fs tag
      → Recorded fs' tag
  Recorded-same tag fs fs' same r = record {
    uncommitted = Uncommitted-same fs fs' same r.uncommitted;
    recorded = same (record_fid l target) ∙ r.recorded;
    code = r.code;
    bound = r.bound;
  }

  unfoldable pub Outcome : files.Fs → Type 0
  Outcome fs = Uncommitted fs ⊎ Committed fs

  uncommit : SlotFids files l target → Uncommitted (remove_file files start (commit_fid l target)).0
  unfolding Uncommitted Frame
  uncommit k = (
    λ f s c r. remove_file-other files start (commit_fid l target) f s c,
    remove_file-empties files start (commit_fid l target) k.commit_dynamic,
  )

  step {ℓ} :
      {A : Type ℓ} (bad : files.Fs → Type 0) (mid : files.Fs → A → Type 0)
      (out : files.Fs × Result A) (next : files.Fs → A → files.Fs × Result (Unit {0}))
      → ((fs : files.Fs) → bad fs → Outcome fs)
      → Post bad mid out
      → ((fs : files.Fs) (v : A) → mid fs v → Post Outcome (λ fs' _. Committed fs') (next fs v))
      → Post Outcome (λ fs' _. Committed fs') (then_step out next)
  step bad mid out next weak h =
      Post-then_step Outcome mid (λ fs' _. Committed fs') out next
        (Post-weaken bad Outcome mid out weak h)

  -- Where the two files of the slot differ and are not static: behind an error of the write to a
  -- slot the slot has no commit, or the record and the commit of the new data under their codes,
  -- behind a success the latter; and no other file that is in no table has changed.
  pub put_slot-Post :
      SlotFids files l target
      → Post Outcome (λ fs _. Committed fs) (put_slot files auth calloc start l target g d)
  unfolding put_slot Outcome
  put_slot-Post k =
      step Uncommitted (λ fs _. Uncommitted fs) (remove_file files start (commit_fid l target)) _
        (λ _ u. inl u)
        (Post-any Uncommitted (remove_file files start (commit_fid l target)) (uncommit k))
        λ fs1 _ u1.
          step Uncommitted (λ fs _. Uncommitted fs) (remove_file files fs1 (record_fid l target)) _
            (λ _ u. inl u)
            (Post-any Uncommitted (remove_file files fs1 (record_fid l target))
              (record_keeps fs1 _ u1 (λ f. remove_file-other files fs1 (record_fid l target) f) k))
            λ fs2 _ u2.
              step Uncommitted Recorded (write_record files auth calloc fs2 l target g g d) _
                (λ _ u. inl u) (write_record-Post fs2 u2 k)
                λ fs3 tag r3.
                  step (λ fs. Recorded fs tag) (λ fs _. Recorded fs tag) (sync files fs3) _
                    (λ _ r. inl r.uncommitted)
                    (Post-any (λ fs. Recorded fs tag) (sync files fs3)
                      (Recorded-same tag fs3 _ (sync-keeps files fs3) r3))
                    λ fs4 _ r4.
                      step Uncommitted (λ fs _. Committed fs)
                        (write_commit files auth fs4 l target target g g (length d) tag false) _
                        (λ _ u. inl u) (write_commit-Post fs4 tag r4 k)
                        λ fs5 _ c5.
                          Post-weaken Committed Outcome (λ fs _. Committed fs) (sync files fs5)
                            (λ _ c. inr c)
                            (Post-any Committed (sync files fs5)
                              (Committed-same fs5 _ (sync-keeps files fs5) c5))
