-- ===== src/Store/Txn/Steps.antt =====
-- What the parts of a write do to the files: which files they leave alone, and what stands in the
-- file that they write, with and without an error.
use pico_all.Base.{
  ℕ, ◌≡◌, refl, ◌∙◌, subst, ◌≢◌, inl, inr, Bool, true, false, List, [], if◌then◌else◌, Bool-cases,
  Option-cases,
}
use pico_all.Bytes.{Code, wrong_data, Result, ok, err}
use pico_all.Store.Files.{FileSystem}
use pico_all.Store.Txn.Write.{then_step, remove_file, create_file, replace_file, sync}

-- What holds behind an error, and what behind a success.
abbrev pub Post {ℓ} :
    {S : Type 0} {A : Type ℓ} (bad : S → Type 0) (good : S → A → Type 0) → S × Result A → Type 0
Post bad good (fs, err c) = bad fs
Post bad good (fs, ok v) = good fs v

pub Post-then_step {ℓ κ} :
    {S : Type 0} {A : Type ℓ} {B : Type κ} (bad : S → Type 0) (good : S → A → Type 0)
    (good' : S → B → Type 0) (out : S × Result A) (next : S → A → S × Result B)
    → Post bad good out
    → ((fs : S) (v : A) → good fs v → Post bad good' (next fs v))
    → Post bad good' (then_step out next)
Post-then_step bad good good' (fs, err c) next h k = h
Post-then_step bad good good' (fs, ok v) next h k = k fs v h

pub Post-result {ℓ} :
    {S : Type 0} {A : Type ℓ} (bad : S → Type 0) (good : S → A → Type 0) (out : S × Result A)
    → ((c : Code) → out.1 ≡ err c → bad out.0)
    → ((v : A) → out.1 ≡ ok v → good out.0 v)
    → Post bad good out
Post-result bad good (fs, err c) h k = h c refl
Post-result bad good (fs, ok v) h k = k v refl

pub Post-any {ℓ} :
    {S : Type 0} {A : Type ℓ} (always : S → Type 0) (out : S × Result A)
    → always out.0
    → Post always (λ fs _. always fs) out
Post-any always (fs, err c) h = h
Post-any always (fs, ok v) h = h

pub Post-same {ℓ} :
    {S : Type 0} {A : Type ℓ} (always : S → Type 0) (out : S × Result A)
    → Post always (λ fs _. always fs) out
    → always out.0
Post-same always (fs, err c) h = h
Post-same always (fs, ok v) h = h

pub Post-weaken {ℓ} :
    {S : Type 0} {A : Type ℓ} (bad bad' : S → Type 0) (good : S → A → Type 0) (out : S × Result A)
    → ((fs : S) → bad fs → bad' fs)
    → Post bad good out
    → Post bad' good out
Post-weaken bad bad' good (fs, err c) k h = k fs h
Post-weaken bad bad' good (fs, ok v) k h = h

pub Post-ok {ℓ} :
    {S : Type 0} {A : Type ℓ} (bad : S → Type 0) (good : S → A → Type 0) (out : S × Result A)
    (fs : S) (v : A)
    → out ≡ (fs, ok v)
    → Post bad good out
    → good fs v
Post-ok bad good out fs v e h = subst (Post bad good) e h

pub Post-if {ℓ} :
    {S : Type 0} {A : Type ℓ} (bad : S → Type 0) (good : S → A → Type 0) (b : Bool)
    (out out' : S × Result A)
    → (b ≡ true → Post bad good out)
    → (b ≡ false → Post bad good out')
    → Post bad good (if b then out else out')
Post-if bad good true out out' h k = h refl
Post-if bad good false out out' h k = k refl

-- Another state is kept beside.
pub Post-beside {ℓ} :
    {S T : Type 0} {A : Type ℓ} (bad : S → Type 0) (good : S → A → Type 0) (bad' : S × T → Type 0)
    (good' : S × T → A → Type 0) (out : S × Result A) (t : T)
    → Post bad good out
    → ((s : S) → bad s → bad' (s, t))
    → ((s : S) (v : A) → good s v → good' (s, t) v)
    → Post bad' good' ((out.0, t), out.1)
Post-beside bad good bad' good' (s, err c) t h k j = k s h
Post-beside bad good bad' good' (s, ok v) t h k j = j s v h

-- What always holds joins what holds behind an error and behind a success.
pub Post-frame {ℓ} :
    {S : Type 0} {A : Type ℓ} (always bad : S → Type 0) (good : S → A → Type 0) (bad' : S → Type 0)
    (good' : S → A → Type 0) (out : S × Result A)
    → always out.0
    → Post bad good out
    → ((fs : S) → always fs → bad fs → bad' fs)
    → ((fs : S) (v : A) → always fs → good fs v → good' fs v)
    → Post bad' good' out
Post-frame always bad good bad' good' (fs, err c) a h k j = k fs a h
Post-frame always bad good bad' good' (fs, ok v) a h k j = j fs v a h

module _ (files : FileSystem) where
  pub remove_file-other :
      (fs : files.Fs) (f g : ℕ)
      → files.is_static g ≡ false
      → g ≢ f
      → files.contents (remove_file files fs f).0 g ≡ files.contents fs g
  unfolding remove_file
  remove_file-other fs f g dynamic ne = elim (Bool-cases (files.is_file fs f)) [
    | inl there ↦ rw there (delete_if (files.is_static f))
    | inr gone ↦ rw gone
  ]
    where
      delete_if :
          (static : Bool)
          → files.contents
              (if static then (fs, err wrong_data) else files.delete_no_commit fs f).0
              g
            ≡ files.contents fs g
      delete_if true = refl
      delete_if false = files.delete_other fs f g dynamic ne

  pub remove_file-empties :
      (fs : files.Fs) (f : ℕ)
      → files.is_static f ≡ false
      → files.contents (remove_file files fs f).0 f ≡ []
  unfolding remove_file
  remove_file-empties fs f h = elim (Bool-cases (files.is_file fs f)) [
    | inl there ↦ rw (there, h) (files.delete_empties fs f)
    | inr gone ↦ rw gone (files.contents_absent fs f gone)
  ]

  pub create_file-other :
      (fs : files.Fs) (f g : ℕ) (d : List ℕ)
      → g ≢ f
      → files.contents (create_file files fs f d).0 g ≡ files.contents fs g
  unfolding create_file
  create_file-other fs f g d ne = elim (Option-cases (files.file_new fs f)) [
    | inl full ↦ rw (full, create_file)
    | inr (fs', made) ↦
        rw (made, create_file) (files.put_other fs' f g d ne ∙ files.new_keeps fs fs' f g made)
  ]

  pub sync-keeps :
      (fs : files.Fs) (g : ℕ) → files.contents (sync files fs).0 g ≡ files.contents fs g
  unfolding sync
  sync-keeps fs g = files.commit_keeps fs g

  -- A new file has the data behind a success and is empty behind an error.
  pub create_file-Post :
      (fs : files.Fs) (f : ℕ) (d : List ℕ)
      → files.contents fs f ≡ []
      → Post
          (λ fs'. files.contents fs' f ≡ [])
          (λ fs' _. files.contents fs' f ≡ d)
          (create_file files fs f d)
  unfolding create_file
  create_file-Post fs f d e = elim (Option-cases (files.file_new fs f)) [
    | inl full ↦ rw (full, create_file) e
    | inr (fs', made) ↦ rw (made, create_file) (put fs' (files.new_keeps fs fs' f f made ∙ e))
  ]
    where
      put :
          (fs' : files.Fs)
          → files.contents fs' f ≡ []
          → Post
              (λ fs'. files.contents fs' f ≡ [])
              (λ fs' _. files.contents fs' f ≡ d)
              (files.put_data fs' f d)
      put fs' e' =
          Post-result (λ fs''. files.contents fs'' f ≡ []) (λ fs'' _. files.contents fs'' f ≡ d)
            (files.put_data fs' f d) (λ c. files.put_fails fs' f d c e')
            (λ v. files.put_writes fs' f d)

  pub replace_file-other :
      (fs : files.Fs) (f g : ℕ) (d : List ℕ)
      → files.is_static g ≡ false
      → g ≢ f
      → files.contents (replace_file files fs f d).0 g ≡ files.contents fs g
  unfolding replace_file
  replace_file-other fs f g d dynamic ne = Post-same Kept (then_step (remove_file files fs f) _) (
      Post-then_step Kept (λ fs' _. Kept fs') (λ fs' _. Kept fs') (remove_file files fs f) _
        (Post-any Kept (remove_file files fs f) (remove_file-other fs f g dynamic ne))
        (λ fs' _ e. Post-any Kept (create_file files fs' f d) (create_file-other fs' f g d ne ∙ e)))
    where
      Kept : files.Fs → Type 0
      Kept fs' = files.contents fs' g ≡ files.contents fs g

  pub replace_file-Post :
      (fs : files.Fs) (f : ℕ) (d : List ℕ)
      → files.is_static f ≡ false
      → Post
          (λ fs'. files.contents fs' f ≡ [])
          (λ fs' _. files.contents fs' f ≡ d)
          (replace_file files fs f d)
  unfolding replace_file
  replace_file-Post fs f d h =
      Post-then_step Empty (λ fs' _. Empty fs') (λ fs' _. files.contents fs' f ≡ d)
        (remove_file files fs f) _
        (Post-any Empty (remove_file files fs f) (remove_file-empties fs f h))
        (λ fs' _ e. create_file-Post fs' f d e)
    where
      Empty : files.Fs → Type 0
      Empty fs' = files.contents fs' f ≡ []
