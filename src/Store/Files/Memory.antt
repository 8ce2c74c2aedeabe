-- ===== src/Store/Files/Memory.antt =====
-- A file system in memory that meets the laws of `FileSystem`: every operation succeeds until
-- `budget` operations are done. Later writes and commits fail without effect, and later deletions
-- report an error though the data is gone.
use pico_all.Base.{
  ℕ, zero, suc, ◌≡◌, refl, sym, ap, ◌≢◌, Bool, true, false, Option, none, some, List, [], ◌∷◌,
  arith, ◌==◌, if◌then◌else◌,
}
use pico_all.Bytes.{Code, err_memory_fatal, Result, ok, err}
use pico_all.Store.Files.{FileSystem}

pub record Disk : Type 0 where
  pub files : ℕ → List ℕ
  pub budget : ℕ

abbrev pub update : (ℕ → List ℕ) → ℕ → List ℕ → ℕ → List ℕ
update m f d g = if g == f then d else m g

abbrev nonempty : List ℕ → Bool
nonempty [] = false
nonempty (x ∷ xs) = true

abbrev outcome : ℕ → Result (Unit {0})
outcome zero = err err_memory_fatal
outcome (suc n) = ok tt

abbrev spend : ℕ → ℕ
spend zero = 0
spend (suc n) = n

abbrev pub disk_delete : Disk → ℕ → Disk × Result (Unit {0})
disk_delete d f =
    (record d { files = update d.files f []; budget = spend d.budget }, outcome d.budget)

abbrev pub disk_put : Disk → ℕ → List ℕ → Disk × Result (Unit {0})
disk_put d f data' = elim d.budget [
  | zero ↦ (d, err err_memory_fatal)
  | suc n ↦ (record { files = update d.files f data'; budget = n }, ok tt)
]

abbrev pub disk_commit : Disk → Disk × Bool
disk_commit d = elim d.budget [ zero ↦ (d, false) | suc n ↦ (record d { budget = n }, true) ]

pub disk_absent : (d : Disk) (f : ℕ) → nonempty (d.files f) ≡ false → d.files f ≡ []
disk_absent d f = go (d.files f)
  where
    go : (l : List ℕ) → nonempty l ≡ false → l ≡ []
    go [] h = refl
    go (x ∷ xs) h = cc

pub update_self : (m : ℕ → List ℕ) (f : ℕ) (d : List ℕ) → update m f d f ≡ d
update_self m f d = ground arith

pub update_other : (m : ℕ → List ℕ) (f g : ℕ) (d : List ℕ) → g ≢ f → update m f d g ≡ m g
update_other m f g d ne = ground arith

pub put_writes_at :
    (m : ℕ → List ℕ) (b f : ℕ) (d : List ℕ)
    → (disk_put (record { files = m; budget = b }) f d).1 ≡ ok tt
    → (disk_put (record { files = m; budget = b }) f d).0.files f ≡ d
put_writes_at m zero f d h = cc
put_writes_at m (suc b) f d h = update_self m f d

pub put_fails_at :
    (m : ℕ → List ℕ) (b f : ℕ) (d : List ℕ) (c : Code)
    → m f ≡ []
    → (disk_put (record { files = m; budget = b }) f d).1 ≡ err c
    → (disk_put (record { files = m; budget = b }) f d).0.files f ≡ []
put_fails_at m zero f d c e h = e
put_fails_at m (suc b) f d c e h = cc

pub put_other_at :
    (m : ℕ → List ℕ) (b f g : ℕ) (d : List ℕ)
    → g ≢ f
    → (disk_put (record { files = m; budget = b }) f d).0.files g ≡ m g
put_other_at m zero f g d ne = refl
put_other_at m (suc b) f g d ne = update_other m f g d ne

pub commit_keeps_at :
    (m : ℕ → List ℕ) (b g : ℕ) → (disk_commit (record { files = m; budget = b })).0.files g ≡ m g
commit_keeps_at m zero g = refl
commit_keeps_at m (suc b) g = refl

abbrev pub contents_of : Option Disk → ℕ → List ℕ
contents_of none g = []
contents_of (some d) g = d.files g

abbrev pub memory : FileSystem
memory = record {
  Fs = Disk;
  is_file = λ d f. nonempty (d.files f);
  is_static = λ f. false;
  contents = λ d f. d.files f;
  delete_no_commit = disk_delete;
  file_new = λ d f. some d;
  put_data = disk_put;
  commit_sync = disk_commit;
  contents_absent = disk_absent;
  delete_empties = λ d f. update_self d.files f [];
  delete_other = λ d f g s ne. update_other d.files f g [] ne;
  new_keeps = λ d d' f g e. ap (λ (o : Option Disk). contents_of o g) (sym e);
  put_writes = λ d f x h. put_writes_at d.files d.budget f x h;
  put_fails = λ d f x c e h. put_fails_at d.files d.budget f x c e h;
  put_other = λ d f g x ne. put_other_at d.files d.budget f g x ne;
  commit_keeps = λ d g. commit_keeps_at d.files d.budget g;
}
