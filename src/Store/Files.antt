-- ===== src/Store/Files.antt =====
-- What the object stores use of file.c and flash.c, as an interface: the operations, and the laws
-- of their results that the stores rely on. `contents` is the data of the file that `file_search`
-- finds, with no bytes where there is no file or the file has no data.
pub mod Memory
use pico_all.Base.{
  ℕ, ◌-◌, ◌≡◌, ◌≢◌, Bool, false, ◌||◌, Option, some, List, [], ltb, if◌then◌else◌, length, take,
  drop,
}
use pico_all.Bytes.{Code, err_null_param, Result, ok, err}

pub record FileSystem : Type 1 where
  pub Fs : Type 0
  -- `file_search(fid) != NULL`, and `file_search_by_fid(fid, NULL, SPECIFY_ANY) != NULL`
  pub is_file : Fs → ℕ → Bool
  pub is_static : ℕ → Bool
  pub contents : Fs → ℕ → List ℕ
  -- `file_delete_no_commit`, `file_new` (none is the null pointer), `file_put_data`
  pub delete_no_commit : Fs → ℕ → Fs × Result (Unit {0})
  pub file_new : Fs → ℕ → Option Fs
  pub put_data : Fs → ℕ → List ℕ → Fs × Result (Unit {0})
  -- `flash_commit_sync`
  pub commit_sync : Fs → Fs × Bool
  -- A file that is not there has no data.
  pub contents_absent : (fs : Fs) (f : ℕ) → is_file fs f ≡ false → contents fs f ≡ []
  -- A deleted file has no data, also when an error is reported: `flash_clear_file` programs the
  -- length 0 before it overwrites the data. It does not look at the result of this programming, which
  -- fails only where the cache of sectors is full and cannot be drained; it is taken to succeed.
  pub delete_empties : (fs : Fs) (f : ℕ) → contents (delete_no_commit fs f).0 f ≡ []
  -- A deletion changes no other file but EF_META, from which it takes the metadata of the file. This
  -- is a file of the tables of hsm/files.c and openpgp/files.c, and a FIDO card has no metadata: the
  -- law is for the files that are in no table.
  pub delete_other :
      (fs : Fs) (f g : ℕ)
      → is_static g ≡ false
      → g ≢ f
      → contents (delete_no_commit fs f).0 g ≡ contents fs g
  -- A new file has no data, and one that is there already is left alone.
  pub new_keeps :
      (fs fs' : Fs) (f g : ℕ) → file_new fs f ≡ some fs' → contents fs' g ≡ contents fs g
  -- A write that succeeds gives the data; one that fails leaves an empty file empty.
  pub put_writes :
      (fs : Fs) (f : ℕ) (d : List ℕ)
      → (put_data fs f d).1 ≡ ok tt
      → contents (put_data fs f d).0 f ≡ d
  pub put_fails :
      (fs : Fs) (f : ℕ) (d : List ℕ) (c : Code)
      → contents fs f ≡ []
      → (put_data fs f d).1 ≡ err c
      → contents (put_data fs f d).0 f ≡ []
  pub put_other :
      (fs : Fs) (f g : ℕ) (d : List ℕ) → g ≢ f → contents (put_data fs f d).0 g ≡ contents fs g
  -- A commit changes no contents.
  pub commit_keeps : (fs : Fs) (g : ℕ) → contents (commit_sync fs).0 g ≡ contents fs g

-- `file_read_at` on a file with this data. The flash read below it fails on no address.
unfoldable pub file_read_at : List ℕ → ℕ → ℕ → Result (List ℕ)
file_read_at d offset n =
    if ltb (length d) offset || ltb (length d - offset) n
    then err err_null_param
    else ok (take n (drop offset d))
