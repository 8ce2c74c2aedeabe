-- ===== src/Audit/Card.antt =====
-- The operations of src/fido/audit.c on the card: the files of the journal in the namespace of the
-- FIDO application, whether the boot is logged, and what the calls store.
use pico_all.Base.{
  ℕ, zero, suc, ◌+◌, ◌-◌, ◌*◌, Bool, true, false, not, ◌&&◌, ◌||◌, Option, none, some, List, [],
  ◌∷◌, ◌++◌, ◌==◌, if◌then◌else◌, length,
}
use pico_all.Bytes.{Result, ok, err, byte_at}
use pico_all.Store.Files.{FileSystem}
use pico_all.Audit.Journal.{Journal, slot, encode, and_then, load}
use pico_all.Audit.Append.{Clock, record_event, scrub}

-- The files, the active namespace of file.c, and the static `boot_logged`.
pub record Card (Fs : Type 0) : Type 0 where
  pub fs : Fs
  pub ns : ℕ
  pub boot_logged : Bool

-- A file identifier in a namespace.
abbrev pub key : ℕ → ℕ → ℕ
key ns fid = ns * 65536 + fid

abbrev pub journal_fid : ℕ
journal_fid = 49408

abbrev pub enabled_fid : ℕ
enabled_fid = 49409

-- What `audit_export` hands to the CBOR encoder, in the order of the map.
pub record Export : Type 0 where
  pub start : ℕ
  pub next : ℕ
  pub anchor : List ℕ
  pub entries : List ℕ

-- The loop of `audit_export` over `k` entries from entry `n` on.
abbrev pub copied : Journal → ℕ → ℕ → List ℕ
copied j n zero = []
copied j n (suc k) = slot j n ++ copied j (n + 1) k

unfoldable pub export_of : Journal → Export
export_of j = record {
  start = j.start;
  next = j.next;
  anchor = j.anchor;
  entries = copied j j.start (j.next - j.start);
}

module _ (files : FileSystem) where
  -- The end of `put`, behind `file_put_data`.
  abbrev pub synced : files.Fs × Result (Unit {0}) → files.Fs × Bool
  synced (fs, err c) = (fs, false)
  synced (fs, ok v) = files.commit_sync fs

  abbrev pub put_into : files.Fs → ℕ → List ℕ → Option files.Fs → files.Fs × Bool
  put_into fs f d none = (fs, false)
  put_into fs f d (some fs') = synced (files.put_data fs' f d)

  -- `put`: true stands for the result 0.
  unfoldable pub put : files.Fs → ℕ → List ℕ → files.Fs × Bool
  put fs f d = put_into fs f d (if files.is_file fs f then some fs else files.file_new fs f)

  module _ (sha : List ℕ → Option (List ℕ)) (serial : List ℕ) where
    -- `if (!put(...))` behind a part that can fail.
    abbrev pub save : files.Fs → ℕ → Option Journal → files.Fs × Bool
    save fs f none = (fs, false)
    save fs f (some j) = put fs f (encode j)

    -- The part of `append` from `load` on: is the event saved?
    unfoldable pub store_event :
        Clock → Clock → Bool → Bool → ℕ → ℕ → List ℕ → files.Fs → ℕ → files.Fs × Bool
    store_event c0 c boot_logged run ev aux detail fs f = save fs f (
        and_then (load sha serial (files.contents fs f))
          (record_event sha c0 c boot_logged run ev aux detail))

-- `registered` says which namespaces have a table of files.
module _ (files : FileSystem) (registered : ℕ → Bool) where
  -- `file_namespace_select`
  abbrev pub select : ℕ → ℕ → ℕ
  select active id = if registered id then id else active

  pub audit_enabled : Card files.Fs → Bool
  audit_enabled card =
      let flag = files.contents card.fs (key (select card.ns 1) enabled_fid) in
      length flag == 1 && byte_at flag 0 == 1

  pub audit_set_enabled : Bool → Card files.Fs → Card files.Fs × Bool
  audit_set_enabled on card =
      let here = select card.ns 1 in
      let (fs', done) = put files card.fs (key here enabled_fid) ((if on then 1 else 0) ∷ []) in
      (record card { fs = fs'; ns = select here card.ns }, done)

  module _ (sha : List ℕ → Option (List ℕ)) (serial : List ℕ) where
    pub append : Clock → Clock → ℕ → ℕ → List ℕ → Bool → Card files.Fs → Card files.Fs
    append c0 c ev aux detail run card =
        let here = select card.ns 1 in
        let (fs', done) =
          store_event files sha serial c0 c card.boot_logged run ev aux detail card.fs
            (key here journal_fid) in
        if not (audit_enabled card)
        then card
        else record { fs = fs'; ns = select here card.ns; boot_logged = card.boot_logged || done }

    abbrev pub audit_append : Clock → Clock → ℕ → ℕ → List ℕ → Card files.Fs → Card files.Fs
    audit_append c0 c ev aux detail = append c0 c ev aux detail (ev == 21)

    abbrev pub audit_append_run : Clock → Clock → ℕ → ℕ → List ℕ → Card files.Fs → Card files.Fs
    audit_append_run c0 c ev aux detail = append c0 c ev aux detail true

    pub audit_scrub : Card files.Fs → Card files.Fs × Bool
    audit_scrub card =
        let here = select card.ns 1 in
        let f = key here journal_fid in
        let (fs', done) =
          save files sha serial card.fs f
            (and_then (load sha serial (files.contents card.fs f)) (scrub sha)) in
        elim (files.contents card.fs f) [
          | [] ↦ (record card { ns = select here card.ns }, true)
          | x ∷ b ↦ (record card { fs = fs'; ns = select here card.ns }, done)
        ]

    -- `audit_export`, which reads the journal in the active namespace; `malloc` says whether there
    -- is space for the entries, and `emit` is the encoding of the map.
    pub audit_export {ℓ} :
        {Out : Type ℓ} → (ℕ → Bool) → (Export → Option Out) → Card files.Fs → Option Out
    audit_export malloc emit card =
        and_then (load sha serial (files.contents card.fs (key card.ns journal_fid)))
          (λ j. if malloc ((j.next - j.start) * 20 + 1) then emit (export_of j) else none)
