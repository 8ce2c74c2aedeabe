-- ===== src/Audit/Checkpoint.antt =====
-- `audit_checkpoint` of src/fido/audit.c: the head of the chain is signed, and the event recorded.
use pico_all.Audit.History.{head-export_of}
use pico_all.Audit.Log.{IsJournal, Represents}
use pico_all.Base.{
  ℕ, ◌/◌, ◌%◌, ◌≤◌, ◌<◌, ◌≡◌, refl, sym, ap, ◌∙◌, Bool, true, false, not, Option, none, some, List,
  [], ◌∷◌, ◌++◌, arith, ltb, if◌then◌else◌, length,
}
use pico_all.Store.Files.{FileSystem}
use pico_all.Audit.Journal.{wr32, Journal, and_then, load, head, chain_all}
use pico_all.Audit.Append.{Clock}
use pico_all.Audit.Card.{Card, key, journal_fid, audit_append}

-- "RSK-AUDIT-CKPT-v1"
abbrev pub checkpoint_tag : List ℕ
checkpoint_tag =
    82 ∷ 83 ∷ 75 ∷ 45 ∷ 65 ∷ 85 ∷ 68 ∷ 73 ∷ 84 ∷ 45 ∷ 67 ∷ 75 ∷ 80 ∷ 84 ∷ 45 ∷ 118 ∷ 49 ∷ []

abbrev pub checkpoint_message : List ℕ → ℕ → List ℕ → List ℕ
checkpoint_message h seq challenge = checkpoint_tag ++ (h ++ (wr32 seq ++ challenge))

-- What the call answers: an error of CTAP, or what was encoded.
pub data Answered (Out : Type 0) : Type 0 where
  ctap_failed : ℕ → Answered Out
  encoded : Out → Answered Out

-- `signing_key` is the key pair that is derived from the device's key, none where the derivation
-- fails; `sign` makes the signature of a digest, and `emit` the encoding of the map, with the public
-- key.
module _ {Key Out : Type 0} (sha : List ℕ → Option (List ℕ)) (signing_key : Option Key)
    (sign : Key → List ℕ → Option (List ℕ)) (emit : List ℕ → ℕ → List ℕ → Key → Option Out) where
  -- The part of `audit_checkpoint` between `load` and `audit_append`.
  unfoldable pub checkpoint : List ℕ → Journal → Option Out
  checkpoint challenge j = and_then signing_key (λ k. and_then (head sha j) (λ h.
      and_then (sha (checkpoint_message h j.next challenge))
        (λ digest. and_then (sign k digest) (λ signature. emit h j.next signature k))))

module _ {Key Out : Type 0} (files : FileSystem) (registered : ℕ → Bool)
    (sha : List ℕ → Option (List ℕ)) (serial : List ℕ) (signing_key : Option Key)
    (sign : Key → List ℕ → Option (List ℕ)) (emit : List ℕ → ℕ → List ℕ → Key → Option Out) where
  abbrev pub checkpointed :
      Clock → Clock → Card files.Fs → Option Out → Card files.Fs × Answered Out
  checkpointed c0 c card none = (card, ctap_failed 0x21)
  checkpointed c0 c card (some out) =
      (audit_append files registered sha serial c0 c 17 0 [] card, encoded out)

  -- `otp_key` says whether the device has its key `otp_key_2`.
  pub audit_checkpoint :
      Bool → Clock → Clock → List ℕ → Card files.Fs → Card files.Fs × Answered Out
  audit_checkpoint otp_key c0 c challenge card =
      let out =
        and_then (load sha serial (files.contents card.fs (key card.ns journal_fid)))
          (checkpoint sha signing_key sign emit challenge) in
      if ltb 32 (length challenge)
      then (card, ctap_failed 0x02)
      else if not otp_key
      then (card, ctap_failed 0x30)
      else checkpointed c0 c card out

-- What the host that asks for a checkpoint is owed: with the key of the device, the signature of the
-- digest of these bytes: the tag "RSK-AUDIT-CKPT-v1", the chain over the whole log, the number of its
-- entries from its lowest byte on, and the challenge.
pub owed :
    {Key Out : Type 0}
    → (List ℕ → Option (List ℕ))
    → Option Key
    → (Key → List ℕ → Option (List ℕ))
    → (List ℕ → ℕ → List ℕ → Key → Option Out)
    → List ℕ
    → List (List ℕ)
    → List ℕ
    → Option Out
owed sha (some k) sign emit seed log challenge = and_then (chain_all sha seed log) (λ h.
    and_then
      (sha (
        (82 ∷ 83 ∷ 75 ∷ 45 ∷ 65 ∷ 85 ∷ 68 ∷ 73 ∷ 84 ∷ 45 ∷ 67 ∷ 75 ∷ 80 ∷ 84 ∷ 45 ∷ 118 ∷ 49 ∷ [])
        ++ (h
            ++ ((length log % 256)
                ∷ (length log / 256 % 256)
                ∷ (length log / 65536 % 256)
                ∷ (length log / 16777216 % 256)
                ∷ challenge))))
      (λ digest. and_then (sign k digest) (λ signature. emit h (length log) signature k)))
owed sha none sign emit seed log challenge = none

-- The outcomes of `audit_checkpoint`: what it leaves of the card, and what it answers.
pub data Checkpointed {Out : Type 0} (files : FileSystem) (registered : ℕ → Bool)
    (sha : List ℕ → Option (List ℕ)) (serial : List ℕ) (due : Option Out) (otp_key : Bool)
    (c0 c : Clock) (challenge : List ℕ) (card : Card files.Fs)
    (result : Card files.Fs × Answered Out) : Type 0 where
  too_long :
      32 < length challenge
      → result ≡ (card, ctap_failed 2)
      → Checkpointed files registered sha serial due otp_key c0 c challenge card result
  no_key :
      length challenge ≤ 32
      → otp_key ≡ false
      → result ≡ (card, ctap_failed 48)
      → Checkpointed files registered sha serial due otp_key c0 c challenge card result
  not_made :
      length challenge ≤ 32
      → otp_key ≡ true
      → due ≡ none
      → result ≡ (card, ctap_failed 33)
      → Checkpointed files registered sha serial due otp_key c0 c challenge card result
  made :
      (out : Out)
      → length challenge ≤ 32
      → otp_key ≡ true
      → due ≡ some out
      → result ≡ (audit_append files registered sha serial c0 c 17 0 [] card, encoded out)
      → Checkpointed files registered sha serial due otp_key c0 c challenge card result

module _ {Key Out : Type 0} (files : FileSystem) (registered : ℕ → Bool)
    (sha : List ℕ → Option (List ℕ))
    (digest_length : (m d : List ℕ) → sha m ≡ some d → length d ≡ 32) (serial seed : List ℕ)
    (log : List (List ℕ)) (signing_key : Option Key) (sign : Key → List ℕ → Option (List ℕ))
    (emit : List ℕ → ℕ → List ℕ → Key → Option Out) (otp_key : Bool) (c0 c : Clock)
    (challenge : List ℕ) (card : Card files.Fs) (j : Journal) where
  -- The steps behind the key, over any head and number.
  abbrev behind_key : Key → Option (List ℕ) → ℕ → Option Out
  behind_key k o n = and_then o (λ h.
      and_then (sha (checkpoint_message h n challenge))
        (λ digest. and_then (sign k digest) (λ signature. emit h n signature k)))

  checkpoint-owed :
      IsJournal j
      → Represents sha seed log j
      → checkpoint sha signing_key sign emit challenge j
        ≡ owed sha signing_key sign emit seed log challenge
  unfolding checkpoint owed
  checkpoint-owed w r = go signing_key
    where
      go :
          (o : Option Key)
          → checkpoint sha o sign emit challenge j ≡ owed sha o sign emit seed log challenge
      go none = refl
      go (some k) =
          ap (λ o. behind_key k o j.next) (head-export_of sha digest_length seed log j w r).0
          ∙ ap (λ n. behind_key k (chain_all sha seed log) n) (sym r.count)

  -- For a card whose journal loads, with its window in order, and stands for a log, and a digest of
  -- 32 bytes: audit_checkpoint refuses a challenge of more than 32 bytes with the error 2, and a
  -- device without its key with 48; else it gives out what is owed for the log, which is the
  -- signature of the tag, the chain over the whole log, the number of its entries and the challenge
  -- with that chain and number, and records the event 17, and where that cannot be made it answers
  -- 33. Every error leaves the card as it was.
  pub checkpoint-Represents :
      IsJournal j
      → Represents sha seed log j
      → load sha serial (files.contents card.fs (key card.ns journal_fid)) ≡ some j
      → Checkpointed files registered sha serial
          (owed sha signing_key sign emit seed log challenge)
          otp_key
          c0
          c
          challenge
          card
          (audit_checkpoint files registered sha serial signing_key sign emit otp_key c0 c challenge
            card)
  unfolding audit_checkpoint
  checkpoint-Represents w r loaded =
      go otp_key refl (ltb 32 (length challenge)) refl
        (and_then (load sha serial (files.contents card.fs (key card.ns journal_fid)))
          (checkpoint sha signing_key sign emit challenge))
        (ap (λ o. and_then o (checkpoint sha signing_key sign emit challenge)) loaded
          ∙ checkpoint-owed w r)
    where
      go :
          (otp : Bool)
          → otp_key ≡ otp
          → (long : Bool) → ltb 32 (length challenge) ≡ long
          → (out : Option Out) → out ≡ owed sha signing_key sign emit seed log challenge
          → Checkpointed files registered sha serial
              (owed sha signing_key sign emit seed log challenge)
              otp_key
              c0
              c
              challenge
              card
              (if long
                then (card, ctap_failed 0x02)
                else if not otp
                then (card, ctap_failed 0x30)
                else checkpointed files registered sha serial signing_key sign emit c0 c card out)
      go otp k true l out e = too_long (ground (arith, l)) refl
      go false k false l out e = no_key (ground (arith, l)) k refl
      go true k false l none e = not_made (ground (arith, l)) k (sym e) refl
      go true k false l (some out) e = made out (ground (arith, l)) k (sym e) refl
