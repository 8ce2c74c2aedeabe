-- ===== src/Audit/Tests.antt =====
-- Runs of the journal of src/fido/audit.c, with a digest for runs that is no secure hash.
use pico_all.Audit.Checkpoint.{
  checkpoint_message, checkpoint, audit_checkpoint, owed, Checkpointed, checkpoint-Represents,
}
use pico_all.Audit.Recorded.{Recorded, store_event-Recorded}
use pico_all.Base.{
  ℕ, ◌-◌, ◌≡◌, refl, sym, ap, ◌∙◌, Bool, true, false, Option, some, List, [], ◌∷◌, ◌++◌, arith,
  ◌==◌, length, replicate, length-replicate,
}
use pico_all.Store.Toy.{checksum}
use pico_all.Store.Files.Memory.{Disk, memory}
use pico_all.Audit.Journal.{
  Journal, chunks, decode, encode, record_valid, genesis_tag, fresh, load, head, chain_all,
}
use pico_all.Audit.Append.{
  Clock, make_entry, find_run, write_entry, make_room, append_one, boot_entry, append_event,
  record_event, scrub,
}
use pico_all.Audit.Card.{Card, export_of, put, store_event}
use pico_all.Audit.Log.{Logged, write_entry-Logged}
use pico_all.Audit.Appended.{make_entry-length, make_entry-number}
use pico_all.Audit.Coalesced.{Coalesced}
use pico_all.Audit.History.{fresh-Logged, head-export_of, Scrubbed, scrub-Logged}

abbrev toy_digest : List ℕ → List ℕ
toy_digest m = replicate 32 (checksum 1 0 m)

abbrev toy_sha : List ℕ → Option (List ℕ)
toy_sha m = some (toy_digest m)

unwrapped : (x y : List ℕ) → some x ≡ some y → x ≡ y
unwrapped x y e = cc

toy_sha-length : (m d : List ℕ) → toy_sha m ≡ some d → length d ≡ 32
toy_sha-length m d e =
    ap (λ (l : List ℕ). length l) (sym (unwrapped (toy_digest m) d e))
    ∙ length-replicate 32 (checksum 1 0 m)

abbrev serial : List ℕ
serial = replicate 32 9

abbrev seed : List ℕ
seed = toy_digest (genesis_tag ++ serial)

abbrev noon : Clock
noon = record { has_set_rtc = true; rtc_time = 1600000000; board_millis = 5 }

abbrev uptime : Clock
uptime = record { has_set_rtc = false; rtc_time = 0; board_millis = 700 }

abbrev first_entry : List ℕ
first_entry = make_entry noon 0 3 0 []

abbrev one_entry : Journal
one_entry = write_entry first_entry (fresh seed)

one_entry-Logged : Logged toy_sha seed (first_entry ∷ []) 1 one_entry
one_entry-Logged =
    write_entry-Logged toy_sha seed [] first_entry (fresh seed) (make_entry-length noon 0 3 0 [])
      (make_entry-number noon 0 3 0 [] (omega arith)) (omega arith) (omega arith)
      (fresh-Logged toy_sha seed (length-replicate 32 (checksum 1 0 (genesis_tag ++ serial))))

-- The event of a first run has the clock's mark, and a second one counts it up.
entry_bytes :
    make_entry noon 7 3 2 (1 ∷ 2 ∷ [])
    ≡ 7 ∷ 0 ∷ 0 ∷ 0 ∷ 0 ∷ 16 ∷ 94 ∷ 95 ∷ 131 ∷ 2 ∷ 1 ∷ 2 ∷ 0 ∷ 0 ∷ 0 ∷ 0 ∷ 0 ∷ 0 ∷ 0 ∷ 0 ∷ []
unfolding make_entry
entry_bytes = refl

first_run : find_run one_entry 3 1 1 ≡ some 0
unfolding make_entry
first_run = refl

scrub-Logged_example :
    Scrubbed toy_sha toy_sha-length seed
      (first_entry ∷ [])
      one_entry
      one_entry-Logged.0
      one_entry-Logged.1
      (scrub toy_sha one_entry)
scrub-Logged_example =
    scrub-Logged toy_sha toy_sha-length seed (first_entry ∷ []) one_entry one_entry-Logged.0
      one_entry-Logged.1

head-export_of_example :
    (head toy_sha one_entry ≡ chain_all toy_sha seed (first_entry ∷ []))
    × (chain_all toy_sha (export_of one_entry).anchor (
          chunks
            ((export_of one_entry).next - (export_of one_entry).start)
            (export_of one_entry).entries)
        ≡ head toy_sha one_entry)
head-export_of_example =
    head-export_of toy_sha toy_sha-length seed (first_entry ∷ []) one_entry one_entry-Logged.0
      one_entry-Logged.1

abbrev blank : Disk
blank = record { files = λ f. []; budget = 9 }

abbrev stored : Disk × Bool
stored = store_event memory toy_sha serial uptime noon false false 3 0 (7 ∷ []) blank 114944

blank_read : load toy_sha serial [] ≡ some (fresh seed)
unfolding load
blank_read = refl

stored_done : stored.1 ≡ true
unfolding store_event load record_event boot_entry append_one append_event make_room put
stored_done = refl

store_event-Recorded_example :
    (j' : Journal) × (load toy_sha serial (stored.0.files 114944) ≡ some j')
    × Recorded toy_sha toy_sha-length seed [] uptime noon false false 3 0 (7 ∷ []) (fresh seed) j'
store_event-Recorded_example =
    store_event-Recorded memory toy_sha toy_sha-length serial seed [] uptime noon false false 3 0
      (7 ∷ []) blank stored.0 114944 (fresh seed) tt blank_read
      (fresh-Logged toy_sha seed (length-replicate 32 (checksum 1 0 (genesis_tag ++ serial)))).1
      (ap (λ (b : Bool). (stored.0, b)) stored_done)

-- A signature for runs, and a checkpoint that is given out as it is.
abbrev toy_sign : ℕ → List ℕ → Option (List ℕ)
toy_sign k digest = some (k ∷ digest)

abbrev toy_emit : List ℕ → ℕ → List ℕ → ℕ → Option (List ℕ)
toy_emit h seq signature k = some (h ++ (seq ∷ signature))

abbrev history : List ℕ
history = toy_digest (seed ++ first_entry)

abbrev given_out : List ℕ
given_out = history ++ (1 ∷ 5 ∷ toy_digest (checkpoint_message history 1 (9 ∷ [])))

checkpoints : checkpoint toy_sha (some 5) toy_sign toy_emit (9 ∷ []) one_entry ≡ some given_out
unfolding checkpoint head
checkpoints = refl

-- A card that keeps the journal with one entry.
abbrev signing_card : Card Disk
unfolding encode
signing_card = record {
  fs = record { files = λ f. encode one_entry; budget = 9 };
  ns = 1;
  boot_logged = true;
}

signing_card_loads : load toy_sha serial (memory.contents signing_card.fs 114944) ≡ some one_entry
unfolding load signing_card encode record_valid decode chunks make_entry
signing_card_loads = refl

checkpoint-Represents_example :
    Checkpointed memory
      (λ n. n == 1)
      toy_sha
      serial
      (owed toy_sha (some 5) toy_sign toy_emit seed (first_entry ∷ []) (9 ∷ []))
      true
      uptime
      noon
      (9 ∷ [])
      signing_card
      (audit_checkpoint memory
        (λ n. n == 1)
        toy_sha
        serial
        (some 5)
        toy_sign
        toy_emit
        true
        uptime
        noon
        (9 ∷ [])
        signing_card)
unfolding signing_card
checkpoint-Represents_example =
    checkpoint-Represents memory (λ n. n == 1) toy_sha toy_sha-length serial seed (first_entry ∷ [])
      (some 5) toy_sign toy_emit true uptime noon (9 ∷ []) signing_card one_entry one_entry-Logged.0
      one_entry-Logged.1 signing_card_loads
