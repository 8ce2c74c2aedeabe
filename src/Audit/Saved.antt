-- ===== src/Audit/Saved.antt =====
-- What src/fido/audit.c saves is read back: the record of the journal, and the log behind a call
-- of `append`.
use pico_all.Audit.History.{chunks-joined}
use pico_all.Base.{
  ℕ, zero, suc, ◌+◌, ◌-◌, ◌*◌, ◌≤◌, ◌<◌, ◌≡◌, refl, ap, ◌∙◌, true, Option, some, List, [], ◌∷◌,
  arith, leb, ==_self, length, length-append, get_or, take, drop, take_front, drop_front,
}
use pico_all.Audit.Journal.{
  rd32, Journal, slot, chunks, joined, decode, encode, numbered, record_valid, load,
}
use pico_all.Audit.Log.{IsJournal}

joined-length :
    (k : ℕ) (s : List (List ℕ))
    → length s ≡ k
    → ((i : ℕ) → i < k → length (get_or s i []) ≡ 20)
    → length (joined s) ≡ k * 20
joined-length zero [] e h = refl
joined-length zero (x ∷ s) e h = absurd (omega (arith, e))
joined-length (suc k) [] e h = absurd (omega (arith, e))
joined-length (suc k) (x ∷ s) e h = omega (
  arith,
  length-append x (joined s),
  h 0 (omega arith),
  joined-length k s (omega (arith, e)) (λ i lt. h (suc i) (omega (arith, lt))),
)

encode-length : (j : Journal) → IsJournal j → length (encode j) ≡ 2601
unfolding encode
encode-length j w = omega (
  arith,
  length-append j.anchor (joined j.slots),
  w.anchor_length,
  joined-length 128 j.slots w.slots_length w.entry_length,
)

same_fields :
    (j : Journal) (v n s : ℕ) (a : List ℕ) (sl : List (List ℕ))
    → v ≡ j.version
    → n ≡ j.next
    → s ≡ j.start
    → a ≡ j.anchor
    → sl ≡ j.slots
    → record { version = v; next = n; start = s; anchor = a; slots = sl } ≡ j
same_fields j v n s a sl ev en es ea el = rw (ev, en, es, ea, el) refl

decode-encode : (j : Journal) → IsJournal j → decode (encode j) ≡ j
unfolding decode encode
decode-encode j w =
    same_fields j j.version (rd32 (encode j) 1) (rd32 (encode j) 5) (take 32 (drop 9 (encode j)))
      (chunks 128 (drop 41 (encode j))) refl (omega (arith, w.next_fits))
      (omega (arith, w.next_fits, w.started))
      (take_front j.anchor (joined j.slots) 32 w.anchor_length)
      (ap (λ b. chunks 128 b) (drop_front j.anchor (joined j.slots) 32 w.anchor_length)
        ∙ chunks-joined 128 j.slots w.slots_length w.entry_length)

numbered-true :
    (j : Journal) (n k : ℕ)
    → ((m : ℕ) → n ≤ m → m < n + k → rd32 (slot j m) 0 ≡ m)
    → numbered j n k ≡ true
numbered-true j n zero h = refl
numbered-true j n (suc k) h =
    rw (h n (omega arith) (omega arith), ==_self n)
      (numbered-true j (n + 1) k (λ m a b. h m (omega (arith, a)) (omega (arith, b))))

le→leb : (a b : ℕ) → a ≤ b → leb a b ≡ true
le→leb a b h = ground arith

record_valid-IsJournal : (j : Journal) → IsJournal j → record_valid j ≡ true
unfolding record_valid
record_valid-IsJournal j w =
    rw
      (
        w.version_one,
        le→leb j.start j.next w.started,
        le→leb (j.next - j.start) 128 (omega (arith, w.window)),
        numbered-true j j.start (j.next - j.start)
            (λ m a b. w.own_number m a (omega (arith, b, a, w.started))),
      )
      refl

load_bytes :
    (sha : List ℕ → Option (List ℕ)) (serial b : List ℕ) (j : Journal)
    → length b ≡ 2601
    → decode b ≡ j
    → record_valid j ≡ true
    → load sha serial b ≡ some j
unfolding load
load_bytes sha serial [] j e d v = absurd (omega (arith, e))
load_bytes sha serial (x ∷ b) j e d v = rw (e, d, v) refl

-- A journal that is saved is read back as it is.
pub load-encode :
    (sha : List ℕ → Option (List ℕ)) (serial : List ℕ) (j : Journal)
    → IsJournal j
    → load sha serial (encode j) ≡ some j
load-encode sha serial j w =
    load_bytes sha serial (encode j) j (encode-length j w) (decode-encode j w)
      (record_valid-IsJournal j w)
