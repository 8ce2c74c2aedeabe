-- ===== src/Audit/Loaded.antt =====
-- What `load` of src/fido/audit.c accepts is a journal with its window in order.
use pico_all.Audit.History.{fresh-Logged}
use pico_all.Base.{
  ℕ, zero, suc, ◌+◌, ◌-◌, ◌*◌, ◌≤◌, ◌<◌, ◌≡◌, refl, ap, subst, inl, inr, Bool, true, false, ◌&&◌,
  Option, none, some, List, [], ◌∷◌, ◌++◌, arith, leb, ◌==◌, leb→le, Bool-cases, length, get_or,
  drop, replicate, length-take, length-drop,
}
use pico_all.Bytes.{IsU32, AllBytes, byte_at-IsByte, AllBytes-drop, AllBytes-take}
use pico_all.Audit.Journal.{
  rd32, Journal, slot, chunks, decode, and_then, numbered, record_valid, genesis_tag, fresh, load,
}
use pico_all.Audit.Log.{IsJournal}

chunks-length : (k : ℕ) (b : List ℕ) → length (chunks k b) ≡ k
unfolding chunks
chunks-length zero b = refl
chunks-length (suc k) b = ap suc (chunks-length k (drop 20 b))

chunk-length :
    (k i : ℕ) (b : List ℕ) → length b ≡ k * 20 → i < k → length (get_or (chunks k b) i []) ≡ 20
unfolding chunks
chunk-length zero i b e lt = absurd (omega (arith, lt))
chunk-length (suc k) zero b e lt = omega (arith, length-take 20 b, e)
chunk-length (suc k) (suc i) b e lt =
    chunk-length k i (drop 20 b) (omega (arith, length-drop 20 b, e)) (omega (arith, lt))

chunk-AllBytes : (k i : ℕ) (b : List ℕ) → AllBytes b → AllBytes (get_or (chunks k b) i [])
unfolding chunks
chunk-AllBytes zero i b h = tt
chunk-AllBytes (suc k) zero b h = AllBytes-take 20 b h
chunk-AllBytes (suc k) (suc i) b h = chunk-AllBytes k i (drop 20 b) (AllBytes-drop 20 b h)

rd32-IsU32 : (b : List ℕ) (i : ℕ) → AllBytes b → IsU32 (rd32 b i)
rd32-IsU32 b i h = omega (
  arith,
  byte_at-IsByte b i h,
  byte_at-IsByte b (i + 1) h,
  byte_at-IsByte b (i + 2) h,
  byte_at-IsByte b (i + 3) h,
)

and_parts : (a b : Bool) → (a && b) ≡ true → (a ≡ true) × (b ≡ true)
and_parts true b e = (refl, e)
and_parts false b e = ground (arith, e)

same_number : (a b : ℕ) → (a == b) ≡ true → a ≡ b
same_number a b h = ground arith

numbered-own :
    (j : Journal) (n k : ℕ)
    → numbered j n k ≡ true
    → (m : ℕ) → n ≤ m
    → m < n + k
    → rd32 (slot j m) 0 ≡ m
numbered-own j n zero e m a b = absurd (omega (arith, a, b))
numbered-own j n (suc k) e m a b =
    let (here, later) = and_parts (rd32 (slot j n) 0 == n) (numbered j (n + 1) k) e in
    elim (Bool-cases (n == m)) [
      | inl same ↦
          let e : n ≡ m = same_number n m same in rw (← e) (same_number (rd32 (slot j n) 0) n here)
      | inr other ↦ numbered-own j (n + 1) k later m (ground (arith, a, other)) (omega (arith, b))
    ]

record_valid-parts :
    (j : Journal)
    → record_valid j ≡ true
    → (j.version ≡ 1)
      × (j.start ≤ j.next)
      × (j.next ≤ j.start + 128)
      × (numbered j j.start (j.next - j.start) ≡ true)
unfolding record_valid
record_valid-parts j valid =
    let one_test = j.version == 1 in
    let order_test = leb j.start j.next in
    let size_test = leb (j.next - j.start) 128 in
    let number_test = numbered j j.start (j.next - j.start) in
    let (rest, numbers) = and_parts (one_test && order_test && size_test) number_test valid in
    let (rest', size) = and_parts (one_test && order_test) size_test rest in
    let (one, order) = and_parts one_test order_test rest' in
    (
      same_number j.version 1 one,
      leb→le j.start j.next order,
      omega (arith, leb→le (j.next - j.start) 128 size),
      numbers,
    )

decode-IsJournal :
    (b : List ℕ)
    → length b ≡ 2601
    → AllBytes b
    → record_valid (decode b) ≡ true
    → IsJournal (decode b) × ((i : ℕ) → AllBytes (get_or (decode b).slots i []))
unfolding decode
decode-IsJournal b size h valid =
    let (one, order, fits, numbers) = record_valid-parts (decode b) valid in
    (
      record {
        version_one = one;
        next_fits = rd32-IsU32 b 1 h;
        started = order;
        window = fits;
        anchor_length = omega (arith, length-take 32 (drop 9 b), length-drop 9 b, size);
        slots_length = chunks-length 128 (drop 41 b);
        entry_length =
            λ i lt. chunk-length 128 i (drop 41 b) (omega (arith, length-drop 41 b, size)) lt;
        own_number = λ n a lt.
            numbered-own (decode b) (rd32 b 5) (rd32 b 1 - rd32 b 5) numbers n a
              (omega (arith, lt, order));
      },
      λ i. chunk-AllBytes 128 i (drop 41 b) (AllBytes-drop 41 b h),
    )

empty-AllBytes : (n i : ℕ) → AllBytes (get_or (replicate n (replicate 20 0)) i [])
empty-AllBytes zero i = tt
empty-AllBytes (suc n) zero = zeros-AllBytes 20
  where
    zeros-AllBytes : (n : ℕ) → AllBytes (replicate n 0)
    zeros-AllBytes zero = tt
    zeros-AllBytes (suc n) = (omega arith, zeros-AllBytes n)
empty-AllBytes (suc n) (suc i) = empty-AllBytes n i

some_injective : (a b : Journal) → some a ≡ some b → a ≡ b
some_injective a b e = cc

accepted :
    {j : Journal} (j' : Journal)
    → some j' ≡ some j
    → IsJournal j' × ((i : ℕ) → AllBytes (get_or j'.slots i []))
    → IsJournal j × ((i : ℕ) → AllBytes (get_or j.slots i []))
accepted {j} j' e h =
    subst (λ (k : Journal). IsJournal k × ((i : ℕ) → AllBytes (get_or k.slots i [])))
      (some_injective j' j e) h

refused_load : {j : Journal} {P : Type 0} → none ≡ some j → P
refused_load e = ground (arith, e)

-- What `load` accepts, from a file of bytes, has its window in order and bytes in its slots.
pub load-IsJournal :
    (sha : List ℕ → Option (List ℕ))
    → ((m d : List ℕ) → sha m ≡ some d → length d ≡ 32)
    → (serial b : List ℕ) (j : Journal) → AllBytes b
    → load sha serial b ≡ some j
    → IsJournal j × ((i : ℕ) → AllBytes (get_or j.slots i []))
unfolding load
load-IsJournal sha digest_length serial [] j h e = begun (sha (genesis_tag ++ serial)) refl e
  where
    begun :
        (o : Option (List ℕ))
        → sha (genesis_tag ++ serial) ≡ o
        → and_then o (λ seed. some (fresh seed)) ≡ some j
        → IsJournal j × ((i : ℕ) → AllBytes (get_or j.slots i []))
    begun none k e = ground (arith, e)
    begun (some seed) k e = accepted (fresh seed) e (
      (fresh-Logged sha seed (digest_length (genesis_tag ++ serial) seed k)).0,
      empty-AllBytes 128,
    )
load-IsJournal sha digest_length serial (x ∷ b) j h e = elim (Bool-cases (length (x ∷ b) == 2601)) [
  | inl size ↦ elim (Bool-cases (record_valid (decode (x ∷ b)))) [
    | inl valid ↦
        accepted (decode (x ∷ b)) (rw (size, valid) at e)
          (decode-IsJournal (x ∷ b) (same_number (length (x ∷ b)) 2601 size) h valid)
    | inr bad ↦ refused_load (rw (size, bad) at e)
  ]
  | inr other ↦ refused_load (rw other at e)
]
