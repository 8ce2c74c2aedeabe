-- ===== src/Audit/Log.antt =====
-- The journal of src/fido/audit.c as an abstract log: what a journal stands for, and that the
-- operations on it do to the log what they should.
use pico_all.Base.{
  ℕ, zero, suc, ◌+◌, ◌-◌, ◌%◌, ◌≤◌, ◌<◌, ◌≡◌, refl, sym, ap, ◌∙◌, ◌≢◌, ◌⊎◌, inl, inr, Option, none,
  some, List, [], ◌∷◌, ◌++◌, arith, ◌==◌, Bool-cases, length, set, length-append, length-set,
  get_or, take, drop, get_or-set_self, get_or-set_ne, get_or_front, take_shorter, take_next,
  drop_next, set-cases, get_or_end,
}
use pico_all.Bytes.{IsU32}
use pico_all.Audit.Journal.{rd32, Journal, slot, and_then, chain, chain_slots, chain_all}
use pico_all.Audit.Append.{write_entry, make_room}

-- The window of a journal: its size and the numbers of its retained entries.
pub record IsJournal (j : Journal) : Type 0 where
  pub version_one : j.version ≡ 1
  pub next_fits : IsU32 j.next
  pub started : j.start ≤ j.next
  pub window : j.next ≤ j.start + 128
  pub anchor_length : length j.anchor ≡ 32
  pub slots_length : length j.slots ≡ 128
  pub entry_length : (i : ℕ) → i < 128 → length (get_or j.slots i []) ≡ 20
  pub own_number : (n : ℕ) → j.start ≤ n → n < j.next → rd32 (slot j n) 0 ≡ n

-- `log` is all that was ever recorded, from entry 0 on: the anchor is the hash chain over what has
-- left the window, and the window shows the rest.
pub record Represents (sha : List ℕ → Option (List ℕ)) (seed : List ℕ) (log : List (List ℕ))
    (j : Journal) : Type 0 where
  pub count : length log ≡ j.next
  pub anchored : chain_all sha seed (take j.start log) ≡ some j.anchor
  pub shown : (n : ℕ) → j.start ≤ n → n < j.next → slot j n ≡ get_or log n []

pub below_or_last : (n m : ℕ) → n < m + 1 → (n < m) ⊎ (n ≡ m)
below_or_last n m h = grind arith

pub slots_set_self :
    (s : List (List ℕ)) (n : ℕ) (e : List ℕ)
    → length s ≡ 128
    → get_or (set s (n % 128) e) (n % 128) [] ≡ e
slots_set_self s n e h = get_or-set_self s (n % 128) e [] (omega (arith, h))

pub entry_length-set :
    (s : List (List ℕ)) (k : ℕ) (e : List ℕ)
    → length e ≡ 20
    → ((i : ℕ) → i < 128 → length (get_or s i []) ≡ 20)
    → (i : ℕ) → i < 128
    → length (get_or (set s k e) i []) ≡ 20
entry_length-set s k e size h i lt = elim (set-cases s k i e []) [
  | inl new ↦ ap (λ (l : List ℕ). length l) new ∙ size
  | inr same ↦ ap (λ (l : List ℕ). length l) same ∙ h i lt
]

-- Places of different entries in one window differ.
pub place_ne : (n m : ℕ) → m < n → n < m + 128 → n % 128 ≢ m % 128
place_ne n m h k e = omega (arith, h, k, e)

and_then_assoc {ℓ} :
    {A : Type ℓ} (o : Option A) (f g k : A → Option A)
    → ((a : A) → k a ≡ and_then (f a) g)
    → and_then o k ≡ and_then (and_then o f) g
and_then_assoc none f g k h = refl
and_then_assoc (some a) f g k h = h a

and_then_same {ℓ κ} :
    {A : Type ℓ} {B : Type κ} (o : Option A) (f g : A → Option B)
    → ((a : A) → f a ≡ g a)
    → and_then o f ≡ and_then o g
and_then_same none f g h = refl
and_then_same (some a) f g h = h a

-- A result that meets a predicate where there is one.
abbrev pub IfSome {ℓ} : {A : Type ℓ} → (A → Type 0) → Option A → Type 0
IfSome P none = Unit {0}
IfSome P (some a) = P a

unfoldable pub IfSome-and_then {ℓ κ} :
    {A : Type ℓ} {B : Type κ} (P : A → Type 0) (Q : B → Type 0) (o : Option A) (f : A → Option B)
    → IfSome P o
    → ((a : A) → P a → IfSome Q (f a))
    → IfSome Q (and_then o f)
IfSome-and_then P Q none f h k = tt
IfSome-and_then P Q (some a) f h k = k a h

module _ (sha : List ℕ → Option (List ℕ)) where
  pub chain_all-append :
      (h : List ℕ) (es fs : List (List ℕ))
      → chain_all sha h (es ++ fs) ≡ and_then (chain_all sha h es) (λ h'. chain_all sha h' fs)
  chain_all-append h [] fs = refl
  chain_all-append h (e ∷ es) fs =
      and_then_assoc (sha (h ++ e)) (λ h'. chain_all sha h' es) (λ h'. chain_all sha h' fs)
        (λ h'. chain_all sha h' (es ++ fs)) (λ h'. chain_all-append h' es fs)

  -- Over entries that a log shows, the loop over the slots is the chain over a part of the log.
  pub chain_slots_log :
      (j : Journal) (log : List (List ℕ)) (h : List ℕ) (n k : ℕ)
      → n + k ≤ length log
      → ((m : ℕ) → n ≤ m → m < n + k → slot j m ≡ get_or log m [])
      → chain_slots sha j h n k ≡ chain_all sha h (take k (drop n log))
  chain_slots_log j log h n zero le shown = refl
  chain_slots_log j log h n (suc k) le shown =
      let e : take (suc k) (drop n log) ≡ get_or log n [] ∷ take k (drop (n + 1) log) =
        rw (drop_next log n [] (omega (arith, le))) refl in
      rw (e, shown n (omega arith) (omega arith))
        (and_then_same (sha (h ++ get_or log n [])) (λ h'. chain_slots sha j h' (n + 1) k)
          (λ h'. chain_all sha h' (take k (drop (n + 1) log)))
          (λ h'.
            chain_slots_log j log h' (n + 1) k (omega (arith, le))
              (λ m a b. shown m (omega (arith, a)) (omega (arith, b)))))

  -- One link more of the chain.
  chain_all_next :
      (h a a' : List ℕ) (log : List (List ℕ)) (n : ℕ)
      → n < length log
      → chain_all sha h (take n log) ≡ some a
      → sha (a ++ get_or log n []) ≡ some a'
      → chain_all sha h (take (n + 1) log) ≡ some a'
  chain_all_next h a a' log n le e f =
      rw (take_next log n [] le, chain_all-append h (take n log) (get_or log n [] ∷ []), e, f) refl

  -- A journal of the log that starts its next entry with `n`.
  abbrev pub Logged : List ℕ → List (List ℕ) → ℕ → Journal → Type 0
  Logged seed log n j = IsJournal j × Represents sha seed log j × (j.next ≡ n)

  abbrev pub HasRoom : Journal → Type 0
  HasRoom j = j.next < j.start + 128

  module _ (digest_length : (m d : List ℕ) → sha m ≡ some d → length d ≡ 32) (seed : List ℕ)
      (log : List (List ℕ)) (j : Journal) (w : IsJournal j) (r : Represents sha seed log j) where
    fold_oldest :
        (a : List ℕ)
        → chain sha j.anchor (slot j j.start) ≡ some a
        → j.start < j.next
        → Logged seed log j.next (record j { anchor = a; start = j.start + 1 })
    fold_oldest a e lt = (
      record {
        version_one = w.version_one;
        next_fits = w.next_fits;
        started = omega (arith, lt);
        window = omega (arith, w.window);
        anchor_length = digest_length (j.anchor ++ slot j j.start) a e;
        slots_length = w.slots_length;
        entry_length = w.entry_length;
        own_number = λ n b c. w.own_number n (omega (arith, b)) c;
      },
      record {
        count = r.count;
        anchored =
            chain_all_next seed j.anchor a log j.start (omega (arith, r.count, lt)) r.anchored
              (rw (← r.shown j.start (omega arith) lt) e);
        shown = λ n b c. r.shown n (omega (arith, b)) c;
      },
      refl,
    )

    pub make_room-Logged : IfSome (λ j'. Logged seed log j.next j' × HasRoom j') (make_room sha j)
    unfolding make_room
    make_room-Logged = elim (Bool-cases (j.next - j.start == 128)) [
      | inl full ↦ rw full (folded (chain sha j.anchor (slot j j.start)) refl (ground arith))
      | inr there ↦ rw there ((w, r, refl), (ground (arith, w.window, w.started)))
    ]
      where
        folded :
            (o : Option (List ℕ))
            → chain sha j.anchor (slot j j.start) ≡ o
            → j.next - j.start ≡ 128
            → IfSome
                (λ j'. Logged seed log j.next j' × HasRoom j')
                (and_then o (λ a. some (record j { anchor = a; start = j.start + 1 })))
        folded none e h = tt
        folded (some a) e h = (fold_oldest a e (omega (arith, h)), omega (arith, h))

  -- An entry of 20 bytes with its own number, written behind a log that leaves room for it.
  pub write_entry-Logged :
      (seed : List ℕ) (log : List (List ℕ)) (e : List ℕ) (j : Journal)
      → length e ≡ 20
      → rd32 e 0 ≡ j.next
      → j.next < 4294967295
      → HasRoom j
      → Logged seed log j.next j
      → Logged seed (log ++ e ∷ []) (j.next + 1) (write_entry e j)
  write_entry-Logged seed log e j size number below room (w, r, same) = (
    record {
      version_one = w.version_one;
      next_fits = omega (arith, below);
      started = omega (arith, w.started);
      window = omega (arith, room);
      anchor_length = w.anchor_length;
      slots_length = length-set j.slots (j.next % 128) e ∙ w.slots_length;
      entry_length = entry_length-set j.slots (j.next % 128) e size w.entry_length;
      own_number = λ n a b. elim (below_or_last n j.next b) [
        | inl lt ↦ rw (old n a lt) (w.own_number n a lt)
        | inr same ↦ rw (same, slots_set_self j.slots j.next e w.slots_length) number
      ];
    },
    record {
      count = omega (arith, r.count, length-append log (e ∷ []));
      anchored =
          rw (take_shorter log (e ∷ []) j.start (omega (arith, r.count, w.started))) r.anchored;
      shown = λ n a b. elim (below_or_last n j.next b) [
        | inl lt ↦
            rw (old n a lt, get_or_front log (e ∷ []) n [] (omega (arith, r.count, lt)))
              (r.shown n a lt)
        | inr same ↦
            rw (same, slots_set_self j.slots j.next e w.slots_length)
              (sym (get_or_end log e [] j.next r.count))
      ];
    },
    refl,
  )
    where
      old :
          (n : ℕ)
          → j.start ≤ n
          → n < j.next
          → get_or (set j.slots (j.next % 128) e) (n % 128) [] ≡ slot j n
      old n a lt =
          get_or-set_ne j.slots (j.next % 128) (n % 128) e []
            (place_ne j.next n lt (omega (arith, a, room)))
