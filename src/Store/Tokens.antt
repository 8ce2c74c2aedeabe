-- ===== src/Store/Tokens.antt =====
-- The tokens of handles: the loop that `file_object_txn_allocate_token` and
-- `file_object_allocate_handle` share, over a test of the tokens in use.
use pico_all.Base.{
  ℕ, zero, suc, ◌+◌, ◌%◌, ◌<◌, ◌≡◌, sym, subst, ◌≢◌, inl, inr, Bool, true, false, not, ◌&&◌, ◌||◌,
  List, [], ◌∷◌, arith, ◌==◌, if◌then◌else◌, Bool-cases, length,
}

-- The loop, in rounds: the token, and the counter behind it.
unfoldable pub allocate_loop : (ℕ → Bool) → ℕ → ℕ → ℕ × ℕ
allocate_loop in_use zero next = (0, next)
allocate_loop in_use (suc rounds) next =
    let following = (next + 1) % 4294967296 in
    let again = allocate_loop in_use rounds following in
    if not (next == 0) && not (in_use next) then (next, following) else again

-- A token that is free to be returned.
abbrev pub IsFresh : (ℕ → Bool) → ℕ → Type 0
IsFresh in_use token = (token ≢ 0) × (token < 4294967296) × (in_use token ≡ false)

abbrev pub contains : ℕ → List ℕ → Bool
contains n [] = false
contains n (m ∷ ms) = m == n || contains n ms

abbrev remove : ℕ → List ℕ → List ℕ
remove n [] = []
remove n (m ∷ ms) = let rest = remove n ms in if m == n then ms else m ∷ rest

length-remove : (n : ℕ) (ms : List ℕ) → contains n ms ≡ true → length ms ≡ 1 + length (remove n ms)
length-remove n [] h = ground arith
length-remove n (m ∷ ms) h = ground (arith, length-remove n ms)

contains-remove :
    (n k : ℕ) (ms : List ℕ) → k ≢ n → contains k ms ≡ true → contains k (remove n ms) ≡ true
contains-remove n k [] ne h = h
contains-remove n k (m ∷ ms) ne h = ground (arith, contains-remove n k ms)

-- Adding one to a word often enough gives another word.
later-differs : (x k : ℕ) → x < 4294967296 → k + 1 < 4294967296 → (x + 1 + k) % 4294967296 ≢ x
later-differs x k hx hk = omega arith

module _ (in_use : ℕ → Bool) where
  abbrev is_free : ℕ → Bool
  is_free token = not (token == 0) && not (in_use token)

  -- The words that the next rounds come to are passed over only where they are in the list.
  abbrev Listed : ℕ → ℕ → List ℕ → Type 0
  Listed rounds next ms =
      (k : ℕ)
      → k < rounds
      → is_free ((next + k) % 4294967296) ≡ false
      → contains ((next + k) % 4294967296) ms ≡ true

  Listed-next :
      (rounds next : ℕ) (ms : List ℕ)
      → next < 4294967296
      → suc rounds < 4294967296
      → Listed (suc rounds) next ms
      → Listed rounds ((next + 1) % 4294967296) (remove next ms)
  Listed-next rounds next ms hn hr h k hk =
      let same : (next + suc k) % 4294967296 ≡ ((next + 1) % 4294967296 + k) % 4294967296 =
        omega arith in
      λ taken.
        contains-remove next (((next + 1) % 4294967296 + k) % 4294967296) ms
          (λ e. later-differs next k hn (omega arith) (omega (arith, e)))
          (subst (λ n. contains n ms ≡ true) same
            (h (suc k) (omega arith) (subst (λ n. is_free n ≡ false) (sym same) taken)))

  word : (n : ℕ) → n < 4294967296 → (n + 0) % 4294967296 ≡ n
  word n h = omega arith

  rounds-IsFresh :
      (rounds next : ℕ) (ms : List ℕ)
      → next < 4294967296
      → rounds < 4294967296
      → length ms < rounds
      → Listed rounds next ms
      → IsFresh in_use (allocate_loop in_use rounds next).0
  unfolding allocate_loop
  rounds-IsFresh zero next ms hn hr size h = elim size [ ]
  rounds-IsFresh (suc rounds) next ms hn hr size h = elim (Bool-cases (is_free next)) [
    | inl free ↦ rw free (ground arith)
    | inr taken ↦
        let here : contains next ms ≡ true =
          subst (λ n. contains n ms ≡ true) (word next hn)
            (h 0 (omega arith) (subst (λ n. is_free n ≡ false) (sym (word next hn)) taken)) in
        rw taken (
          rounds-IsFresh rounds ((next + 1) % 4294967296) (remove next ms) (omega arith)
            (omega arith) (omega (arith, size, length-remove next ms here))
            (Listed-next rounds next ms hn hr h))
  ]

-- For a test of the tokens in use that holds only of listed ones, and a counter in the range of its
-- C type: with two rounds more than listed tokens, the loop returns a token that is not 0 and not
-- in use.
pub allocate_loop-IsFresh :
    (in_use : ℕ → Bool) (tokens : List ℕ) (next : ℕ)
    → ((n : ℕ) → in_use n ≡ true → contains n tokens ≡ true)
    → next < 4294967296
    → length tokens + 2 < 4294967296
    → IsFresh in_use (allocate_loop in_use (length tokens + 2) next).0
allocate_loop-IsFresh in_use tokens next listed hn small =
    rounds-IsFresh in_use (length tokens + 2) next (0 ∷ tokens) hn small (omega arith)
      (λ k hk. not_free ((next + k) % 4294967296))
  where
    not_free : (n : ℕ) → is_free in_use n ≡ false → contains n (0 ∷ tokens) ≡ true
    not_free n h = ground (arith, listed n)
