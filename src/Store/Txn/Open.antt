-- ===== src/Store/Txn/Open.antt =====
-- Opening an object: `file_object_txn_allocate_token` and `file_object_txn_open`.
use pico_all.Base.{
  ℕ, suc, ◌+◌, ◌≡◌, refl, ap, subst, ◌≢◌, inl, inr, Bool, true, false, not, Option, none, some,
  List, [], ◌∷◌, arith, ◌==◌, if◌then◌else◌, ==_self, Bool-cases, Option-cases, length,
}
use pico_all.Bytes.{IsU32, err_no_memory, err_null_param, err_file_not_found, Result, ok, err}
use pico_all.Store.Files.{FileSystem}
use pico_all.Store.Tokens.{allocate_loop, IsFresh, contains, allocate_loop-IsFresh}
use pico_all.Store.Txn.Layout.{Authenticator, Layout, TxnState, layout_valid}
use pico_all.Store.Txn.Recover.{recover}
use pico_all.Store.Txn.Handles.{HandleEntry, find_entry, find_handle}

-- `file_object_txn_handles` and `file_object_txn_next_handle`
pub record Handles : Type 0 where
  pub table : List HandleEntry
  pub next : ℕ

-- `file_object_txn_find_handle(handle) != NULL`
unfoldable pub handle_in_use : List HandleEntry → ℕ → Bool
unfolding find_handle
handle_in_use table handle = elim (find_handle table handle) [ none ↦ false | some e ↦ true ]

-- `file_object_txn_allocate_token`: the token, and the counter behind it. There is a round for the
-- token 0, one for each entry and one more.
unfoldable pub allocate_token : Handles → ℕ × ℕ
unfolding allocate_loop
allocate_token h = allocate_loop (handle_in_use h.table) (length h.table + 2) h.next

-- The loop of `file_object_txn_open`: the first free entry is written.
unfoldable pub place_entry : HandleEntry → List HandleEntry → Option (List HandleEntry)
place_entry entry [] = none
place_entry entry (e ∷ es) =
    let rest = place_entry entry es in
    if e.token == 0
    then some (entry ∷ es)
    else elim rest [ none ↦ none | some es' ↦ some (e ∷ es') ]

-- The end of `file_object_txn_open`, behind the recovery.
unfoldable pub open_entry : Handles → Layout → TxnState → Handles × Result ℕ
unfolding place_entry
open_entry h l s =
    let (token, next) = allocate_token h in
    elim (place_entry (record { layout = l; state = s; token = token }) h.table) [
      | none ↦ (h, err err_no_memory)
      | some table ↦ (record { table = table; next = next }, ok token)
    ]

module _ (files : FileSystem) where
  -- `file_object_txn_open`, with its pointers not null. An authenticator with a callback missing is
  -- none.
  unfoldable pub txn_open :
      (ℕ → List ℕ) → Handles → Layout → Option Authenticator → Handles × Result ℕ
  unfolding open_entry
  txn_open contents h l none = (h, err err_null_param)
  txn_open contents h l (some auth) =
      if not (layout_valid files l)
      then (h, err err_null_param)
      else elim (recover auth contents l) [
        | err c ↦ (h, err c)
        | ok s ↦ if s.deleted then (h, err err_file_not_found) else open_entry h l s
      ]

-- A table of the source's size, and a counter that is a `uint32_t`.
pub record HandlesFit (h : Handles) : Type 0 where
  pub table_size : length h.table ≡ 4
  pub next_width : IsU32 h.next

tokens : List HandleEntry → List ℕ
tokens [] = []
tokens (e ∷ es) = e.token ∷ tokens es

length-tokens : (table : List HandleEntry) → length (tokens table) ≡ length table
unfolding tokens
length-tokens [] = refl
length-tokens (e ∷ es) = ap suc (length-tokens es)

handle_in_use-contains :
    (table : List HandleEntry) (n : ℕ)
    → handle_in_use table n ≡ true
    → contains n (tokens table) ≡ true
unfolding handle_in_use find_handle tokens
handle_in_use-contains table n h = elim (Bool-cases (n == 0)) [
  | inl nothing ↦ ground (arith, rw (nothing, handle_in_use, find_handle) at h)
  | inr other ↦ entries table (rw (other, handle_in_use, find_handle) at h)
]
  where
    entries :
        (es : List HandleEntry)
        → (elim (find_entry es n) as (λ _. Bool) [ none ↦ false | some e ↦ true ]) ≡ true
        → contains n (tokens es) ≡ true
    entries [] k = ground arith
    entries (e ∷ es) k = elim (Bool-cases (e.token == n)) [
      | inl same ↦ rw same refl
      | inr differs ↦ rw differs (entries es (rw differs at k))
    ]

-- For a table of four entries and a counter in range: the token that file_object_txn_allocate_token
-- returns is not 0, is a uint32_t, and is no entry's.
pub allocate_token-IsFresh :
    (h : Handles) → HandlesFit h → IsFresh (handle_in_use h.table) (allocate_token h).0
unfolding allocate_token
allocate_token-IsFresh h fits =
    subst
      (λ n.
        IsFresh (handle_in_use h.table) (allocate_loop (handle_in_use h.table) (n + 2) h.next).0)
      (length-tokens h.table)
      (allocate_loop-IsFresh (handle_in_use h.table) (tokens h.table) h.next
        (handle_in_use-contains h.table) fits.next_width
        (omega (arith, length-tokens h.table, fits.table_size)))

-- The table with the entry put in.
abbrev pub Placed : HandleEntry → List HandleEntry → List HandleEntry → Type 0
Placed entry table table' =
    (length table' ≡ length table)
    × (find_entry table' entry.token ≡ some entry)
    × ((n : ℕ) → n ≢ entry.token → n ≢ 0 → find_entry table' n ≡ find_entry table n)

some_injective {ℓ} : {A : Type ℓ} (a b : A) → some a ≡ some b → a ≡ b
some_injective a b e = cc

place_here :
    (entry x : HandleEntry) (xs : List HandleEntry)
    → x.token ≡ 0
    → Placed entry (x ∷ xs) (entry ∷ xs)
place_here entry x xs e = (
  refl,
  rw (==_self entry.token) refl,
  λ n ne nz.
      let differs : (entry.token == n) ≡ false = ground arith in
      let free : (x.token == n) ≡ false = ground arith in rw (differs, free) refl,
)

place_behind :
    (entry x : HandleEntry) (xs ys : List HandleEntry)
    → find_entry (x ∷ xs) entry.token ≡ none
    → (find_entry xs entry.token ≡ none → Placed entry xs ys)
    → Placed entry (x ∷ xs) (x ∷ ys)
place_behind entry x xs ys free h = elim (Bool-cases (x.token == entry.token)) [
  | inl same ↦ ground (arith, rw same at free)
  | inr differs ↦
      let (size, found, kept) = h (rw differs at free) in
      (
        ap suc size,
        rw differs found,
        λ n ne nz. ap (λ r. if x.token == n then some x else r) (kept n ne nz),
      )
]

pub place_entry-Placed :
    (entry : HandleEntry) (table table' : List HandleEntry)
    → find_entry table entry.token ≡ none
    → place_entry entry table ≡ some table'
    → Placed entry table table'
unfolding place_entry
place_entry-Placed entry [] table' free e = ground arith
place_entry-Placed entry (x ∷ xs) table' free e = elim (Bool-cases (x.token == 0)) [
  | inl empty ↦
      subst (Placed entry (x ∷ xs)) (some_injective (entry ∷ xs) table' (rw empty at e))
        (place_here entry x xs (ground arith))
  | inr used ↦ elim (Option-cases (place_entry entry xs)) [
    | inl full ↦ ground (arith, rw (used, full) at e)
    | inr (ys, placed) ↦
        subst (Placed entry (x ∷ xs)) (some_injective (x ∷ ys) table' (rw (used, placed) at e))
          (place_behind entry x xs ys free (λ k. place_entry-Placed entry xs ys k placed))
  ]
]
