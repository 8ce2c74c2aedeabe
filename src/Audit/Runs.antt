-- ===== src/Audit/Runs.antt =====
-- Runs of an event in src/fido/audit.c: which entry the walk of `append` finds, and what it does to
-- the log when it counts the entry up.
use pico_all.Audit.Appended.{rd32-set}
use pico_all.Base.{
  ℕ, zero, suc, ◌+◌, ◌-◌, ◌/◌, ◌%◌, ◌≤◌, ◌<◌, bit_and, bit_or, ◌≡◌, refl, sym, ap, ◌∙◌, ◌≢◌, inl,
  inr, false, not, ◌&&◌, Option, none, some, List, arith, ◌==◌, Bool-cases, length, set, length-set,
  get_or-set_self, get_or-set_ne,
}
use pico_all.Bytes.{byte_at}
use pico_all.Audit.Journal.{rd32, Journal, slot}
use pico_all.Audit.Append.{count_offset, get_count, count_up, aux_mask, bump_count, bump, find_run}

-- The event of an entry, without the mark of its clock.
abbrev pub event_of : List ℕ → ℕ
event_of e = bit_and (byte_at e 8) 127

-- The newest entry in the window with an event, which has to be the newest of all for
-- `AUDIT_CONFIG_WRITE`; or that there is none.
abbrev pub IsNewestRun : Journal → ℕ → Option ℕ → Type 0
IsNewestRun j ev none =
    (m : ℕ) → j.start ≤ m → m < j.next → (ev ≡ 21 → m + 1 ≡ j.next) → event_of (slot j m) ≢ ev
IsNewestRun j ev (some m) =
    (j.start ≤ m)
    × (m < j.next)
    × (event_of (slot j m) ≡ ev)
    × (ev ≡ 21 → m + 1 ≡ j.next)
    × ((i : ℕ) → m < i → i < j.next → event_of (slot j i) ≢ ev)

pub find_run-newest :
    (j : Journal) (ev n k : ℕ)
    → n ≡ j.start + k
    → n ≤ j.next
    → ((i : ℕ) → n ≤ i → i < j.next → event_of (slot j i) ≢ ev)
    → IsNewestRun j ev (find_run j ev n k)
find_run-newest j ev n zero e le later = λ m a lt adm. later m (omega (arith, e, a)) lt
find_run-newest j ev n (suc k) e le later = elim (Bool-cases (ev == 21 && not (n == j.next))) [
  | inl stop ↦ rw stop (λ m a lt adm. later m (ground (arith, stop, adm, le, lt)) lt)
  | inr walk ↦ rw walk (elim (Bool-cases (event_of (slot j (n - 1)) == ev)) [
    | inl found ↦ rw found (
      omega (arith, e),
      omega (arith, e, le),
      ground (arith, found),
      (λ config. ground (arith, config, walk, e)),
      λ i a b. later i (omega (arith, a)) b,
    )
    | inr other ↦
        rw other
          (find_run-newest j ev (n - 1) k (omega (arith, e)) (omega (arith, le)) (earlier other))
  ])
]
  where
    earlier :
        (event_of (slot j (n - 1)) == ev) ≡ false
        → (i : ℕ) → n - 1 ≤ i
        → i < j.next
        → event_of (slot j i) ≢ ev
    earlier other i a b = elim (Bool-cases (n - 1 == i)) [
      | inl here ↦
          let at : n - 1 ≡ i = ground (arith, here) in
          rw (← at) (λ same. ground (arith, other, same))
      | inr there ↦ later i (ground (arith, there, a)) b
    ]

bump_count-length : (o : ℕ) (e : List ℕ) → length (bump_count o e) ≡ length e
unfolding bump_count
bump_count-length o e = length-set (set e o _) (o + 1) _ ∙ length-set e o _

bump_count-number : (o : ℕ) (e : List ℕ) → 4 ≤ o → rd32 (bump_count o e) 0 ≡ rd32 e 0
unfolding bump_count
bump_count-number o e le = rd32-set (set e o _) (o + 1) _ (omega (arith, le)) ∙ rd32-set e o _ le

pub bump-length : (ev aux : ℕ) (e : List ℕ) → length (bump ev aux e) ≡ length e
unfolding bump
bump-length ev aux e = elim (Bool-cases (ev == 21)) [
  | inl write ↦ rw write (length-set (bump_count 10 e) 12 _ ∙ bump_count-length 10 e)
  | inr other ↦ rw other (bump_count-length 18 e)
]

pub bump-number : (ev aux : ℕ) (e : List ℕ) → rd32 (bump ev aux e) 0 ≡ rd32 e 0
unfolding bump
bump-number ev aux e = elim (Bool-cases (ev == 21)) [
  | inl write ↦
      rw write
        (rd32-set (bump_count 10 e) 12 _ (omega arith) ∙ bump_count-number 10 e (omega arith))
  | inr other ↦ rw other (bump_count-number 18 e (omega arith))
]

-- What counting an entry up does to it: the count goes up by one and stays at 65535, the mask of
-- a configuration write joins the new bit, and every other byte stays.
pub record IsCounted (ev aux : ℕ) (e e' : List ℕ) : Type 0 where
  pub counted : get_count (count_offset ev) e' ≡ count_up (get_count (count_offset ev) e)
  pub masked : ev ≡ 21 → byte_at e' 12 ≡ bit_or (byte_at e 12) (aux_mask aux)
  pub kept :
      (i : ℕ)
      → i ≢ count_offset ev
      → i ≢ count_offset ev + 1
      → (ev ≡ 21 → i ≢ 12)
      → byte_at e' i ≡ byte_at e i

bump_count-count :
    (o : ℕ) (e : List ℕ)
    → o + 1 < length e
    → get_count o e < 65536
    → get_count o (bump_count o e) ≡ count_up (get_count o e)
unfolding bump_count
bump_count-count o e lt fits =
    rw
      (
        get_or-set_ne (set e o (count_up (get_count o e) % 256)) (o + 1) o
            (count_up (get_count o e) / 256) 0 (λ k. omega (arith, k)),
        get_or-set_self e o (count_up (get_count o e) % 256) 0 (omega (arith, lt)),
        get_or-set_self (set e o (count_up (get_count o e) % 256)) (o + 1)
            (count_up (get_count o e) / 256) 0
            (omega (arith, lt, length-set e o (count_up (get_count o e) % 256))),
      )
      (omega arith)

bump_count-kept :
    (o i : ℕ) (e : List ℕ) → i ≢ o → i ≢ o + 1 → byte_at (bump_count o e) i ≡ byte_at e i
unfolding bump_count
bump_count-kept o i e n n' =
    get_or-set_ne (set e o _) (o + 1) i _ 0 (λ k. n' (sym k))
    ∙ get_or-set_ne e o i _ 0 (λ k. n (sym k))

pub bump-IsCounted :
    (ev aux : ℕ) (e : List ℕ)
    → length e ≡ 20
    → get_count (count_offset ev) e < 65536
    → IsCounted ev aux e (bump ev aux e)
unfolding bump
bump-IsCounted ev aux e size fits = elim (Bool-cases (ev == 21)) [
  | inl write ↦
      let off : count_offset ev ≡ 10 = rw write refl in
      let small : get_count 10 e < 65536 = rw off at fits in
      rw write (record {
        counted =
            rw off (get_count-set e small ∙ bump_count-count 10 e (omega (arith, size)) small);
        masked = λ config.
            get_or-set_self (bump_count 10 e) 12 _ 0 (omega (arith, bump_count-length 10 e, size))
            ∙ ap (λ (b : ℕ). bit_or b (aux_mask aux))
                (bump_count-kept 10 12 e (λ k. omega (arith, k)) (λ k. omega (arith, k)));
        kept = λ i n n' m.
            get_or-set_ne (bump_count 10 e) 12 i _ 0 (λ k. m (ground (arith, write)) (sym k))
            ∙ bump_count-kept 10 i e (rw off at n) (rw off at n');
      })
  | inr other ↦
      let off : count_offset ev ≡ 18 = rw other refl in
      let small : get_count 18 e < 65536 = rw off at fits in
      rw other (record {
        counted = rw off (bump_count-count 18 e (omega (arith, size)) small);
        masked = λ config. ground (arith, other, config);
        kept = λ i n n' m. bump_count-kept 18 i e (rw off at n) (rw off at n');
      })
]
  where
    get_count-set :
        (e : List ℕ)
        → get_count 10 e < 65536
        → get_count 10
            (set (bump_count 10 e) 12 (bit_or (byte_at (bump_count 10 e) 12) (aux_mask aux)))
          ≡ get_count 10 (bump_count 10 e)
    get_count-set e small =
        rw
          (
            get_or-set_ne (bump_count 10 e) 12 10
                (bit_or (byte_at (bump_count 10 e) 12) (aux_mask aux)) 0 (λ k. omega (arith, k)),
            get_or-set_ne (bump_count 10 e) 12 11
                (bit_or (byte_at (bump_count 10 e) 12) (aux_mask aux)) 0 (λ k. omega (arith, k)),
          )
          refl
