-- ===== src/Hid/Channels.antt =====
-- The channels that `allocate_cid` of hid.c hands out.
use pico_all.Hid.Receive.{add32}
use pico_all.Hid.Assembly.{same_else}
use pico_all.Base.{
  ℕ, zero, suc, ◌+◌, ◌-◌, ◌%◌, ◌<◌, ◌≡◌, ap, ◌∙◌, ◌≢◌, inl, inr, false, ◌||◌, arith, ◌==◌,
  if◌then◌else◌, Bool-cases,
}
use pico_all.Hid.Frame.{cid_broadcast}
use pico_all.Hid.Process.{allocate_from, allocate_cid}

-- A channel that is not reserved.
abbrev pub IsChannel : ℕ → Type 0
IsChannel cid = (0 < cid) × (cid < cid_broadcast)

-- The channel that is handed out behind `k` others.
abbrev pub channel_after : ℕ → ℕ → ℕ
channel_after zero next = (allocate_cid next).0
channel_after (suc k) next = channel_after k (allocate_cid next).1

abbrev following : ℕ → ℕ
following next = if next + 1 == cid_broadcast then 1 else next + 1

unreserved : (next : ℕ) → IsChannel next → (next == 0 || next == cid_broadcast) ≡ false
unreserved next h = ground (arith, h)

bumped :
    (next : ℕ)
    → IsChannel next
    → (if add32 next 1 == 0 || add32 next 1 == cid_broadcast then 1 else add32 next 1)
      ≡ following next
bumped next h = let e : add32 next 1 ≡ next + 1 = omega (arith, h) in rw e (ground (arith, h))

allocate_valid : (next : ℕ) → IsChannel next → allocate_cid next ≡ (next, following next)
unfolding allocate_from
allocate_valid next h =
    same_else (next == 0 || next == cid_broadcast) _ _ (unreserved next h)
    ∙ ap (λ (n : ℕ). (next, n)) (bumped next h)

following-IsChannel : (next : ℕ) → IsChannel next → IsChannel (following next)
following-IsChannel next h = ground (arith, h)

turned :
    (k next : ℕ)
    → IsChannel next
    → (following next - 1 + k) % 4294967294 + 1 ≡ (next - 1 + suc k) % 4294967294 + 1
turned k next h = elim (Bool-cases (next + 1 == cid_broadcast)) [
  | inl last ↦ rw last (let e : next ≡ 4294967294 = ground (arith, last) in rw e (omega arith))
  | inr more ↦ rw more (omega (arith, h))
]

channel_after_number :
    (k next : ℕ) → IsChannel next → channel_after k next ≡ (next - 1 + k) % 4294967294 + 1
channel_after_number zero next h =
    ap (λ (p : ℕ × ℕ). p.0) (allocate_valid next h) ∙ omega (arith, h)
channel_after_number (suc k) next h =
    ap (λ (p : ℕ × ℕ). channel_after k p.1) (allocate_valid next h)
    ∙ channel_after_number k (following next) (following-IsChannel next h)
    ∙ turned k next h

apart : (n j k : ℕ) → j < k → k < j + 4294967294 → (n + j) % 4294967294 ≢ (n + k) % 4294967294
apart n j k a b e = omega (arith, a, b, e)

-- From a `next_cid` that is no reserved number on, which the value at the start is not, every channel
-- that is handed out is neither 0 nor the broadcast channel, and no two of 4294967294 in a row are
-- the same.
pub channel_after_distinct :
    (next j k : ℕ)
    → IsChannel next
    → j < k
    → k < j + 4294967294
    → IsChannel (channel_after j next) × (channel_after j next ≢ channel_after k next)
channel_after_distinct next j k h a b =
    let one = channel_after_number j next h in
    let other = channel_after_number k next h in
    (
      rw one (omega arith, omega arith),
      rw (one, other) (λ e. apart (next - 1) j k a b (omega (arith, e))),
    )
