-- ===== src/Tlv/Walk.antt =====
-- One step of `tlv_walk` stays within the data and moves forward.
use pico_all.Base.{
  ℕ, ◌+◌, ◌-◌, ◌≤◌, ◌<◌, bit_and, ◌≡◌, refl, subst, Bool, true, false, none, some, List, arith, ltb,
  leb, ◌==◌, if◌then◌else◌, length, take, drop, length-take, length-drop,
}
use pico_all.Bytes.{byte_at}
use pico_all.Tlv.{Item, Walked, walk_value, walk_form, walk_len, walk_at}

-- Where a walk from `p` over `n` bytes may end, and what it found there.
pub record Sound (d : List ℕ) (p : ℕ) (w : Walked) (item : Item) : Type 0 where
  pub forward : p < w.pos
  pub within : w.pos ≤ length d
  pub suffix : length item.value ≤ w.pos
  pub slice : item.value ≡ take (length item.value) (drop (w.pos - length item.value) d)

length-slice : (d : List ℕ) (p n : ℕ) → p + n ≤ length d → length (take n (drop p d)) ≡ n
length-slice d p n h = omega (arith, length-take n (drop p d), length-drop p d)

-- A walk from `p` finds what it finds within the data.
abbrev pub Stays : List ℕ → ℕ → Walked → Type 0
Stays d p w = (item : Item) → w.found ≡ some item → Sound d p w item

value-Sound :
    (d : List ℕ) (q p tg tgl : ℕ)
    → q < p
    → p + tgl ≤ length d
    → Sound d q
        (record { found = some (record { tag = tg; value = take tgl (drop p d) }); pos = p + tgl })
        (record { tag = tg; value = take tgl (drop p d) })
value-Sound d q p tg tgl lt le = record {
  forward = omega arith;
  within = le;
  suffix = omega (arith, length-slice d p tgl le);
  slice = rw (length-slice d p tgl le) (rw start refl);
}
  where
    start : p + tgl - tgl ≡ p
    start = omega arith

stop-Stays : (d : List ℕ) (q p : ℕ) → Stays d q (record { found = none; pos = p })
stop-Stays d q p item e = absurd (cc)

-- A branch stays within the data if both its sides do.
if-Stays :
    (d : List ℕ) (q : ℕ) (b : Bool) (x y : Walked)
    → (b ≡ true → Stays d q x)
    → (b ≡ false → Stays d q y)
    → Stays d q (if b then x else y)
if-Stays d q true x y s t = s refl
if-Stays d q false x y s t = t refl

walk_value-Stays :
    (d : List ℕ) (q p tg tgl : ℕ) → q < p → p ≤ length d → Stays d q (walk_value d p tg tgl)
unfolding walk_value
walk_value-Stays d q p tg tgl lt le =
    if-Stays d q (ltb (length d - p) tgl) _ _ (λ _. stop-Stays d q p)
      λ fits item e.
        subst
          (λ it.
            Sound d q
              (record {
                found = some (record { tag = tg; value = take tgl (drop p d) });
                pos = p + tgl;
              })
              it)
          (same item e) (value-Sound d q p tg tgl lt (ground arith))
  where
    same :
        (item : Item)
        → some (record { tag = tg; value = take tgl (drop p d) }) ≡ some item
        → record { tag = tg; value = take tgl (drop p d) } ≡ item
    same item e = cc

walk_form-Stays :
    (d : List ℕ) (q p tg tgl : ℕ) → q < p → p ≤ length d → Stays d q (walk_form d p tg tgl)
unfolding walk_form
walk_form-Stays d q p tg tgl lt le =
    if-Stays d q (tgl == 0x82) _ _
      (λ _.
        if-Stays d q (ltb (length d - p) 2) _ _ (λ _. stop-Stays d q p)
          (λ more. walk_value-Stays d q (p + 2) tg _ (omega arith) (ground arith)))
      (λ _.
        if-Stays d q (tgl == 0x81) _ _
          (λ _.
            if-Stays d q (leb (length d) p) _ _ (λ _. stop-Stays d q p)
              (λ more. walk_value-Stays d q (p + 1) tg _ (omega arith) (ground arith)))
          (λ _. walk_value-Stays d q p tg tgl lt le))

walk_len-Stays : (d : List ℕ) (q p tg : ℕ) → q < p → p ≤ length d → Stays d q (walk_len d p tg)
unfolding walk_len
walk_len-Stays d q p tg lt le =
    if-Stays d q (leb (length d) p) _ _ (λ _. walk_form-Stays d q p tg 0 lt le)
      (λ more. walk_form-Stays d q (p + 1) tg _ (omega arith) (ground arith))

walk_at-Stays : (d : List ℕ) (p : ℕ) → Stays d p (walk_at d p)
unfolding walk_at
walk_at-Stays d p =
    if-Stays d p (leb (length d) p) _ _ (λ _. stop-Stays d p p)
      λ more.
        if-Stays d p (bit_and (byte_at d p) 0x1f == 0x1f) _ _
          (λ _.
            if-Stays d p (leb (length d) (p + 1)) _ _ (λ _. stop-Stays d p (p + 1))
              (λ more'. walk_len-Stays d p (p + 2) _ (omega arith) (ground arith)))
          (λ _. walk_len-Stays d p (p + 1) _ (omega arith) (ground arith))

-- A walk that finds an item moves forward, ends within the data, and the item's value is the piece
-- of the data that ends where the walk ends: on any input, no byte outside the data is taken.
pub walk_at-Sound :
    (d : List ℕ) (p : ℕ) (item : Item)
    → (walk_at d p).found ≡ some item
    → Sound d p (walk_at d p) item
walk_at-Sound d p item e = walk_at-Stays d p item e
