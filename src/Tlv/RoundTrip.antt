-- ===== src/Tlv/RoundTrip.antt =====
-- Walking over what `format_len` wrote, and tags of one and two bytes.
use mathlib.Core.List.{append_assoc}
use pico_all.Base.{
  ℕ, ◌+◌, ◌-◌, ◌*◌, ◌/◌, ◌%◌, ◌≤◌, ◌<◌, bit_and, ◌≡◌, ap, ◌∙◌, ◌≢◌, ◌⊎◌, inl, inr, true, false,
  some, List, [], ◌∷◌, ◌++◌, arith, ltb, leb, ◌==◌, if◌then◌else◌, Bool-cases, length,
  length-append, take-append, At, At-head, At-tail,
}
use pico_all.Bytes.{put_uint16_be}
use pico_all.Tlv.{Item, Walked, walk_value, walk_form, walk_len, walk_at, format_len, len_tag}

-- The bytes of a tag: two, the high one first, for a tag above 0xff.
pub tag_bytes : ℕ → List ℕ
tag_bytes tag = if ltb 0x00ff tag then put_uint16_be tag else tag ∷ []

-- The bytes of an item.
unfoldable pub encode : Item → List ℕ
unfolding tag_bytes
encode item = tag_bytes item.tag ++ (format_len (length item.value) ++ item.value)

-- A tag whose first byte announces a second one exactly if there is one.
abbrev pub IsTag : ℕ → Type 0
IsTag tag =
    ((tag < 256) × (bit_and tag 0x1f ≢ 0x1f))
    ⊎ ((256 ≤ tag) × (tag < 65536) × (bit_and (tag / 256) 0x1f ≡ 0x1f))

-- An item that the format can hold.
pub record IsItem (item : Item) : Type 0 where
  pub tagged : IsTag item.tag
  pub short : length item.value < 65536

abbrev pub walked : ℕ → Item → Walked
walked p item = record { found = some item; pos = p }

-- The value is read back where it stands.
walk_value-At :
    (d : List ℕ) (p tag : ℕ) (value rest : List ℕ)
    → At d p (value ++ rest)
    → walk_value d p tag (length value)
      ≡ walked (p + length value) (record { tag = tag; value = value })
unfolding walk_value
walk_value-At d p tag value rest h =
    let fits : ltb (length d - p) (length value) ≡ false =
      ground (arith, h.size, length-append value rest) in
    rw (fits, h.suffix, take-append value rest)

walk_len-byte :
    (d : List ℕ) (p tag x : ℕ) (xs : List ℕ)
    → At d p (x ∷ xs)
    → walk_len d p tag ≡ walk_form d (p + 1) tag x
unfolding walk_len
walk_len-byte d p tag x xs h =
    let more : leb (length d) p ≡ false = ground (arith, h.size) in rw (more, At-head 0 h)

format_len_short : (n : ℕ) → n < 128 → format_len n ≡ n ∷ []
unfolding format_len
format_len_short n h = ground arith

format_len_middle : (n : ℕ) → 128 ≤ n → n < 256 → format_len n ≡ 0x81 ∷ n ∷ []
unfolding format_len
format_len_middle n lo hi = ground arith

format_len_long : (n : ℕ) → 256 ≤ n → n < 65536 → format_len n ≡ 0x82 ∷ n / 256 ∷ n % 256 ∷ []
unfolding format_len
format_len_long n lo hi = ground arith

module _ (d : List ℕ) (p tag : ℕ) (value rest : List ℕ) where
  short_form :
      length value < 128
      → At d p (length value ∷ (value ++ rest))
      → walk_len d p tag ≡ walked (p + 1 + length value) (record { tag = tag; value = value })
  unfolding walk_form
  short_form lt h =
      walk_len-byte d p tag _ _ h
      ∙ ground (arith, walk_value-At d (p + 1) tag value rest (At-tail h))

  middle_form :
      At d p (0x81 ∷ length value ∷ (value ++ rest))
      → walk_len d p tag ≡ walked (p + 2 + length value) (record { tag = tag; value = value })
  unfolding walk_form
  middle_form h =
      let more : leb (length d) (p + 1) ≡ false = ground (arith, h.size) in
      let place : p + 1 + 1 ≡ p + 2 = omega arith in
      walk_len-byte d p tag _ _ h
      ∙ rw (
        more,
        At-head 0 (At-tail h),
        walk_value-At d (p + 1 + 1) tag value rest (At-tail (At-tail h)),
        place,
      )

  long_form :
      At d p (0x82 ∷ length value / 256 ∷ length value % 256 ∷ (value ++ rest))
      → walk_len d p tag ≡ walked (p + 3 + length value) (record { tag = tag; value = value })
  unfolding walk_form
  long_form h =
      let more : ltb (length d - (p + 1)) 2 ≡ false = ground (arith, h.size) in
      let n : length value / 256 * 256 + length value % 256 ≡ length value = omega arith in
      let place : p + 1 + 2 ≡ p + 1 + 1 + 1 = omega arith in
      let end : p + 1 + 1 + 1 ≡ p + 3 = omega arith in
      walk_len-byte d p tag _ _ h
      ∙ rw (
        more,
        At-head 0 (At-tail h),
        At-head 0 (At-tail (At-tail h)),
        n,
        place,
        walk_value-At d (p + 1 + 1 + 1) tag value rest (At-tail (At-tail (At-tail h))),
        end,
      )

-- Any value shorter than 65536 is read back behind the length that `format_len` writes.
walk_len-At :
    (d : List ℕ) (p tag : ℕ) (value rest : List ℕ)
    → length value < 65536
    → At d p (format_len (length value) ++ (value ++ rest))
    → walk_len d p tag
      ≡ walked
          (p + length (format_len (length value)) + length value)
          (record { tag = tag; value = value })
walk_len-At d p tag value rest lt h = elim (Bool-cases (ltb (length value) 128)) [
  | inl s ↦
      let f = format_len_short (length value) (ground arith) in
      rw f (short_form d p tag value rest (ground arith) (rw f at h))
  | inr s ↦ elim (Bool-cases (ltb (length value) 256)) [
    | inl m ↦
        let f = format_len_middle (length value) (ground arith) (ground arith) in
        rw f (middle_form d p tag value rest (rw f at h))
    | inr l ↦
        let f = format_len_long (length value) (ground arith) lt in
        rw f (long_form d p tag value rest (rw f at h))
  ]
]

encode-append :
    (item : Item) (rest : List ℕ)
    → encode item ++ rest
      ≡ tag_bytes item.tag ++ (format_len (length item.value) ++ (item.value ++ rest))
unfolding encode
encode-append item rest = simp append_assoc

length-encode :
    (item : Item)
    → length (encode item)
      ≡ length (tag_bytes item.tag) + (length (format_len (length item.value)) + length item.value)
unfolding encode
length-encode item = omega (
  arith,
  length-append {0} (tag_bytes item.tag) (format_len (length item.value) ++ item.value),
  length-append {0} (format_len (length item.value)) item.value,
)

tag_bytes_one : (tag : ℕ) → tag < 256 → tag_bytes tag ≡ tag ∷ []
unfolding tag_bytes
tag_bytes_one tag h = ground arith

tag_bytes_two : (tag : ℕ) → 256 ≤ tag → tag < 65536 → tag_bytes tag ≡ tag / 256 ∷ tag % 256 ∷ []
unfolding tag_bytes
tag_bytes_two tag lo hi = ground arith

module _ (d : List ℕ) (p : ℕ) (item : Item) (rest : List ℕ) (lt : length item.value < 65536) where
  abbrev behind : List ℕ
  behind = format_len (length item.value) ++ (item.value ++ rest)

  one_byte_tag :
      bit_and item.tag 0x1f ≢ 0x1f
      → At d p (item.tag ∷ behind)
      → walk_at d p
        ≡ walked (p + (1 + (length (format_len (length item.value)) + length item.value))) item
  unfolding walk_at
  one_byte_tag low h =
      let more : leb (length d) p ≡ false = ground (arith, h.size) in
      let plain : (bit_and item.tag 0x1f == 0x1f) ≡ false = ground arith in
      rw (more, At-head 0 h, plain)
        (walk_len-At d (p + 1) item.tag item.value rest lt (At-tail h)
          ∙ ap (λ (q : ℕ). walked q item) (omega arith))

  two_byte_tag :
      bit_and (item.tag / 256) 0x1f ≡ 0x1f
      → At d p (item.tag / 256 ∷ item.tag % 256 ∷ behind)
      → walk_at d p
        ≡ walked (p + (2 + (length (format_len (length item.value)) + length item.value))) item
  unfolding walk_at
  two_byte_tag low h =
      let more : leb (length d) p ≡ false = ground (arith, h.size) in
      let more' : leb (length d) (p + 1) ≡ false = ground (arith, h.size) in
      let long : (bit_and (item.tag / 256) 0x1f == 0x1f) ≡ true = ground arith in
      let tag : item.tag / 256 * 256 + item.tag % 256 ≡ item.tag = omega arith in
      let place : p + 2 ≡ p + 1 + 1 = omega arith in
      rw (more, At-head 0 h, long, more', At-head 0 (At-tail h), tag, place)
        (walk_len-At d (p + 1 + 1) item.tag item.value rest lt (At-tail (At-tail h))
          ∙ ap (λ (q : ℕ). walked q item) (omega arith))

-- `tlv_walk`, standing before an item in whatever data, reads that item and stops behind it.
pub walk_at-encode :
    (d : List ℕ) (p : ℕ) (item : Item) (rest : List ℕ)
    → IsItem item
    → At d p (encode item ++ rest)
    → walk_at d p ≡ walked (p + length (encode item)) item
walk_at-encode d p item rest v h = elim v.tagged [
  | inl (small, low) ↦
      let f = tag_bytes_one item.tag small in
      rw (length-encode item, f)
        (one_byte_tag d p item rest v.short low (rw (encode-append item rest, f) at h))
  | inr (big, fits, low) ↦
      let f = tag_bytes_two item.tag big fits in
      rw (length-encode item, f)
        (two_byte_tag d p item rest v.short low (rw (encode-append item rest, f) at h))
]

-- `tlv_len_tag` computes the length of an item that is written, unless that passes 65535.
pub len_tag-length :
    (item : Item)
    → item.tag < 65536
    → length (encode item) < 65536
    → len_tag item.tag (length item.value) ≡ length (encode item)
unfolding len_tag tag_bytes
len_tag-length item t h = ground (arith, length-encode item)
