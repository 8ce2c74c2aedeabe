-- ===== src/Tlv.antt =====
-- pico-keys-sdk/src/tlv.c: tag-length-value data. A pointer into the data is the offset from its
-- start; a null one is none. Tags are of one or two bytes, and lengths of one, two or three.
pub mod Walk
pub mod RoundTrip
pub mod Find
mod Tests
use pico_all.Base.{
  ℕ, zero, suc, ◌+◌, ◌-◌, ◌*◌, ◌%◌, bit_and, Option, none, some, List, [], ◌∷◌, ltb, leb, ◌==◌,
  if◌then◌else◌, length, take, drop,
}
use pico_all.Bytes.{ByteArray, null, bytes, byte_at, put_uint16_be}

-- `tlv_item_t`: the value is what the pointer and length of the item delimit.
pub record Item : Type 0 where
  pub tag : ℕ
  pub value : List ℕ

-- What `tlv_walk` leaves: its return value with the item if that is 1, and the moved pointer.
pub record Walked : Type 0 where
  pub found : Option Item
  pub pos : ℕ

abbrev stop : ℕ → Walked
stop p = record { found = none; pos = p }

-- The length check and the two writes at the end of `tlv_walk`.
pub walk_value : List ℕ → ℕ → ℕ → ℕ → Walked
walk_value d p tg tgl =
    if ltb (length d - p) tgl
    then stop p
    else record { found = some (record { tag = tg; value = take tgl (drop p d) }); pos = p + tgl }

-- The long forms of the length: 0x82 and two bytes, 0x81 and one. Any other byte is the length.
pub walk_form : List ℕ → ℕ → ℕ → ℕ → Walked
walk_form d p tg tgl =
    if tgl == 0x82
    then (if ltb (length d - p) 2
        then stop p
        else walk_value d (p + 2) tg (byte_at d p * 256 + byte_at d (p + 1)))
    else if tgl == 0x81
    then (if leb (length d) p then stop p else walk_value d (p + 1) tg (byte_at d p))
    else walk_value d p tg tgl

-- A tag at the very end stands for an item with an empty value.
pub walk_len : List ℕ → ℕ → ℕ → Walked
walk_len d p tg =
    if leb (length d) p then walk_form d p tg 0 else walk_form d (p + 1) tg (byte_at d p)

pub walk_at : List ℕ → ℕ → Walked
walk_at d p =
    if leb (length d) p
    then stop p
    else if bit_and (byte_at d p) 0x1f == 0x1f
    then (if leb (length d) (p + 1)
        then stop (p + 1)
        else walk_len d (p + 2) (byte_at d p * 256 + byte_at d (p + 1)))
    else walk_len d (p + 1) (byte_at d p)

-- `tlv_walk` over a context; the outer option is the null pointer of `*p`.
pub walk : ByteArray → Option ℕ → Option Item × Option ℕ
walk (null n) p = (none, p)
walk (bytes d) p = let w = walk_at d (elim p [ none ↦ 0 | some q ↦ q ]) in (w.found, some w.pos)

-- The loop of `tlv_find_tag`, by rounds; the outer none means that the rounds ran out.
pub find_loop : ℕ → List ℕ → ℕ → ℕ → Option (Option (List ℕ))
find_loop zero d p itag = none
find_loop (suc n) d p itag = elim (walk_at d p).found [
  | none ↦ some none
  | some item ↦
      let rest = find_loop n d (walk_at d p).pos itag in
      if itag == item.tag then some (some item.value) else rest
]

-- Each item takes a byte at least, so one round more than there are bytes is enough.
pub find_tag : ByteArray → ℕ → Option (List ℕ)
find_tag (null n) itag = none
find_tag (bytes d) itag = elim (find_loop (suc (length d)) d 0 itag) [ none ↦ none | some r ↦ r ]

-- The bytes that `tlv_format_len` writes; it returns their number.
pub format_len : ℕ → List ℕ
format_len n =
    if ltb n 128 then n ∷ [] else if ltb n 256 then 0x81 ∷ n ∷ [] else 0x82 ∷ put_uint16_be n

-- `uint16_t`, so the sum wraps.
pub len_tag : ℕ → ℕ → ℕ
unfolding format_len
len_tag tag n =
    let ret = (1 + length (format_len n) + n) % 65536 in
    if ltb 0x00ff tag then (ret + 1) % 65536 else ret

-- The loop of `tlv_get_uint` over the bytes behind the first, `MIN(ctx->len, 4)` in all.
get_uint_loop : ℕ → List ℕ → ℕ
get_uint_loop d [] = d
get_uint_loop d (b ∷ bs) = get_uint_loop ((d * 256) % 4294967296 + b) bs

-- `none` is the read of `ctx->data[0]` out of bounds.
pub get_uint : List ℕ → Option ℕ
unfolding get_uint_loop
get_uint [] = none
get_uint (b ∷ bs) = some (get_uint_loop b (take 3 bs))
