-- ===== src/Tlv/Tests.antt =====
-- Runs of tlv.c, and its theorems at concrete inputs.
use pico_all.Base.{
  ℕ, suc, ◌+◌, bit_and, ◌≡◌, refl, ◌≢◌, inl, inr, none, some, List, [], ◌∷◌, ◌++◌, arith, length,
}
use pico_all.Bytes.{bytes}
use pico_all.Tlv.{Item, walk_value, walk_form, walk_len, walk_at, find_loop, find_tag, format_len}
use pico_all.Tlv.Walk.{Sound, walk_at-Sound}
use pico_all.Tlv.RoundTrip.{encode, walked, walk_at-encode}
use pico_all.Tlv.Find.{find_tag_total, encode_all, AllItems, lookup_tag, find_tag-encode_all}

-- A key-reference object with a two-byte tag, and a short one.
abbrev template : List Item
template =
    record { tag = 0x7f49; value = 1 ∷ 2 ∷ 3 ∷ [] } ∷ record { tag = 0x81; value = 9 ∷ [] } ∷ []

abbrev template_bytes : List ℕ
template_bytes = 0x7f ∷ 0x49 ∷ 3 ∷ 1 ∷ 2 ∷ 3 ∷ 0x81 ∷ 1 ∷ 9 ∷ []

template_encoded : encode_all template ≡ template_bytes
unfolding encode format_len
template_encoded = refl

walks_long_tag :
    (walk_at template_bytes 0).found ≡ some (record { tag = 0x7f49; value = 1 ∷ 2 ∷ 3 ∷ [] })
unfolding walk_at walk_len walk_form walk_value
walks_long_tag = refl

-- A value that the length overruns is refused.
walks_short : (walk_at (0x81 ∷ 5 ∷ 9 ∷ []) 0).found ≡ none
unfolding walk_at walk_len walk_form walk_value
walks_short = refl

-- A trailing tag is a zero-length marker.
walks_marker : (walk_at (0x75 ∷ []) 0).found ≡ some (record { tag = 0x75; value = [] })
unfolding walk_at walk_len walk_form walk_value
walks_marker = refl

template_items : AllItems template
template_items = (
  record { tagged = inr (omega arith, omega arith, refl); short = omega arith },
  (record { tagged = inl (omega arith, ne); short = omega arith }, tt),
)
  where
    ne : bit_and 0x81 0x1f ≢ 0x1f
    ne = omega arith

walk_at-Sound_example :
    Sound template_bytes 0
      (walk_at template_bytes 0)
      (record { tag = 0x7f49; value = 1 ∷ 2 ∷ 3 ∷ [] })
walk_at-Sound_example = walk_at-Sound template_bytes 0 _ walks_long_tag

abbrev marker : Item
marker = record { tag = 0x81; value = 9 ∷ [] }

walk_at-encode_example :
    walk_at (0 ∷ encode marker ++ (5 ∷ [])) 1 ≡ walked (1 + length (encode marker)) marker
unfolding encode format_len
walk_at-encode_example =
    walk_at-encode (0 ∷ encode marker ++ (5 ∷ [])) 1 marker (5 ∷ []) template_items.1.0
      (record { suffix = refl; size = refl })

find_tag_total_example :
    find_loop (suc (length template_bytes)) template_bytes 0 0x81
    ≡ some (find_tag (bytes template_bytes) 0x81)
find_tag_total_example = find_tag_total template_bytes 0x81

find_tag-encode_all_example : find_tag (bytes (encode_all template)) 0x81 ≡ lookup_tag template 0x81
find_tag-encode_all_example = find_tag-encode_all template 0x81 template_items
