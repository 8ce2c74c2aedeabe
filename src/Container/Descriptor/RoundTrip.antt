-- ===== src/Container/Descriptor/RoundTrip.antt =====
-- A descriptor is decoded from what it is encoded to.
use pico_all.Base.{ℕ, ◌*◌, ◌≡◌, refl, List, [], ◌∷◌, ◌++◌, arith, length, length-append}
use pico_all.Results.{uint16_round, uint32_round, uint64_round}
use pico_all.Container.Descriptor.{
  Descriptor, DescriptorFits, descriptor_encode, encode_descriptors, descriptor_decode,
}

pub length-descriptor_encode : (o : Descriptor) → length (descriptor_encode o) ≡ 36
unfolding descriptor_encode
length-descriptor_encode o = refl

-- For a descriptor whose fields have the width of their C types: decoding its encoding gives it
-- back, whatever bytes follow.
pub descriptor_decode-descriptor_encode :
    (o : Descriptor) (rest : List ℕ)
    → DescriptorFits o
    → descriptor_decode (descriptor_encode o ++ rest) ≡ o
unfolding descriptor_decode descriptor_encode
descriptor_decode-descriptor_encode o rest h = rw (
  uint16_round o.object_type h.type_width,
  uint16_round o.object_tag h.tag_width,
  uint32_round o.generation h.generation_width,
  uint32_round o.logical_size h.logical_width,
  uint64_round o.record_id h.record_id_width,
  uint32_round o.stored_size h.stored_width,
  uint16_round o.policy_id h.policy_width,
  uint16_round o.flags h.flags_width,
  uint16_round o.extension_offset h.offset_width,
  uint16_round o.extension_size h.size_width,
  uint16_round o.transaction_group h.group_width,
)

abbrev pub AllFit : List Descriptor → Type 0
AllFit [] = Unit {0}
AllFit (o ∷ os) = DescriptorFits o × AllFit os

pub length-encode_descriptors :
    (os : List Descriptor) → length (encode_descriptors os) ≡ 36 * length os
unfolding encode_descriptors
length-encode_descriptors [] = omega arith
length-encode_descriptors (o ∷ os) = omega (
  arith,
  length-encode_descriptors os,
  length-descriptor_encode o,
  length-append (descriptor_encode o) (encode_descriptors os),
)
