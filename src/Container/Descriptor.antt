-- ===== src/Container/Descriptor.antt =====
-- The descriptors of a container's objects: their checks and their 36 bytes.
pub mod RoundTrip
pub mod Order
use pico_all.Base.{
  ℕ, ◌-◌, ◌<◌, bit_and, Bool, true, false, not, ◌&&◌, ◌||◌, List, [], ◌∷◌, ◌++◌, ltb, leb, ◌==◌,
}
use pico_all.Bytes.{
  IsU16, IsU32, byte_at, get_uint16_be, put_uint16_be, get_uint32_be, put_uint32_be, get_uint64_be,
  put_uint64_be,
}

-- `file_object_descriptor_t`
pub record Descriptor : Type 0 where
  pub object_type : ℕ
  pub object_tag : ℕ
  pub generation : ℕ
  pub logical_size : ℕ
  pub record_id : ℕ
  pub stored_size : ℕ
  pub policy_id : ℕ
  pub key_domain : ℕ
  pub protection : ℕ
  pub flags : ℕ
  pub extension_offset : ℕ
  pub extension_size : ℕ
  pub transaction_group : ℕ

-- The widths of its fields.
pub record DescriptorFits (o : Descriptor) : Type 0 where
  pub type_width : IsU16 o.object_type
  pub tag_width : IsU16 o.object_tag
  pub generation_width : IsU32 o.generation
  pub logical_width : IsU32 o.logical_size
  pub record_id_width : o.record_id < 18446744073709551616
  pub stored_width : IsU32 o.stored_size
  pub policy_width : IsU16 o.policy_id
  pub flags_width : IsU16 o.flags
  pub offset_width : IsU16 o.extension_offset
  pub size_width : IsU16 o.extension_size
  pub group_width : IsU16 o.transaction_group

abbrev pub same_bool : Bool → Bool → Bool
same_bool true b = b
same_bool false b = not b

-- `file_object_descriptor_core_valid`
unfoldable pub descriptor_core_valid : Descriptor → Bool
descriptor_core_valid o =
    let grouped = not (bit_and o.flags 16 == 0) in
    not (o.object_type == 0 || o.object_type == 65535 || o.generation == 0 || o.record_id == 0)
    && not (
        ltb o.protection 1
        || ltb 3 o.protection
        || not (bit_and o.flags 4294967232 == 0)
        || not (bit_and o.flags 1 == 0))
    && same_bool grouped (not (o.transaction_group == 0))
    && same_bool (o.extension_offset == 0) (o.extension_size == 0)

-- `file_object_descriptor_valid`
unfoldable pub descriptor_valid : Descriptor → ℕ → ℕ → Bool
descriptor_valid o extension_start extension_end =
    descriptor_core_valid o
    && not (
        ltb 0 o.extension_size
        && (ltb o.extension_offset extension_start
            || ltb extension_end o.extension_offset
            || ltb (extension_end - o.extension_offset) o.extension_size))

-- The test of two neighbours.
pub out_of_order : Descriptor → Descriptor → Bool
out_of_order prev o =
    ltb o.object_type prev.object_type
    || o.object_type == prev.object_type && leb o.object_tag prev.object_tag

-- The loop of `file_object_descriptors_valid`, behind the descriptor `prev`.
pub descriptors_behind : Descriptor → List Descriptor → ℕ → ℕ → Bool
unfolding descriptor_valid out_of_order
descriptors_behind prev [] extension_start extension_end = true
descriptors_behind prev (o ∷ os) extension_start extension_end =
    descriptor_valid o extension_start extension_end
    && not (out_of_order prev o)
    && descriptors_behind o os extension_start extension_end

-- `file_object_descriptors_valid`
unfoldable pub descriptors_valid : List Descriptor → ℕ → ℕ → Bool
unfolding descriptors_behind
descriptors_valid [] extension_start extension_end = true
descriptors_valid (o ∷ os) extension_start extension_end =
    descriptor_valid o extension_start extension_end
    && descriptors_behind o os extension_start extension_end

-- `file_object_descriptor_encode`
unfoldable pub descriptor_encode : Descriptor → List ℕ
descriptor_encode o =
    put_uint16_be o.object_type
    ++ (put_uint16_be o.object_tag
        ++ (put_uint32_be o.generation
            ++ (put_uint32_be o.logical_size
                ++ (put_uint64_be o.record_id
                    ++ (put_uint32_be o.stored_size
                        ++ (put_uint16_be o.policy_id
                            ++ (o.key_domain ∷ o.protection ∷ put_uint16_be o.flags
                                ++ (put_uint16_be o.extension_offset
                                    ++ (put_uint16_be o.extension_size
                                        ++ put_uint16_be o.transaction_group)))))))))

-- The bytes of the descriptors, one behind the other.
unfoldable pub encode_descriptors : List Descriptor → List ℕ
unfolding descriptor_encode
encode_descriptors [] = []
encode_descriptors (o ∷ os) = descriptor_encode o ++ encode_descriptors os

-- `file_object_descriptor_decode`, of the bytes from `data` on.
unfoldable pub descriptor_decode : List ℕ → Descriptor
descriptor_decode data' = record {
  object_type = get_uint16_be data' 0;
  object_tag = get_uint16_be data' 2;
  generation = get_uint32_be data' 4;
  logical_size = get_uint32_be data' 8;
  record_id = get_uint64_be data' 12;
  stored_size = get_uint32_be data' 20;
  policy_id = get_uint16_be data' 24;
  key_domain = byte_at data' 26;
  protection = byte_at data' 27;
  flags = get_uint16_be data' 28;
  extension_offset = get_uint16_be data' 30;
  extension_size = get_uint16_be data' 32;
  transaction_group = get_uint16_be data' 34;
}
