-- ===== src/Container/Record.antt =====
-- The record of an object: its header, the data that its protection binds, sealing and unsealing.
pub mod Binding
pub mod RoundTrip
use pico_all.Base.{
  ℕ, ◌+◌, ◌≤◌, ◌≡◌, Bool, not, ◌&&◌, ◌||◌, List, [], ◌∷◌, ◌++◌, ltb, ◌==◌, length, get_or, take,
  drop,
}
use pico_all.Bytes.{
  wrong_length, wrong_data, Result, ok, byte_at, get_uint16_be, put_uint16_be, get_uint32_be,
  put_uint32_be, get_uint64_be, put_uint64_be, ◌>>=◌, refuse, same_bytes,
}
use pico_all.Container.Descriptor.{Descriptor, descriptor_core_valid}
use pico_all.Container.Manifest.{Manifest, no_descriptor}

-- `file_object_record_info_t`
pub record RecordInfo : Type 0 where
  pub record_id : ℕ
  pub stored_size : ℕ
  pub logical_size : ℕ
  pub generation : ℕ
  pub protection : ℕ
  pub payload_offset : ℕ
  pub tag_offset : ℕ

-- `file_object_record_identity_t`
pub record RecordIdentity : Type 0 where
  pub namespace_id : ℕ
  pub container_kind : ℕ
  pub container_id : ℕ
  pub object_type : ℕ
  pub object_tag : ℕ
  pub generation : ℕ
  pub logical_size : ℕ
  pub policy_id : ℕ
  pub policy_hash : List ℕ
  pub key_domain : ℕ
  pub protection : ℕ
  pub flags : ℕ
  pub record_id : ℕ

-- `file_object_record_protector_t`. `seal` gives the stored bytes and the code; `unseal` has room
-- for so many bytes. What was sealed is unsealed, for the same identity, nonce and bound data.
pub record Protector : Type 0 where
  pub seal : RecordIdentity → List ℕ → List ℕ → List ℕ → Result (List ℕ × List ℕ)
  pub unseal : RecordIdentity → List ℕ → List ℕ → List ℕ → List ℕ → ℕ → Result (List ℕ)
  pub tag_length :
      (i : RecordIdentity) (nonce aad plaintext stored tag : List ℕ)
      → seal i nonce aad plaintext ≡ ok (stored, tag)
      → length tag ≡ 16
  pub unseal-seal :
      (i : RecordIdentity) (nonce aad plaintext stored tag : List ℕ) (room : ℕ)
      → seal i nonce aad plaintext ≡ ok (stored, tag)
      → length plaintext ≤ room
      → unseal i nonce aad stored tag room ≡ ok plaintext

-- `file_object_record_magic`: "PKOR"
abbrev pub object_record_magic : List ℕ
object_record_magic = 0x50 ∷ 0x4B ∷ 0x4F ∷ 0x52 ∷ []

-- The 40 bytes that `file_object_record_header_build` fills in; the nonce is the last twelve.
unfoldable pub object_header : Descriptor → List ℕ
object_header o =
    object_record_magic
    ++ (1 ∷ o.protection ∷ put_uint16_be 40
        ++ (put_uint64_be o.record_id
            ++ (put_uint32_be o.stored_size
                ++ (put_uint32_be o.logical_size
                    ++ (put_uint32_be o.generation
                        ++ (put_uint64_be o.record_id ++ put_uint32_be o.generation))))))

-- `file_object_record_header_build`, with its pointers not null
unfoldable pub record_header_build : Descriptor → Result (List ℕ)
record_header_build o = refuse (not (descriptor_core_valid o)) wrong_data (ok (object_header o))

-- The test of a record's header in `file_object_record_header_parse`.
pub object_header_valid : List ℕ → Descriptor → Bool
unfolding same_bytes
object_header_valid d o =
    same_bytes (take 4 d) object_record_magic
    && byte_at d 4 == 1
    && byte_at d 5 == o.protection
    && get_uint16_be d 6 == 40
    && get_uint64_be d 8 == o.record_id
    && get_uint32_be d 16 == o.stored_size
    && get_uint32_be d 20 == o.logical_size
    && get_uint32_be d 24 == o.generation
    && get_uint64_be d 28 == get_uint64_be d 8
    && get_uint32_be d 36 == get_uint32_be d 24

-- `file_object_record_header_parse`, with its pointers not null. A record is no longer than
-- SIZE_MAX, so the length that differs from the expected one is the only test of it.
pub record_header_parse : List ℕ → Descriptor → Result RecordInfo
record_header_parse d o = refuse (not (descriptor_core_valid o)) wrong_data (
    refuse (ltb (length d) 56 || not (length d == 40 + o.stored_size + 16)) wrong_length (
      refuse (not (object_header_valid d o)) wrong_data (
        ok (record {
          record_id = get_uint64_be d 8;
          stored_size = get_uint32_be d 16;
          logical_size = get_uint32_be d 20;
          generation = get_uint32_be d 24;
          protection = byte_at d 5;
          payload_offset = 40;
          tag_offset = 40 + get_uint32_be d 16;
        }))))

-- `manifest->object`, the first of the array.
abbrev pub first_object : Manifest → Descriptor
first_object m = get_or m.objects 0 no_descriptor

unfoldable pub record_identity : Manifest → List ℕ → RecordIdentity
record_identity m policy_hash =
    let o = first_object m in
    record {
      namespace_id = m.namespace_id;
      container_kind = m.container_kind;
      container_id = m.container_id;
      object_type = o.object_type;
      object_tag = o.object_tag;
      generation = o.generation;
      logical_size = o.logical_size;
      policy_id = o.policy_id;
      policy_hash = policy_hash;
      key_domain = o.key_domain;
      protection = o.protection;
      flags = o.flags;
      record_id = o.record_id;
    }

-- The 55 bytes that the protection binds.
unfoldable pub record_aad : RecordIdentity → List ℕ
record_aad i =
    object_record_magic
    ++ (1 ∷ put_uint16_be i.namespace_id
        ++ (put_uint16_be i.container_kind
            ++ (put_uint32_be i.container_id
                ++ (put_uint16_be i.object_type
                    ++ (put_uint16_be i.object_tag
                        ++ (put_uint32_be i.generation
                            ++ (put_uint32_be i.logical_size
                                ++ (put_uint16_be i.policy_id
                                    ++ (i.policy_hash
                                        ++ (i.key_domain ∷ i.protection ∷ put_uint16_be i.flags
                                            ++ put_uint64_be i.record_id))))))))))

-- `file_object_record_identity_build`, with its pointers not null
unfoldable pub record_identity_build : Manifest → List ℕ → Result (RecordIdentity × List ℕ)
record_identity_build m policy_hash =
    refuse (not m.has_object || not (descriptor_core_valid (first_object m))) wrong_data
      (ok (record_identity m policy_hash, record_aad (record_identity m policy_hash)))

-- `file_object_record_seal` into a buffer with `room` bytes left, with its pointers not null; the
-- result is what it appends. A buffer is no larger than SIZE_MAX, so the test of the room is the
-- only one of the size.
unfoldable pub record_seal : Protector → Manifest → List ℕ → List ℕ → ℕ → Result (List ℕ)
record_seal protector m policy_hash plaintext room =
    let o = first_object m in
    let n = length plaintext in
    refuse (not m.has_object || not (n == o.logical_size) || not (n == o.stored_size)) wrong_length
      (refuse (ltb room (40 + n + 16)) wrong_length (
        record_identity_build m policy_hash >>= λ identity. record_header_build o >>= λ header.
        protector.seal identity.0 (drop 28 header) identity.1 plaintext >>= λ sealed.
        refuse (not (length sealed.0 == n)) wrong_length (ok (header ++ (sealed.0 ++ sealed.1)))))

-- `file_object_record_unseal` into a buffer with `room` bytes left, with its pointers not null; the
-- result is what it appends.
pub record_unseal : Protector → Manifest → List ℕ → List ℕ → ℕ → Result (List ℕ)
record_unseal protector m policy_hash d room =
    let o = first_object m in
    refuse (not m.has_object || ltb room o.logical_size || not (o.logical_size == o.stored_size))
      wrong_length
      (record_header_parse d o >>= λ info. record_identity_build m policy_hash >>= λ identity.
        protector.unseal identity.0 (take 12 (drop 28 d)) identity.1
          (take info.stored_size (drop info.payload_offset d)) (take 16 (drop info.tag_offset d))
          room
        >>= λ output. refuse (not (length output == info.logical_size)) wrong_length (ok output))
