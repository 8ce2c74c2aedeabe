-- ===== src/Container/Record/Binding.antt =====
-- The bound data of a record determine its identity.
use pico_all.Base.{
  ℕ, ◌<◌, ◌≡◌, sym, ap, ◌∙◌, List, ◌∷◌, ◌++◌, length, take, drop, take_front, drop_front,
}
use pico_all.Bytes.{
  IsU16, IsU32, byte_at, get_uint16_be, put_uint16_be, get_uint32_be, get_uint64_be, put_uint64_be,
}
use pico_all.Results.{uint16_round, uint32_round, uint64_round}
use pico_all.Container.Record.{RecordIdentity, record_aad}

-- The widths of the fields of `file_object_record_identity_t`.
pub record IdentityFits (i : RecordIdentity) : Type 0 where
  pub namespace_width : IsU16 i.namespace_id
  pub kind_width : IsU16 i.container_kind
  pub id_width : IsU32 i.container_id
  pub type_width : IsU16 i.object_type
  pub tag_width : IsU16 i.object_tag
  pub generation_width : IsU32 i.generation
  pub logical_width : IsU32 i.logical_size
  pub policy_width : IsU16 i.policy_id
  pub hash_size : length i.policy_hash ≡ 16
  pub flags_width : IsU16 i.flags
  pub record_id_width : i.record_id < 18446744073709551616

-- The identity, read out of the bound data.
aad_identity : List ℕ → RecordIdentity
aad_identity d =
    let tail = drop 16 (drop 27 d) in
    record {
      namespace_id = get_uint16_be d 5;
      container_kind = get_uint16_be d 7;
      container_id = get_uint32_be d 9;
      object_type = get_uint16_be d 13;
      object_tag = get_uint16_be d 15;
      generation = get_uint32_be d 17;
      logical_size = get_uint32_be d 21;
      policy_id = get_uint16_be d 25;
      policy_hash = take 16 (drop 27 d);
      key_domain = byte_at tail 0;
      protection = byte_at tail 1;
      flags = get_uint16_be tail 2;
      record_id = get_uint64_be tail 4;
    }

aad_identity-record_aad : (i : RecordIdentity) → IdentityFits i → aad_identity (record_aad i) ≡ i
unfolding aad_identity record_aad
aad_identity-record_aad i h = rw (
  uint16_round i.namespace_id h.namespace_width,
  uint16_round i.container_kind h.kind_width,
  uint32_round i.container_id h.id_width,
  uint16_round i.object_type h.type_width,
  uint16_round i.object_tag h.tag_width,
  uint32_round i.generation h.generation_width,
  uint32_round i.logical_size h.logical_width,
  uint16_round i.policy_id h.policy_width,
  take_front i.policy_hash
      (i.key_domain ∷ i.protection ∷ put_uint16_be i.flags ++ put_uint64_be i.record_id) 16
      h.hash_size,
  drop_front i.policy_hash
      (i.key_domain ∷ i.protection ∷ put_uint16_be i.flags ++ put_uint64_be i.record_id) 16
      h.hash_size,
  uint16_round i.flags h.flags_width,
  uint64_round i.record_id h.record_id_width,
)

-- For identities whose fields have the width of their C types: the 55 bytes that are bound to a
-- record are the same only for the same identity.
pub record_aad_injective :
    (i j : RecordIdentity) → IdentityFits i → IdentityFits j → record_aad i ≡ record_aad j → i ≡ j
record_aad_injective i j hi hj e =
    sym (aad_identity-record_aad i hi) ∙ ap aad_identity e ∙ aad_identity-record_aad j hj
