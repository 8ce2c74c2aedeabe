-- ===== src/Container/Manifest.antt =====
-- The manifest of a container: `file_object_manifest_build` and `file_object_manifest_parse`.
pub mod RoundTrip
pub mod Parse
pub mod Built
use pico_all.Base.{
  ℕ, zero, suc, ◌+◌, ◌-◌, ◌*◌, Bool, true, not, ◌&&◌, ◌||◌, List, [], ◌∷◌, ◌++◌, ltb, leb, ◌==◌,
  if◌then◌else◌, length, take, drop, replicate,
}
use pico_all.Bytes.{
  err_null_param, wrong_length, wrong_data, wrong_signature, Result, ok, byte_at, get_uint16_be,
  put_uint16_be, get_uint32_be, put_uint32_be, ◌>>=◌, refuse, same_bytes,
}
use pico_all.Store.Txn.Layout.{Authenticator, tag_equal}
use pico_all.Container.Extensions.{extensions_validate}
use pico_all.Container.Descriptor.{
  Descriptor, descriptors_valid, encode_descriptors, descriptor_decode,
}

-- `file_object_manifest_t`; `objects` is the array of eight.
pub record Manifest : Type 0 where
  pub flags : ℕ
  pub namespace_id : ℕ
  pub container_kind : ℕ
  pub container_id : ℕ
  pub generation : ℕ
  pub previous_generation : ℕ
  pub extension_offset : ℕ
  pub extension_size : ℕ
  pub total_size : ℕ
  pub object_count : ℕ
  pub has_object : Bool
  pub objects : List Descriptor

-- `file_object_manifest_magic`: "PKOC"
abbrev pub manifest_magic : List ℕ
manifest_magic = 0x50 ∷ 0x4B ∷ 0x4F ∷ 0x43 ∷ []

-- An entry of the array that was not written.
abbrev pub no_descriptor : Descriptor
no_descriptor = record {
  object_type = 0;
  object_tag = 0;
  generation = 0;
  logical_size = 0;
  record_id = 0;
  stored_size = 0;
  policy_id = 0;
  key_domain = 0;
  protection = 0;
  flags = 0;
  extension_offset = 0;
  extension_size = 0;
  transaction_group = 0;
}

-- `file_object_manifest_authenticate`
abbrev pub manifest_authenticate : Authenticator → List ℕ → Result (List ℕ)
manifest_authenticate auth data' = auth.start >>= λ c. auth.update c data' >>= auth.finish

-- The loop over the extensions of the single objects: `at_offset` is the bytes at an extension
-- offset.
unfoldable pub object_extensions : (ℕ → Bool) → (ℕ → List ℕ) → List Descriptor → Result (Unit {0})
object_extensions supported at_offset [] = ok tt
object_extensions supported at_offset (o ∷ os) =
    let rest = object_extensions supported at_offset os in
    let checked =
      extensions_validate supported (take o.extension_size (at_offset o.extension_offset)) in
    if ltb 0 o.extension_size then (checked >>= λ _. rest) else rest

-- The count of objects that `file_object_manifest_build` writes.
abbrev pub built_count : Manifest → ℕ
built_count m = if m.object_count == 0 && m.has_object then 1 else m.object_count

-- The 32 bytes of the header, as `file_object_manifest_build` fills them in.
unfoldable pub manifest_header : Manifest → ℕ → ℕ → ℕ → List ℕ
manifest_header m count extensions_size total_size =
    manifest_magic
    ++ (1 ∷ 32 ∷ put_uint16_be m.flags
        ++ (put_uint16_be m.namespace_id
            ++ (put_uint16_be m.container_kind
                ++ (put_uint32_be m.container_id
                    ++ (put_uint32_be m.generation
                        ++ (put_uint32_be m.previous_generation
                            ++ (put_uint16_be count
                                ++ (36 ∷ 0 ∷ put_uint16_be extensions_size
                                    ++ put_uint16_be total_size))))))))

-- What `file_object_manifest_build` writes before the code.
unfoldable pub manifest_body : Manifest → List ℕ → List ℕ
unfolding manifest_header encode_descriptors
manifest_body m extensions =
    let count = built_count m in
    manifest_header m count (length extensions) (48 + count * 36 + length extensions)
    ++ (encode_descriptors (take count m.objects) ++ extensions)

-- `file_object_manifest_build`, into a buffer that has `room` bytes left; the result is what it
-- appends. The pointers are not null, and the extensions are shorter than 65536 bytes.
unfoldable pub manifest_build : Authenticator → Manifest → List ℕ → ℕ → Result (List ℕ)
manifest_build auth m extensions room =
    let count = built_count m in
    let total_size = 48 + count * 36 + length extensions in
    let extension_start = 32 + count * 36 in
    let extension_end = extension_start + length extensions in
    refuse (ltb 65535 (length extensions)) err_null_param (
      refuse (ltb 8 count) wrong_data (
        refuse (m.generation == 0 || leb m.generation m.previous_generation) wrong_data (
          refuse (ltb 65535 total_size || ltb room total_size) wrong_length (
            refuse (not (descriptors_valid (take count m.objects) extension_start extension_end))
              wrong_data
              (extensions_validate (λ _. true) extensions >>= λ _.
                object_extensions (λ _. true) (λ offset. drop (offset - extension_start) extensions)
                  (take count m.objects)
                >>= λ _. manifest_authenticate auth (manifest_body m extensions) >>= λ tag.
                    ok (manifest_body m extensions ++ tag))))))

-- The test of a manifest's header in `file_object_manifest_parse`.
pub manifest_header_valid : List ℕ → Bool
unfolding same_bytes
manifest_header_valid d =
    same_bytes (take 4 d) manifest_magic
    && byte_at d 4 == 1
    && byte_at d 5 == 32
    && not (ltb 8 (get_uint16_be d 24))
    && byte_at d 26 == 36
    && byte_at d 27 == 0
    && get_uint16_be d 30 == length d

-- The descriptors that `file_object_manifest_parse` decodes, from the bytes of the first on.
pub decode_descriptors : ℕ → List ℕ → List Descriptor
unfolding descriptor_decode
decode_descriptors zero d = []
decode_descriptors (suc count) d = descriptor_decode d ∷ decode_descriptors count (drop 36 d)

-- The manifest that `file_object_manifest_parse` fills in.
pub parsed_manifest : List ℕ → Manifest
unfolding decode_descriptors
parsed_manifest d =
    let count = get_uint16_be d 24 in
    record {
      flags = get_uint16_be d 6;
      namespace_id = get_uint16_be d 8;
      container_kind = get_uint16_be d 10;
      container_id = get_uint32_be d 12;
      generation = get_uint32_be d 16;
      previous_generation = get_uint32_be d 20;
      extension_offset = 32 + count * 36;
      extension_size = get_uint16_be d 28;
      total_size = get_uint16_be d 30;
      object_count = count;
      has_object = ltb 0 count;
      objects = decode_descriptors count (drop 32 d) ++ replicate (8 - count) no_descriptor;
    }

-- The end of `file_object_manifest_parse`, behind the check of the code.
pub check_manifest : (ℕ → Bool) → List ℕ → Manifest → Result Manifest
unfolding object_extensions
check_manifest supported d m =
    let extension_end = m.extension_offset + m.extension_size in
    let objects = take m.object_count m.objects in
    extensions_validate supported (take m.extension_size (drop m.extension_offset d)) >>= λ _.
    refuse (m.generation == 0 || leb m.generation m.previous_generation) wrong_data (
      refuse (not (descriptors_valid objects m.extension_offset extension_end)) wrong_data
        (object_extensions supported (λ offset. drop offset d) objects >>= λ _. ok m))

-- `file_object_manifest_parse`, of data that is not null and with its pointers not null.
pub manifest_parse : Authenticator → (ℕ → Bool) → List ℕ → Result Manifest
manifest_parse auth supported d =
    let body = length d - 16 in
    refuse (ltb (length d) 48 || ltb 65535 (length d)) wrong_length (
      refuse (not (manifest_header_valid d)) wrong_data (
        refuse (not (48 + get_uint16_be d 24 * 36 + get_uint16_be d 28 == length d)) wrong_data (
          manifest_authenticate auth (take body d) >>= λ calculated.
          refuse (not (tag_equal calculated (drop body d))) wrong_signature
            (check_manifest supported d (parsed_manifest d)))))
