-- ===== src/Container/Manifest/RoundTrip.antt =====
-- A manifest is parsed back from what it is built to.
use pico_all.Base.{
  ℕ, zero, suc, ◌+◌, ◌-◌, ◌*◌, ◌≤◌, ◌<◌, ◌≡◌, refl, sym, ap, ◌∙◌, Bool, true, false, ◌||◌, List, [],
  ◌∷◌, ◌++◌, arith, ltb, ◌==◌, ==_self, length, take, drop, replicate,
}
use pico_all.Bytes.{IsU16, IsU32, ok, byte_at, get_uint16_be, same_bytes}
use pico_all.Results.{uint16_round, uint32_round}
use pico_all.Store.Txn.Layout.{Authenticator, tag_equal}
use pico_all.Container.Descriptor.{Descriptor, encode_descriptors}
use pico_all.Container.Descriptor.RoundTrip.{descriptor_decode-descriptor_encode, AllFit}
use pico_all.Container.Manifest.{
  Manifest, manifest_magic, no_descriptor, manifest_authenticate, built_count, manifest_header,
  manifest_header_valid, decode_descriptors, parsed_manifest, check_manifest, manifest_parse,
}

-- The widths of the fields of `file_object_manifest_t`, and the size of its array.
pub record ManifestFits (m : Manifest) : Type 0 where
  pub flags_width : IsU16 m.flags
  pub namespace_width : IsU16 m.namespace_id
  pub kind_width : IsU16 m.container_kind
  pub id_width : IsU32 m.container_id
  pub generation_width : IsU32 m.generation
  pub previous_width : IsU32 m.previous_generation
  pub objects_size : length m.objects ≡ 8
  pub objects_fit : AllFit m.objects

-- What a built manifest is parsed to: the count, sizes and offsets are filled in, and the entries
-- behind the count are empty.
abbrev pub canonical : Manifest → List ℕ → Manifest
canonical m extensions =
    let count = built_count m in
    record m {
      extension_offset = 32 + count * 36;
      extension_size = length extensions;
      total_size = 48 + count * 36 + length extensions;
      object_count = count;
      has_object = ltb 0 count;
      objects = take count m.objects ++ replicate (8 - count) no_descriptor;
    }

pub manifest_parse_of :
    (auth : Authenticator) (supported : ℕ → Bool) (d tag : List ℕ) (m : Manifest)
    → 48 ≤ length d
    → length d ≤ 65535
    → manifest_header_valid d ≡ true
    → 48 + get_uint16_be d 24 * 36 + get_uint16_be d 28 ≡ length d
    → manifest_authenticate auth (take (length d - 16) d) ≡ ok tag
    → tag_equal tag (drop (length d - 16) d) ≡ true
    → parsed_manifest d ≡ m
    → check_manifest supported d m ≡ ok m
    → manifest_parse auth supported d ≡ ok m
unfolding manifest_parse
manifest_parse_of auth supported d tag m lo hi header total code same parsed checked =
    let h1 : (ltb (length d) 48 || ltb 65535 (length d)) ≡ false = ground arith in
    let h2 : (48 + get_uint16_be d 24 * 36 + get_uint16_be d 28 == length d) ≡ true =
      rw total (==_self (length d)) in
    rw (h1, header, h2, code, same, parsed, checked)

manifest_header_valid_of :
    (d : List ℕ) (count : ℕ)
    → same_bytes (take 4 d) manifest_magic ≡ true
    → byte_at d 4 ≡ 1
    → byte_at d 5 ≡ 32
    → get_uint16_be d 24 ≡ count
    → count < 9
    → byte_at d 26 ≡ 36
    → byte_at d 27 ≡ 0
    → get_uint16_be d 30 ≡ length d
    → manifest_header_valid d ≡ true
unfolding manifest_header_valid
manifest_header_valid_of d count h1 h2 h3 h4 small h5 h6 h7 =
    let few : ltb 8 count ≡ false = ground arith in
    let size : (get_uint16_be d 30 == length d) ≡ true = rw h7 (==_self (length d)) in
    rw (h1, h2, h3, h4, few, h5, h6, size)

pub decode-encode :
    (os : List Descriptor) (rest : List ℕ)
    → AllFit os
    → decode_descriptors (length os) (encode_descriptors os ++ rest) ≡ os
unfolding decode_descriptors encode_descriptors
decode-encode [] rest h = refl
decode-encode (o ∷ os) rest (f, h) =
    ap (λ x. x ∷ decode_descriptors (length os) (encode_descriptors os ++ rest))
      (descriptor_decode-descriptor_encode o (encode_descriptors os ++ rest) f)
    ∙ ap (λ l. o ∷ l) (decode-encode os rest h)

pub AllFit-take : (n : ℕ) (os : List Descriptor) → AllFit os → AllFit (take n os)
AllFit-take zero os h = tt
AllFit-take (suc n) [] h = tt
AllFit-take (suc n) (o ∷ os) (f, h) = (f, AllFit-take n os h)

module _ (m : Manifest) (fits : ManifestFits m) (count e t : ℕ) (rest : List ℕ) where
  pub header_parsed :
      (os : List Descriptor)
      → count < 9
      → e < 65536
      → t < 65536
      → decode_descriptors count rest ≡ os
      → parsed_manifest (manifest_header m count e t ++ rest) ≡ record m {
        extension_offset = 32 + count * 36;
        extension_size = e;
        total_size = t;
        object_count = count;
        has_object = ltb 0 count;
        objects = os ++ replicate (8 - count) no_descriptor;
      }
  unfolding parsed_manifest manifest_header
  header_parsed os hc he ht decoded = rw (
    uint16_round m.flags fits.flags_width,
    uint16_round m.namespace_id fits.namespace_width,
    uint16_round m.container_kind fits.kind_width,
    uint32_round m.container_id fits.id_width,
    uint32_round m.generation fits.generation_width,
    uint32_round m.previous_generation fits.previous_width,
    uint16_round count (omega (arith, hc)),
    uint16_round e he,
    uint16_round t ht,
    decoded,
  )

  pub header_passes :
      count < 9
      → t < 65536
      → length (manifest_header m count e t ++ rest) ≡ t
      → manifest_header_valid (manifest_header m count e t ++ rest) ≡ true
  unfolding manifest_header same_bytes
  header_passes hc ht size =
      manifest_header_valid_of (manifest_header m count e t ++ rest) count refl refl refl
        (uint16_round count (omega (arith, hc))) hc refl refl (uint16_round t ht ∙ sym size)

  pub header_counts :
      count < 9
      → e < 65536
      → (get_uint16_be (manifest_header m count e t ++ rest) 24 ≡ count)
        × (get_uint16_be (manifest_header m count e t ++ rest) 28 ≡ e)
  unfolding manifest_header
  header_counts hc he = (uint16_round count (omega (arith, hc)), uint16_round e he)

  pub length-header : length (manifest_header m count e t ++ rest) ≡ 32 + length rest
  unfolding manifest_header
  length-header = omega arith

  pub drop-header : drop 32 (manifest_header m count e t ++ rest) ≡ rest
  unfolding manifest_header
  drop-header = refl
