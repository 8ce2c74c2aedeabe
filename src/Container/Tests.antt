-- ===== src/Container/Tests.antt =====
-- Runs of the container code, and its theorems at concrete inputs.
use pico_all.Container.Descriptor.RoundTrip.{AllFit}
use pico_all.Container.Manifest.Parse.{manifest_parse-manifest_build}
use pico_all.Container.Manifest.RoundTrip.{ManifestFits, canonical}
use pico_all.Container.Record.RoundTrip.{record_unseal-record_seal}
use pico_all.Container.Record.Binding.{IdentityFits, record_aad_injective}
use pico_all.Container.Record.{
  Protector, object_header, record_header_build, record_identity, record_aad, record_identity_build,
  record_seal, record_unseal,
}
use pico_all.Store.Toy.{toy_code, toy_auth}
use pico_all.Results.{ok_injective}
use pico_all.Base.{
  ℕ, ◌≡◌, refl, sym, ap, ◌↔◌, Bool, true, false, List, [], ◌∷◌, ◌++◌, arith, ◌==◌, length,
  replicate,
}
use pico_all.Bytes.{IsU16, wrong_data, ok, err}
use pico_all.Container.Extensions.{extensions_validate}
use pico_all.Container.Extensions.Forms.{
  Extension, encode_all, AllAcceptable, extensions_validate_iff,
}
use pico_all.Container.Descriptor.{
  Descriptor, DescriptorFits, descriptor_core_valid, descriptor_valid, descriptors_valid,
  descriptor_encode, encode_descriptors,
}
use pico_all.Container.Descriptor.Order.{InOrder, descriptors_valid_iff}
use pico_all.Container.Manifest.{
  Manifest, no_descriptor, object_extensions, manifest_header, manifest_body, manifest_build,
  manifest_parse,
}

-- A critical extension of kind 5, and a plain one of kind 9.
abbrev extensions : List ℕ
extensions = 5 ∷ 1 ∷ 0 ∷ 2 ∷ 7 ∷ 8 ∷ 9 ∷ 0 ∷ 0 ∷ 0 ∷ []

abbrev only_five : ℕ → Bool
only_five k = k == 5

extensions_pass : extensions_validate only_five extensions ≡ ok tt
unfolding extensions_validate
extensions_pass = refl

unsupported_critical : extensions_validate (λ _. false) extensions ≡ err wrong_data
unfolding extensions_validate
unsupported_critical = refl

extensions_validate_iff_example :
    (extensions_validate only_five extensions ≡ ok tt)
    ↔ ((es : List Extension) × AllAcceptable only_five es × (extensions ≡ encode_all es))
extensions_validate_iff_example = extensions_validate_iff only_five extensions (ground arith)

abbrev key_object : Descriptor
key_object = record {
  object_type = 3;
  object_tag = 1;
  generation = 2;
  logical_size = 3;
  record_id = 77;
  stored_size = 3;
  policy_id = 4;
  key_domain = 1;
  protection = 2;
  flags = 4;
  extension_offset = 104;
  extension_size = 6;
  transaction_group = 0;
}

abbrev next_object : Descriptor
next_object = record key_object { object_tag = 2; extension_offset = 0; extension_size = 0 }

in_order : descriptors_valid (key_object ∷ next_object ∷ []) 104 114 ≡ true
unfolding descriptors_valid descriptor_valid descriptor_core_valid
in_order = refl

same_object_twice : descriptors_valid (next_object ∷ next_object ∷ []) 104 114 ≡ false
unfolding descriptors_valid descriptor_valid descriptor_core_valid
same_object_twice = refl

descriptors_valid_iff_example :
    (descriptors_valid (key_object ∷ next_object ∷ []) 104 114 ≡ true)
    ↔ InOrder 104 114 (key_object ∷ next_object ∷ [])
descriptors_valid_iff_example = descriptors_valid_iff (key_object ∷ next_object ∷ []) 104 114

abbrev manifest : Manifest
manifest = record {
  flags = 0;
  namespace_id = 2;
  container_kind = 1;
  container_id = 70000;
  generation = 5;
  previous_generation = 4;
  extension_offset = 0;
  extension_size = 0;
  total_size = 0;
  object_count = 2;
  has_object = true;
  objects = key_object ∷ next_object ∷ replicate 6 no_descriptor;
}

fits_of :
    (a b c : ℕ)
    → IsU16 a
    → IsU16 b
    → IsU16 c
    → DescriptorFits
        (record key_object { object_tag = a; extension_offset = b; extension_size = c })
fits_of a b c h k l = record {
  type_width = omega arith;
  tag_width = h;
  generation_width = omega arith;
  logical_width = omega arith;
  record_id_width = omega arith;
  stored_width = omega arith;
  policy_width = omega arith;
  flags_width = omega arith;
  offset_width = k;
  size_width = l;
  group_width = omega arith;
}

objects_fit : AllFit manifest.objects
objects_fit = (
  fits_of 1 104 6 (omega arith) (omega arith) (omega arith),
  (
    fits_of 2 0 0 (omega arith) (omega arith) (omega arith),
    (empty, (empty, (empty, (empty, (empty, (empty, tt)))))),
  ),
)
  where
    empty : DescriptorFits no_descriptor
    empty = record {
      type_width = omega arith;
      tag_width = omega arith;
      generation_width = omega arith;
      logical_width = omega arith;
      record_id_width = omega arith;
      stored_width = omega arith;
      policy_width = omega arith;
      flags_width = omega arith;
      offset_width = omega arith;
      size_width = omega arith;
      group_width = omega arith;
    }

manifest_fits : ManifestFits manifest
manifest_fits = record {
  flags_width = omega arith;
  namespace_width = omega arith;
  kind_width = omega arith;
  id_width = omega arith;
  generation_width = omega arith;
  previous_width = omega arith;
  objects_size = refl;
  objects_fit = objects_fit;
}

abbrev built : List ℕ
built = manifest_body manifest extensions ++ toy_code (manifest_body manifest extensions)

is_built : manifest_build toy_auth manifest extensions 500 ≡ ok built
unfolding manifest_build manifest_body manifest_header encode_descriptors descriptor_encode
    descriptors_valid descriptor_valid descriptor_core_valid object_extensions extensions_validate
is_built = refl

manifest_parse-manifest_build_example :
    manifest_parse toy_auth (λ _. true) built ≡ ok (canonical manifest extensions)
manifest_parse-manifest_build_example =
    manifest_parse-manifest_build toy_auth (λ _. true) manifest extensions built 500 manifest_fits
      (λ _. refl) is_built

abbrev policy_hash : List ℕ
policy_hash = replicate 16 9

identity_fits : IdentityFits (record_identity manifest policy_hash)
unfolding record_identity
identity_fits = record {
  namespace_width = omega arith;
  kind_width = omega arith;
  id_width = omega arith;
  type_width = omega arith;
  tag_width = omega arith;
  generation_width = omega arith;
  logical_width = omega arith;
  policy_width = omega arith;
  hash_size = refl;
  flags_width = omega arith;
  record_id_width = omega arith;
}

record_aad_injective_example :
    record_identity manifest policy_hash ≡ record_identity manifest policy_hash
record_aad_injective_example =
    record_aad_injective (record_identity manifest policy_hash)
      (record_identity manifest policy_hash) identity_fits identity_fits refl

-- A protector for the runs: it stores the bytes as they are.
abbrev plain_protector : Protector
plain_protector = record {
  seal = λ i nonce aad plaintext. ok (plaintext, replicate 16 0);
  unseal = λ i nonce aad stored tag room. ok stored;
  tag_length = λ i nonce aad plaintext stored tag e.
      ap (λ (p : List ℕ × List ℕ). length p.1)
        (sym (ok_injective (plaintext, replicate 16 0) (stored, tag) e));
  unseal-seal = λ i nonce aad plaintext stored tag room e enough.
      ap (λ (p : List ℕ × List ℕ). ok p.0)
        (sym (ok_injective (plaintext, replicate 16 0) (stored, tag) e));
}

abbrev sealed : List ℕ
sealed = object_header key_object ++ (1 ∷ 2 ∷ 3 ∷ replicate 16 0)

is_sealed : record_seal plain_protector manifest policy_hash (1 ∷ 2 ∷ 3 ∷ []) 100 ≡ ok sealed
unfolding record_seal record_identity_build record_header_build object_header record_identity
    record_aad descriptor_core_valid
is_sealed = refl

record_unseal-record_seal_example :
    record_unseal plain_protector manifest policy_hash sealed 3 ≡ ok (1 ∷ 2 ∷ 3 ∷ [])
record_unseal-record_seal_example =
    record_unseal-record_seal plain_protector manifest policy_hash (1 ∷ 2 ∷ 3 ∷ []) sealed 100 3
      (fits_of 1 104 6 (omega arith) (omega arith) (omega arith)) is_sealed (omega arith)
