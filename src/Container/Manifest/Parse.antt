-- ===== src/Container/Manifest/Parse.antt =====
-- Parsing a manifest that was built gives it back.
use mathlib.Core.Path.{fun_ext, ap₂}
use mathlib.Core.List.{append_assoc}
use pico_all.Container.Descriptor.Order.{descriptors_valid_iff}
use pico_all.Bytes.{ok, get_uint16_be}
use pico_all.Base.{
  ℕ, ◌+◌, ◌-◌, ◌*◌, ◌≤◌, ◌≡◌, sym, ap, ◌∙◌, Bool, true, List, ◌++◌, arith, length, length-append,
  take, drop, replicate, length-take, take-append, take_front, drop-drop, drop_front,
}
use pico_all.Results.{bind_ok}
use pico_all.Store.Txn.Layout.{Authenticator, tag_equal}
use pico_all.Store.Txn.Codes.{tag_equal_self}
use pico_all.Container.Descriptor.{Descriptor, encode_descriptors}
use pico_all.Container.Descriptor.RoundTrip.{length-encode_descriptors}
use pico_all.Container.Manifest.{
  Manifest, no_descriptor, manifest_authenticate, built_count, manifest_header, manifest_body,
  manifest_build, manifest_header_valid, decode_descriptors, parsed_manifest, check_manifest,
  manifest_parse,
}
use pico_all.Container.Manifest.RoundTrip.{
  ManifestFits, canonical, manifest_parse_of, decode-encode, AllFit-take, header_parsed,
  header_passes, header_counts, length-header, drop-header,
}
use pico_all.Container.Manifest.Built.{
  object_extensions_same, take_middle, Built, manifest_build-Built,
}

module _ (auth : Authenticator) (m : Manifest) (extensions d : List ℕ) (fits : ManifestFits m)
    (b : Built auth m extensions d) where
  abbrev count : ℕ
  count = built_count m

  abbrev objects : List Descriptor
  objects = take (built_count m) m.objects

  abbrev total : ℕ
  total = 48 + built_count m * 36 + length extensions

  abbrev header : List ℕ
  header =
      manifest_header m (built_count m) (length extensions)
        (48 + built_count m * 36 + length extensions)

  length-objects : length objects ≡ built_count m
  length-objects = omega (arith, length-take (built_count m) m.objects, fits.objects_size, b.few)

  tag_size : (length b.tag ≡ 16) × (tag_equal b.tag b.tag ≡ true)
  tag_size =
      let one = bind_ok auth.start _ _ b.code in
      let two = bind_ok (auth.update one.0 (manifest_body m extensions)) _ _ one.2 in
      (
        auth.finish_length two.0 b.tag two.2,
        tag_equal_self b.tag (auth.finish-AllBytes two.0 b.tag two.2),
      )

  rest : List ℕ
  rest = encode_descriptors objects ++ (extensions ++ b.tag)

  form : d ≡ manifest_header m (built_count m) (length extensions) total ++ rest
  unfolding manifest_body rest
  form =
      b.result
      ∙ append_assoc header (encode_descriptors objects ++ extensions) b.tag
      ∙ ap (λ l. header ++ l) (append_assoc (encode_descriptors objects) extensions b.tag)

  length-rest : length rest ≡ built_count m * 36 + length extensions + 16
  unfolding rest
  length-rest = omega (
    arith,
    tag_size.0,
    length-encode_descriptors objects,
    length-objects,
    length-append (encode_descriptors objects) (extensions ++ b.tag),
    length-append extensions b.tag,
  )

  length-built : length d ≡ 48 + built_count m * 36 + length extensions
  length-built =
      ap (λ (l : List ℕ). length l) form
      ∙ omega
          (arith, length-rest, length-header m fits (built_count m) (length extensions) total rest)

  length-body : length (manifest_body m extensions) ≡ length d - 16
  length-body = omega (
    arith,
    tag_size.0,
    length-append (manifest_body m extensions) b.tag,
    ap (λ (l : List ℕ). length l) b.result,
  )

  parsed : parsed_manifest d ≡ canonical m extensions
  unfolding rest
  parsed =
      ap parsed_manifest form
      ∙ header_parsed m fits (built_count m) (length extensions) total rest objects b.few
          (omega (arith, b.short)) (omega (arith, b.size))
          (ap (λ k. decode_descriptors k rest) (sym length-objects)
            ∙ decode-encode objects (extensions ++ b.tag)
                (AllFit-take (built_count m) m.objects fits.objects_fit))

  -- The bytes from the end of the descriptors on.
  at_extensions : drop (32 + built_count m * 36) d ≡ extensions ++ b.tag
  unfolding rest
  at_extensions =
      ap (drop (32 + built_count m * 36)) form
      ∙ sym (drop-drop (header ++ rest) 32 (built_count m * 36))
      ∙ ap (drop (built_count m * 36))
          (drop-header m fits (built_count m) (length extensions) total rest)
      ∙ drop_front (encode_descriptors objects) (extensions ++ b.tag) (built_count m * 36)
          (omega (arith, length-encode_descriptors objects, length-objects))

  same_bytes_at :
      (offset n : ℕ)
      → 32 + count * 36 ≤ offset
      → offset + n ≤ 32 + count * 36 + length extensions
      → take n (drop offset d) ≡ take n (drop (offset - (32 + count * 36)) extensions)
  unfolding rest
  same_bytes_at offset n lo hi =
      let pre = header ++ encode_descriptors objects in
      let size : length pre ≡ 32 + count * 36 = omega (
        arith,
        length-header m fits count (length extensions) total (encode_descriptors objects),
        length-encode_descriptors objects,
        length-objects,
      ) in
      ap (λ l. take n (drop offset l))
        (form ∙ sym (append_assoc header (encode_descriptors objects) (extensions ++ b.tag)))
      ∙ take_middle pre extensions b.tag offset n (omega arith) (omega arith)
      ∙ ap (λ k. take n (drop (offset - k) extensions)) size

  checked : check_manifest (λ _. true) d (canonical m extensions) ≡ ok (canonical m extensions)
  unfolding check_manifest
  checked =
      let front : take (length extensions) (drop (32 + count * 36) d) ≡ extensions =
        ap (take (length extensions)) at_extensions ∙ take-append extensions b.tag in
      let taken : take count (objects ++ replicate (8 - count) no_descriptor) ≡ objects =
        take_front objects _ count length-objects in
      let order =
        (descriptors_valid_iff objects (32 + count * 36) (32 + count * 36 + length extensions)).0
          b.ordered in
      let same =
        object_extensions_same (λ _. true) (λ offset. drop offset d)
          (λ offset. drop (offset - (32 + count * 36)) extensions) (32 + count * 36)
          (32 + count * 36 + length extensions) objects order same_bytes_at in
      rw (front, b.accepted, b.generations, taken, b.ordered, same, b.objects_accepted)

  parse_built : manifest_parse auth (λ _. true) d ≡ ok (canonical m extensions)
  unfolding rest
  parse_built =
      let counts =
        header_counts m fits count (length extensions) total rest b.few (omega (arith, b.short)) in
      manifest_parse_of auth (λ _. true) d b.tag (canonical m extensions)
        (omega (arith, length-built)) (omega (arith, length-built, b.size))
        (ap manifest_header_valid form
          ∙ header_passes m fits count (length extensions) total rest b.few (omega (arith, b.size))
              (sym (ap (λ (l : List ℕ). length l) form) ∙ length-built))
        (ap (λ l. 48 + get_uint16_be l 24 * 36 + get_uint16_be l 28) form
          ∙ ap₂ (λ x y. 48 + x * 36 + y) counts.0 counts.1
          ∙ sym length-built)
        (ap (manifest_authenticate auth) (
            ap (λ l. take (length d - 16) l) b.result
            ∙ take_front (manifest_body m extensions) b.tag (length d - 16) length-body)
          ∙ b.code)
        (ap (tag_equal b.tag) (
            ap (λ l. drop (length d - 16) l) b.result
            ∙ drop_front (manifest_body m extensions) b.tag (length d - 16) length-body)
          ∙ tag_size.1)
        parsed checked

-- For a manifest whose fields have the width of their C types, with its array of eight entries, and
-- a parser that supports every kind of extension: what file_object_manifest_build writes is parsed
-- by file_object_manifest_parse under the same authenticator to the manifest with its count, sizes
-- and offsets filled in and with its first entries, as many as the count says.
pub manifest_parse-manifest_build :
    (auth : Authenticator) (supported : ℕ → Bool) (m : Manifest) (extensions d : List ℕ) (room : ℕ)
    → ManifestFits m
    → ((k : ℕ) → supported k ≡ true)
    → manifest_build auth m extensions room ≡ ok d
    → manifest_parse auth supported d ≡ ok (canonical m extensions)
manifest_parse-manifest_build auth supported m extensions d room fits all e =
    ap (λ s. manifest_parse auth s d) (fun_ext all)
    ∙ parse_built auth m extensions d fits (manifest_build-Built auth m extensions room d e)
