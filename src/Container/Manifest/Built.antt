-- ===== src/Container/Manifest/Built.antt =====
-- What a successful build of a manifest has gone through.
use pico_all.Store.Txn.Layout.{Authenticator}
use pico_all.Container.Extensions.{extensions_validate}
use pico_all.Results.{bind_ok, refuse_ok, ok_injective}
use pico_all.Bytes.{ok}
use pico_all.Base.{
  ℕ, ◌+◌, ◌-◌, ◌*◌, ◌≤◌, ◌<◌, ◌≡◌, refl, sym, ap, ◌∙◌, inl, inr, Bool, true, false, not, ◌||◌, List,
  [], ◌∷◌, ◌++◌, arith, ltb, leb, ◌==◌, ltb→lt, Bool-cases, length, take, drop, drop-append,
  take_within,
}
use pico_all.Container.Descriptor.{Descriptor, descriptor_valid, descriptors_valid}
use pico_all.Container.Descriptor.Order.{InOrder}
use pico_all.Container.Manifest.{
  Manifest, manifest_authenticate, object_extensions, built_count, manifest_body, manifest_build,
}

descriptor_valid-range :
    (o : Descriptor) (lo hi : ℕ)
    → descriptor_valid o lo hi ≡ true
    → 0 < o.extension_size
    → (lo ≤ o.extension_offset) × (o.extension_offset + o.extension_size ≤ hi)
unfolding descriptor_valid
descriptor_valid-range o lo hi h pos = ground arith

-- The extensions of the objects are the same bytes in the manifest as in the buffer they came from.
pub object_extensions_same :
    (supported : ℕ → Bool) (f g : ℕ → List ℕ) (lo hi : ℕ) (os : List Descriptor)
    → InOrder lo hi os
    → ((offset n : ℕ) → lo ≤ offset → offset + n ≤ hi → take n (f offset) ≡ take n (g offset))
    → object_extensions supported f os ≡ object_extensions supported g os
unfolding object_extensions
object_extensions_same supported f g lo hi [] h same = refl
object_extensions_same supported f g lo hi (o ∷ os) (valid, after, order) same =
    let rest = object_extensions_same supported f g lo hi os order same in
    elim (Bool-cases (ltb 0 o.extension_size)) [
      | inl has ↦
          let range = descriptor_valid-range o lo hi valid (ltb→lt _ _ has) in
          rw (has, same o.extension_offset o.extension_size range.0 range.1, rest)
      | inr empty ↦ rw (empty, rest)
    ]

-- Bytes in the middle of a list.
pub take_middle :
    (pre mid post : List ℕ) (offset n : ℕ)
    → length pre ≤ offset
    → offset + n ≤ length pre + length mid
    → take n (drop offset (pre ++ (mid ++ post))) ≡ take n (drop (offset - length pre) mid)
take_middle pre mid post offset n lo hi =
    let e : offset ≡ length pre + (offset - length pre) = omega arith in
    ap (λ k. take n (drop k (pre ++ (mid ++ post)))) e
    ∙ ap (take n) (drop-append pre (mid ++ post) (offset - length pre))
    ∙ take_within mid post (offset - length pre) n (omega arith)

-- What a successful build has gone through.
pub record Built (auth : Authenticator) (m : Manifest) (extensions d : List ℕ) : Type 0 where
  pub tag : List ℕ
  pub short : length extensions ≤ 65535
  pub few : built_count m < 9
  pub generations : (m.generation == 0 || leb m.generation m.previous_generation) ≡ false
  pub size : 48 + built_count m * 36 + length extensions ≤ 65535
  pub ordered :
      descriptors_valid
        (take (built_count m) m.objects)
        (32 + built_count m * 36)
        (32 + built_count m * 36 + length extensions)
      ≡ true
  pub accepted : extensions_validate (λ _. true) extensions ≡ ok tt
  pub objects_accepted :
      object_extensions
        (λ _. true)
        (λ offset. drop (offset - (32 + built_count m * 36)) extensions)
        (take (built_count m) m.objects)
      ≡ ok tt
  pub code : manifest_authenticate auth (manifest_body m extensions) ≡ ok tag
  pub result : d ≡ manifest_body m extensions ++ tag

pub manifest_build-Built :
    (auth : Authenticator) (m : Manifest) (extensions : List ℕ) (room : ℕ) (d : List ℕ)
    → manifest_build auth m extensions room ≡ ok d
    → Built auth m extensions d
unfolding manifest_build
manifest_build-Built auth m extensions room d e =
    let r1 = refuse_ok (ltb 65535 (length extensions)) _ _ _ e in
    let r2 = refuse_ok (ltb 8 (built_count m)) _ _ _ r1.1 in
    let r3 = refuse_ok (m.generation == 0 || leb m.generation m.previous_generation) _ _ _ r2.1 in
    let total = 48 + built_count m * 36 + length extensions in
    let r4 = refuse_ok (ltb 65535 total || ltb room total) _ _ _ r3.1 in
    let start = 32 + built_count m * 36 in
    let objects = take (built_count m) m.objects in
    let r5 =
      refuse_ok (not (descriptors_valid objects start (start + length extensions))) _ _ _ r4.1 in
    let b1 = bind_ok (extensions_validate (λ _. true) extensions) _ _ r5.1 in
    let b2 =
      bind_ok (object_extensions (λ _. true) (λ offset. drop (offset - start) extensions) objects) _
        _ b1.2 in
    let b3 = bind_ok (manifest_authenticate auth (manifest_body m extensions)) _ _ b2.2 in
    record {
      tag = b3.0;
      short = ground (arith, r1.0);
      few = ground (arith, r2.0);
      generations = r3.0;
      size = ground (arith, r4.0);
      ordered = not_false _ r5.0;
      accepted = b1.1;
      objects_accepted = b2.1;
      code = b3.1;
      result = sym (ok_injective _ _ b3.2);
    }
  where
    not_false : (b : Bool) → not b ≡ false → b ≡ true
    not_false b h = ground arith
