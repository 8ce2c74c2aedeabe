-- ===== src/Container/Record/RoundTrip.antt =====
-- Unsealing a record that was sealed gives its plaintext.
use pico_all.Base.{
  ℕ, ◌+◌, ◌≤◌, ◌≡◌, refl, sym, ap, ◌∙◌, true, false, not, ◌||◌, List, ◌++◌, arith, ltb, ◌==◌,
  ==_self, length, length-append, take, drop, take_all, take_front, drop-drop, drop_front,
}
use pico_all.Bytes.{ok, byte_at, get_uint32_be, get_uint64_be, same_bytes}
use pico_all.Results.{bind_ok, refuse_ok, ok_injective, uint32_round, uint64_round, bind_refuse_ok}
use pico_all.Container.Descriptor.{Descriptor, DescriptorFits, descriptor_core_valid}
use pico_all.Container.Manifest.{Manifest}
use pico_all.Container.Record.{
  RecordInfo, RecordIdentity, Protector, object_header, record_header_build, object_header_valid,
  record_header_parse, first_object, record_identity, record_aad, record_identity_build,
  record_seal, record_unseal,
}

-- What a record's header is parsed to.
abbrev pub object_info : Descriptor → RecordInfo
object_info o = record {
  record_id = o.record_id;
  stored_size = o.stored_size;
  logical_size = o.logical_size;
  generation = o.generation;
  protection = o.protection;
  payload_offset = 40;
  tag_offset = 40 + o.stored_size;
}

object_header-valid :
    (o : Descriptor) (rest : List ℕ)
    → DescriptorFits o
    → object_header_valid (object_header o ++ rest) o ≡ true
unfolding object_header_valid object_header same_bytes
object_header-valid o rest h =
    rw
      (
        uint64_round o.record_id h.record_id_width,
        uint32_round o.stored_size h.stored_width,
        uint32_round o.logical_size h.logical_width,
        uint32_round o.generation h.generation_width,
        ==_self o.protection,
      )
      (rw
        (==_self o.record_id, ==_self o.stored_size, ==_self o.logical_size, ==_self o.generation))

length-object_header : (o : Descriptor) → length (object_header o) ≡ 40
unfolding object_header
length-object_header o = refl

nonce_same :
    (o : Descriptor) (rest : List ℕ)
    → take 12 (drop 28 (object_header o ++ rest)) ≡ drop 28 (object_header o)
unfolding object_header
nonce_same o rest = refl

parsed_info :
    (o : Descriptor) (rest : List ℕ)
    → DescriptorFits o
    → ◌≡◌ {A = RecordInfo}
        (record {
          record_id = get_uint64_be (object_header o ++ rest) 8;
          stored_size = get_uint32_be (object_header o ++ rest) 16;
          logical_size = get_uint32_be (object_header o ++ rest) 20;
          generation = get_uint32_be (object_header o ++ rest) 24;
          protection = byte_at (object_header o ++ rest) 5;
          payload_offset = 40;
          tag_offset = 40 + get_uint32_be (object_header o ++ rest) 16;
        })
        (object_info o)
unfolding object_header
parsed_info o rest h = rw (
  uint64_round o.record_id h.record_id_width,
  uint32_round o.stored_size h.stored_width,
  uint32_round o.logical_size h.logical_width,
  uint32_round o.generation h.generation_width,
)

-- For a valid descriptor whose fields have the width of their C types: a header that was built,
-- with as many bytes behind it as the stored data and the code have, is parsed to the descriptor's
-- fields.
pub record_header_parse-object_header :
    (o : Descriptor) (rest : List ℕ)
    → DescriptorFits o
    → descriptor_core_valid o ≡ true
    → length rest ≡ o.stored_size + 16
    → record_header_parse (object_header o ++ rest) o ≡ ok (object_info o)
unfolding record_header_parse
record_header_parse-object_header o rest h valid size =
    let total : length (object_header o ++ rest) ≡ 40 + o.stored_size + 16 =
      omega (arith, size, length-object_header o, length-append (object_header o) rest) in
    let long : ltb (length (object_header o ++ rest)) 56 ≡ false = ground (arith, total) in
    let fit : (length (object_header o ++ rest) == 40 + o.stored_size + 16) ≡ true =
      rw total (==_self (40 + o.stored_size + 16)) in
    rw (valid, long, fit, object_header-valid o rest h) (ap ok (parsed_info o rest h))

-- What a successful sealing has gone through.
record Sealed (protector : Protector) (m : Manifest) (policy_hash plaintext d : List ℕ)
    : Type 0 where
  stored : List ℕ
  tag : List ℕ
  has_object : m.has_object ≡ true
  logical : length plaintext ≡ (first_object m).logical_size
  as_stored : length plaintext ≡ (first_object m).stored_size
  valid : descriptor_core_valid (first_object m) ≡ true
  sealed :
      protector.seal
        (record_identity m policy_hash)
        (drop 28 (object_header (first_object m)))
        (record_aad (record_identity m policy_hash))
        plaintext
      ≡ ok (stored, tag)
  stored_length : length stored ≡ length plaintext
  result : d ≡ object_header (first_object m) ++ (stored ++ tag)

record_seal-Sealed :
    (protector : Protector) (m : Manifest) (policy_hash plaintext d : List ℕ) (room : ℕ)
    → record_seal protector m policy_hash plaintext room ≡ ok d
    → Sealed protector m policy_hash plaintext d
unfolding record_seal record_identity_build record_header_build
record_seal-Sealed protector m policy_hash plaintext d room e =
    let o = first_object m in
    let n = length plaintext in
    let r1 =
      refuse_ok (not m.has_object || not (n == o.logical_size) || not (n == o.stored_size)) _ _ _
        e in
    let r2 = refuse_ok (ltb room (40 + n + 16)) _ _ _ r1.1 in
    let identity : RecordIdentity × List ℕ =
      (record_identity m policy_hash, record_aad (record_identity m policy_hash)) in
    let b1 =
      bind_refuse_ok (not m.has_object || not (descriptor_core_valid o)) _ identity _ _ r2.1 in
    let b2 = bind_refuse_ok (not (descriptor_core_valid o)) _ (object_header o) _ _ b1.1 in
    let b3 =
      bind_ok (protector.seal identity.0 (drop 28 (object_header o)) identity.1 plaintext) _ _
        b2.1 in
    let r3 = refuse_ok (not (length b3.0.0 == n)) _ _ _ b3.2 in
    record {
      stored = b3.0.0;
      tag = b3.0.1;
      has_object = ground (arith, r1.0);
      logical = ground (arith, r1.0);
      as_stored = ground (arith, r1.0);
      valid = ground (arith, b2.0);
      sealed = b3.1;
      stored_length = ground (arith, r3.0);
      result = sym (ok_injective _ _ r3.1);
    }

module _ (protector : Protector) (m : Manifest) (policy_hash : List ℕ) where
  unseal_of :
      (d plaintext stored tag : List ℕ) (info : RecordInfo) (room : ℕ)
      → m.has_object ≡ true
      → (first_object m).logical_size ≤ room
      → (first_object m).logical_size ≡ (first_object m).stored_size
      → descriptor_core_valid (first_object m) ≡ true
      → record_header_parse d (first_object m) ≡ ok info
      → take info.stored_size (drop info.payload_offset d) ≡ stored
      → take 16 (drop info.tag_offset d) ≡ tag
      → protector.unseal
          (record_identity m policy_hash)
          (take 12 (drop 28 d))
          (record_aad (record_identity m policy_hash))
          stored
          tag
          room
        ≡ ok plaintext
      → length plaintext ≡ info.logical_size
      → record_unseal protector m policy_hash d room ≡ ok plaintext
  unfolding record_unseal record_identity_build record_identity record_aad
  unseal_of d plaintext stored tag info room has enough same valid parsed s t opened size =
      let h1 : ltb room (first_object m).logical_size ≡ false = ground arith in
      let h2 : ((first_object m).logical_size == (first_object m).stored_size) ≡ true =
        ground arith in
      let h3 : (length plaintext == info.logical_size) ≡ true = ground arith in
      rw (has, h1, h2, parsed, valid, s, t, opened, h3)

-- For a manifest whose object's fields have the width of their C types, and a protector that
-- unseals what it seals: a record that file_object_record_seal wrote is unsealed to its plaintext
-- by file_object_record_unseal with the same manifest and policy hash, into a buffer that has room
-- for it.
pub record_unseal-record_seal :
    (protector : Protector) (m : Manifest) (policy_hash plaintext d : List ℕ) (room room' : ℕ)
    → DescriptorFits (first_object m)
    → record_seal protector m policy_hash plaintext room ≡ ok d
    → length plaintext ≤ room'
    → record_unseal protector m policy_hash d room' ≡ ok plaintext
record_unseal-record_seal protector m policy_hash plaintext d room room' fits e enough =
    let s = record_seal-Sealed protector m policy_hash plaintext d room e in
    let o = first_object m in
    let size = protector.tag_length _ _ _ _ s.stored s.tag s.sealed in
    ap (λ l. record_unseal protector m policy_hash l room') s.result
    ∙ unseal_of protector m policy_hash (object_header o ++ (s.stored ++ s.tag)) plaintext s.stored
        s.tag (object_info o) room' s.has_object (omega (arith, s.logical, enough))
        (omega (arith, s.logical, s.as_stored)) s.valid
        (record_header_parse-object_header o (s.stored ++ s.tag) fits s.valid
          (omega (arith, size, s.stored_length, s.as_stored, length-append s.stored s.tag)))
        (ap (take o.stored_size)
            (drop_front (object_header o) (s.stored ++ s.tag) 40 (length-object_header o))
          ∙ take_front s.stored s.tag o.stored_size (omega (arith, s.stored_length, s.as_stored)))
        (ap (take 16) (
            sym (drop-drop (object_header o ++ (s.stored ++ s.tag)) 40 o.stored_size)
            ∙ ap (drop o.stored_size)
                (drop_front (object_header o) (s.stored ++ s.tag) 40 (length-object_header o))
            ∙ drop_front s.stored s.tag o.stored_size (omega (arith, s.stored_length, s.as_stored)))
          ∙ ap (λ k. take k s.tag) (sym size)
          ∙ take_all s.tag)
        (ap
            (λ nonce.
              protector.unseal (record_identity m policy_hash) nonce
                (record_aad (record_identity m policy_hash)) s.stored s.tag room')
            (nonce_same o (s.stored ++ s.tag))
          ∙ protector.unseal-seal _ _ _ plaintext s.stored s.tag room' s.sealed enough)
        (omega (arith, s.logical))
