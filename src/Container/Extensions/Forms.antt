-- ===== src/Container/Extensions/Forms.antt =====
-- The extensions that pass are those that some list of extensions is written as.
use pico_all.Results.{refuse_ok, uint16_round}
use pico_all.Base.{
  ℕ, zero, suc, ◌+◌, ◌-◌, ◌*◌, ◌/◌, ◌%◌, ◌≤◌, ◌<◌, bit_and, ◌≡◌, refl, sym, ap, ◌∙◌, ◌↔◌, ◌⊎◌, inl,
  inr, Bool, true, false, not, ◌&&◌, ◌||◌, List, [], ◌∷◌, ◌++◌, arith, ltb, ◌==◌, length,
  length-append, take, drop, take-append-drop, length-take, drop-drop, drop-append_self,
  passes_below, passes_below-lt,
}
use pico_all.Bytes.{AllBytes, wrong_data, ok, get_uint16_be, put_uint16_be, AllBytes-drop, refuse}
use pico_all.Container.Extensions.{
  extension_malformed, extension_critical, extensions_loop, extensions_validate,
}

pub record Extension : Type 0 where
  pub kind : ℕ
  pub flags : ℕ
  pub value : List ℕ

abbrev pub encode : Extension → List ℕ
encode e = e.kind ∷ e.flags ∷ put_uint16_be (length e.value) ++ e.value

abbrev pub encode_all : List Extension → List ℕ
encode_all [] = []
encode_all (e ∷ es) = encode e ++ encode_all es

-- A kind that is not 0, no unknown flag, and support where the extension is critical.
pub record Acceptable (supported : ℕ → Bool) (e : Extension) : Type 0 where
  pub named : 0 < e.kind
  pub flagged : (e.flags ≡ 0) ⊎ ((e.flags ≡ 1) × (supported e.kind ≡ true))
  pub sized : length e.value < 65536

abbrev pub AllAcceptable : (ℕ → Bool) → List Extension → Type 0
AllAcceptable supported [] = Unit {0}
AllAcceptable supported (e ∷ es) = Acceptable supported e × AllAcceptable supported es

-- The header of an acceptable extension passes, whatever follows it.
malformed-encode :
    (supported : ℕ → Bool) (e : Extension) (rest : List ℕ)
    → Acceptable supported e
    → extension_malformed (encode e ++ rest) ≡ false
unfolding extension_malformed
malformed-encode supported e rest a =
    let named : (e.kind == 0) ≡ false = ground arith in
    let size : ltb (length (encode e ++ rest) - 4) (length e.value) ≡ false =
      ground (arith, length-append e.value rest) in
    elim a.flagged [
      | inl h ↦ rw (named, uint16_round (length e.value) a.sized, h, size)
      | inr (h, _) ↦ rw (named, uint16_round (length e.value) a.sized, h, size)
    ]

critical-encode :
    (supported : ℕ → Bool) (e : Extension) (rest : List ℕ)
    → Acceptable supported e
    → (extension_critical (encode e ++ rest) && not (supported e.kind)) ≡ false
unfolding extension_critical
critical-encode supported e rest a = elim a.flagged [ inl h ↦ rw h | inr (h, s) ↦ rw (h, s) ]

drop-encode :
    (e : Extension) (rest : List ℕ)
    → length e.value < 65536
    → drop (4 + get_uint16_be (encode e ++ rest) 2) (encode e ++ rest) ≡ rest
drop-encode e rest h =
    sym (drop-drop (encode e ++ rest) 4 _)
    ∙ rw (uint16_round (length e.value) h) (drop-append_self e.value rest)

encode_loop :
    (supported : ℕ → Bool) (es : List Extension) (rounds : ℕ)
    → AllAcceptable supported es
    → length (encode_all es) < rounds
    → extensions_loop supported rounds (encode_all es) ≡ ok tt
unfolding extensions_loop
encode_loop supported [] (suc rounds) h lt = refl
encode_loop supported [] zero h lt = absurd (omega (arith, lt))
encode_loop supported (e ∷ es) zero h lt = absurd (omega (arith, lt))
encode_loop supported (e ∷ es) (suc rounds) (a, h) lt =
    let long : ltb (length (encode e ++ encode_all es)) 4 ≡ false = ground arith in
    let left : length (encode_all es) < rounds =
      omega (arith, lt, length-append e.value (encode_all es)) in
    rw
      (
        long,
        malformed-encode supported e (encode_all es) a,
        critical-encode supported e (encode_all es) a,
      )
      (ap (extensions_loop supported rounds) (drop-encode e (encode_all es) a.sized)
        ∙ encode_loop supported es rounds h left)

-- The kinds of flags that pass.
plain_flags : (f : ℕ) → f < 256 → not (bit_and f 4294967294 == 0) ≡ false → (f ≡ 0) ⊎ (f ≡ 1)
unfolding passes_below
plain_flags f small h = let row = passes_below-lt passes 256 f small table in ground arith
  where
    passes : ℕ → Bool
    passes f = not (bit_and f 4294967294 == 0) || (f == 0 || f == 1)

    table : passes_below passes 256 ≡ true
    table = refl

or_false : (a b : Bool) → (a || b) ≡ false → (a ≡ false) × (b ≡ false)
or_false a b h = ground arith

split_header :
    (kind flags hi lo : ℕ) (more : List ℕ)
    → hi < 256
    → lo < 256
    → hi * 256 + lo ≤ length more
    → kind ∷ flags ∷ hi ∷ lo ∷ more
      ≡ encode (record { kind = kind; flags = flags; value = take (hi * 256 + lo) more })
        ++ drop (hi * 256 + lo) more
split_header kind flags hi lo more h l le =
    let size : length (take (hi * 256 + lo) more) ≡ hi * 256 + lo =
      omega (arith, length-take (hi * 256 + lo) more) in
    let high : (hi * 256 + lo) / 256 % 256 ≡ hi = omega arith in
    let low : (hi * 256 + lo) % 256 ≡ lo = omega arith in
    rw (size, high, low, take-append-drop (hi * 256 + lo) more)

decode_one :
    (supported : ℕ → Bool) (rounds kind flags hi lo : ℕ) (more : List ℕ)
    → AllBytes (kind ∷ flags ∷ hi ∷ lo ∷ more)
    → extensions_loop supported (suc rounds) (kind ∷ flags ∷ hi ∷ lo ∷ more) ≡ ok tt
    → (hi * 256 + lo ≤ length more)
      × Acceptable supported
          (record { kind = kind; flags = flags; value = take (hi * 256 + lo) more })
      × (extensions_loop supported rounds (drop (hi * 256 + lo) more) ≡ ok tt)
unfolding extensions_loop extension_malformed extension_critical
decode_one supported rounds kind flags hi lo more (bk, (bf, (bh, (bl, bs)))) e =
    let rest : List ℕ = kind ∷ flags ∷ hi ∷ lo ∷ more in
    let next = extensions_loop supported rounds (drop (4 + get_uint16_be rest 2) rest) in
    let third = refuse (extension_critical rest && not (supported kind)) wrong_data next in
    let second = refuse (extension_malformed rest) wrong_data third in
    let r1 = refuse_ok (ltb (length rest) 4) wrong_data second tt e in
    let r2 = refuse_ok (extension_malformed rest) wrong_data third tt r1.1 in
    let r3 = refuse_ok (extension_critical rest && not (supported kind)) wrong_data next tt r2.1 in
    let parts =
      or_false (kind == 0 || not (bit_and flags 4294967294 == 0))
        (ltb (length rest - 4) (get_uint16_be rest 2)) r2.0 in
    let firsts = or_false (kind == 0) (not (bit_and flags 4294967294 == 0)) parts.0 in
    let fits : hi * 256 + lo ≤ length more = ground (arith, parts.1) in
    let n = hi * 256 + lo in
    (
      fits,
      record {
        named = ground (arith, firsts.0);
        flagged = elim (plain_flags flags bf firsts.1) [
          | inl h ↦ inl h
          | inr h ↦ inr (h, supports _ (crit h r3.0))
        ];
        sized = omega (arith, length-take n more, bh, bl, fits);
      },
      ap (extensions_loop supported rounds) (drop-drop (kind ∷ flags ∷ hi ∷ lo ∷ more) 4 n) ∙ r3.1,
    )
  where
    crit :
        flags ≡ 1
        → (extension_critical (kind ∷ flags ∷ hi ∷ lo ∷ more) && not (supported kind)) ≡ false
        → (true && not (supported kind)) ≡ false
    crit h r = sym (rw h) ∙ r

    supports : (b : Bool) → (true && not b) ≡ false → b ≡ true
    supports b h = ground arith

short_list :
    (supported : ℕ → Bool) (rounds : ℕ) (d : List ℕ)
    → AllBytes d
    → extensions_loop supported rounds d ≡ ok tt
    → (es : List Extension) × AllAcceptable supported es × (d ≡ encode_all es)
unfolding extensions_loop
short_list supported zero d b e = ground (arith, e)
short_list supported (suc rounds) [] b e = ([], tt, refl)
short_list supported (suc rounds) (k ∷ []) b e = ground (arith, e)
short_list supported (suc rounds) (k ∷ f ∷ []) b e = ground (arith, e)
short_list supported (suc rounds) (k ∷ f ∷ hi ∷ []) b e = ground (arith, e)
short_list supported (suc rounds) (k ∷ f ∷ hi ∷ lo ∷ more) b e =
    let one = decode_one supported rounds k f hi lo more b e in
    let rest =
      short_list supported rounds (drop (hi * 256 + lo) more)
        (AllBytes-drop (hi * 256 + lo) more b.1.1.1.1) one.2 in
    (
      record { kind = k; flags = f; value = take (hi * 256 + lo) more } ∷ rest.0,
      (one.1, rest.1),
      split_header k f hi lo more b.1.1.0 b.1.1.1.0 one.0
          ∙ ap
              (λ l. encode (record { kind = k; flags = f; value = take (hi * 256 + lo) more }) ++ l)
              rest.2,
    )

-- For bytes: file_object_extensions_validate accepts exactly the data that some list of extensions
-- is written as, where each has a kind other than 0, a value shorter than 65536 bytes, no flag but
-- the critical one, and is supported if it is critical.
pub extensions_validate_iff :
    (supported : ℕ → Bool) (d : List ℕ)
    → AllBytes d
    → (extensions_validate supported d ≡ ok tt)
      ↔ ((es : List Extension) × AllAcceptable supported es × (d ≡ encode_all es))
unfolding extensions_validate
extensions_validate_iff supported d b = (
  short_list supported (length d + 1) d b,
  λ (es, h, e).
      ap (λ l. extensions_loop supported (length l + 1) l) e
      ∙ encode_loop supported es (length (encode_all es) + 1) h (omega arith),
)
