-- ===== src/Bytes.antt =====
-- The byte and word helpers of pico-keys-sdk/src/picokeys.h, the byte arrays of byte_array.h
-- and the return codes of picokeys.h.
use pico_all.Base.{
  ℕ, zero, suc, ◌+◌, ◌*◌, ◌/◌, ◌%◌, ◌<◌, Bool, true, false, ◌&&◌, List, [], ◌∷◌, ◌++◌, arith, ◌==◌,
  if◌then◌else◌, length, get_or, take, drop,
}

abbrev pub IsByte : ℕ → Type 0
IsByte b = b < 256

abbrev pub IsU16 : ℕ → Type 0
IsU16 n = n < 65536

abbrev pub IsU32 : ℕ → Type 0
IsU32 n = n < 4294967296

-- Every element of a list is a byte.
abbrev pub AllBytes : List ℕ → Type 0
AllBytes [] = Unit {0}
AllBytes (b ∷ bs) = IsByte b × AllBytes bs

-- The negative codes of picokeys.h; `PICOKEYS_OK` is the constructor `ok` of `Result`.
pub data Code : Type 0 where
  err_no_memory err_memory_fatal err_null_param err_file_not_found err_blocked : Code
  no_login exec_error wrong_length wrong_data wrong_dkek wrong_signature : Code
  wrong_padding verification_failed err_stale_handle : Code

pub data Result {ℓ} (A : Type ℓ) : Type ℓ where
  ok : A → Result A
  err : Code → Result A

-- A `const_byte_array_t`: a null pointer with a claimed length, or the bytes that it names.
pub data ByteArray : Type 0 where
  null : ℕ → ByteArray
  bytes : List ℕ → ByteArray

abbrev pub len : ByteArray → ℕ
len (null n) = n
len (bytes l) = length l

-- `b[i]`, within bounds.
abbrev pub byte_at : List ℕ → ℕ → ℕ
byte_at b i = get_or b i 0

abbrev pub make_uint16_be : ℕ → ℕ → ℕ
make_uint16_be b1 b2 = b1 * 256 + b2

abbrev pub get_uint16_be : List ℕ → ℕ → ℕ
get_uint16_be b i = make_uint16_be (byte_at b i) (byte_at b (i + 1))

abbrev pub put_uint16_be : ℕ → List ℕ
put_uint16_be n = n / 256 % 256 ∷ n % 256 ∷ []

abbrev pub make_uint32_be : ℕ → ℕ → ℕ → ℕ → ℕ
make_uint32_be b1 b2 b3 b4 = b1 * 16777216 + b2 * 65536 + b3 * 256 + b4

abbrev pub get_uint32_be : List ℕ → ℕ → ℕ
get_uint32_be b i =
    make_uint32_be (byte_at b i) (byte_at b (i + 1)) (byte_at b (i + 2)) (byte_at b (i + 3))

abbrev pub put_uint32_be : ℕ → List ℕ
put_uint32_be n = (n / 16777216 % 256) ∷ (n / 65536 % 256) ∷ (n / 256 % 256) ∷ (n % 256) ∷ []

abbrev pub make_uint64_be : ℕ → ℕ → ℕ → ℕ → ℕ → ℕ → ℕ → ℕ → ℕ
make_uint64_be b1 b2 b3 b4 b5 b6 b7 b8 =
    b1 * 72057594037927936
    + b2 * 281474976710656
    + b3 * 1099511627776
    + b4 * 4294967296
    + b5 * 16777216
    + b6 * 65536
    + b7 * 256
    + b8

abbrev pub get_uint64_be : List ℕ → ℕ → ℕ
get_uint64_be b i =
    make_uint64_be (byte_at b i) (byte_at b (i + 1)) (byte_at b (i + 2)) (byte_at b (i + 3))
      (byte_at b (i + 4)) (byte_at b (i + 5)) (byte_at b (i + 6)) (byte_at b (i + 7))

abbrev pub put_uint64_be : ℕ → List ℕ
put_uint64_be n =
    (n / 72057594037927936 % 256)
    ∷ (n / 281474976710656 % 256)
    ∷ (n / 1099511627776 % 256)
    ∷ (n / 4294967296 % 256)
    ∷ (n / 16777216 % 256)
    ∷ (n / 65536 % 256)
    ∷ (n / 256 % 256)
    ∷ (n % 256)
    ∷ []

-- `!p`, for a Boolean.
abbrev pub is_null : ByteArray → Bool
is_null (null n) = true
is_null (bytes l) = false

pub byte_at-IsByte : (b : List ℕ) (i : ℕ) → AllBytes b → IsByte (byte_at b i)
byte_at-IsByte [] i h = omega arith
byte_at-IsByte (x ∷ xs) zero h = h.0
byte_at-IsByte (x ∷ xs) (suc i) h = byte_at-IsByte xs i h.1

pub get_uint16_be-IsU16 : (b : List ℕ) (i : ℕ) → AllBytes b → IsU16 (get_uint16_be b i)
get_uint16_be-IsU16 b i h = omega (arith, byte_at-IsByte b i h, byte_at-IsByte b (i + 1) h)

pub AllBytes-append : (xs ys : List ℕ) → AllBytes xs → AllBytes ys → AllBytes (xs ++ ys)
AllBytes-append [] ys h k = k
AllBytes-append (x ∷ xs) ys h k = (h.0, AllBytes-append xs ys h.1 k)

pub AllBytes-drop : (n : ℕ) (xs : List ℕ) → AllBytes xs → AllBytes (drop n xs)
AllBytes-drop zero xs h = h
AllBytes-drop (suc n) [] h = tt
AllBytes-drop (suc n) (x ∷ xs) h = AllBytes-drop n xs h.1

pub AllBytes-take : (n : ℕ) (xs : List ℕ) → AllBytes xs → AllBytes (take n xs)
AllBytes-take zero xs h = tt
AllBytes-take (suc n) [] h = tt
AllBytes-take (suc n) (x ∷ xs) h = (h.0, AllBytes-take n xs h.1)

pub get_uint32_be-IsU32 : (b : List ℕ) (i : ℕ) → AllBytes b → IsU32 (get_uint32_be b i)
get_uint32_be-IsU32 b i h = omega (
  arith,
  byte_at-IsByte b i h,
  byte_at-IsByte b (i + 1) h,
  byte_at-IsByte b (i + 2) h,
  byte_at-IsByte b (i + 3) h,
)

-- The early returns of the source: an error code is passed on.
infixl 5 ◌>>=◌
abbrev pub ◌>>=◌ {ℓ κ} : {A : Type ℓ} {B : Type κ} → Result A → (A → Result B) → Result B
r >>= next = elim r [ err c ↦ err c | ok v ↦ next v ]

-- `if (fails) return code;`
abbrev pub refuse {ℓ} : {A : Type ℓ} → Bool → Code → Result A → Result A
refuse fails c next = if fails then err c else next

-- `memcmp(a, b, n) == 0`, for lists of the compared length.
unfoldable pub same_bytes : List ℕ → List ℕ → Bool
same_bytes [] [] = true
same_bytes (a ∷ l) (b ∷ r) = a == b && same_bytes l r
same_bytes _ _ = false
