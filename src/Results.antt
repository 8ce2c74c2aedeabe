-- ===== src/Results.antt =====
-- Reasoning about results and about words that are written and read back.
use pico_all.Base.{
  ℕ, ◌/◌, ◌%◌, ◌<◌, ◌≡◌, refl, ◌⊎◌, inl, inr, Bool, true, false, arith, if◌then◌else◌,
}
use pico_all.Bytes.{
  IsU16, Code, Result, ok, err, make_uint16_be, make_uint32_be, make_uint64_be, ◌>>=◌, refuse,
}

-- To split on a computed result and keep the equation.
pub Result-cases {ℓ} :
    {A : Type ℓ} (r : Result A) → ((c : Code) × (r ≡ err c)) ⊎ ((v : A) × (r ≡ ok v))
Result-cases (err c) = inl (c, refl)
Result-cases (ok v) = inr (v, refl)

-- A computation that succeeds succeeds in its first part.
pub bind_ok {ℓ κ} :
    {A : Type ℓ} {B : Type κ} (r : Result A) (f : A → Result B) (v : B)
    → (r >>= f) ≡ ok v
    → (a : A) × (r ≡ ok a) × (f a ≡ ok v)
bind_ok (err c) f v e = ground arith
bind_ok (ok a) f v e = (a, refl, e)

pub bind_same {ℓ κ} :
    {A : Type ℓ} {B : Type κ} (r : Result A) (f g : A → Result B)
    → ((a : A) → f a ≡ g a)
    → (r >>= f) ≡ (r >>= g)
bind_same (err c) f g h = refl
bind_same (ok v) f g h = h v

pub refuse_ok {ℓ} :
    {A : Type ℓ} (fails : Bool) (c : Code) (r : Result A) (v : A)
    → refuse fails c r ≡ ok v
    → (fails ≡ false) × (r ≡ ok v)
refuse_ok true c r v e = ground arith
refuse_ok false c r v e = (refl, e)

pub ok_injective {ℓ} : {A : Type ℓ} (a b : A) → ok a ≡ ok b → a ≡ b
ok_injective a b e = cc

pub either_ok {ℓ} :
    {A : Type ℓ} (b : Bool) (x y : Result A) (v : A)
    → (if b then x else y) ≡ ok v
    → (x ≡ ok v) ⊎ (y ≡ ok v)
either_ok true x y v e = inl e
either_ok false x y v e = inr e

pub uint16_round : (n : ℕ) → IsU16 n → make_uint16_be (n / 256 % 256) (n % 256) ≡ n
uint16_round n h = omega arith

pub uint32_round :
    (n : ℕ)
    → n < 4294967296
    → make_uint32_be (n / 16777216 % 256) (n / 65536 % 256) (n / 256 % 256) (n % 256) ≡ n
uint32_round n h = omega arith

pub uint64_round :
    (n : ℕ)
    → n < 18446744073709551616
    → make_uint64_be
        (n / 72057594037927936 % 256)
        (n / 281474976710656 % 256)
        (n / 1099511627776 % 256)
        (n / 4294967296 % 256)
        (n / 16777216 % 256)
        (n / 65536 % 256)
        (n / 256 % 256)
        (n % 256)
      ≡ n
uint64_round n h = omega arith

pub bind_refuse_ok {ℓ κ} :
    {A : Type ℓ} {B : Type κ} (fails : Bool) (c : Code) (a : A) (f : A → Result B) (v : B)
    → (refuse fails c (ok a) >>= f) ≡ ok v
    → (fails ≡ false) × (f a ≡ ok v)
bind_refuse_ok true c a f v e = ground arith
bind_refuse_ok false c a f v e = (refl, e)

-- A result that meets a predicate where it is one.
abbrev pub IfOk {ℓ} : {A : Type ℓ} → (A → Type 0) → Result A → Type 0
IfOk P (ok v) = P v
IfOk P (err c) = Unit {0}

pub IfOk-if {ℓ} :
    {A : Type ℓ} (P : A → Type 0) (b : Bool) (x y : Result A)
    → IfOk P x
    → IfOk P y
    → IfOk P (if b then x else y)
IfOk-if P true x y h k = h
IfOk-if P false x y h k = k

pub IfOk-refuse {ℓ} :
    {A : Type ℓ} (P : A → Type 0) (b : Bool) (c : Code) (x : Result A)
    → (b ≡ false → IfOk P x)
    → IfOk P (refuse b c x)
IfOk-refuse P true c x h = tt
IfOk-refuse P false c x h = h refl

pub IfOk-bind {ℓ κ} :
    {A : Type ℓ} {B : Type κ} (P : A → Type 0) (Q : B → Type 0) (r : Result A) (f : A → Result B)
    → IfOk P r
    → ((a : A) → P a → IfOk Q (f a))
    → IfOk Q (r >>= f)
IfOk-bind P Q (err c) f h k = tt
IfOk-bind P Q (ok v) f h k = k v h
