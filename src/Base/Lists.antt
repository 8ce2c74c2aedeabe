-- ===== src/Base/Lists.antt =====
-- Lists measured, indexed and cut by native numbers, under the library's names.
use Prim.Native.Nat.{◌≤◌, ℕ, zero, suc, ◌+◌, ◌-◌, ◌<◌, min}
use mathlib.Core.Path.{sym, ◌≡◌, refl, ap}
use mathlib.Core.Logic.{◌≢◌}
use mathlib.Core.List.{List, [], ◌∷◌, ◌++◌, map}
use mathlib.Core.Option.{Option, none, some}
use native.Mathlib.Omega.{arith}

module _ {ℓ} {A : Type ℓ} where
  abbrev pub length : List A → ℕ
  length [] = 0
  length (x ∷ xs) = suc (length xs)

  abbrev pub get_elem? : List A → ℕ → Option A
  get_elem? [] i = none
  get_elem? (x ∷ xs) zero = some x
  get_elem? (x ∷ xs) (suc i) = get_elem? xs i

  -- A write out of bounds changes nothing.
  abbrev pub set : List A → ℕ → A → List A
  set [] i v = []
  set (x ∷ xs) zero v = v ∷ xs
  set (x ∷ xs) (suc i) v = x ∷ set xs i v

  pub length-append : (xs ys : List A) → length (xs ++ ys) ≡ length xs + length ys
  length-append [] ys = omega arith
  length-append (x ∷ xs) ys = omega (arith, length-append xs ys)

module _ {ℓ} {A : Type ℓ} where
  pub length-set : (xs : List A) (i : ℕ) (v : A) → length (set xs i v) ≡ length xs
  length-set [] i v = refl
  length-set (x ∷ xs) zero v = refl
  length-set (x ∷ xs) (suc i) v = ap suc (length-set xs i v)

  pub get_elem?-set_self :
      (xs : List A) (i : ℕ) (v : A) → i < length xs → get_elem? (set xs i v) i ≡ some v
  get_elem?-set_self [] i v h = elim h [ ]
  get_elem?-set_self (x ∷ xs) zero v h = refl
  get_elem?-set_self (x ∷ xs) (suc i) v h = get_elem?-set_self xs i v (omega arith)

  pub get_elem?-set_ne :
      (xs : List A) {i j : ℕ} (v : A) → i ≢ j → get_elem? (set xs i v) j ≡ get_elem? xs j
  get_elem?-set_ne [] v h = refl
  get_elem?-set_ne (x ∷ xs) {i = zero} {j = zero} v h = absurd (h refl)
  get_elem?-set_ne (x ∷ xs) {i = zero} {j = suc j} v h = refl
  get_elem?-set_ne (x ∷ xs) {i = suc i} {j = zero} v h = refl
  get_elem?-set_ne (x ∷ xs) {i = suc i} {j = suc j} v h = get_elem?-set_ne xs v (λ e. h (ap suc e))

module _ {ℓ} {A : Type ℓ} where
  abbrev pub get_or : List A → ℕ → A → A
  get_or [] i d = d
  get_or (x ∷ xs) zero d = x
  get_or (x ∷ xs) (suc i) d = get_or xs i d

  abbrev pub take : ℕ → List A → List A
  take zero xs = []
  take (suc n) [] = []
  take (suc n) (x ∷ xs) = x ∷ take n xs

  abbrev pub drop : ℕ → List A → List A
  drop zero xs = xs
  drop (suc n) [] = []
  drop (suc n) (x ∷ xs) = drop n xs

  abbrev pub replicate : ℕ → A → List A
  replicate zero a = []
  replicate (suc n) a = a ∷ replicate n a

  pub take-append-drop : (n : ℕ) (xs : List A) → take n xs ++ drop n xs ≡ xs
  take-append-drop zero xs = refl
  take-append-drop (suc n) [] = refl
  take-append-drop (suc n) (x ∷ xs) = rw (take-append-drop n xs)

  pub length-take : (n : ℕ) (xs : List A) → length (take n xs) ≡ min n (length xs)
  length-take zero xs = omega arith
  length-take (suc n) [] = omega arith
  length-take (suc n) (x ∷ xs) = omega (arith, length-take n xs)

  pub length-drop : (n : ℕ) (xs : List A) → length (drop n xs) ≡ length xs - n
  length-drop zero xs = omega arith
  length-drop (suc n) [] = omega arith
  length-drop (suc n) (x ∷ xs) = omega (arith, length-drop n xs)

  pub length-replicate : (n : ℕ) (a : A) → length (replicate n a) ≡ n
  length-replicate zero a = refl
  length-replicate (suc n) a = ap suc (length-replicate n a)

  pub length-map {κ} : {B : Type κ} (xs : List A) (f : A → B) → length (map f xs) ≡ length xs
  length-map [] f = refl
  length-map (x ∷ xs) f = ap suc (length-map xs f)

module _ {ℓ} {A : Type ℓ} where
  pub get_or-append :
      (pre xs : List A) (k : ℕ) (d : A) → get_or (pre ++ xs) (length pre + k) d ≡ get_or xs k d
  get_or-append [] xs k d = ap (λ (i : ℕ). get_or xs i d) (omega arith)
  get_or-append (x ∷ pre) xs k d =
      let e : suc (length pre) + k ≡ suc (length pre + k) = omega arith in
      rw e (get_or-append pre xs k d)

  pub drop-append : (pre xs : List A) (k : ℕ) → drop (length pre + k) (pre ++ xs) ≡ drop k xs
  drop-append [] xs k = ap (λ (i : ℕ). drop i xs) (omega arith)
  drop-append (x ∷ pre) xs k =
      let e : suc (length pre) + k ≡ suc (length pre + k) = omega arith in
      rw e (drop-append pre xs k)

  pub take-append : (xs ys : List A) → take (length xs) (xs ++ ys) ≡ xs
  take-append [] ys = refl
  take-append (x ∷ xs) ys = rw (take-append xs ys)

module _ {ℓ} {A : Type ℓ} where
  pub take_all : (xs : List A) → take (length xs) xs ≡ xs
  take_all [] = refl
  take_all (x ∷ xs) = rw (take_all xs)

  -- The elements of a list behind a prefix, counted from the end.
  pub get_or_last :
      (pre : List A) (x a : A) (n : ℕ) → n ≡ length pre + 1 → get_or (pre ++ x ∷ []) (n - 1) a ≡ x
  get_or_last pre x a n e =
      let p : n - 1 ≡ length pre + 0 = omega arith in rw p (get_or-append pre (x ∷ []) 0 a)

  pub get_or_last_two :
      (pre : List A) (x y a : A) (n : ℕ)
      → n ≡ length pre + 2
      → (get_or (pre ++ x ∷ y ∷ []) (n - 2) a ≡ x) × (get_or (pre ++ x ∷ y ∷ []) (n - 2 + 1) a ≡ y)
  get_or_last_two pre x y a n e =
      let p : n - 2 ≡ length pre + 0 = omega arith in
      let q : n - 2 + 1 ≡ length pre + 1 = omega arith in
      (rw p (get_or-append pre (x ∷ y ∷ []) 0 a), rw q (get_or-append pre (x ∷ y ∷ []) 1 a))

-- A part that lies within the front of a list.
pub take_within {ℓ} :
    {A : Type ℓ} (d t : List A) (offset n : ℕ)
    → offset + n ≤ length d
    → take n (drop offset (d ++ t)) ≡ take n (drop offset d)
take_within d t zero zero le = refl
take_within (x ∷ d) t zero (suc n) le =
    ap (λ (l : List _). x ∷ l) (take_within d t zero n (omega arith))
take_within [] t zero (suc n) le = absurd (omega (arith, le))
take_within [] t (suc offset) n le = absurd (omega (arith, le))
take_within (x ∷ d) t (suc offset) n le = take_within d t offset n (omega arith)

pub take_front {ℓ} : {A : Type ℓ} (xs ys : List A) (n : ℕ) → length xs ≡ n → take n (xs ++ ys) ≡ xs
take_front xs ys n e = rw (sym e) (take-append xs ys)

pub take_whole {ℓ} : {A : Type ℓ} (n : ℕ) (xs : List A) → length xs ≡ n → take n xs ≡ xs
take_whole n xs e = rw (sym e) (take_all xs)

pub drop_whole {ℓ} : {A : Type ℓ} (n : ℕ) (xs : List A) → length xs ≡ n → drop n xs ≡ []
drop_whole zero [] e = refl
drop_whole zero (x ∷ xs) e = absurd (omega (arith, e))
drop_whole (suc n) [] e = refl
drop_whole (suc n) (x ∷ xs) e = drop_whole n xs (omega (arith, e))

pub take_past {ℓ} : {A : Type ℓ} (n : ℕ) (xs : List A) → length xs ≤ n → take n xs ≡ xs
take_past zero [] h = refl
take_past zero (x ∷ xs) h = absurd (omega (arith, h))
take_past (suc n) [] h = refl
take_past (suc n) (x ∷ xs) h = ap (λ l. x ∷ l) (take_past n xs (omega (arith, h)))
