-- ===== src/Base/Places.antt =====
-- What stands at a place of a list, and what a write there changes.
use Prim.Native.Nat.{ℕ, zero, suc, ◌+◌, ◌<◌, ◌≤◌}
use mathlib.Core.Logic.{◌≢◌, ◌⊎◌, inl, inr}
use mathlib.Core.Path.{◌≡◌, refl, ap, sym, ◌∙◌}
use mathlib.Core.List.{List, [], ◌∷◌, ◌++◌, append_assoc}
use native.Mathlib.Omega.{arith}
use pico_all.Base.Lists.{length, set, length-append, length-set, get_or, take, drop}

-- What stands in a list from place `p` on.
pub record At {ℓ} {A : Type ℓ} (d : List A) (p : ℕ) (xs : List A) : Type ℓ where
  pub suffix : drop p d ≡ xs
  pub size : length d ≡ p + length xs

module _ {ℓ} {A : Type ℓ} where
  get_or-drop : (d : List A) (p : ℕ) (a : A) → get_or d p a ≡ get_or (drop p d) 0 a
  get_or-drop [] zero a = refl
  get_or-drop [] (suc p) a = refl
  get_or-drop (x ∷ d) zero a = refl
  get_or-drop (x ∷ d) (suc p) a = get_or-drop d p a

  pub drop-drop : (d : List A) (p k : ℕ) → drop k (drop p d) ≡ drop (p + k) d
  drop-drop d zero k = ap (λ (i : ℕ). drop i d) (omega arith)
  drop-drop [] (suc p) zero = let e : suc p + 0 ≡ suc p = omega arith in rw e refl
  drop-drop [] (suc p) (suc k) = let e : suc p + suc k ≡ suc (p + suc k) = omega arith in rw e refl
  drop-drop (x ∷ d) (suc p) k =
      let e : suc p + k ≡ suc (p + k) = omega arith in rw e (drop-drop d p k)

  pub At-head :
      {d : List A} {p : ℕ} {x : A} {xs : List A} (a : A) → At d p (x ∷ xs) → get_or d p a ≡ x
  At-head {d} {p} a h = get_or-drop d p a ∙ rw h.suffix

  pub drop-append_self : (xs ys : List A) → drop (length xs) (xs ++ ys) ≡ ys
  drop-append_self [] ys = refl
  drop-append_self (x ∷ xs) ys = drop-append_self xs ys

  pub At-append :
      {d : List A} {p : ℕ} (xs ys : List A) → At d p (xs ++ ys) → At d (p + length xs) ys
  At-append {d} {p} xs ys h = record {
    suffix = sym (drop-drop d p (length xs)) ∙ rw h.suffix (drop-append_self xs ys);
    size = omega (arith, h.size, length-append {ℓ} xs ys);
  }

  pub At-tail : {d : List A} {p : ℕ} {x : A} {xs : List A} → At d p (x ∷ xs) → At d (p + 1) xs
  At-tail {d} {p} {x} {xs} h = At-append (x ∷ []) xs h

  pub At-start : (d : List A) → At d 0 d
  At-start d = record { suffix = refl; size = omega arith }

  drop-set : (d : List A) (p k : ℕ) (v : A) → drop p (set d (p + k) v) ≡ set (drop p d) k v
  drop-set d zero k v = ap (λ (i : ℕ). set d i v) (omega arith)
  drop-set [] (suc p) k v = refl
  drop-set (x ∷ d) (suc p) k v =
      let e : suc p + k ≡ suc (p + k) = omega arith in rw e (drop-set d p k v)

  pub set-append_self :
      (pre xs : List A) (x v : A) → set (pre ++ x ∷ xs) (length pre) v ≡ pre ++ v ∷ xs
  set-append_self [] xs x v = refl
  set-append_self (y ∷ pre) xs x v = ap (λ l. y ∷ l) (set-append_self pre xs x v)

  -- A write behind `pre` shows in what stands before it as well.
  pub At-set :
      {d : List A} {p : ℕ} (pre xs : List A) (x v : A)
      → At d p (pre ++ x ∷ xs)
      → At (set d (p + length pre) v) p (pre ++ v ∷ xs)
  At-set {d} {p} pre xs x v h = record {
    suffix = drop-set d p (length pre) v ∙ rw h.suffix (set-append_self pre xs x v);
    size = omega (
      arith,
      h.size,
      length-set {ℓ} d (p + length pre) v,
      length-append {ℓ} pre (x ∷ xs),
      length-append {ℓ} pre (v ∷ xs),
    );
  }

  -- Two neighbouring writes.
  pub At-set_two :
      {d : List A} {p : ℕ} (pre xs : List A) (x y v w : A)
      → At d p (pre ++ x ∷ y ∷ xs)
      → At (set (set d (p + length pre) v) (p + length pre + 1) w) p (pre ++ v ∷ w ∷ xs)
  At-set_two {d} {p} pre xs x y v w h =
      let place : p + length (pre ++ v ∷ []) ≡ p + length pre + 1 =
        omega (arith, length-append {ℓ} pre (v ∷ [])) in
      let one = At-set pre (y ∷ xs) x v h in
      let two =
        At-set {d = set d (p + length pre) v} {p = p} (pre ++ v ∷ []) xs y w
          (rw (← append_assoc pre (v ∷ []) (y ∷ xs)) at one) in
      rw (place, append_assoc pre (v ∷ []) (w ∷ xs)) at two

pub drop_front {ℓ} : {A : Type ℓ} (xs ys : List A) (n : ℕ) → length xs ≡ n → drop n (xs ++ ys) ≡ ys
drop_front xs ys n e = rw (sym e) (drop-append_self xs ys)

module _ {ℓ} {A : Type ℓ} where
  pub get_or-set_self :
      (xs : List A) (i : ℕ) (v d : A) → i < length xs → get_or (set xs i v) i d ≡ v
  get_or-set_self [] i v d h = absurd (omega (arith, h))
  get_or-set_self (x ∷ xs) zero v d h = refl
  get_or-set_self (x ∷ xs) (suc i) v d h = get_or-set_self xs i v d (omega (arith, h))

  pub get_or-set_ne :
      (xs : List A) (i j : ℕ) (v d : A) → i ≢ j → get_or (set xs i v) j d ≡ get_or xs j d
  get_or-set_ne [] i j v d h = refl
  get_or-set_ne (x ∷ xs) zero zero v d h = absurd (h refl)
  get_or-set_ne (x ∷ xs) zero (suc j) v d h = refl
  get_or-set_ne (x ∷ xs) (suc i) zero v d h = refl
  get_or-set_ne (x ∷ xs) (suc i) (suc j) v d h = get_or-set_ne xs i j v d (λ e. h (ap suc e))

  pub get_or_front :
      (xs ys : List A) (i : ℕ) (d : A) → i < length xs → get_or (xs ++ ys) i d ≡ get_or xs i d
  get_or_front [] ys i d h = absurd (omega (arith, h))
  get_or_front (x ∷ xs) ys zero d h = refl
  get_or_front (x ∷ xs) ys (suc i) d h = get_or_front xs ys i d (omega (arith, h))

  pub take_shorter : (xs ys : List A) (n : ℕ) → n ≤ length xs → take n (xs ++ ys) ≡ take n xs
  take_shorter xs ys zero h = refl
  take_shorter [] ys (suc n) h = absurd (omega (arith, h))
  take_shorter (x ∷ xs) ys (suc n) h = ap (λ l. x ∷ l) (take_shorter xs ys n (omega (arith, h)))

  pub take_next :
      (xs : List A) (n : ℕ) (d : A)
      → n < length xs
      → take (n + 1) xs ≡ take n xs ++ get_or xs n d ∷ []
  take_next [] n d h = absurd (omega (arith, h))
  take_next (x ∷ xs) zero d h = refl
  take_next (x ∷ xs) (suc n) d h =
      let e : suc n + 1 ≡ suc (n + 1) = omega arith in
      rw e (ap (λ l. x ∷ l) (take_next xs n d (omega (arith, h))))

  pub drop_next :
      (xs : List A) (n : ℕ) (d : A) → n < length xs → drop n xs ≡ get_or xs n d ∷ drop (n + 1) xs
  drop_next [] n d h = absurd (omega (arith, h))
  drop_next (x ∷ xs) zero d h = refl
  drop_next (x ∷ xs) (suc n) d h =
      let e : suc n + 1 ≡ suc (n + 1) = omega arith in rw e (drop_next xs n d (omega (arith, h)))

  pub take-set : (xs : List A) (n i : ℕ) (v : A) → n ≤ i → take n (set xs i v) ≡ take n xs
  take-set xs zero i v h = refl
  take-set [] (suc n) i v h = refl
  take-set (x ∷ xs) (suc n) zero v h = absurd (omega (arith, h))
  take-set (x ∷ xs) (suc n) (suc i) v h = ap (λ l. x ∷ l) (take-set xs n i v (omega (arith, h)))

  pub set-cases :
      (xs : List A) (i j : ℕ) (v d : A)
      → (get_or (set xs i v) j d ≡ v) ⊎ (get_or (set xs i v) j d ≡ get_or xs j d)
  set-cases [] i j v d = inr refl
  set-cases (x ∷ xs) zero zero v d = inl refl
  set-cases (x ∷ xs) zero (suc j) v d = inr refl
  set-cases (x ∷ xs) (suc i) zero v d = inr refl
  set-cases (x ∷ xs) (suc i) (suc j) v d = set-cases xs i j v d

  pub get_or_end : (xs : List A) (x d : A) (n : ℕ) → length xs ≡ n → get_or (xs ++ x ∷ []) n d ≡ x
  get_or_end [] x d n e = rw (sym e) refl
  get_or_end (y ∷ xs) x d zero e = absurd (omega (arith, e))
  get_or_end (y ∷ xs) x d (suc n) e = get_or_end xs x d n (omega (arith, e))
