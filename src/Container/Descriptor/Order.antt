-- ===== src/Container/Descriptor/Order.antt =====
-- What the check of a container's descriptors ensures: each is valid, and they are in strict order.
use pico_all.Base.{ℕ, ◌<◌, ◌≡◌, refl, ◌↔◌, ◌⊎◌, Bool, true, false, not, ◌&&◌, List, [], ◌∷◌, arith}
use pico_all.Container.Descriptor.{
  Descriptor, descriptor_valid, out_of_order, descriptors_behind, descriptors_valid,
}

-- By type, and by tag within a type.
abbrev pub Before : Descriptor → Descriptor → Type 0
Before p o =
    (p.object_type < o.object_type)
    ⊎ ((p.object_type ≡ o.object_type) × (p.object_tag < o.object_tag))

abbrev pub BeforeAll : Descriptor → List Descriptor → Type 0
BeforeAll p [] = Unit {0}
BeforeAll p (o ∷ os) = Before p o × BeforeAll p os

-- Each is valid and stands before all that follow it.
abbrev pub InOrder : ℕ → ℕ → List Descriptor → Type 0
InOrder lo hi [] = Unit {0}
InOrder lo hi (o ∷ os) = (descriptor_valid o lo hi ≡ true) × BeforeAll o os × InOrder lo hi os

Before-out_of_order : (p o : Descriptor) → (out_of_order p o ≡ false) ↔ Before p o
unfolding out_of_order
Before-out_of_order p o = ground arith

Before-trans : (a b c : Descriptor) → Before a b → Before b c → Before a c
Before-trans a b c h k = ground arith

BeforeAll-trans :
    (p o : Descriptor) (os : List Descriptor) → Before p o → BeforeAll o os → BeforeAll p os
BeforeAll-trans p o [] h k = tt
BeforeAll-trans p o (x ∷ os) h (k, ks) = (Before-trans p o x h k, BeforeAll-trans p o os h ks)

and_true : (a b : Bool) → (a && b) ≡ true → (a ≡ true) × (b ≡ true)
and_true a b h = ground arith

not-true : (b : Bool) → not b ≡ true → b ≡ false
not-true b h = ground arith

behind_order :
    (p : Descriptor) (os : List Descriptor) (lo hi : ℕ)
    → (descriptors_behind p os lo hi ≡ true) ↔ (BeforeAll p os × InOrder lo hi os)
unfolding descriptors_behind
behind_order p [] lo hi = (λ h. (tt, tt), λ h. refl)
behind_order p (o ∷ os) lo hi = (
  λ h.
      let (a, rest) =
        and_true (descriptor_valid o lo hi && not (out_of_order p o))
          (descriptors_behind o os lo hi) h in
      let (valid, ordered) = and_true (descriptor_valid o lo hi) (not (out_of_order p o)) a in
      let before = (Before-out_of_order p o).0 (not-true (out_of_order p o) ordered) in
      let (after, order) = (behind_order o os lo hi).0 rest in
      ((before, BeforeAll-trans p o os before after), (valid, after, order)),
  λ ((before, afters), (valid, after, order)).
      rw (valid, (Before-out_of_order p o).1 before, (behind_order o os lo hi).1 (after, order)),
)

-- file_object_descriptors_valid accepts descriptors exactly when each is valid by itself and they
-- strictly increase, by type and within a type by tag: no two of them name the same object.
pub descriptors_valid_iff :
    (os : List Descriptor) (lo hi : ℕ) → (descriptors_valid os lo hi ≡ true) ↔ InOrder lo hi os
unfolding descriptors_valid
descriptors_valid_iff [] lo hi = (λ h. tt, λ h. refl)
descriptors_valid_iff (o ∷ os) lo hi = (
  λ h.
      let (valid, rest) = and_true (descriptor_valid o lo hi) (descriptors_behind o os lo hi) h in
      let (after, order) = (behind_order o os lo hi).0 rest in (valid, after, order),
  λ (valid, after, order). rw (valid, (behind_order o os lo hi).1 (after, order)),
)
