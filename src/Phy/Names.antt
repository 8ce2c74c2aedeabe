-- ===== src/Phy/Names.antt =====
-- The names of a configuration are parsed back.
use pico_all.Base.{
  ℕ, suc, ◌+◌, ◌-◌, ◌%◌, ◌<◌, ◌≡◌, refl, sym, ap, ◌∙◌, subst, inl, inr, Bool, true, false, not,
  List, [], ◌∷◌, ◌++◌, arith, ltb, leb, ◌==◌, if◌then◌else◌, Bool-cases, length, length-append,
  take, take_front,
}
use pico_all.Bytes.{ok, byte_at}
use pico_all.Phy.{PhyData, has_nul, c_string, when_present, product_entry, manufacturer_entry}
use pico_all.Phy.Parse.{
  length_wrong, name_length, name_malformed, write_name, set_product, set_manufacturer, read_field,
}
use pico_all.Phy.Reads.{Reads, Reads-more, Reads-step}

has_nul-c_string : (name : List ℕ) → has_nul (c_string name) ≡ false
has_nul-c_string [] = refl
has_nul-c_string (b ∷ bs) = elim (Bool-cases (b == 0)) [
  | inl nul ↦ rw nul refl
  | inr other ↦ rw other (rw other (has_nul-c_string bs))
]

-- A string that ends in its array is shorter than the array.
pub length-c_string : (name : List ℕ) → has_nul name ≡ true → length (c_string name) < length name
length-c_string [] h = ground arith
length-c_string (b ∷ bs) h = elim (Bool-cases (b == 0)) [
  | inl nul ↦ rw nul (omega arith)
  | inr other ↦ rw other (omega (arith, length-c_string bs (rw other at h)))
]

last_byte : (s : List ℕ) → byte_at (s ++ (0 ∷ [])) (length s) ≡ 0
last_byte [] = refl
last_byte (b ∷ bs) = last_byte bs

-- The value of a name's entry.
abbrev value : List ℕ → List ℕ
value name = c_string name ++ (0 ∷ [])

module _ (name : List ℕ) (size : length name ≡ 32) (ends : has_nul name ≡ true) where
  length-value : length (value name) ≡ length (c_string name) + 1
  length-value = length-append (c_string name) (0 ∷ [])

  pub name_length-value : name_length (value name) ≡ length (c_string name)
  name_length-value =
      let last : byte_at (value name) (length (value name) - 1) ≡ 0 =
        ap (λ k. byte_at (value name) k) (omega (arith, length-value))
        ∙ last_byte (c_string name) in
      rw last (omega (arith, length-value))

  name_malformed-value : name_malformed (value name) ≡ false
  unfolding name_malformed
  name_malformed-value =
      let short = length-c_string name ends in
      let nonempty : (length (value name) == 0) ≡ false = ground (arith, length-value) in
      let within : ltb 32 (length (value name)) ≡ false = ground (arith, length-value) in
      let below : leb 32 (name_length (value name)) ≡ false = ground (arith, name_length-value) in
      let no_nul : has_nul (take (name_length (value name)) (value name)) ≡ false =
        ap (λ k. has_nul (take k (value name))) name_length-value
        ∙ ap has_nul (take_front (c_string name) (0 ∷ []) (length (c_string name)) refl)
        ∙ has_nul-c_string name in
      rw (nonempty, within, below, no_nul) refl

  length_byte : (length (c_string name) + 1) % 256 ≡ length (value name)
  length_byte = let short = length-c_string name ends in omega (arith, length-value)

module _ (name : List ℕ) (size : length name ≡ 32) (n : ℕ) (rest : List ℕ) (phy r : PhyData) where
  abbrev with_product : Bool → PhyData
  with_product present = record phy {
    usb_product = if present then write_name phy.usb_product (c_string name) else phy.usb_product;
    usb_product_present =
        if present then not (length (c_string name) == 0) else phy.usb_product_present;
  }

  abbrev with_manufacturer : Bool → PhyData
  with_manufacturer present = record phy {
    usb_manufacturer =
        if present then write_name phy.usb_manufacturer (c_string name) else phy.usb_manufacturer;
    usb_manufacturer_present =
        if present then not (length (c_string name) == 0) else phy.usb_manufacturer_present;
  }

  product_value : has_nul name ≡ true → set_product (value name) phy ≡ with_product true
  product_value ends =
      rw
        (
          name_length-value name size ends,
          take_front (c_string name) (0 ∷ []) (length (c_string name)) refl,
        )
        refl

  manufacturer_value :
      has_nul name ≡ true → set_manufacturer (value name) phy ≡ with_manufacturer true
  manufacturer_value ends =
      rw
        (
          name_length-value name size ends,
          take_front (c_string name) (0 ∷ []) (length (c_string name)) refl,
        )
        refl

  pub Reads-product :
      (present : Bool)
      → (present ≡ true → has_nul name ≡ true)
      → Reads n rest (with_product present) r
      → Reads (suc n) (when_present present (product_entry name) ++ rest) phy r
  unfolding product_entry read_field length_wrong
  Reads-product false ends h = Reads-more n rest phy r h
  Reads-product true ends h =
      subst (λ k. Reads (suc n) (9 ∷ k ∷ (value name ++ rest)) phy r)
        (sym (
          omega (arith, length_byte name size (ends refl), length-c_string name (ends refl), size)))
        (Reads-step n 9 (value name) rest phy (with_product true) r refl
          (rw (name_malformed-value name size (ends refl)) (ap ok (product_value (ends refl)))) h)

  pub Reads-manufacturer :
      (present : Bool)
      → (present ≡ true → has_nul name ≡ true)
      → Reads n rest (with_manufacturer present) r
      → Reads (suc n) (when_present present (manufacturer_entry name) ++ rest) phy r
  unfolding manufacturer_entry read_field length_wrong
  Reads-manufacturer false ends h = Reads-more n rest phy r h
  Reads-manufacturer true ends h =
      subst (λ k. Reads (suc n) (0xF ∷ k ∷ (value name ++ rest)) phy r)
        (sym (length_byte name size (ends refl)))
        (Reads-step n 0xF (value name) rest phy (with_manufacturer true) r refl
          (rw (name_malformed-value name size (ends refl)) (ap ok (manufacturer_value (ends refl))))
          h)
