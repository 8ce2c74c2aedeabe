-- ===== src/Phy/Kept.antt =====
-- What an accepted entry leaves of a configuration that the device can keep.
use pico_all.Results.{IfOk, IfOk-if, IfOk-refuse}
use pico_all.Base.{
  ℕ, zero, suc, ◌≤◌, ◌<◌, bit_and, ◌≡◌, refl, ◌∙◌, inl, inr, true, false, List, [], ◌∷◌, ◌++◌,
  arith, leb, ◌==◌, Bool-cases, length, length-append, take, drop, length-take, length-drop,
}
use pico_all.Bytes.{IsU16, IsU32, AllBytes, byte_at, get_uint16_be-IsU16, get_uint32_be-IsU32}
use pico_all.Phy.{PhyData, no_phy, has_nul}
use pico_all.Phy.Parse.{
  name_length, name_malformed, driver_malformed, order_malformed, modes_malformed,
  notifications_malformed, status_malformed, write_name, set_driver, read_field,
}

-- The widths and values, and the last byte of each name, which no entry reaches.
abbrev pub Kept : PhyData → Type 0
Kept phy =
    (length phy.vidpid ≡ 4)
    × IsU32 phy.enabled_curves
    × IsU16 phy.opts
    × (length phy.usb_product ≡ 32)
    × (byte_at phy.usb_product 31 ≡ 0)
    × (length phy.usb_manufacturer ≡ 32)
    × (byte_at phy.usb_manufacturer 31 ≡ 0)
    × (phy.led_order_present ≡ true → phy.led_order ≤ 5)
    × (phy.led_status_present ≡ true → status_malformed phy.led_status ≡ false)
    × (phy.led_notifications_present ≡ true → notifications_malformed phy.led_notifications ≡ false)
    × (phy.led_modes_present ≡ true → bit_and phy.led_modes 0x80 ≡ 0)

-- A name that is written over another keeps the size, and the last byte where it does not reach it.
write_name-size :
    (name s : List ℕ) → length s ≤ length name → length (write_name name s) ≡ length name
write_name-size name s h =
    omega (arith, h, length-append s (drop (length s) name), length-drop (length s) name)

write_name-last :
    (name s : List ℕ) (i : ℕ) → length s ≤ i → byte_at (write_name name s) i ≡ byte_at name i
write_name-last name [] i h = refl
write_name-last [] (x ∷ s) i h = beyond (x ∷ s) i h
  where
    beyond : (s : List ℕ) (i : ℕ) → length s ≤ i → byte_at (s ++ []) i ≡ 0
    beyond [] i h = refl
    beyond (x ∷ s) zero h = elim h [ ]
    beyond (x ∷ s) (suc i) h = beyond s i (omega arith)
write_name-last (b ∷ name) (x ∷ s) zero h = elim h [ ]
write_name-last (b ∷ name) (x ∷ s) (suc i) h = write_name-last name s i (omega arith)

pub has_nul-byte_at :
    (name : List ℕ) (i : ℕ) → i < length name → byte_at name i ≡ 0 → has_nul name ≡ true
has_nul-byte_at [] i h e = elim h [ ]
has_nul-byte_at (b ∷ bs) zero h e = ground arith
has_nul-byte_at (b ∷ bs) (suc i) h e = ground (arith, has_nul-byte_at bs i)

leb-false : (a b : ℕ) → leb a b ≡ false → b < a
leb-false a b h = ground arith

name_short : (v : List ℕ) → name_malformed v ≡ false → length (take (name_length v) v) ≤ 31
unfolding name_malformed
name_short v h =
    let below : leb 32 (name_length v) ≡ false = ground (arith, h) in
    omega (arith, length-take (name_length v) v, leb-false 32 (name_length v) below)

pub no_phy-Kept : Kept no_phy
no_phy-Kept = (
  refl,
  omega arith,
  omega arith,
  refl,
  refl,
  refl,
  refl,
  λ h. ground arith,
  λ h. ground arith,
  λ h. ground arith,
  λ h. ground arith,
)

-- A written name keeps the size and ends in the array.
name-kept :
    (name v : List ℕ)
    → length name ≡ 32
    → byte_at name 31 ≡ 0
    → name_malformed v ≡ false
    → (length (write_name name (take (name_length v) v)) ≡ 32)
      × (byte_at (write_name name (take (name_length v) v)) 31 ≡ 0)
name-kept name v size last h =
    let short = name_short v h in
    (
      write_name-size name (take (name_length v) v) (omega (arith, short, size)) ∙ size,
      write_name-last name (take (name_length v) v) 31 short ∙ last,
    )

second_small : (v : List ℕ) → driver_malformed v ≡ false → (length v == 2) ≡ true → byte_at v 1 ≤ 5
unfolding driver_malformed
second_small v h two = ground (arith, h, two)

order_small : (v : List ℕ) → order_malformed v ≡ false → byte_at v 0 ≤ 5
unfolding order_malformed
order_small v h = ground (arith, h)

modes_small : (v : List ℕ) → modes_malformed v ≡ false → bit_and (byte_at v 1) 0x80 ≡ 0
unfolding modes_malformed
modes_small v h = ground (arith, h)

driver-Kept :
    (v : List ℕ) (phy : PhyData) → driver_malformed v ≡ false → Kept phy → Kept (set_driver v phy)
unfolding driver_malformed
driver-Kept v phy h (vid, cur, opt, ps, pl, ms, ml, ord, st, nt, md) =
    elim (Bool-cases (length v == 2)) [
      | inl two ↦ rw two (vid, cur, opt, ps, pl, ms, ml, (λ _. second_small v h two), st, nt, md)
      | inr one ↦ rw one (vid, cur, opt, ps, pl, ms, ml, ord, st, nt, md)
    ]

pub read_field-Kept :
    (tag : ℕ) (v : List ℕ) (phy : PhyData)
    → AllBytes v
    → Kept phy
    → IfOk Kept (read_field tag v phy)
unfolding read_field
read_field-Kept tag v phy bytes' k =
    let (vid, cur, opt, ps, pl, ms, ml, ord, st, nt, md) = k in
    IfOk-if Kept (tag == 0) _ _ (refl, cur, opt, ps, pl, ms, ml, ord, st, nt, md)
      (IfOk-if Kept (tag == 4) _ _ k (
        IfOk-if Kept (tag == 5) _ _ k (
          IfOk-if Kept (tag == 6) _ _
            (vid, cur, get_uint16_be-IsU16 v 0 bytes', ps, pl, ms, ml, ord, st, nt, md)
            (IfOk-if Kept (tag == 8) _ _ k (
              IfOk-if Kept (tag == 9) _ _
                (IfOk-refuse Kept (name_malformed v) _ _ (λ h.
                  let (size, last) = name-kept phy.usb_product v ps pl h in
                  (vid, cur, opt, size, last, ms, ml, ord, st, nt, md)))
                (IfOk-if Kept (tag == 0xF) _ _
                  (IfOk-refuse Kept (name_malformed v) _ _ (λ h.
                    let (size, last) = name-kept phy.usb_manufacturer v ms ml h in
                    (vid, cur, opt, ps, pl, size, last, ord, st, nt, md)))
                  (IfOk-if Kept (tag == 0xA) _ _
                    (vid, get_uint32_be-IsU32 v 0 bytes', opt, ps, pl, ms, ml, ord, st, nt, md)
                    (IfOk-if Kept (tag == 0xB) _ _ k (
                      IfOk-if Kept (tag == 0xC) _ _
                        (IfOk-refuse Kept (driver_malformed v) _ _ (λ h. driver-Kept v phy h k))
                        (IfOk-if Kept (tag == 0xD) _ _
                          (IfOk-refuse Kept (order_malformed v) _ _ (λ h.
                            (vid, cur, opt, ps, pl, ms, ml, (λ _. order_small v h), st, nt, md)))
                          (IfOk-if Kept (tag == 0x12) _ _
                            (IfOk-refuse Kept (modes_malformed v) _ _ (λ h.
                              (vid, cur, opt, ps, pl, ms, ml, ord, st, nt, (λ _. modes_small v h))))
                            (IfOk-if Kept (tag == 0x11) _ _
                              (IfOk-refuse Kept (notifications_malformed v) _ _
                                (λ h. (vid, cur, opt, ps, pl, ms, ml, ord, st, (λ _. h), md)))
                              (IfOk-if Kept (tag == 0x10) _ _
                                (IfOk-refuse Kept (status_malformed v) _ _
                                  (λ h. (vid, cur, opt, ps, pl, ms, ml, ord, (λ _. h), nt, md)))
                                tt)))))))))))))
