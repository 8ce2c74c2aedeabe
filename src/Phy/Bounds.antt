-- ===== src/Phy/Bounds.antt =====
-- The size of a serialized configuration.
use pico_all.Phy.Leds.{status_size, notifications_size}
use pico_all.Base.{
  ℕ, ◌+◌, ◌≤◌, ◌≡◌, refl, subst, Bool, true, false, not, ◌&&◌, ◌||◌, List, [], ◌∷◌, ◌++◌, arith,
  ltb, if◌then◌else◌, length, length-append,
}
use pico_all.Bytes.{ok, put_uint16_be}
use pico_all.Results.{refuse_ok, ok_injective}
use pico_all.Phy.{
  PhyData, has_nul, c_string, when_present, vidpid_entry, product_entry, manufacturer_entry,
  driver_entry, led_entries, phy_bytes, phy_serialize_data,
}
use pico_all.Phy.Names.{length-c_string}
use pico_all.Phy.Canonical.{
  PhyFits, status_of, notifications_of, modes_of, status-valid, notifications-valid,
}

abbrev pub Between : ℕ → ℕ → List ℕ → Type 0
Between lo hi xs = (lo ≤ length xs) × (length xs ≤ hi)

Between-append :
    (lo hi lo' hi' : ℕ) (xs ys : List ℕ)
    → Between lo hi xs
    → Between lo' hi' ys
    → Between (lo + lo') (hi + hi') (xs ++ ys)
Between-append lo hi lo' hi' xs ys (a, b) (c, d) =
    (omega (arith, length-append xs ys), omega (arith, length-append xs ys))

Between-when_present :
    (hi : ℕ) (present : Bool) (xs : List ℕ)
    → (present ≡ true → length xs ≤ hi)
    → Between 0 hi (when_present present xs)
Between-when_present hi true xs h = (omega arith, h refl)
Between-when_present hi false xs h = (omega arith, omega arith)

-- The names that are written end in their arrays.
pub record NamesEnd (phy : PhyData) : Type 0 where
  pub product_ends : phy.usb_product_present ≡ true → has_nul phy.usb_product ≡ true
  pub manufacturer_ends : phy.usb_manufacturer_present ≡ true → has_nul phy.usb_manufacturer ≡ true

pub phy_serialize_data-NamesEnd :
    (phy : PhyData) (room : ℕ) (d : List ℕ)
    → phy_serialize_data phy room ≡ ok d
    → (128 ≤ room) × NamesEnd phy × (phy_bytes phy ≡ d)
unfolding phy_serialize_data
phy_serialize_data-NamesEnd phy room d e =
    let r1 = refuse_ok (ltb room 128) _ _ d e in
    let r2 =
      refuse_ok
        (phy.usb_product_present && not (has_nul phy.usb_product)
          || phy.usb_manufacturer_present && not (has_nul phy.usb_manufacturer))
        _ _ d r1.1 in
    (
      ground (arith, r1.0),
      record {
        product_ends = λ h. ground (arith, r2.0);
        manufacturer_ends = λ h. ground (arith, r2.0);
      },
      ok_injective _ d r2.1,
    )

pub phy_bytes-Between :
    (phy : PhyData) → PhyFits phy → NamesEnd phy → Between 29 125 (phy_bytes phy)
unfolding phy_bytes vidpid_entry product_entry manufacturer_entry driver_entry led_entries
phy_bytes-Between phy fits ends =
    Between-append 0 6 29 119 _ _ (Between-when_present 6 phy.vidpid_present _ (λ _. omega arith)) (
      Between-append 0 3 29 116 _ _
        (Between-when_present 3 phy.led_gpio_present _ (λ _. omega arith))
        (Between-append 0 3 29 113 _ _
          (Between-when_present 3 phy.led_brightness_present _ (λ _. omega arith))
          (Between-append 4 4 25 109 (6 ∷ 2 ∷ put_uint16_be phy.opts) _ (omega arith, omega arith)
            (Between-append 0 3 25 106 _ _
              (Between-when_present 3 phy.up_btn_present _ (λ _. omega arith))
              (Between-append 0 34 25 72 _ _
                (Between-when_present 34 phy.usb_product_present _
                  (λ h. name phy.usb_product fits.product_size (ends.product_ends h)))
                (Between-append 0 34 25 38 _ _
                  (Between-when_present 34 phy.usb_manufacturer_present _ (λ h.
                    name phy.usb_manufacturer fits.manufacturer_size (ends.manufacturer_ends h)))
                  (Between-append 0 6 25 32 _ _
                    (Between-when_present 6 phy.enabled_curves_present _ (λ _. omega arith))
                    (Between-append 0 3 25 29 _ _
                      (Between-when_present 3 phy.enabled_usb_itf_present _ (λ _. omega arith))
                      (drivers phy.led_driver_present phy.led_order_present)))))))))
  where
    name :
        (s : List ℕ)
        → length s ≡ 32
        → has_nul s ≡ true
        → length (0 ∷ 0 ∷ (c_string s ++ (0 ∷ []))) ≤ 34
    name s size nul = omega (arith, length-c_string s nul, length-append (c_string s) (0 ∷ []))

    leds : Between 25 25 (led_entries phy)
    leds =
        let s : length (status_of phy) ≡ 10 = status_size (status_of phy) (status-valid phy fits) in
        let n : length (notifications_of phy) ≡ 7 =
          notifications_size (notifications_of phy) (notifications-valid phy fits) in
        Between-append 12 12 13 13 (0x10 ∷ 10 ∷ status_of phy) _
          (omega (arith, s), omega (arith, s))
          (Between-append 9 9 4 4 (0x11 ∷ 7 ∷ notifications_of phy)
            (0x12 ∷ 2 ∷ 1 ∷ modes_of phy ∷ []) (omega (arith, n), omega (arith, n))
            (omega arith, omega arith))

    drivers :
        (driver order : Bool)
        → Between 25 29 (
            when_present driver (
              if order
              then 0xC ∷ 2 ∷ phy.led_driver ∷ phy.led_order ∷ []
              else 0xC ∷ 1 ∷ phy.led_driver ∷ [])
            ++ (when_present (order && not driver) (0xD ∷ 1 ∷ phy.led_order ∷ [])
                ++ led_entries phy))
    drivers true true = (omega (arith, leds), omega (arith, leds))
    drivers true false = (omega (arith, leds), omega (arith, leds))
    drivers false true = (omega (arith, leds), omega (arith, leds))
    drivers false false = (omega (arith, leds), omega (arith, leds))

-- For a configuration whose fields have the width of their C types and values that the parser
-- accepts: what phy_serialize_data writes is no longer than PHY_MAX_SIZE, which is 128, nor than
-- the room in the buffer.
pub phy_serialize_data-bounds :
    (phy : PhyData) (room : ℕ) (d : List ℕ)
    → PhyFits phy
    → phy_serialize_data phy room ≡ ok d
    → (length d ≤ 128) × (length d ≤ room)
phy_serialize_data-bounds phy room d fits e =
    let (enough, ends, same) = phy_serialize_data-NamesEnd phy room d e in
    let (_, short) = subst (Between 29 125) same (phy_bytes-Between phy fits ends) in
    (omega arith, omega arith)
