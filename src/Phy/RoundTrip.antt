-- ===== src/Phy/RoundTrip.antt =====
-- A configuration that is serialized is parsed back.
use pico_all.Base.{
  ℕ, ◌+◌, ◌≡◌, refl, ap, subst, true, false, not, ◌||◌, List, [], ◌∷◌, arith, ltb, ◌==◌,
  if◌then◌else◌, length, replicate,
}
use pico_all.Bytes.{ok, byte_at}
use pico_all.Phy.{
  PhyData, no_phy, c_string, driver_entry, led_entries, phy_bytes, phy_serialize_data,
}
use pico_all.Phy.Parse.{write_name, phy_loop, fill_in, phy_unserialize_data}
use pico_all.Phy.Reads.{
  Reads, Reads-vidpid, Reads-gpio, Reads-brightness, Reads-opts, Reads-button, Reads-curves,
  Reads-interfaces,
}
use pico_all.Phy.Names.{Reads-product, Reads-manufacturer}
use pico_all.Phy.Leds.{Reads-driver, Reads-leds}
use pico_all.Phy.Canonical.{
  PhyFits, status_of, notifications_of, modes_of, canonical_phy, four_bytes, if_true, if_twice,
  if_and, status-valid, notifications-valid, modes-valid,
}
use pico_all.Phy.Bounds.{Between, NamesEnd, phy_serialize_data-NamesEnd, phy_bytes-Between}

module _ (phy : PhyData) where
  -- What the loop leaves: a field that is not present keeps its zero.
  abbrev product : List ℕ
  product = c_string phy.usb_product

  abbrev manufacturer : List ℕ
  manufacturer = c_string phy.usb_manufacturer

  abbrev parsed : PhyData
  parsed = record {
    vidpid =
        if phy.vidpid_present
        then byte_at phy.vidpid 0
          ∷ byte_at phy.vidpid 1
          ∷ byte_at phy.vidpid 2
          ∷ byte_at phy.vidpid 3
          ∷ []
        else replicate 4 0;
    enabled_curves = if phy.enabled_curves_present then phy.enabled_curves else 0;
    usb_product =
        if phy.usb_product_present then write_name (replicate 32 0) product else replicate 32 0;
    usb_manufacturer =
        if phy.usb_manufacturer_present
        then write_name (replicate 32 0) manufacturer
        else replicate 32 0;
    opts = phy.opts;
    led_gpio = if phy.led_gpio_present then phy.led_gpio else 0;
    led_brightness = if phy.led_brightness_present then phy.led_brightness else 0;
    up_btn = if phy.up_btn_present then phy.up_btn else 0;
    enabled_usb_itf = if phy.enabled_usb_itf_present then phy.enabled_usb_itf else 0;
    led_driver = if phy.led_driver_present then phy.led_driver else 0;
    led_order = if phy.led_order_present then phy.led_order else 0;
    led_status = status_of phy;
    led_notifications = notifications_of phy;
    led_modes = modes_of phy;
    vidpid_present = if phy.vidpid_present then true else false;
    led_gpio_present = if phy.led_gpio_present then true else false;
    led_brightness_present = if phy.led_brightness_present then true else false;
    up_btn_present = if phy.up_btn_present then true else false;
    usb_product_present = if phy.usb_product_present then not (length product == 0) else false;
    usb_manufacturer_present =
        if phy.usb_manufacturer_present then not (length manufacturer == 0) else false;
    enabled_curves_present = if phy.enabled_curves_present then true else false;
    enabled_usb_itf_present = if phy.enabled_usb_itf_present then true else false;
    led_driver_present = if phy.led_driver_present then true else false;
    led_order_present = if phy.led_order_present then true else false;
    led_status_present = true;
    led_notifications_present = true;
    led_modes_present = true;
  }

  Reads-all : PhyFits phy → NamesEnd phy → Reads 15 (phy_bytes phy) no_phy parsed
  unfolding phy_bytes driver_entry led_entries
  Reads-all fits ends = Reads-vidpid 14 _ _ _ phy.vidpid_present phy.vidpid (
      Reads-gpio 13 _ _ _ phy.led_gpio_present phy.led_gpio (
        Reads-brightness 12 _ _ _ phy.led_brightness_present phy.led_brightness (
          Reads-opts 11 _ _ _ phy.opts fits.opts_width (
            Reads-button 10 _ _ _ phy.up_btn_present phy.up_btn (
              Reads-product phy.usb_product fits.product_size 9 _ _ _ phy.usb_product_present
                ends.product_ends
                (Reads-manufacturer phy.usb_manufacturer fits.manufacturer_size 8 _ _ _
                  phy.usb_manufacturer_present ends.manufacturer_ends
                  (Reads-curves 7 _ _ _ phy.enabled_curves_present phy.enabled_curves
                    fits.curves_width
                    (Reads-interfaces 6 _ _ _ phy.enabled_usb_itf_present phy.enabled_usb_itf (
                      Reads-driver 4 _ _ _ phy.led_driver_present phy.led_driver
                        phy.led_order_present phy.led_order fits.order_range
                        (Reads-leds (status_of phy) (notifications_of phy) (modes_of phy) _
                          (status-valid phy fits) (notifications-valid phy fits)
                          (modes-valid phy fits)))))))))))

  fill_in-parsed : PhyFits phy → fill_in parsed ≡ canonical_phy phy
  fill_in-parsed fits =
      rw
        (
          four_bytes phy.vidpid fits.vidpid_size,
          if_true phy.vidpid_present,
          if_true phy.led_gpio_present,
          if_true phy.led_brightness_present,
          if_true phy.up_btn_present,
          if_true phy.enabled_curves_present,
          if_true phy.led_driver_present,
          if_true phy.led_order_present,
          if_true phy.enabled_usb_itf_present,
          if_twice phy.enabled_usb_itf_present phy.enabled_usb_itf 0 0x1F,
          if_twice phy.led_order_present phy.led_order 0 0,
          if_and phy.usb_product_present (not (length product == 0)),
          if_and phy.usb_manufacturer_present (not (length manufacturer == 0)),
        )
        refl

-- For a configuration whose fields have the width of their C types and values that the parser
-- accepts: what phy_serialize_data writes, phy_unserialize_data parses to the configuration with
-- zeros in the absent fields, the defaults of the LEDs, interfaces and order where they are absent,
-- a name without bytes as an absent one, and zeros behind the end of each name.
pub phy_unserialize_data-phy_serialize_data :
    (phy : PhyData) (room : ℕ) (d : List ℕ)
    → PhyFits phy
    → phy_serialize_data phy room ≡ ok d
    → phy_unserialize_data d ≡ ok (canonical_phy phy)
unfolding phy_unserialize_data Reads
phy_unserialize_data-phy_serialize_data phy room d fits e =
    let (_, ends, same) = phy_serialize_data-NamesEnd phy room d e in
    let (long, short) = subst (Between 29 125) same (phy_bytes-Between phy fits ends) in
    let valid : (length d == 0 || ltb 65535 (length d)) ≡ false = ground arith in
    let reads : phy_loop (length d + 1) d no_phy ≡ ok (parsed phy) =
      subst (λ b. phy_loop (length d + 1) b no_phy ≡ ok (parsed phy)) same
        (Reads-all phy fits ends (length d + 1) (omega (arith, long))) in
    rw (valid, reads) (ap ok (fill_in-parsed phy fits))
