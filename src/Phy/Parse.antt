-- ===== src/Phy/Parse.antt =====
-- Parsing a configuration: `phy_unserialize_data`.
use pico_all.Base.{
  ℕ, zero, suc, ◌+◌, ◌-◌, bit_and, Bool, true, false, not, ◌&&◌, ◌||◌, List, [], ◌∷◌, ◌++◌, ltb,
  leb, ◌==◌, if◌then◌else◌, length, take, drop,
}
use pico_all.Bytes.{
  err_null_param, wrong_data, Result, ok, err, byte_at, get_uint16_be, get_uint32_be, ◌>>=◌, refuse,
}
use pico_all.Phy.{PhyData, no_phy, has_nul}

-- The first switch: the tags whose values have a fixed length.
unfoldable pub length_wrong : ℕ → ℕ → Bool
length_wrong tag tlen =
    if tag == 0 || tag == 0xA
    then not (tlen == 4)
    else if tag == 6
    then not (tlen == 2)
    else if tag == 4 || tag == 5 || tag == 8 || tag == 0xB
    then not (tlen == 1)
    else false

-- What the second switch refuses of a name, a LED driver, an order, the modes, the notifications
-- and the status.
abbrev pub name_length : List ℕ → ℕ
name_length v = length v - (if byte_at v (length v - 1) == 0 then 1 else 0)

unfoldable pub name_malformed : List ℕ → Bool
name_malformed v =
    length v == 0 || ltb 32 (length v) || leb 32 (name_length v) || has_nul (take (name_length v) v)

unfoldable pub driver_malformed : List ℕ → Bool
driver_malformed v =
    not (length v == 1) && not (length v == 2) || length v == 2 && ltb 5 (byte_at v 1)

unfoldable pub order_malformed : List ℕ → Bool
order_malformed v = not (length v == 1) || ltb 5 (byte_at v 0)

unfoldable pub modes_malformed : List ℕ → Bool
modes_malformed v =
    not (length v == 2) || not (byte_at v 0 == 1) || not (bit_and (byte_at v 1) 0x80 == 0)

unfoldable pub notifications_malformed : List ℕ → Bool
notifications_malformed v =
    not (length v == 7)
    || not (byte_at v 0 == 1)
    || ltb 7 (byte_at v 1)
    || ltb 7 (byte_at v 3)
    || ltb 7 (byte_at v 5)

unfoldable pub status_malformed : List ℕ → Bool
status_malformed v =
    not (length v == 10)
    || not (byte_at v 0 == 1)
    || ltb 1 (byte_at v 1)
    || ltb 7 (byte_at v 2)
    || ltb 7 (byte_at v 4)
    || ltb 7 (byte_at v 6)
    || ltb 7 (byte_at v 8)

-- `memcpy(name, v, len)`
abbrev pub write_name : List ℕ → List ℕ → List ℕ
write_name name s = s ++ drop (length s) name

-- What the second switch does with the value of each tag.
abbrev pub set_vidpid : List ℕ → PhyData → PhyData
set_vidpid v phy = record phy {
  vidpid = byte_at v 1 ∷ byte_at v 0 ∷ byte_at v 3 ∷ byte_at v 2 ∷ [];
  vidpid_present = true;
}

abbrev pub set_product : List ℕ → PhyData → PhyData
set_product v phy =
    let len' = name_length v in
    record phy {
      usb_product = write_name phy.usb_product (take len' v);
      usb_product_present = not (len' == 0);
    }

abbrev pub set_manufacturer : List ℕ → PhyData → PhyData
set_manufacturer v phy =
    let len' = name_length v in
    record phy {
      usb_manufacturer = write_name phy.usb_manufacturer (take len' v);
      usb_manufacturer_present = not (len' == 0);
    }

abbrev pub set_driver : List ℕ → PhyData → PhyData
set_driver v phy =
    if length v == 2
    then record phy {
      led_driver = byte_at v 0;
      led_driver_present = true;
      led_order = byte_at v 1;
      led_order_present = true;
    }
    else record phy { led_driver = byte_at v 0; led_driver_present = true }

-- The second switch. Its own tests of the lengths that the first switch has tested are left out.
unfoldable pub read_field : ℕ → List ℕ → PhyData → Result PhyData
unfolding name_malformed driver_malformed order_malformed modes_malformed notifications_malformed
    status_malformed
read_field tag v phy =
    if tag == 0
    then ok (set_vidpid v phy)
    else if tag == 4
    then ok (record phy { led_gpio = byte_at v 0; led_gpio_present = true })
    else if tag == 5
    then ok (record phy { led_brightness = byte_at v 0; led_brightness_present = true })
    else if tag == 6
    then ok (record phy { opts = get_uint16_be v 0 })
    else if tag == 8
    then ok (record phy { up_btn = byte_at v 0; up_btn_present = true })
    else if tag == 9
    then refuse (name_malformed v) wrong_data (ok (set_product v phy))
    else if tag == 0xF
    then refuse (name_malformed v) wrong_data (ok (set_manufacturer v phy))
    else if tag == 0xA
    then ok (record phy { enabled_curves = get_uint32_be v 0; enabled_curves_present = true })
    else if tag == 0xB
    then ok (record phy { enabled_usb_itf = byte_at v 0; enabled_usb_itf_present = true })
    else if tag == 0xC
    then refuse (driver_malformed v) wrong_data (ok (set_driver v phy))
    else if tag == 0xD
    then refuse (order_malformed v) wrong_data
        (ok (record phy { led_order = byte_at v 0; led_order_present = true }))
    else if tag == 0x12
    then refuse (modes_malformed v) wrong_data
        (ok (record phy { led_modes = byte_at v 1; led_modes_present = true }))
    else if tag == 0x11
    then refuse (notifications_malformed v) wrong_data
        (ok (record phy { led_notifications = v; led_notifications_present = true }))
    else if tag == 0x10
    then refuse (status_malformed v) wrong_data
        (ok (record phy { led_status = v; led_status_present = true }))
    else err wrong_data

-- The loop over what is left of the data, in rounds; each takes two bytes at least.
unfoldable pub phy_loop : ℕ → List ℕ → PhyData → Result PhyData
unfolding length_wrong read_field
phy_loop zero rest phy = err wrong_data
phy_loop (suc rounds) [] phy = ok phy
phy_loop (suc rounds) (tag ∷ []) phy = err wrong_data
phy_loop (suc rounds) (tag ∷ tlen ∷ p) phy =
    let next = λ (phy' : PhyData). phy_loop rounds (drop tlen p) phy' in
    refuse (ltb (length p) tlen) wrong_data
      (refuse (length_wrong tag tlen) wrong_data (read_field tag (take tlen p) phy >>= next))

-- What is set behind the loop. `PHY_LED_ORDER_RGB` is 0.
abbrev pub fill_in : PhyData → PhyData
fill_in phy = record phy {
  enabled_usb_itf = if phy.enabled_usb_itf_present then phy.enabled_usb_itf else 0x1F;
  enabled_usb_itf_present = true;
  led_order = if phy.led_order_present then phy.led_order else 0;
}

-- `phy_unserialize_data` of data that is not null, with its pointer not null.
unfoldable pub phy_unserialize_data : List ℕ → Result PhyData
unfolding phy_loop
phy_unserialize_data d =
    refuse (length d == 0 || ltb 65535 (length d)) err_null_param
      (phy_loop (length d + 1) d no_phy >>= λ phy. ok (fill_in phy))
