-- ===== src/Phy/Tests.antt =====
-- Runs of the configuration code, and its theorems at concrete inputs.
use pico_all.Store.Files.Memory.{Disk, memory}
use pico_all.Phy.Saved.{phy_save, phy_load, phy_init, phy_load-phy_save}
use pico_all.Phy.Accepted.{LedsInRange, phy_unserialize_data-PhyFits}
use pico_all.Base.{ℕ, ◌≡◌, refl, ap, true, List, [], ◌∷◌, arith, replicate}
use pico_all.Bytes.{err_null_param, wrong_data, Result, ok, err}
use pico_all.Phy.{
  PhyData, no_phy, phy_led_defaults, vidpid_entry, product_entry, manufacturer_entry, driver_entry,
  led_entries, phy_bytes, phy_serialize_data,
}
use pico_all.Phy.Parse.{
  length_wrong, name_malformed, status_malformed, read_field, phy_loop, phy_unserialize_data,
}
use pico_all.Phy.Canonical.{PhyFits, canonical_phy}
use pico_all.Phy.Bounds.{NamesEnd}

-- The product is "Pico", and the order stands with the driver.
abbrev phy : PhyData
phy = record no_phy {
  vidpid = 0xFE ∷ 0xCA ∷ 1 ∷ 2 ∷ [];
  vidpid_present = true;
  usb_product = 80 ∷ 105 ∷ 99 ∷ 111 ∷ replicate 28 0;
  usb_product_present = true;
  opts = 9;
  led_driver = 3;
  led_driver_present = true;
  led_order = 2;
  led_order_present = true;
}

phy-PhyFits : PhyFits phy
phy-PhyFits = record {
  vidpid_size = refl;
  curves_width = omega arith;
  opts_width = omega arith;
  product_size = refl;
  manufacturer_size = refl;
  order_range = λ _. omega arith;
  status_valid = λ h. ground arith;
  notifications_valid = λ h. ground arith;
  modes_valid = λ h. ground arith;
}

abbrev serialized : List ℕ
unfolding phy_bytes vidpid_entry product_entry manufacturer_entry driver_entry led_entries
serialized = phy_bytes phy

serializes : phy_serialize_data phy 128 ≡ ok serialized
unfolding phy_serialize_data serialized phy_bytes
serializes = refl

no_room : phy_serialize_data phy 127 ≡ err err_null_param
unfolding phy_serialize_data
no_room = refl

unknown_tag : phy_unserialize_data (0x20 ∷ 1 ∷ 0 ∷ []) ≡ err wrong_data
unfolding phy_unserialize_data phy_loop length_wrong read_field
unknown_tag = refl

cut_short : phy_unserialize_data (6 ∷ 2 ∷ 0 ∷ []) ≡ err wrong_data
unfolding phy_unserialize_data phy_loop
cut_short = refl

-- A second name that is shorter leaves the end of the first.
second_name :
    phy_unserialize_data (9 ∷ 3 ∷ 65 ∷ 66 ∷ 67 ∷ 9 ∷ 1 ∷ 68 ∷ [])
    ≡ ok (record no_phy {
      usb_product = 68 ∷ 66 ∷ 67 ∷ replicate 29 0;
      usb_product_present = true;
      enabled_usb_itf = 0x1F;
      enabled_usb_itf_present = true;
    })
unfolding phy_unserialize_data phy_loop length_wrong read_field name_malformed
second_name = refl

-- The options, the name "AB", and a status of the LEDs.
abbrev status : List ℕ
status = 1 ∷ 1 ∷ 7 ∷ 16 ∷ 2 ∷ 16 ∷ 1 ∷ 16 ∷ 4 ∷ 16 ∷ []

abbrev message : List ℕ
message = 6 ∷ 2 ∷ 0 ∷ 9 ∷ 9 ∷ 3 ∷ 65 ∷ 66 ∷ 0 ∷ 16 ∷ 10 ∷ status

abbrev accepted : PhyData
accepted = record no_phy {
  opts = 9;
  usb_product = 65 ∷ 66 ∷ replicate 30 0;
  usb_product_present = true;
  enabled_usb_itf = 0x1F;
  enabled_usb_itf_present = true;
  led_status = status;
  led_status_present = true;
}

accepts : phy_unserialize_data message ≡ ok accepted
unfolding phy_unserialize_data phy_loop length_wrong read_field name_malformed status_malformed
accepts = refl

phy_unserialize_data-PhyFits_example : PhyFits accepted × NamesEnd accepted × LedsInRange accepted
phy_unserialize_data-PhyFits_example =
    phy_unserialize_data-PhyFits message accepted (ground arith) accepts

abbrev blank : Disk
blank = record { files = λ f. []; budget = 5 }

abbrev saved : Disk × Result (Unit {0})
saved = phy_save memory blank 3 phy

saved_done : saved.1 ≡ ok tt
unfolding phy_save phy_serialize_data
saved_done = refl

phy_load-phy_save_example :
    (phy_load memory saved.0 3 no_phy ≡ ok (canonical_phy phy))
    × (phy_init memory saved.0 3 ≡ ok (phy_led_defaults (canonical_phy phy)))
phy_load-phy_save_example =
    phy_load-phy_save memory blank saved.0 3 phy no_phy phy-PhyFits
      (ap (λ (r : Result (Unit {0})). (saved.0, r)) saved_done)
