-- ===== src/Phy/Defaults.antt =====
-- The defaults of the LEDs and the serialized configuration.
use pico_all.Base.{ℕ, ◌≡◌, refl, Bool, true, false, not, ◌==◌, if◌then◌else◌}
use pico_all.Bytes.{byte_at}
use pico_all.Phy.{
  PhyData, phy_led_defaults, driver_entry, led_entries, phy_bytes, phy_serialize_data,
}

abbrev with_flags : Bool → Bool → Bool → PhyData → PhyData
with_flags status notifications modes phy = record phy {
  led_status_present = status;
  led_notifications_present = notifications;
  led_modes_present = modes;
}

if_not : (b : Bool) (x y : ℕ) → (if b then x else y) ≡ (if not b then y else x)
if_not true x y = refl
if_not false x y = refl

same_result_with :
    (status notifications modes : Bool) (phy : PhyData) (room : ℕ)
    → phy_serialize_data (phy_led_defaults (with_flags status notifications modes phy)) room
      ≡ phy_serialize_data (with_flags status notifications modes phy) room
unfolding phy_serialize_data phy_bytes phy_led_defaults led_entries driver_entry
same_result_with true true true phy room = refl
same_result_with true true false phy room = rw (if_not (byte_at phy.led_status 1 == 0) 0 3) refl
same_result_with true false true phy room = refl
same_result_with true false false phy room = rw (if_not (byte_at phy.led_status 1 == 0) 0 3) refl
same_result_with false true true phy room = refl
same_result_with false true false phy room = refl
same_result_with false false true phy room = refl
same_result_with false false false phy room = refl

-- Filling in the defaults of the LEDs changes nothing of what phy_serialize_data writes: it writes
-- the defaults where they are absent.
pub phy_serialize_data-phy_led_defaults :
    (phy : PhyData) (room : ℕ)
    → phy_serialize_data (phy_led_defaults phy) room ≡ phy_serialize_data phy room
phy_serialize_data-phy_led_defaults phy room =
    same_result_with phy.led_status_present phy.led_notifications_present phy.led_modes_present phy
      room
