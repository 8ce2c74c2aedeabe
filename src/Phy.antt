-- ===== src/Phy.antt =====
-- The device configuration of pico-keys-sdk/src/fs/phy.c: its defaults, its serialization and its
-- parser. A name is its array of 32 bytes.
pub mod Parse
pub mod Reads
pub mod Names
pub mod Leds
pub mod Canonical
pub mod Bounds
pub mod RoundTrip
pub mod Defaults
pub mod Kept
pub mod Accepted
pub mod Saved
mod Tests
use pico_all.Base.{
  ℕ, ◌+◌, ◌%◌, Bool, true, false, not, ◌&&◌, ◌||◌, List, [], ◌∷◌, ◌++◌, ltb, ◌==◌, if◌then◌else◌,
  length, replicate,
}
use pico_all.Bytes.{
  err_null_param, wrong_data, Result, ok, byte_at, put_uint16_be, put_uint32_be, refuse,
}

-- `phy_data_t`; `vidpid` is the array that shares its place with `vid` and `pid`.
pub record PhyData : Type 0 where
  pub vidpid : List ℕ
  pub enabled_curves : ℕ
  pub usb_product : List ℕ
  pub usb_manufacturer : List ℕ
  pub opts : ℕ
  pub led_gpio : ℕ
  pub led_brightness : ℕ
  pub up_btn : ℕ
  pub enabled_usb_itf : ℕ
  pub led_driver : ℕ
  pub led_order : ℕ
  pub led_status : List ℕ
  pub led_notifications : List ℕ
  pub led_modes : ℕ
  pub vidpid_present : Bool
  pub led_gpio_present : Bool
  pub led_brightness_present : Bool
  pub up_btn_present : Bool
  pub usb_product_present : Bool
  pub usb_manufacturer_present : Bool
  pub enabled_curves_present : Bool
  pub enabled_usb_itf_present : Bool
  pub led_driver_present : Bool
  pub led_order_present : Bool
  pub led_status_present : Bool
  pub led_notifications_present : Bool
  pub led_modes_present : Bool

abbrev pub status_defaults : List ℕ
status_defaults = 1 ∷ 0 ∷ 6 ∷ 17 ∷ 6 ∷ 17 ∷ 4 ∷ 17 ∷ 3 ∷ 17 ∷ []

abbrev pub notification_defaults : List ℕ
notification_defaults = 1 ∷ 2 ∷ 17 ∷ 1 ∷ 17 ∷ 1 ∷ 17 ∷ []

-- `memset(phy, 0, sizeof(*phy))`
abbrev pub no_phy : PhyData
no_phy = record {
  vidpid = replicate 4 0;
  enabled_curves = 0;
  usb_product = replicate 32 0;
  usb_manufacturer = replicate 32 0;
  opts = 0;
  led_gpio = 0;
  led_brightness = 0;
  up_btn = 0;
  enabled_usb_itf = 0;
  led_driver = 0;
  led_order = 0;
  led_status = replicate 10 0;
  led_notifications = replicate 7 0;
  led_modes = 0;
  vidpid_present = false;
  led_gpio_present = false;
  led_brightness_present = false;
  up_btn_present = false;
  usb_product_present = false;
  usb_manufacturer_present = false;
  enabled_curves_present = false;
  enabled_usb_itf_present = false;
  led_driver_present = false;
  led_order_present = false;
  led_status_present = false;
  led_notifications_present = false;
  led_modes_present = false;
}

-- `phy_led_defaults`: each default is filled in before the next is looked at.
abbrev default_status : PhyData → PhyData
default_status phy =
    if phy.led_status_present
    then phy
    else record phy { led_status = status_defaults; led_status_present = true }

abbrev default_notifications : PhyData → PhyData
default_notifications phy =
    if phy.led_notifications_present
    then phy
    else record phy { led_notifications = notification_defaults; led_notifications_present = true }

abbrev default_modes : PhyData → PhyData
default_modes phy = if phy.led_modes_present then phy else record phy {
  led_modes = if byte_at phy.led_status 1 == 0 then 0 else 3;
  led_modes_present = true;
}

pub phy_led_defaults : PhyData → PhyData
phy_led_defaults phy = default_modes (default_notifications (default_status phy))

-- `memchr(s, 0, n) != NULL`, for all the bytes of the list.
abbrev pub has_nul : List ℕ → Bool
has_nul [] = false
has_nul (b ∷ bs) = b == 0 || has_nul bs

-- The bytes before the first that is 0; `strlen` is their number.
abbrev pub c_string : List ℕ → List ℕ
c_string [] = []
c_string (b ∷ bs) = let rest = c_string bs in if b == 0 then [] else b ∷ rest

abbrev pub when_present : Bool → List ℕ → List ℕ
when_present present entry = if present then entry else []

-- The entries that `phy_serialize_data` writes, one behind the other.
pub vidpid_entry : List ℕ → List ℕ
vidpid_entry v = 0 ∷ 4 ∷ byte_at v 1 ∷ byte_at v 0 ∷ byte_at v 3 ∷ byte_at v 2 ∷ []

pub product_entry : List ℕ → List ℕ
product_entry name = let s = c_string name in 9 ∷ (length s % 256 + 1) % 256 ∷ s ++ (0 ∷ [])

pub manufacturer_entry : List ℕ → List ℕ
manufacturer_entry name = let s = c_string name in 0xF ∷ (length s + 1) % 256 ∷ s ++ (0 ∷ [])

pub driver_entry : PhyData → List ℕ
driver_entry phy =
    if phy.led_order_present
    then 0xC ∷ 2 ∷ phy.led_driver ∷ phy.led_order ∷ []
    else 0xC ∷ 1 ∷ phy.led_driver ∷ []

-- The last three entries are written in any case.
pub led_entries : PhyData → List ℕ
led_entries phy =
    (0x10 ∷ 10 ∷ (if phy.led_status_present then phy.led_status else status_defaults))
    ++ ((0x11
          ∷ 7
          ∷ (if phy.led_notifications_present
              then phy.led_notifications
              else notification_defaults))
        ++ (0x12
            ∷ 2
            ∷ 1
            ∷ (if phy.led_modes_present
                then phy.led_modes
                else if phy.led_status_present && not (byte_at phy.led_status 1 == 0)
                then 3
                else 0)
            ∷ []))

pub phy_bytes : PhyData → List ℕ
unfolding vidpid_entry product_entry manufacturer_entry driver_entry led_entries
phy_bytes phy =
    when_present phy.vidpid_present (vidpid_entry phy.vidpid)
    ++ (when_present phy.led_gpio_present (4 ∷ 1 ∷ phy.led_gpio ∷ [])
        ++ (when_present phy.led_brightness_present (5 ∷ 1 ∷ phy.led_brightness ∷ [])
            ++ ((6 ∷ 2 ∷ put_uint16_be phy.opts)
                ++ (when_present phy.up_btn_present (8 ∷ 1 ∷ phy.up_btn ∷ [])
                    ++ (when_present phy.usb_product_present (product_entry phy.usb_product)
                        ++ (when_present phy.usb_manufacturer_present
                              (manufacturer_entry phy.usb_manufacturer)
                            ++ (when_present phy.enabled_curves_present
                                  (0xA ∷ 4 ∷ put_uint32_be phy.enabled_curves)
                                ++ (when_present phy.enabled_usb_itf_present
                                      (0xB ∷ 1 ∷ phy.enabled_usb_itf ∷ [])
                                    ++ (when_present phy.led_driver_present (driver_entry phy)
                                        ++ (when_present
                                              (phy.led_order_present && not phy.led_driver_present)
                                              (0xD ∷ 1 ∷ phy.led_order ∷ [])
                                            ++ led_entries phy))))))))))

-- `phy_serialize_data` into a buffer with `room` bytes left, with its pointers not null; the result
-- is what it appends. `PHY_MAX_SIZE` is 128.
pub phy_serialize_data : PhyData → ℕ → Result (List ℕ)
phy_serialize_data phy room = refuse (ltb room 128) err_null_param (
    refuse
      (phy.usb_product_present && not (has_nul phy.usb_product)
        || phy.usb_manufacturer_present && not (has_nul phy.usb_manufacturer))
      wrong_data (ok (phy_bytes phy)))
