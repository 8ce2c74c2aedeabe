-- ===== src/Phy/Canonical.antt =====
-- What a serialized configuration is parsed to.
use pico_all.Base.{
  ℕ, ◌≤◌, bit_and, ◌≡◌, refl, Bool, true, false, not, ◌&&◌, List, [], ◌∷◌, arith, ◌==◌,
  if◌then◌else◌, length, replicate,
}
use pico_all.Bytes.{IsU16, IsU32, byte_at}
use pico_all.Phy.{PhyData, status_defaults, notification_defaults, c_string}
use pico_all.Phy.Parse.{notifications_malformed, status_malformed, write_name}

-- The widths of the fields of `phy_data_t`, and the values that the parser accepts.
pub record PhyFits (phy : PhyData) : Type 0 where
  pub vidpid_size : length phy.vidpid ≡ 4
  pub curves_width : IsU32 phy.enabled_curves
  pub opts_width : IsU16 phy.opts
  pub product_size : length phy.usb_product ≡ 32
  pub manufacturer_size : length phy.usb_manufacturer ≡ 32
  pub order_range : phy.led_order_present ≡ true → phy.led_order ≤ 5
  pub status_valid : phy.led_status_present ≡ true → status_malformed phy.led_status ≡ false
  pub notifications_valid :
      phy.led_notifications_present ≡ true → notifications_malformed phy.led_notifications ≡ false
  pub modes_valid : phy.led_modes_present ≡ true → bit_and phy.led_modes 0x80 ≡ 0

abbrev pub status_of : PhyData → List ℕ
status_of phy = if phy.led_status_present then phy.led_status else status_defaults

abbrev pub notifications_of : PhyData → List ℕ
notifications_of phy =
    if phy.led_notifications_present then phy.led_notifications else notification_defaults

abbrev pub modes_of : PhyData → ℕ
modes_of phy =
    if phy.led_modes_present
    then phy.led_modes
    else if phy.led_status_present && not (byte_at phy.led_status 1 == 0)
    then 3
    else 0

-- What a serialized configuration is parsed to: absent fields are zero or have their defaults, and
-- nothing stands behind the end of a name.
abbrev pub canonical_phy : PhyData → PhyData
canonical_phy phy =
    let product = c_string phy.usb_product in
    let manufacturer = c_string phy.usb_manufacturer in
    record phy {
      vidpid = if phy.vidpid_present then phy.vidpid else replicate 4 0;
      enabled_curves = if phy.enabled_curves_present then phy.enabled_curves else 0;
      usb_product =
          if phy.usb_product_present then write_name (replicate 32 0) product else replicate 32 0;
      usb_product_present = phy.usb_product_present && not (length product == 0);
      usb_manufacturer =
          if phy.usb_manufacturer_present
          then write_name (replicate 32 0) manufacturer
          else replicate 32 0;
      usb_manufacturer_present = phy.usb_manufacturer_present && not (length manufacturer == 0);
      led_gpio = if phy.led_gpio_present then phy.led_gpio else 0;
      led_brightness = if phy.led_brightness_present then phy.led_brightness else 0;
      up_btn = if phy.up_btn_present then phy.up_btn else 0;
      enabled_usb_itf = if phy.enabled_usb_itf_present then phy.enabled_usb_itf else 0x1F;
      enabled_usb_itf_present = true;
      led_driver = if phy.led_driver_present then phy.led_driver else 0;
      led_order = if phy.led_order_present then phy.led_order else 0;
      led_status = status_of phy;
      led_status_present = true;
      led_notifications = notifications_of phy;
      led_notifications_present = true;
      led_modes = modes_of phy;
      led_modes_present = true;
    }

pub four_bytes :
    (v : List ℕ) → length v ≡ 4 → byte_at v 0 ∷ byte_at v 1 ∷ byte_at v 2 ∷ byte_at v 3 ∷ [] ≡ v
four_bytes [] h = ground arith
four_bytes (a ∷ []) h = ground arith
four_bytes (a ∷ b ∷ []) h = ground arith
four_bytes (a ∷ b ∷ c ∷ []) h = ground arith
four_bytes (a ∷ b ∷ c ∷ d ∷ []) h = refl
four_bytes (a ∷ b ∷ c ∷ d ∷ e ∷ v) h = ground arith

pub if_true : (b : Bool) → (if b then true else false) ≡ b
if_true true = refl
if_true false = refl

pub if_twice :
    (b : Bool) (x y z : ℕ) → (if b then (if b then x else y) else z) ≡ (if b then x else z)
if_twice true x y z = refl
if_twice false x y z = refl

pub if_and : (b c : Bool) → (if b then c else false) ≡ (b && c)
if_and true c = refl
if_and false c = refl

module _ (phy : PhyData) (fits : PhyFits phy) where
  pub status-valid : status_malformed (status_of phy) ≡ false
  unfolding status_malformed
  status-valid = by_case phy.led_status_present fits.status_valid
    where
      by_case :
          (b : Bool)
          → (b ≡ true → status_malformed phy.led_status ≡ false)
          → status_malformed (if b then phy.led_status else status_defaults) ≡ false
      by_case true h = h refl
      by_case false h = refl

  pub notifications-valid : notifications_malformed (notifications_of phy) ≡ false
  unfolding notifications_malformed
  notifications-valid = by_case phy.led_notifications_present fits.notifications_valid
    where
      by_case :
          (b : Bool)
          → (b ≡ true → notifications_malformed phy.led_notifications ≡ false)
          → notifications_malformed (if b then phy.led_notifications else notification_defaults)
            ≡ false
      by_case true h = h refl
      by_case false h = refl

  pub modes-valid : bit_and (modes_of phy) 0x80 ≡ 0
  modes-valid =
      by_case phy.led_modes_present (phy.led_status_present && not (byte_at phy.led_status 1 == 0))
        fits.modes_valid
    where
      by_case :
          (b steady : Bool)
          → (b ≡ true → bit_and phy.led_modes 0x80 ≡ 0)
          → bit_and (if b then phy.led_modes else if steady then 3 else 0) 0x80 ≡ 0
      by_case true steady h = h refl
      by_case false true h = refl
      by_case false false h = refl
