-- ===== src/Phy/Accepted.antt =====
-- What the parser accepts is a configuration that the device can keep, and write again.
use pico_all.Results.{IfOk, IfOk-refuse, IfOk-bind}
use pico_all.Phy.Canonical.{PhyFits, canonical_phy}
use pico_all.Phy.Bounds.{NamesEnd}
use pico_all.Base.{
  ℕ, zero, suc, ◌+◌, ◌≤◌, bit_and, ◌≡◌, refl, subst, Bool, true, false, not, ◌&&◌, ◌||◌, List, [],
  ◌∷◌, arith, ltb, ◌==◌, if◌then◌else◌, length, take, drop,
}
use pico_all.Bytes.{AllBytes, err_null_param, wrong_data, ok, byte_at, AllBytes-drop, AllBytes-take}
use pico_all.Phy.{PhyData, no_phy, has_nul, phy_bytes, phy_serialize_data}
use pico_all.Phy.Parse.{
  length_wrong, notifications_malformed, status_malformed, read_field, phy_loop, fill_in,
  phy_unserialize_data,
}
use pico_all.Phy.Kept.{Kept, has_nul-byte_at, no_phy-Kept, read_field-Kept}
use pico_all.Phy.RoundTrip.{phy_unserialize_data-phy_serialize_data}

phy_loop-Kept :
    (rounds : ℕ) (rest : List ℕ) (phy : PhyData)
    → AllBytes rest
    → Kept phy
    → IfOk Kept (phy_loop rounds rest phy)
unfolding phy_loop
phy_loop-Kept zero rest phy h k = tt
phy_loop-Kept (suc rounds) [] phy h k = k
phy_loop-Kept (suc rounds) (tag ∷ []) phy h k = tt
phy_loop-Kept (suc rounds) (tag ∷ tlen ∷ p) phy (_, (_, h)) k =
    IfOk-refuse Kept (ltb (length p) tlen) wrong_data _ λ _.
      IfOk-refuse Kept (length_wrong tag tlen) wrong_data _ λ _.
        IfOk-bind Kept Kept (read_field tag (take tlen p) phy)
          (λ phy'. phy_loop rounds (drop tlen p) phy')
          (read_field-Kept tag (take tlen p) phy (AllBytes-take tlen p h) k)
          λ phy' k'. phy_loop-Kept rounds (drop tlen p) phy' (AllBytes-drop tlen p h) k'

fill_in-Kept : (phy : PhyData) → Kept phy → Kept (fill_in phy)
fill_in-Kept phy (vid, cur, opt, ps, pl, ms, ml, ord, st, nt, md) =
    (vid, cur, opt, ps, pl, ms, ml, ordered phy.led_order_present ord, st, nt, md)
  where
    ordered :
        (b : Bool)
        → (b ≡ true → phy.led_order ≤ 5)
        → b ≡ true
        → (if b then phy.led_order else 0) ≤ 5
    ordered true h e = h e
    ordered false h e = omega arith

-- The values of the LEDs' settings in numbers: a version 1, a flag for the steady light, and colours
-- from 0 to 7.
pub record LedsInRange (phy : PhyData) : Type 0 where
  pub order : phy.led_order_present ≡ true → phy.led_order ≤ 5
  pub modes : phy.led_modes_present ≡ true → bit_and phy.led_modes 0x80 ≡ 0
  pub status :
      phy.led_status_present ≡ true
      → (length phy.led_status ≡ 10)
        × (byte_at phy.led_status 0 ≡ 1)
        × (byte_at phy.led_status 1 ≤ 1)
        × (byte_at phy.led_status 2 ≤ 7)
        × (byte_at phy.led_status 4 ≤ 7)
        × (byte_at phy.led_status 6 ≤ 7)
        × (byte_at phy.led_status 8 ≤ 7)
  pub notifications :
      phy.led_notifications_present ≡ true
      → (length phy.led_notifications ≡ 7)
        × (byte_at phy.led_notifications 0 ≡ 1)
        × (byte_at phy.led_notifications 1 ≤ 7)
        × (byte_at phy.led_notifications 3 ≤ 7)
        × (byte_at phy.led_notifications 5 ≤ 7)

status_malformed-range :
    (v : List ℕ)
    → status_malformed v ≡ false
    → (length v ≡ 10)
      × (byte_at v 0 ≡ 1)
      × (byte_at v 1 ≤ 1)
      × (byte_at v 2 ≤ 7)
      × (byte_at v 4 ≤ 7)
      × (byte_at v 6 ≤ 7)
      × (byte_at v 8 ≤ 7)
unfolding status_malformed
status_malformed-range v h = ground (arith, h)

notifications_malformed-range :
    (v : List ℕ)
    → notifications_malformed v ≡ false
    → (length v ≡ 7) × (byte_at v 0 ≡ 1) × (byte_at v 1 ≤ 7) × (byte_at v 3 ≤ 7) × (byte_at v 5 ≤ 7)
unfolding notifications_malformed
notifications_malformed-range v h = ground (arith, h)

PhyFits-LedsInRange : (phy : PhyData) → PhyFits phy → LedsInRange phy
PhyFits-LedsInRange phy fits = record {
  order = fits.order_range;
  modes = fits.modes_valid;
  status = λ e. status_malformed-range phy.led_status (fits.status_valid e);
  notifications =
      λ e. notifications_malformed-range phy.led_notifications (fits.notifications_valid e);
}

accepted_fits :
    (d : List ℕ) (phy : PhyData)
    → AllBytes d
    → phy_unserialize_data d ≡ ok phy
    → PhyFits phy × NamesEnd phy
unfolding phy_unserialize_data
accepted_fits d phy h e =
    let (vid, cur, opt, ps, pl, ms, ml, ord, st, nt, md) = subst (IfOk Kept) e (
      IfOk-refuse Kept (length d == 0 || ltb 65535 (length d)) err_null_param _ λ _.
        IfOk-bind Kept Kept (phy_loop (length d + 1) d no_phy) (λ phy'. ok (fill_in phy'))
          (phy_loop-Kept (length d + 1) d no_phy h no_phy-Kept) fill_in-Kept) in
    (
      record {
        vidpid_size = vid;
        curves_width = cur;
        opts_width = opt;
        product_size = ps;
        manufacturer_size = ms;
        order_range = ord;
        status_valid = st;
        notifications_valid = nt;
        modes_valid = md;
      },
      record {
        product_ends = λ _. has_nul-byte_at phy.usb_product 31 (omega (arith, ps)) pl;
        manufacturer_ends = λ _. has_nul-byte_at phy.usb_manufacturer 31 (omega (arith, ms)) ml;
      },
    )

-- For data that are bytes: what phy_unserialize_data accepts has fields of the width of their C
-- types, names that end in their arrays, an order of the LED's colours of at most 5, modes without
-- the bit 7, a status of ten bytes with the version 1, a flag of at most 1 and four colours of at
-- most 7, and notifications of seven bytes with the version 1 and three colours of at most 7.
pub phy_unserialize_data-PhyFits :
    (d : List ℕ) (phy : PhyData)
    → AllBytes d
    → phy_unserialize_data d ≡ ok phy
    → PhyFits phy × NamesEnd phy × LedsInRange phy
phy_unserialize_data-PhyFits d phy h e =
    let (fits, ends) = accepted_fits d phy h e in (fits, ends, PhyFits-LedsInRange phy fits)

NamesEnd-phy_serialize_data :
    (phy : PhyData) (room : ℕ)
    → 128 ≤ room
    → NamesEnd phy
    → phy_serialize_data phy room ≡ ok (phy_bytes phy)
unfolding phy_serialize_data
NamesEnd-phy_serialize_data phy room enough ends =
    let roomy : ltb room 128 ≡ false = ground arith in
    let product = ended phy.usb_product_present (has_nul phy.usb_product) ends.product_ends in
    let manufacturer =
      ended phy.usb_manufacturer_present (has_nul phy.usb_manufacturer) ends.manufacturer_ends in
    rw (roomy, product, manufacturer) refl
  where
    ended : (b c : Bool) → (b ≡ true → c ≡ true) → (b && not c) ≡ false
    ended true c h = rw (h refl) refl
    ended false c h = refl

-- For data that are bytes: a configuration that phy_unserialize_data accepts is written by
-- phy_serialize_data into a buffer with PHY_MAX_SIZE bytes left, and what is written is accepted
-- again, as the same configuration with the defaults of the LEDs and nothing behind its names.
pub phy_unserialize_data-saved :
    (d : List ℕ) (phy : PhyData) (room : ℕ)
    → AllBytes d
    → phy_unserialize_data d ≡ ok phy
    → 128 ≤ room
    → (phy_serialize_data phy room ≡ ok (phy_bytes phy))
      × (phy_unserialize_data (phy_bytes phy) ≡ ok (canonical_phy phy))
phy_unserialize_data-saved d phy room h e enough =
    let (fits, ends) = accepted_fits d phy h e in
    let written = NamesEnd-phy_serialize_data phy room enough ends in
    (written, phy_unserialize_data-phy_serialize_data phy room (phy_bytes phy) fits written)
