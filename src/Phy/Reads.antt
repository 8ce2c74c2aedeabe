-- ===== src/Phy/Reads.antt =====
-- Parsing entry after entry.
use pico_all.Results.{uint16_round, uint32_round}
use pico_all.Base.{
  ℕ, zero, suc, ◌≤◌, ◌<◌, ◌≡◌, refl, ap, Bool, true, false, List, [], ◌∷◌, ◌++◌, arith, ltb,
  if◌then◌else◌, length, length-append, drop, take_front, drop_front,
}
use pico_all.Bytes.{IsU16, ok, byte_at, put_uint16_be, put_uint32_be}
use pico_all.Phy.{PhyData, when_present, vidpid_entry}
use pico_all.Phy.Parse.{length_wrong, read_field, phy_loop}

-- With at least so many rounds, the loop ends with this configuration.
unfoldable pub Reads : ℕ → List ℕ → PhyData → PhyData → Type 0
unfolding phy_loop
Reads n rest phy r = (rounds : ℕ) → n ≤ rounds → phy_loop rounds rest phy ≡ ok r

pub Reads-nil : (phy : PhyData) → Reads 1 [] phy phy
unfolding Reads
Reads-nil phy zero h = elim h [ ]
Reads-nil phy (suc rounds) h = refl

pub Reads-more :
    (n : ℕ) (rest : List ℕ) (phy r : PhyData) → Reads n rest phy r → Reads (suc n) rest phy r
unfolding Reads
Reads-more n rest phy r h rounds le = h rounds (omega arith)

-- An entry whose value is accepted is read, and the loop goes on behind it.
pub Reads-step :
    (n tag : ℕ) (v rest : List ℕ) (phy phy' r : PhyData)
    → length_wrong tag (length v) ≡ false
    → read_field tag v phy ≡ ok phy'
    → Reads n rest phy' r
    → Reads (suc n) (tag ∷ length v ∷ (v ++ rest)) phy r
unfolding Reads
Reads-step n tag v rest phy phy' r right read h zero le = elim le [ ]
Reads-step n tag v rest phy phy' r right read h (suc rounds) le =
    let fits : ltb (length (v ++ rest)) (length v) ≡ false = ground (arith, length-append v rest) in
    rw (fits, right, take_front v rest (length v) refl, read, drop_front v rest (length v) refl)
      (h rounds (omega arith))

-- The entries of fixed length, present or not.
module _ (n : ℕ) (rest : List ℕ) (phy r : PhyData) where
  pub Reads-vidpid :
      (present : Bool) (v : List ℕ)
      → Reads n rest
          (record phy {
            vidpid =
                if present
                then byte_at v 0 ∷ byte_at v 1 ∷ byte_at v 2 ∷ byte_at v 3 ∷ []
                else phy.vidpid;
            vidpid_present = if present then true else phy.vidpid_present;
          })
          r
      → Reads (suc n) (when_present present (vidpid_entry v) ++ rest) phy r
  unfolding vidpid_entry length_wrong read_field
  Reads-vidpid true v h = Reads-step n 0 (drop 2 (vidpid_entry v)) rest phy _ r refl refl h
  Reads-vidpid false v h = Reads-more n rest phy r h

  pub Reads-gpio :
      (present : Bool) (x : ℕ)
      → Reads n rest
          (record phy {
            led_gpio = if present then x else phy.led_gpio;
            led_gpio_present = if present then true else phy.led_gpio_present;
          })
          r
      → Reads (suc n) (when_present present (4 ∷ 1 ∷ x ∷ []) ++ rest) phy r
  unfolding length_wrong read_field
  Reads-gpio true x h = Reads-step n 4 (x ∷ []) rest phy _ r refl refl h
  Reads-gpio false x h = Reads-more n rest phy r h

  pub Reads-brightness :
      (present : Bool) (x : ℕ)
      → Reads n rest
          (record phy {
            led_brightness = if present then x else phy.led_brightness;
            led_brightness_present = if present then true else phy.led_brightness_present;
          })
          r
      → Reads (suc n) (when_present present (5 ∷ 1 ∷ x ∷ []) ++ rest) phy r
  unfolding length_wrong read_field
  Reads-brightness true x h = Reads-step n 5 (x ∷ []) rest phy _ r refl refl h
  Reads-brightness false x h = Reads-more n rest phy r h

  pub Reads-opts :
      (x : ℕ)
      → IsU16 x
      → Reads n rest (record phy { opts = x }) r
      → Reads (suc n) ((6 ∷ 2 ∷ put_uint16_be x) ++ rest) phy r
  unfolding length_wrong read_field
  Reads-opts x width h =
      Reads-step n 6 (put_uint16_be x) rest phy (record phy { opts = x }) r refl
        (ap (λ k. ok (record phy { opts = k })) (uint16_round x width)) h

  pub Reads-button :
      (present : Bool) (x : ℕ)
      → Reads n rest
          (record phy {
            up_btn = if present then x else phy.up_btn;
            up_btn_present = if present then true else phy.up_btn_present;
          })
          r
      → Reads (suc n) (when_present present (8 ∷ 1 ∷ x ∷ []) ++ rest) phy r
  unfolding length_wrong read_field
  Reads-button true x h = Reads-step n 8 (x ∷ []) rest phy _ r refl refl h
  Reads-button false x h = Reads-more n rest phy r h

  pub Reads-curves :
      (present : Bool) (x : ℕ)
      → x < 4294967296
      → Reads n rest
          (record phy {
            enabled_curves = if present then x else phy.enabled_curves;
            enabled_curves_present = if present then true else phy.enabled_curves_present;
          })
          r
      → Reads (suc n) (when_present present (0xA ∷ 4 ∷ put_uint32_be x) ++ rest) phy r
  unfolding length_wrong read_field
  Reads-curves true x width h =
      Reads-step n 0xA (put_uint32_be x) rest phy
        (record phy { enabled_curves = x; enabled_curves_present = true }) r refl
        (ap (λ k. ok (record phy { enabled_curves = k; enabled_curves_present = true }))
          (uint32_round x width))
        h
  Reads-curves false x width h = Reads-more n rest phy r h

  pub Reads-interfaces :
      (present : Bool) (x : ℕ)
      → Reads n rest
          (record phy {
            enabled_usb_itf = if present then x else phy.enabled_usb_itf;
            enabled_usb_itf_present = if present then true else phy.enabled_usb_itf_present;
          })
          r
      → Reads (suc n) (when_present present (0xB ∷ 1 ∷ x ∷ []) ++ rest) phy r
  unfolding length_wrong read_field
  Reads-interfaces true x h = Reads-step n 0xB (x ∷ []) rest phy _ r refl refl h
  Reads-interfaces false x h = Reads-more n rest phy r h
