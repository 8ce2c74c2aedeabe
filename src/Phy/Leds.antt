-- ===== src/Phy/Leds.antt =====
-- The LED entries of a configuration are parsed back.
use pico_all.Base.{
  ℕ, suc, ◌≤◌, bit_and, ◌≡◌, refl, subst, Bool, true, false, not, ◌&&◌, List, [], ◌∷◌, ◌++◌, arith,
  ltb, if◌then◌else◌, length,
}
use pico_all.Phy.{PhyData, when_present}
use pico_all.Phy.Parse.{
  length_wrong, driver_malformed, order_malformed, modes_malformed, notifications_malformed,
  status_malformed, read_field,
}
use pico_all.Phy.Reads.{Reads, Reads-nil, Reads-more, Reads-step}

module _ (n : ℕ) (rest : List ℕ) (phy r : PhyData) where
  -- The configuration with a driver and an order, each if it is there.
  abbrev pub with_driver : Bool → ℕ → Bool → ℕ → PhyData
  with_driver driver x order y = record phy {
    led_driver = if driver then x else phy.led_driver;
    led_driver_present = if driver then true else phy.led_driver_present;
    led_order = if order then y else phy.led_order;
    led_order_present = if order then true else phy.led_order_present;
  }

  -- The two entries: the order stands in the driver's, or alone where there is no driver.
  pub Reads-driver :
      (driver : Bool) (x : ℕ) (order : Bool) (y : ℕ)
      → (order ≡ true → y ≤ 5)
      → Reads n rest (with_driver driver x order y) r
      → Reads
          (suc (suc n))
          (when_present driver (if order then 0xC ∷ 2 ∷ x ∷ y ∷ [] else 0xC ∷ 1 ∷ x ∷ [])
            ++ (when_present (order && not driver) (0xD ∷ 1 ∷ y ∷ []) ++ rest))
          phy
          r
  unfolding length_wrong read_field driver_malformed order_malformed
  Reads-driver true x true y range h =
      let small : ltb 5 y ≡ false = ground (arith, range refl) in
      Reads-more (suc n) _ phy r (
        Reads-step n 0xC (x ∷ y ∷ []) rest phy (with_driver true x true y) r refl (rw small refl) h)
  Reads-driver true x false y range h =
      Reads-more (suc n) _ phy r
        (Reads-step n 0xC (x ∷ []) rest phy (with_driver true x false y) r refl refl h)
  Reads-driver false x true y range h =
      let small : ltb 5 y ≡ false = ground (arith, range refl) in
      Reads-more (suc n) _ phy r
        (Reads-step n 0xD (y ∷ []) rest phy (with_driver false x true y) r refl (rw small refl) h)
  Reads-driver false x false y range h = Reads-more (suc n) _ phy r (Reads-more n rest phy r h)

pub status_size : (v : List ℕ) → status_malformed v ≡ false → length v ≡ 10
unfolding status_malformed
status_size v h = ground arith

pub notifications_size : (v : List ℕ) → notifications_malformed v ≡ false → length v ≡ 7
unfolding notifications_malformed
notifications_size v h = ground arith

-- The three entries that are written in any case.
pub Reads-leds :
    (status notifications : List ℕ) (modes : ℕ) (phy : PhyData)
    → status_malformed status ≡ false
    → notifications_malformed notifications ≡ false
    → bit_and modes 0x80 ≡ 0
    → Reads 4
        ((0x10 ∷ 10 ∷ status) ++ ((0x11 ∷ 7 ∷ notifications) ++ (0x12 ∷ 2 ∷ 1 ∷ modes ∷ [])))
        phy
        (record phy {
          led_status = status;
          led_status_present = true;
          led_notifications = notifications;
          led_notifications_present = true;
          led_modes = modes;
          led_modes_present = true;
        })
unfolding length_wrong read_field modes_malformed
Reads-leds status notifications modes phy hs hn hm =
    subst (λ k. Reads 4 (0x10 ∷ k ∷ (status ++ behind)) phy three) (status_size status hs)
      (Reads-step 3 0x10 status behind phy one three refl (rw hs refl) (
        subst (λ k. Reads 3 (0x11 ∷ k ∷ (notifications ++ last)) one three)
          (notifications_size notifications hn)
          (Reads-step 2 0x11 notifications last one two three refl (rw hn refl) (
            Reads-step 1 0x12 (1 ∷ modes ∷ []) [] two three three refl (rw hm refl)
              (Reads-nil three)))))
  where
    last : List ℕ
    last = 0x12 ∷ 2 ∷ 1 ∷ modes ∷ []

    behind : List ℕ
    behind = 0x11 ∷ 7 ∷ (notifications ++ last)

    one : PhyData
    one = record phy { led_status = status; led_status_present = true }

    two : PhyData
    two = record one { led_notifications = notifications; led_notifications_present = true }

    three : PhyData
    three = record two { led_modes = modes; led_modes_present = true }
