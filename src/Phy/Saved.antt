-- ===== src/Phy/Saved.antt =====
-- Saving and loading the configuration, pico-keys-sdk/src/fs/phy.c: `ef_phy` is the file `f`.
use pico_all.Base.{ℕ, ◌≡◌, refl, sym, ap, ◌∙◌, List, [], ◌∷◌, arith}
use pico_all.Bytes.{Result, ok, err, ◌>>=◌}
use pico_all.Store.Files.{FileSystem}
use pico_all.Phy.{PhyData, no_phy, phy_led_defaults, phy_serialize_data}
use pico_all.Phy.Parse.{phy_unserialize_data}
use pico_all.Phy.Canonical.{PhyFits, canonical_phy}
use pico_all.Phy.RoundTrip.{phy_unserialize_data-phy_serialize_data}

-- The part of `phy_load` behind the look at the file.
abbrev pub load_bytes : PhyData → List ℕ → Result PhyData
load_bytes phy [] = ok phy
load_bytes phy (x ∷ d) = phy_unserialize_data (x ∷ d)

module _ (files : FileSystem) where
  -- The part of `phy_save` behind the serialization; `flash_commit`, which asks for the pending
  -- pages to be written, changes no contents.
  abbrev pub put_bytes : files.Fs → ℕ → Result (List ℕ) → files.Fs × Result (Unit {0})
  put_bytes fs f (err c) = (fs, err c)
  put_bytes fs f (ok d) = files.put_data fs f d

  -- `phy_save`, with `PHY_MAX_SIZE` bytes of room
  unfoldable pub phy_save : files.Fs → ℕ → PhyData → files.Fs × Result (Unit {0})
  phy_save fs f phy = put_bytes fs f (phy_serialize_data phy 128)

  -- `phy_load`, over the configuration that there is
  pub phy_load : files.Fs → ℕ → PhyData → Result PhyData
  phy_load fs f phy = load_bytes phy (files.contents fs f)

  -- `phy_init`
  pub phy_init : files.Fs → ℕ → Result PhyData
  phy_init fs f = phy_load fs f no_phy >>= λ phy. ok (phy_led_defaults phy)

  loaded :
      (old phy : PhyData) (d : List ℕ) → phy_unserialize_data d ≡ ok phy → load_bytes old d ≡ ok phy
  unfolding phy_unserialize_data
  loaded old phy [] e = ground (arith, e)
  loaded old phy (x ∷ d) e = e

  stored :
      (phy : PhyData) (fs fs' : files.Fs) (f : ℕ) (r : Result (List ℕ))
      → PhyFits phy
      → phy_serialize_data phy 128 ≡ r
      → put_bytes fs f r ≡ (fs', ok tt)
      → phy_unserialize_data (files.contents fs' f) ≡ ok (canonical_phy phy)
  stored phy fs fs' f (err c) fits e done = ground (arith, done)
  stored phy fs fs' f (ok d) fits e done =
      let there : files.contents fs' f ≡ d =
        sym (ap (λ (o : files.Fs × Result (Unit {0})). files.contents o.0 f) done)
        ∙ files.put_writes fs f d (ap (λ (o : files.Fs × Result (Unit {0})). o.1) done) in
      ap phy_unserialize_data there ∙ phy_unserialize_data-phy_serialize_data phy 128 d fits e

  -- For a configuration whose fields have the width of their C types and values that the parser
  -- accepts: behind a success of phy_save, phy_load gives, whatever configuration there was, the
  -- saved one in the form that the parser gives it (zeros in the absent fields, the defaults of the
  -- LEDs, interfaces and order where they are absent, a name without bytes as an absent one, zeros
  -- behind the end of each name), and phy_init gives that with the defaults of the LEDs.
  pub phy_load-phy_save :
      (fs fs' : files.Fs) (f : ℕ) (phy old : PhyData)
      → PhyFits phy
      → phy_save fs f phy ≡ (fs', ok tt)
      → (phy_load fs' f old ≡ ok (canonical_phy phy))
        × (phy_init fs' f ≡ ok (phy_led_defaults (canonical_phy phy)))
  unfolding phy_save phy_load phy_init
  phy_load-phy_save fs fs' f phy old fits done =
      let parsed = stored phy fs fs' f (phy_serialize_data phy 128) fits refl done in
      (
        loaded old (canonical_phy phy) (files.contents fs' f) parsed,
        ap (λ (r : Result PhyData). r >>= λ phy. ok (phy_led_defaults phy))
            (loaded no_phy (canonical_phy phy) (files.contents fs' f) parsed),
      )
