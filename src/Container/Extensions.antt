-- ===== src/Container/Extensions.antt =====
-- The extensions of a manifest: `file_object_extensions_validate`.
pub mod Forms
use pico_all.Base.{
  ℕ, zero, suc, ◌+◌, ◌-◌, bit_and, Bool, not, ◌&&◌, ◌||◌, List, [], ◌∷◌, ltb, ◌==◌, length, drop,
}
use pico_all.Bytes.{wrong_data, Result, ok, err, byte_at, get_uint16_be, refuse}

-- The test of an extension's header against what is left of the data.
pub extension_malformed : List ℕ → Bool
extension_malformed rest =
    byte_at rest 0 == 0
    || not (bit_and (byte_at rest 1) 4294967294 == 0)
    || ltb (length rest - 4) (get_uint16_be rest 2)

pub extension_critical : List ℕ → Bool
extension_critical rest = not (bit_and (byte_at rest 1) 1 == 0)

-- The loop over what is left of the extensions: it ends where nothing is left. `supported` answers
-- no where the source has no callback. The rounds are bounded; each takes four bytes at least.
pub extensions_loop : (ℕ → Bool) → ℕ → List ℕ → Result (Unit {0})
unfolding extension_malformed extension_critical
extensions_loop supported zero rest = err wrong_data
extensions_loop supported (suc rounds) [] = ok tt
extensions_loop supported (suc rounds) (kind ∷ more) =
    let rest = kind ∷ more in
    let next = extensions_loop supported rounds (drop (4 + get_uint16_be rest 2) rest) in
    refuse (ltb (length rest) 4) wrong_data (
      refuse (extension_malformed rest) wrong_data
        (refuse (extension_critical rest && not (supported kind)) wrong_data next))

-- `file_object_extensions_validate`
unfoldable pub extensions_validate : (ℕ → Bool) → List ℕ → Result (Unit {0})
unfolding extensions_loop
extensions_validate supported data' = extensions_loop supported (length data' + 1) data'
