-- ===== src/Apdu/Parse.antt =====
-- The first half of `apdu_process`: the lengths and the data pointer of a command APDU, in the
-- short and extended forms of ISO 7816-4.
pub mod Forms
use pico_all.Base.{
  ℕ, ◌+◌, ◌-◌, Bool, true, false, not, ◌&&◌, ◌||◌, Option, none, some, List, [], ltb, leb, ◌==◌,
  if◌then◌else◌, length, take, drop,
}
use pico_all.Bytes.{ByteArray, null, bytes, byte_at, get_uint16_be}

-- What the parse leaves in `struct apdu`. `data_at` is the offset of `apdu.data` in the buffer, and
-- none where the parse does not set it. A refused command leaves its fields as well.
pub record Parsed : Type 0 where
  pub accepted : Bool
  pub nc : ℕ
  pub ne : ℕ
  pub data_at : Option ℕ

-- `if (apdu.ne == 0) { apdu.ne = limit; }`
abbrev pub or_limit : ℕ → ℕ → ℕ
or_limit limit ne = if ne == 0 then limit else ne

-- The extended form with data: `expected_size` is `nc + 7`.
pub parse_extended : List ℕ → ℕ → Parsed
parse_extended h size =
    let nc = get_uint16_be h 5 in
    if not (size == nc + 7) && not (size == nc + 7 + 2)
    then record { accepted = false; nc = nc; ne = 0; data_at = some 7 }
    else record {
      accepted = true;
      nc = nc;
      ne = if size == nc + 7 + 2 then or_limit 65536 (get_uint16_be h (size - 2)) else 0;
      data_at = some 7;
    }

-- The short form with data: `expected_size` is `nc + 5`.
pub parse_short : List ℕ → ℕ → Parsed
parse_short h size =
    let nc = byte_at h 4 in
    if not (size == nc + 5) && not (size == nc + 5 + 1)
    then record { accepted = false; nc = nc; ne = 0; data_at = some 5 }
    else record {
      accepted = true;
      nc = nc;
      ne = if size == nc + 5 + 1 then or_limit 256 (byte_at h (size - 1)) else 0;
      data_at = some 5;
    }

-- None where the function returns before it touches `struct apdu`.
unfoldable pub parse : ByteArray → Option Parsed
unfolding parse_extended parse_short
parse (null n) = none
parse (bytes h) =
    let size = length h in
    if ltb size 4 || ltb 65535 size
    then none
    else if size == 4
    then some (record { accepted = true; nc = 0; ne = 256; data_at = none })
    else if size == 5
    then some (record { accepted = true; nc = 0; ne = or_limit 256 (byte_at h 4); data_at = none })
    else if byte_at h 4 == 0 && leb 7 size
    then (if size == 7
        then some (record {
          accepted = true;
          nc = 0;
          ne = or_limit 65536 (get_uint16_be h 5);
          data_at = none;
        })
        else some (parse_extended h size))
    else some (parse_short h size)

-- `apdu.data[0 .. nc - 1]`
abbrev pub data_of : List ℕ → Parsed → List ℕ
data_of h p = elim p.data_at [ none ↦ [] | some k ↦ take p.nc (drop k h) ]
