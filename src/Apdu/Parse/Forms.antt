-- ===== src/Apdu/Parse/Forms.antt =====
-- The seven forms of a command APDU, and what `parse` makes of them and of any input.
use pico_all.Base.{
  take_all, get_or_last, get_or_last_two, ℕ, ◌+◌, ◌-◌, ◌/◌, ◌%◌, ◌≤◌, ◌<◌, ◌≡◌, refl, true, none,
  some, List, [], ◌∷◌, ◌++◌, arith, length, length-append, take-append,
}
use pico_all.Bytes.{get_uint16_be-IsU16, byte_at-IsByte, AllBytes, bytes, put_uint16_be}
use pico_all.Apdu.Parse.{Parsed, parse, data_of}

-- An accepted command: its data lies within the buffer, and its lengths are in range.
pub record Bounded (h : List ℕ) (p : Parsed) : Type 0 where
  pub nc_bound : p.nc < 65536
  pub ne_bound : p.ne ≤ 65536
  pub data_bound : (k : ℕ) → p.data_at ≡ some k → k + p.nc ≤ length h
  pub no_data : p.data_at ≡ none → p.nc ≡ 0

-- On any bytes, an accepted command has its data within the buffer, an `nc` that fits 16 bits and
-- an `ne` of at most 65536.
pub parse_bounds :
    (h : List ℕ) (p : Parsed)
    → AllBytes h
    → parse (bytes h) ≡ some p
    → p.accepted ≡ true
    → Bounded h p
unfolding parse
parse_bounds h p b e a = record {
  nc_bound = ground (arith, byte_at-IsByte h 4 b, get_uint16_be-IsU16 h 5 b);
  ne_bound = ground (
    arith,
    byte_at-IsByte h 4 b,
    get_uint16_be-IsU16 h 5 b,
    byte_at-IsByte h (length h - 1) b,
    get_uint16_be-IsU16 h (length h - 2) b,
  );
  data_bound = λ k at. ground arith;
  no_data = λ at. ground arith;
}

-- The forms of ISO 7816-4: cases 1, 2 short, 3 short, 4 short, and 2, 3 and 4 extended.
pub data Form : Type 0 where
  no_body : Form
  le_short : ℕ → Form
  data_short : List ℕ → Form
  data_le_short : List ℕ → ℕ → Form
  le_extended : ℕ → Form
  data_extended : List ℕ → Form
  data_le_extended : List ℕ → ℕ → Form

-- The bytes behind the four of the header. A length of 256 or 65536 is written as 0.
pub body : Form → List ℕ
body no_body = []
body (le_short ne) = ne % 256 ∷ []
body (data_short d) = length d ∷ d
body (data_le_short d ne) = length d ∷ d ++ (ne % 256 ∷ [])
body (le_extended ne) = 0 ∷ put_uint16_be ne
body (data_extended d) = 0 ∷ length d / 256 ∷ length d % 256 ∷ d
body (data_le_extended d ne) = 0 ∷ length d / 256 ∷ length d % 256 ∷ d ++ put_uint16_be ne

abbrev pub form_data : Form → List ℕ
form_data no_body = []
form_data (le_short ne) = []
form_data (data_short d) = d
form_data (data_le_short d ne) = d
form_data (le_extended ne) = []
form_data (data_extended d) = d
form_data (data_le_extended d ne) = d

-- The expected response length; a command of case 1 is given 256, one of case 3 none.
abbrev pub form_ne : Form → ℕ
form_ne no_body = 256
form_ne (le_short ne) = ne
form_ne (data_short d) = 0
form_ne (data_le_short d ne) = ne
form_ne (le_extended ne) = ne
form_ne (data_extended d) = 0
form_ne (data_le_extended d ne) = ne

abbrev InShort : List ℕ → Type 0
InShort d = (0 < length d) × (length d < 256)

-- Data goes into the extended forms up to the length at which the command passes 65535 bytes.
abbrev InExtended : List ℕ → Type 0
InExtended d = (0 < length d) × (length d ≤ 65526)

abbrev IsNe : ℕ → ℕ → Type 0
IsNe limit ne = (0 < ne) × (ne ≤ limit)

abbrev pub IsForm : Form → Type 0
IsForm no_body = Unit {0}
IsForm (le_short ne) = IsNe 256 ne
IsForm (data_short d) = InShort d
IsForm (data_le_short d ne) = InShort d × IsNe 256 ne
IsForm (le_extended ne) = IsNe 65536 ne
IsForm (data_extended d) = InExtended d
IsForm (data_le_extended d ne) = InExtended d × IsNe 65536 ne

-- The command is accepted with this response length and exactly this data.
pub record Reads (h d : List ℕ) (ne : ℕ) : Type 0 where
  pub parsed : Parsed
  pub result : parse (bytes h) ≡ some parsed
  pub accepts : parsed.accepted ≡ true
  pub nc_length : parsed.nc ≡ length d
  pub reads_ne : parsed.ne ≡ ne
  pub reads_data : data_of h parsed ≡ d

module _ (cla ins p1 p2 : ℕ) where
  abbrev command : Form → List ℕ
  command f = cla ∷ ins ∷ p1 ∷ p2 ∷ body f

  no_body-Reads : Reads (command no_body) [] 256
  unfolding body parse
  no_body-Reads = record {
    parsed = record { accepted = true; nc = 0; ne = 256; data_at = none };
    result = refl;
    accepts = refl;
    nc_length = refl;
    reads_ne = refl;
    reads_data = refl;
  }

  le_short-Reads : (ne : ℕ) → IsNe 256 ne → Reads (command (le_short ne)) [] ne
  unfolding body parse
  le_short-Reads ne h = record {
    parsed = record { accepted = true; nc = 0; ne = ne; data_at = none };
    result = ground arith;
    accepts = refl;
    nc_length = refl;
    reads_ne = refl;
    reads_data = refl;
  }

  le_extended-Reads : (ne : ℕ) → IsNe 65536 ne → Reads (command (le_extended ne)) [] ne
  unfolding body parse
  le_extended-Reads ne h = record {
    parsed = record { accepted = true; nc = 0; ne = ne; data_at = none };
    result = ground arith;
    accepts = refl;
    nc_length = refl;
    reads_ne = refl;
    reads_data = refl;
  }

  data_short-Reads : (d : List ℕ) → InShort d → Reads (command (data_short d)) d 0
  unfolding body parse
  data_short-Reads d h = record {
    parsed = record { accepted = true; nc = length d; ne = 0; data_at = some 5 };
    result = ground arith;
    accepts = refl;
    nc_length = refl;
    reads_ne = refl;
    reads_data = take_all d;
  }

  data_le_short-Reads :
      (d : List ℕ) (ne : ℕ) → InShort d → IsNe 256 ne → Reads (command (data_le_short d ne)) d ne
  unfolding body parse
  data_le_short-Reads d ne h k = record {
    parsed = record { accepted = true; nc = length d; ne = ne; data_at = some 5 };
    result = ground (
      arith,
      length-append d (ne % 256 ∷ []),
      get_or_last (cla ∷ ins ∷ p1 ∷ p2 ∷ length d ∷ d) (ne % 256) 0 (length d + 6),
    );
    accepts = refl;
    nc_length = refl;
    reads_ne = refl;
    reads_data = take-append d _;
  }

  data_extended-Reads : (d : List ℕ) → InExtended d → Reads (command (data_extended d)) d 0
  unfolding body parse
  data_extended-Reads d h = record {
    parsed = record { accepted = true; nc = length d; ne = 0; data_at = some 7 };
    result = ground arith;
    accepts = refl;
    nc_length = refl;
    reads_ne = refl;
    reads_data = take_all d;
  }

  data_le_extended-Reads :
      (d : List ℕ) (ne : ℕ)
      → InExtended d
      → IsNe 65536 ne
      → Reads (command (data_le_extended d ne)) d ne
  unfolding body parse
  data_le_extended-Reads d ne h k = record {
    parsed = record { accepted = true; nc = length d; ne = ne; data_at = some 7 };
    result = ground (
      arith,
      length-append d (put_uint16_be ne),
      get_or_last_two (cla ∷ ins ∷ p1 ∷ p2 ∷ 0 ∷ length d / 256 ∷ length d % 256 ∷ d)
          (ne / 256 % 256) (ne % 256) 0 (length d + 9),
    );
    accepts = refl;
    nc_length = refl;
    reads_ne = refl;
    reads_data = take-append d _;
  }

  -- A command in any of the seven forms is accepted, and its data and response length are read
  -- back, for up to 255 bytes of data and a response of up to 256 in the short forms, and up to
  -- 65526 and 65536 in the extended ones.
  pub parse-body : (f : Form) → IsForm f → Reads (command f) (form_data f) (form_ne f)
  parse-body no_body v = no_body-Reads
  parse-body (le_short ne) v = le_short-Reads ne v
  parse-body (data_short d) v = data_short-Reads d v
  parse-body (data_le_short d ne) v = data_le_short-Reads d ne v.0 v.1
  parse-body (le_extended ne) v = le_extended-Reads ne v
  parse-body (data_extended d) v = data_extended-Reads d v
  parse-body (data_le_extended d ne) v = data_le_extended-Reads d ne v.0 v.1
