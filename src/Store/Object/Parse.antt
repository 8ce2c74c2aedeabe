-- ===== src/Store/Object/Parse.antt =====
-- Reading the header of an object.
use pico_all.Store.Txn.Codes.{file_read_at-ok}
use pico_all.Base.{
  ℕ, ◌+◌, ◌-◌, ◌≤◌, ◌<◌, ◌≡◌, refl, ap, ◌∙◌, true, false, not, ◌||◌, List, ◌++◌, arith, ltb, ◌==◌,
  ==_self, length, take, drop,
}
use pico_all.Bytes.{
  IsU16, IsU32, AllBytes, err_null_param, err_file_not_found, wrong_data, Result, ok, err,
  get_uint32_be, AllBytes-drop, AllBytes-take, get_uint32_be-IsU32, same_bytes,
}
use pico_all.Results.{uint16_round, uint32_round, IfOk, IfOk-if, IfOk-refuse, IfOk-bind}
use pico_all.Store.Files.{file_read_at}
use pico_all.Store.Object.{
  ObjectId, ObjectRecord, id_valid, store_header, store_header_valid, parse_header, parse_read,
  object_parse, put_generation,
}

-- The widths of the fields of `file_object_id_t`.
pub record ObjectFits (id : ObjectId) : Type 0 where
  pub namespace_width : IsU16 id.namespace_id
  pub type_width : IsU16 id.object_type
  pub fid_width : IsU16 id.fid

length-store_header :
    (id : ObjectId) (g n : ℕ) (d : List ℕ) → length (store_header id g n ++ d) ≡ 20 + length d
unfolding store_header
length-store_header id g n d = omega arith

store_header-take :
    (id : ObjectId) (g n : ℕ) (d : List ℕ)
    → take 20 (store_header id g n ++ d) ≡ store_header id g n
unfolding store_header
store_header-take id g n d = refl

module _ (id : ObjectId) (g n : ℕ) (fits : ObjectFits id) (positive : 0 < g)
    (width : g < 4294967296) (small : n ≤ 4294967275) where
  store_header-valid : store_header_valid (store_header id g n) id (20 + n) ≡ true
  unfolding store_header store_header_valid same_bytes
  store_header-valid =
      let nonzero : (g == 0) ≡ false = ground arith in
      let size : 20 + n - 20 ≡ n = omega arith in
      rw
        (
          uint16_round id.namespace_id fits.namespace_width,
          uint16_round id.object_type fits.type_width,
          uint16_round id.fid fits.fid_width,
          uint32_round g width,
          uint32_round n (omega arith),
          size,
        )
        (rw (==_self id.namespace_id, ==_self id.object_type, ==_self id.fid, nonzero, ==_self n)
          refl)

  header_fields :
      (get_uint32_be (store_header id g n) 16 ≡ n) × (get_uint32_be (store_header id g n) 12 ≡ g)
  unfolding store_header
  header_fields = (uint32_round n (omega arith), uint32_round g width)

  parse_header-store_header :
      parse_header (store_header id g n) id (20 + n)
      ≡ ok (record { payload_offset = 20; payload_size = n; generation = g })
  unfolding parse_header
  parse_header-store_header = rw (store_header-valid, header_fields.0, header_fields.1) refl

pub object_parse-store_header :
    (id : ObjectId) (g : ℕ) (d : List ℕ)
    → ObjectFits id
    → id_valid id ≡ true
    → 0 < g
    → g < 4294967296
    → length d ≤ 4294967275
    → object_parse (store_header id g (length d) ++ d) id
      ≡ ok (record { payload_offset = 20; payload_size = length d; generation = g })
unfolding object_parse parse_read store_header
object_parse-store_header id g d fits valid positive width small =
    let total = length-store_header id g (length d) d in
    let nonempty : (length (store_header id g (length d) ++ d) == 0) ≡ false =
      ground (arith, total) in
    let long : ltb (length (store_header id g (length d) ++ d)) 20 ≡ false =
      ground (arith, total) in
    let read : file_read_at (store_header id g (length d) ++ d) 0 20
        ≡ ok (store_header id g (length d)) =
      file_read_at-ok (store_header id g (length d) ++ d) 0 20 (omega (arith, total))
      ∙ ap ok (store_header-take id g (length d) d) in
    rw (valid, nonempty, long, read)
      (rw total (parse_header-store_header id g (length d) fits positive width small))

file_read_at-IfOk :
    (file : List ℕ) (offset n : ℕ) → AllBytes file → IfOk AllBytes (file_read_at file offset n)
unfolding file_read_at
file_read_at-IfOk file offset n h =
    IfOk-if AllBytes (ltb (length file) offset || ltb (length file - offset) n) (err err_null_param)
      (ok (take n (drop offset file))) tt
      (AllBytes-take n (drop offset file) (AllBytes-drop offset file h))

abbrev HasWidth : ObjectRecord → Type 0
HasWidth r = IsU32 r.generation

parse_read-HasWidth :
    (header : Result (List ℕ)) (id : ObjectId) (size : ℕ)
    → IfOk AllBytes header
    → IfOk HasWidth (parse_read header id size)
unfolding parse_read parse_header
parse_read-HasWidth (err c) id size h = tt
parse_read-HasWidth (ok header) id size h =
    IfOk-refuse HasWidth (not (store_header_valid header id size)) wrong_data _
      λ _. get_uint32_be-IsU32 header 12 h

object_parse-HasWidth :
    (file : List ℕ) (id : ObjectId) → AllBytes file → IfOk HasWidth (object_parse file id)
unfolding object_parse
object_parse-HasWidth file id h =
    IfOk-refuse HasWidth (not (id_valid id) || length file == 0) err_file_not_found _ λ _.
      IfOk-refuse HasWidth (ltb (length file) 20) wrong_data _ λ _.
        parse_read-HasWidth (file_read_at file 0 20) id (length file)
          (file_read_at-IfOk file 0 20 h)

abbrev pub IsGeneration : ℕ → Type 0
IsGeneration g = (0 < g) × (g < 4294967296)

pub put_generation-IsGeneration :
    (file : List ℕ) (id : ObjectId) → AllBytes file → IfOk IsGeneration (put_generation file id)
unfolding put_generation
put_generation-IsGeneration file id h =
    IfOk-if IsGeneration (ltb 0 (length file)) _ (ok 1)
      (IfOk-bind HasWidth IsGeneration (object_parse file id) _ (object_parse-HasWidth file id h)
        λ r width.
          IfOk-refuse IsGeneration (r.generation == 4294967295) wrong_data (ok (r.generation + 1))
            λ e. (omega arith, below r.generation width e))
      (omega arith, omega arith)
  where
    below : (g : ℕ) → IsU32 g → (g == 4294967295) ≡ false → g + 1 < 4294967296
    below g h e = ground arith
