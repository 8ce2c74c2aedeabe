-- ===== src/Store/Object/Put.antt =====
-- What `file_object_put` writes is parsed back.
use pico_all.Store.Txn.Steps.{Post, Post-result, Post-if, Post-frame}
use pico_all.Base.{
  ℕ, zero, suc, ◌+◌, ◌-◌, ◌≤◌, ◌<◌, ◌≡◌, refl, sym, ap, ◌∙◌, Bool, true, false, not, ◌||◌, Option,
  none, some, List, [], ◌∷◌, ◌++◌, arith, ltb, ◌==◌, if◌then◌else◌, length, get_or, take,
}
use pico_all.Bytes.{
  IsU32, AllBytes, err_no_memory, err_null_param, err_file_not_found, wrong_data, Result, ok, err,
  get_uint32_be, get_uint32_be-IsU32, refuse,
}
use pico_all.Results.{bind_ok, refuse_ok, ok_injective, IfOk, IfOk-if}
use pico_all.Store.Files.{FileSystem, file_read_at}
use pico_all.Store.Object.{
  ObjectId, ObjectRecord, id_valid, store_header, store_header_valid, parse_header, parse_read,
  object_parse, put_generation, put_record, put_at, object_put,
}
use pico_all.Store.Object.Parse.{
  ObjectFits, object_parse-store_header, IsGeneration, put_generation-IsGeneration,
}

-- The generation behind the one that the file has: the first one for a file without data, and the
-- one that the header's bytes 12 to 15 hold, and 1, else.
abbrev pub NextGeneration : List ℕ → ℕ → Type 0
NextGeneration [] g = g ≡ 1
NextGeneration (x ∷ file) g = (g ≡ get_uint32_be (x ∷ file) 12 + 1) × (g ≤ 4294967295)

get_or-take : (n i : ℕ) (d : List ℕ) → i < n → get_or (take n d) i 0 ≡ get_or d i 0
get_or-take zero i d lt = absurd (omega (arith, lt))
get_or-take (suc n) i [] lt = refl
get_or-take (suc n) zero (x ∷ d) lt = refl
get_or-take (suc n) (suc i) (x ∷ d) lt = get_or-take n i d (omega (arith, lt))

-- The bytes of the generation stand in the header.
header_generation : (file : List ℕ) → get_uint32_be (take 20 file) 12 ≡ get_uint32_be file 12
header_generation file =
    rw
      (
        get_or-take 20 12 file (omega arith),
        get_or-take 20 13 file (omega arith),
        get_or-take 20 14 file (omega arith),
        get_or-take 20 15 file (omega arith),
      )
      refl

read_generation :
    (read : Result (List ℕ)) (file : List ℕ) (id : ObjectId) (size : ℕ) (r : ObjectRecord)
    → IfOk (λ header. header ≡ take 20 file) read
    → parse_read read id size ≡ ok r
    → r.generation ≡ get_uint32_be file 12
unfolding parse_read parse_header
read_generation (err c) file id size r h e = ground arith
read_generation (ok header) file id size r h e =
    let (valid, same) = refuse_ok (not (store_header_valid header id size)) wrong_data _ r e in
    ap (λ (x : ObjectRecord). x.generation) (sym (ok_injective _ r same))
    ∙ ap (λ (l : List ℕ). get_uint32_be l 12) h
    ∙ header_generation file

parsed_generation :
    (file : List ℕ) (id : ObjectId) (r : ObjectRecord)
    → object_parse file id ≡ ok r
    → r.generation ≡ get_uint32_be file 12
unfolding object_parse file_read_at
parsed_generation file id r e =
    let (there, e1) = refuse_ok (not (id_valid id) || length file == 0) err_file_not_found _ r e in
    let (long, e2) = refuse_ok (ltb (length file) 20) wrong_data _ r e1 in
    read_generation (file_read_at file 0 20) file id (length file) r
      (IfOk-if (λ header. header ≡ take 20 file) (ltb (length file) 0 || ltb (length file - 0) 20)
        (err err_null_param) (ok (take 20 file)) tt refl)
      e2

put_generation-NextGeneration :
    (file : List ℕ) (id : ObjectId) (g : ℕ)
    → AllBytes file
    → put_generation file id ≡ ok g
    → NextGeneration file g
unfolding put_generation
put_generation-NextGeneration [] id g h e = sym (ok_injective 1 g e)
put_generation-NextGeneration (x ∷ file) id g h e =
    let there : ltb 0 (length (x ∷ file)) ≡ true = ground arith in
    let (r, parsed, e') =
      bind_ok (object_parse (x ∷ file) id)
        (λ current.
          refuse (current.generation == 4294967295) wrong_data (ok (current.generation + 1)))
        g (chosen (ltb 0 (length (x ∷ file))) _ (ok 1) there e) in
    let (small, e2) = refuse_ok (r.generation == 4294967295) wrong_data _ g e' in
    let one_more = ok_injective (r.generation + 1) g e2 in
    let before = parsed_generation (x ∷ file) id r parsed in
    (
      sym one_more ∙ ap (λ (n : ℕ). n + 1) before,
      within r.generation (get_uint32_be (x ∷ file) 12) before (get_uint32_be-IsU32 (x ∷ file) 12 h)
          small one_more,
    )
  where
    chosen : (b : Bool) (y z : Result ℕ) → b ≡ true → (if b then y else z) ≡ ok g → y ≡ ok g
    chosen true y z e h = h
    chosen false y z e h = ground (arith, e)

    within : (n m : ℕ) → n ≡ m → IsU32 m → (n == 4294967295) ≡ false → n + 1 ≡ g → g ≤ 4294967295
    within n m e w other next = ground (arith, e, w, other, next)

module _ (files : FileSystem) (calloc : ℕ → Bool) where
  -- The file of the object has the data, and parses to them.
  abbrev pub Stored : ObjectId → List ℕ → ℕ → files.Fs → Type 0
  Stored id d g fs =
      (files.contents fs id.fid ≡ store_header id g (length d) ++ d)
      × (object_parse (files.contents fs id.fid) id
          ≡ ok (record { payload_offset = 20; payload_size = length d; generation = g }))

  put_record-Stored :
      (fs : files.Fs) (id : ObjectId) (g : ℕ) (d : List ℕ)
      → ObjectFits id
      → id_valid id ≡ true
      → IsGeneration g
      → Post (λ _. Unit {0}) (λ fs' _. Stored id d g fs') (put_record files calloc fs id g d)
  unfolding put_record
  put_record-Stored fs id g d fits valid (positive, width) =
      Post-if (λ _. Unit {0}) (λ fs' _. Stored id d g fs') (ltb 4294967275 (length d)) _ _ (λ _. tt)
        λ small.
          Post-if (λ _. Unit {0}) (λ fs' _. Stored id d g fs') (not (calloc (20 + length d))) _ _
            (λ _. tt)
            λ _.
              Post-result (λ _. Unit {0}) (λ fs' _. Stored id d g fs')
                (files.put_data fs id.fid (store_header id g (length d) ++ d)) (λ _ _. tt)
                λ v e.
                  let same = files.put_writes fs id.fid (store_header id g (length d) ++ d) e in
                  (
                    same,
                    ap (λ file. object_parse file id) same
                        ∙ object_parse-store_header id g d fits valid positive width
                            (ground (arith, small)),
                  )

  -- For an identifier whose fields have the width of their C types, and a file of bytes: behind a
  -- success of file_object_put the file of the object is a header and the data, with the generation
  -- 1 for a file without data, and else one more than the big-endian number in the bytes 12 to 15 of
  -- the file as it was, which does not wrap around; and file_object_parse reads this header as it was
  -- written.
  pub object_put-object_parse :
      (fs : files.Fs) (id : ObjectId) (d : List ℕ)
      → ObjectFits id
      → AllBytes (files.contents fs id.fid)
      → Post
          (λ _. Unit {0})
          (λ fs' _. (g : ℕ) × NextGeneration (files.contents fs id.fid) g × Stored id d g fs')
          (object_put files calloc fs id d)
  unfolding object_put put_at
  object_put-object_parse fs id d fits h =
      Post-if Nothing Put (not (id_valid id) || ltb 4294967295 (length d)) (fs, err err_null_param)
        (put_at files calloc fs id d (put_generation (files.contents fs id.fid) id)) (λ _. tt)
        λ valid.
          from (put_generation (files.contents fs id.fid) id) refl
            (put_generation-IsGeneration (files.contents fs id.fid) id h) (ground (arith, valid))
    where
      Nothing : files.Fs → Type 0
      Nothing _ = Unit {0}

      Put : files.Fs → Unit {0} → Type 0
      Put fs' _ = (g : ℕ) × NextGeneration (files.contents fs id.fid) g × Stored id d g fs'

      written :
          (fs1 : files.Fs) (g : ℕ)
          → put_generation (files.contents fs id.fid) id ≡ ok g
          → IsGeneration g
          → id_valid id ≡ true
          → Post Nothing Put (put_record files calloc fs1 id g d)
      written fs1 g e range valid =
          Post-frame Nothing Nothing (λ fs' _. Stored id d g fs') Nothing Put
            (put_record files calloc fs1 id g d) tt (put_record-Stored fs1 id g d fits valid range)
            (λ _ _ _. tt)
            (λ _ _ _ stored.
              (g, put_generation-NextGeneration (files.contents fs id.fid) id g h e, stored))

      from :
          (r : Result ℕ)
          → put_generation (files.contents fs id.fid) id ≡ r
          → IfOk IsGeneration r
          → id_valid id ≡ true
          → Post Nothing Put (put_at files calloc fs id d r)
      from (err c) e range valid = tt
      from (ok g) e range valid =
          Post-if Nothing Put (files.is_file fs id.fid) (put_record files calloc fs id g d) _
            (λ _. written fs g e range valid) (λ _. new (files.file_new fs id.fid))
        where
          new :
              (made : Option files.Fs)
              → Post Nothing Put (elim made as (λ _. files.Fs × Result (Unit {0})) [
                | none ↦ (fs, err err_no_memory)
                | some fs' ↦ put_record files calloc fs' id g d
              ])
          new none = tt
          new (some fs') = written fs' g e range valid
