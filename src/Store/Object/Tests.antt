-- ===== src/Store/Object/Tests.antt =====
-- Runs of the object store, and its theorem at a concrete input.
use pico_all.Base.{ℕ, ◌≡◌, refl, [], ◌∷◌, ◌++◌, arith, ltb, ◌==◌, if◌then◌else◌}
use pico_all.Bytes.{wrong_data, ok, err, same_bytes}
use pico_all.Store.Files.{file_read_at}
use pico_all.Store.Files.Memory.{Disk, memory}
use pico_all.Store.Txn.Steps.{Post}
use pico_all.Store.Object.{
  ObjectId, id_valid, store_header, store_header_valid, parse_header, parse_read, object_parse,
  put_generation, object_put,
}
use pico_all.Store.Object.Parse.{ObjectFits}
use pico_all.Store.Object.Put.{NextGeneration, Stored, object_put-object_parse}

abbrev id : ObjectId
id = record { namespace_id = 2; object_type = 3; fid = 0x1234 }

id-ObjectFits : ObjectFits id
id-ObjectFits = record {
  namespace_width = omega arith;
  type_width = omega arith;
  fid_width = omega arith;
}

-- The object with the generation 7.
abbrev disk : Disk
unfolding store_header
disk = record {
  files = λ f. if f == 0x1234 then store_header id 7 2 ++ (5 ∷ 6 ∷ []) else [];
  budget = 100;
}

next_generation : put_generation (disk.files 0x1234) id ≡ ok 8
unfolding disk put_generation object_parse parse_read parse_header store_header_valid id_valid
    file_read_at same_bytes store_header
next_generation = refl

other_object : object_parse (disk.files 0x1234) (record id { object_type = 4 }) ≡ err wrong_data
unfolding disk object_parse parse_read parse_header store_header_valid id_valid file_read_at
    same_bytes store_header
other_object = refl

object_put-object_parse_example :
    Post
      (λ _. Unit {0})
      (λ fs' _.
        (g : ℕ) × NextGeneration (memory.contents disk 0x1234) g
        × Stored memory (λ n. ltb n 4096) id (9 ∷ []) g fs')
      (object_put memory (λ n. ltb n 4096) disk id (9 ∷ []))
unfolding disk store_header
object_put-object_parse_example =
    object_put-object_parse memory (λ n. ltb n 4096) disk id (9 ∷ []) id-ObjectFits (ground arith)
