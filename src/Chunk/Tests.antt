-- ===== src/Chunk/Tests.antt =====
-- Chunks at concrete texts, and the theorems at inputs that meet their hypotheses.
use netcwmp_xo.Base.{◌≡◌, refl, Bool, true, some, [], ◌∷◌, arith}
use netcwmp_xo.Chunk.{
  Buffer, fresh, Chunk, chunk_clear, write_bytes, with_room, write_some, write_string, wrote, nuls,
  strncpy, copy_loop, copy,
}
use netcwmp_xo.Chunk.Write.{IsChunk}
use netcwmp_xo.Chunk.Copy.{write_string-copy}

abbrev some_pool : Chunk → Bool
some_pool c = true

-- A chunk that holds the bytes 7 and 8
abbrev two_bytes : Chunk
two_bytes = record {
  before = [];
  current = some (record fresh { string = 7 ∷ 8 ∷ [] });
  after = [];
  bytes = 2;
}

two_bytes-IsChunk : IsChunk two_bytes
two_bytes-IsChunk = ground arith

write_one :
    write_string some_pool 1 (9 ∷ []) 0 two_bytes
    ≡ wrote 1
        (record two_bytes { current = some (record fresh { string = 7 ∷ 8 ∷ 9 ∷ [] }); bytes = 3 })
unfolding write_string with_room write_some write_bytes
write_one = refl

-- A NUL in the text hides what follows it in the same buffer.
copy_nul :
    copy (record two_bytes { current = some (record fresh { string = 0 ∷ 8 ∷ [] }) }) 9 ≡ 0 ∷ 0 ∷ []
unfolding copy copy_loop strncpy nuls
copy_nul = refl

write_string-copy_example :
    (d : Chunk) × (write_string some_pool 2 (7 ∷ 8 ∷ []) 0 (chunk_clear two_bytes) ≡ wrote 2 d)
    × (copy d 5 ≡ 7 ∷ 8 ∷ [])
write_string-copy_example =
    write_string-copy some_pool (7 ∷ 8 ∷ []) two_bytes 5 (λ d. refl) (refl, (refl, tt))
      (omega arith)

-- A buffer with three bytes, of which one has been read
abbrev one_read : Buffer
one_read = record { string = 7 ∷ 8 ∷ 9 ∷ []; readed = 1; size = 1024 }
