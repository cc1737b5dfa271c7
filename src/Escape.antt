-- ===== src/Escape.antt =====
-- `cwmp_xml_copy_to_chunk_with_escape` of netcwmp_xo/libcwmp/src/cwmp.c: how the texts of a document
-- are written to a chunk.
pub mod RoundTrip
pub mod Tests
use netcwmp_xo.Base.{ℕ, Bool, Option, none, some, List, [], ◌∷◌, ◌==◌, if◌then◌else◌, length}
use netcwmp_xo.Chunk.{Chunk, Written, wrote, no_buffer, out_of_fuel, write_string}

-- What is written for a character
unfoldable pub escaped : ℕ → List ℕ
escaped c =
    if c == b'<'
    then b'&' ∷ b'l' ∷ b't' ∷ b';' ∷ []
    else if c == b'>'
    then b'&' ∷ b'g' ∷ b't' ∷ b';' ∷ []
    else if c == b'&'
    then b'&' ∷ b'a' ∷ b'm' ∷ b'p' ∷ b';' ∷ []
    else if c == 39
    then b'&' ∷ b'a' ∷ b'p' ∷ b'o' ∷ b's' ∷ b';' ∷ []
    else if c == 34
    then b'&' ∷ b'q' ∷ b'u' ∷ b'o' ∷ b't' ∷ b';' ∷ []
    else c ∷ []

-- The chunk after a call of `cwmp_chunk_write_string` whose result is not looked at
unfoldable pub after_write : Chunk → Written → Chunk
after_write c (wrote n d) = d
after_write c (no_buffer d) = d
after_write c out_of_fuel = c

abbrev pub write_piece : (Chunk → Bool) → List ℕ → Chunk → Chunk
write_piece pool s c = after_write c (write_string pool (length s) s 0 c)

unfoldable pub copy_chars : (Chunk → Bool) → List ℕ → Chunk → Chunk
copy_chars pool [] c = c
copy_chars pool (x ∷ p) c = copy_chars pool p (write_piece pool (escaped x) c)

-- `cwmp_xml_copy_to_chunk_with_escape`; NULL writes nothing.
unfoldable pub copy_to_chunk_with_escape : (Chunk → Bool) → Option (List ℕ) → Chunk → Chunk
copy_to_chunk_with_escape pool none c = c
copy_to_chunk_with_escape pool (some p) c = copy_chars pool p c
