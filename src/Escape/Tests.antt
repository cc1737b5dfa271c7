-- ===== src/Escape/Tests.antt =====
-- Escapes at concrete texts, and the theorems at inputs that meet their hypotheses.
use netcwmp_xo.Base.{ℕ, ◌≡◌, refl, Bool, true, some, List, [], ◌∷◌, arith}
use netcwmp_xo.Chunk.{Chunk, fresh}
use netcwmp_xo.Chunk.Write.{IsChunk}
use netcwmp_xo.Escape.{escaped}
use netcwmp_xo.Escape.RoundTrip.{escape}

abbrev some_pool : Chunk → Bool
some_pool c = true

abbrev one_byte : Chunk
one_byte = record {
  before = [];
  current = some (record fresh { string = 7 ∷ [] });
  after = [];
  bytes = 1;
}

one_byte-IsChunk : IsChunk one_byte
one_byte-IsChunk = ground arith

-- `<a`
abbrev tag : List ℕ
tag = b'<' ∷ b'a' ∷ []

tag_escaped : escape tag ≡ b'&' ∷ b'l' ∷ b't' ∷ b';' ∷ b'a' ∷ []
unfolding escaped
tag_escaped = refl
