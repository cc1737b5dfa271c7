-- ===== src/Header/Tests.antt =====
-- Headers of a concrete response, and the theorem at inputs that meet its hypotheses.
use netcwmp_xo.Base.{◌≡◌, refl, Bool, true, some, [], ◌∷◌}
use netcwmp_xo.Header.{to_lower, Name, Headers, value_of, skip_spaces, parse_line}

abbrev has_memory : Headers → Bool
has_memory hs = true

-- A pool that copies names in lower case
abbrev lowered : Name → Name
lowered [] = []
lowered (c ∷ s) = to_lower c ∷ lowered s

-- `Id: 7` and `Age: 9`
abbrev two_headers : Headers
two_headers = (b'I' ∷ b'd' ∷ [], b'7' ∷ []) ∷ (b'A' ∷ b'g' ∷ b'e' ∷ [], b'9' ∷ []) ∷ []

double_colon : parse_line (b'a' ∷ b':' ∷ b':' ∷ b' ' ∷ b'1' ∷ []) ≡ (b'a' ∷ [], some (b'1' ∷ []))
unfolding parse_line value_of skip_spaces
double_colon = refl
