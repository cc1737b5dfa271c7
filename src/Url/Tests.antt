-- ===== src/Url/Tests.antt =====
-- Coding at concrete texts, and the theorems at inputs that meet their hypotheses.
use netcwmp_xo.Base.{ℕ, ◌≡◌, refl, List, [], ◌∷◌, arith}
use netcwmp_xo.Url.{hex_char, is_escaped, urlencode, is_xdigit, lower, digit, plain, urldecode}
use netcwmp_xo.Url.RoundTrip.{urldecode-urlencode}

-- `1 /`
abbrev sample : List ℕ
sample = b'1' ∷ b' ' ∷ b'/' ∷ []

-- A space and a slash are coded, a digit is not.
encoded : urlencode sample ≡ b'1' ∷ b'+' ∷ b'%' ∷ b'2' ∷ b'F' ∷ []
unfolding urlencode is_escaped hex_char
encoded = refl

-- Digits of either case are read, and an escape that is cut off is kept.
decoded : urldecode (b'%' ∷ b'2' ∷ b'f' ∷ b'%' ∷ b'2' ∷ []) ≡ b'/' ∷ b'%' ∷ b'2' ∷ []
unfolding urldecode is_xdigit digit lower plain
decoded = refl

urldecode-urlencode_example : urldecode (urlencode sample) ≡ sample
urldecode-urlencode_example =
    urldecode-urlencode sample (omega arith, (omega arith, (omega arith, tt)))
