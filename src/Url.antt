-- ===== src/Url.antt =====
-- The coding of URLs, netcwmp_xo/libcwmp/src/url.c. A byte is a number below 256.
pub mod RoundTrip
pub mod Tests
use netcwmp_xo.Base.{
  ℕ, ◌+◌, ◌-◌, ◌*◌, ◌/◌, ◌%◌, Bool, true, false, not, ◌&&◌, ◌||◌, List, [], ◌∷◌, ltb, leb, ◌==◌,
  if◌then◌else◌,
}

-- `hexchars[n]`
unfoldable pub hex_char : ℕ → ℕ
hex_char n = if ltb n 10 then b'0' + n else b'A' + (n - 10)

-- The test of `urlencode` for a character that is escaped
unfoldable pub is_escaped : ℕ → Bool
is_escaped c =
    (ltb c b'0' && not (c == b'-') && not (c == b'.'))
    || (ltb c b'A' && ltb b'9' c)
    || (ltb b'Z' c && ltb c b'a' && not (c == b'_'))
    || ltb b'z' c

-- `urlencode`
unfoldable pub urlencode : List ℕ → List ℕ
unfolding is_escaped hex_char
urlencode [] = []
urlencode (c ∷ s) =
    let rest = urlencode s in
    if c == b' '
    then b'+' ∷ rest
    else if is_escaped c
    then b'%' ∷ hex_char (c / 16) ∷ hex_char (c % 16) ∷ rest
    else c ∷ rest

-- `isxdigit` in the C locale
unfoldable pub is_xdigit : ℕ → Bool
is_xdigit c = (leb b'0' c && leb c b'9') || (leb b'A' c && leb c b'F') || (leb b'a' c && leb c b'f')

-- `isupper` and `tolower` in the C locale
unfoldable pub lower : ℕ → ℕ
lower c = if leb b'A' c && leb c b'Z' then c + 32 else c

-- The value of a digit
unfoldable pub digit : ℕ → ℕ
unfolding lower
digit c = if leb b'0' (lower c) && leb (lower c) b'9' then lower c - b'0' else lower c - b'a' + 10

-- A character that starts no escape
unfoldable pub plain : ℕ → ℕ
plain c = if c == b'+' then b' ' else c

-- `urldecode`: what stands in `str` before the NUL. The code writes behind where it reads, in place,
-- and looks at the next two characters only when there are as many.
unfoldable pub urldecode : List ℕ → List ℕ
unfolding is_xdigit digit plain
urldecode [] = []
urldecode (c ∷ []) = plain c ∷ []
urldecode (c ∷ d ∷ []) = plain c ∷ urldecode (d ∷ [])
urldecode (c ∷ d ∷ e ∷ s) = elim (c == b'%' && is_xdigit d && is_xdigit e) [
  | true ↦ (digit d * 16 + digit e) ∷ urldecode s
  | false ↦ plain c ∷ urldecode (d ∷ e ∷ s)
]
