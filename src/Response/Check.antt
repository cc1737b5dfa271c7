-- ===== src/Response/Check.antt =====
-- Tests that decide what the theorems about lines and headers ask for.
use netcwmp_xo.Base.{
  ◌≡◌, refl, Bool, true, false, not, ◌&&◌, List, [], ◌∷◌, ◌==◌, ltb, leb, length, All, arith,
}
use netcwmp_xo.Param.{Name}
use netcwmp_xo.Header.{Headers}
use netcwmp_xo.Header.Lookup.{HasNoColon, IsValue, ArePrintable}
use netcwmp_xo.Response.{cr, lf}
use netcwmp_xo.Response.Split.{IsInLine, IsWord}
use netcwmp_xo.Response.Read.{IsShortLine}

-- A test for the characters of a line
abbrev pub in_line : Name → Bool
in_line [] = true
in_line (c ∷ l) = not (c == 0) && (not (c == cr) && (not (c == lf) && in_line l))

four :
    (a b c d : Bool)
    → (not a && (not b && (not c && d))) ≡ true
    → ((a ≡ false) × (b ≡ false) × (c ≡ false)) × (d ≡ true)
four true b c d h = cc
four false true c d h = cc
four false false true d h = cc
four false false false d h = ((refl, refl, refl), h)

pub in_line-All : (l : Name) → in_line l ≡ true → All IsInLine l
in_line-All [] h = tt
in_line-All (c ∷ l) h =
    let (u, r) = four (c == 0) (c == cr) (c == lf) (in_line l) h in (u, in_line-All l r)

both : (a b : Bool) → (a && b) ≡ true → (a ≡ true) × (b ≡ true)
both true b h = (refl, h)
both false b h = cc

neither : (a : Bool) → not a ≡ true → a ≡ false
neither true h = cc
neither false h = refl

abbrev pub short_lines : List Name → Bool
short_lines [] = true
short_lines (l ∷ ls) = (ltb 0 (length l) && leb (length l) 1020) && (in_line l && short_lines ls)

pub short_lines-All : (ls : List Name) → short_lines ls ≡ true → All IsShortLine ls
short_lines-All [] h = tt
short_lines-All (l ∷ ls) h =
    let (size, rest) = both (ltb 0 (length l) && leb (length l) 1020) _ h in
    let (given, few) = both (ltb 0 (length l)) (leb (length l) 1020) size in
    let (inside, more) = both (in_line l) (short_lines ls) rest in
    (((ground arith, in_line-All l inside), ground arith), short_lines-All ls more)

abbrev pub is_word : Name → Bool
is_word [] = true
is_word (c ∷ s) = not (c == b' ') && is_word s

pub is_word-IsWord : (s : Name) → is_word s ≡ true → IsWord s
is_word-IsWord [] h = tt
is_word-IsWord (c ∷ s) h =
    let (a, b) = both (not (c == b' ')) (is_word s) h in (neither (c == b' ') a, is_word-IsWord s b)

abbrev pub no_colon : Name → Bool
no_colon [] = true
no_colon (c ∷ s) = not (c == b':') && no_colon s

no_colon-HasNoColon : (s : Name) → no_colon s ≡ true → HasNoColon s
no_colon-HasNoColon [] h = tt
no_colon-HasNoColon (c ∷ s) h =
    let (a, b) = both (not (c == b':')) (no_colon s) h in
    (neither (c == b':') a, no_colon-HasNoColon s b)

abbrev pub is_value : Name → Bool
is_value [] = false
is_value (c ∷ s) = not (c == b':') && not (c == b' ')

is_value-IsValue : (s : Name) → is_value s ≡ true → IsValue s
is_value-IsValue [] h = cc
is_value-IsValue (c ∷ s) h =
    let (a, b) = both (not (c == b':')) (not (c == b' ')) h in
    (neither (c == b':') a, neither (c == b' ') b)

abbrev pub printable : Headers → Bool
printable [] = true
printable ((n, v) ∷ hs) = no_colon n && (is_value v && printable hs)

pub printable-ArePrintable : (hs : Headers) → printable hs ≡ true → ArePrintable hs
printable-ArePrintable [] h = tt
printable-ArePrintable ((n, v) ∷ hs) h =
    let (a, rest) = both (no_colon n) _ h in
    let (b, more) = both (is_value v) (printable hs) rest in
    (no_colon-HasNoColon n a, is_value-IsValue v b, printable-ArePrintable hs more)
