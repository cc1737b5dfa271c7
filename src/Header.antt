-- ===== src/Header.antt =====
-- The headers of a response: `http_parse_headers`, `http_set_variable` and `http_get_variable` of
-- netcwmp_xo/libcwmp/src/http.c. The pool is a parameter: whether it has memory, and its copy of a
-- string in lower case; copies succeed where the record for them could be allocated.
pub mod Lookup
pub mod Tests
use netcwmp_xo.Base.{
  ℕ, ◌+◌, Bool, true, false, ◌&&◌, Option, none, some, List, [], ◌∷◌, ◌++◌, ◌==◌, leb,
  if◌then◌else◌, length,
}

-- `tolower` in the C locale
abbrev pub to_lower : ℕ → ℕ
to_lower c = if leb b'A' c && leb c b'Z' then c + 32 else c

-- `MAX_HEADERS`
abbrev pub max_headers : ℕ
max_headers = 64

abbrev pub Name : Type 0
Name = List ℕ

-- The first `count` elements of `parser->header`
abbrev pub Headers : Type 0
Headers = List (Name × Name)

-- `TRstrcasecmp(a, b) == 0`
unfoldable pub same_header : Name → Name → Bool
same_header [] [] = true
same_header [] (d ∷ b) = false
same_header (c ∷ a) [] = false
same_header (c ∷ a) (d ∷ b) = to_lower c == to_lower d && same_header a b

-- `http_get_variable`
unfoldable pub get_variable : Headers → Name → Option Name
get_variable [] name = none
get_variable ((n, v) ∷ hs) name = if same_header n name then some v else get_variable hs name

-- The loop over the spaces behind the colon; `value` stays NULL if nothing follows them.
unfoldable pub skip_spaces : Name → Option Name
skip_spaces [] = none
skip_spaces (c ∷ s) = if c == b' ' then skip_spaces s else some (c ∷ s)

-- What follows the first colon; further colons that stand next to it are passed over.
unfoldable pub value_of : Name → Option Name
unfolding skip_spaces
value_of [] = none
value_of (c ∷ s) = if c == b':' then value_of s else skip_spaces (c ∷ s)

abbrev pub named : ℕ → Name × Option Name → Name × Option Name
named c (name, value) = (c ∷ name, value)

-- The loop of `http_parse_headers` over the characters of a line: the name and the value
unfoldable pub parse_line : Name → Name × Option Name
parse_line [] = ([], none)
parse_line (c ∷ s) = let rest = parse_line s in if c == b':' then ([], value_of s) else named c rest

module _ (has_memory : Headers → Bool) (pstrdup_lower : Name → Name) where
  -- `http_set_variable`, for a name and a value that are not NULL
  unfoldable pub set_variable : Name → Name → Headers → Headers
  set_variable name value hs =
      if has_memory hs
      then if leb max_headers (length hs) then hs else hs ++ (pstrdup_lower name, value) ∷ []
      else hs

  unfoldable pub set_parsed : Name × Option Name → Headers → Headers
  set_parsed (name, none) hs = hs
  set_parsed (name, some value) hs = set_variable name value hs

  unfoldable pub parse_lines : List Name → Headers → Headers
  parse_lines [] hs = hs
  parse_lines (l ∷ ls) hs = parse_lines ls (set_parsed (parse_line l) hs)

  -- `http_parse_headers`: the first line is the status line.
  unfoldable pub parse_headers : List Name → Headers → Headers
  parse_headers [] hs = hs
  parse_headers (status ∷ ls) hs = parse_lines ls hs
