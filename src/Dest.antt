-- ===== src/Dest.antt =====
-- The parts of a URL: `http_dest_create` and `http_parse_url` of netcwmp_xo/libcwmp/src/http.c.
pub mod Parse
pub mod Tests
use netcwmp_xo.Base.{
  ℕ, zero, suc, ◌+◌, ◌-◌, ◌*◌, ◌/◌, ◌%◌, Bool, true, false, not, ◌&&◌, ◌||◌, Option, none, some,
  List, [], ◌∷◌, ◌++◌, ◌==◌, ◌^◌, leb, ltb, if◌then◌else◌, length, take, drop, codes,
}
use netcwmp_xo.Param.{Name, same_name, consed}
use netcwmp_xo.Header.{same_header}
use netcwmp_xo.Objects.{is_digit_char}
use netcwmp_xo.Digest.{is_space}
use netcwmp_xo.Url.{hex_char}

abbrev pub url_scheme_len : ℕ
url_scheme_len = 8

abbrev pub url_user_len : ℕ
url_user_len = 64

abbrev pub url_pwd_len : ℕ
url_pwd_len = 64

abbrev pub max_host_name_len : ℕ
max_host_name_len = 128

abbrev pub max_uri_len : ℕ
max_uri_len = 512

-- `http_dest_t`, less the cookie and the challenge
pub record Dest : Type 0 where
  pub scheme : Name
  pub user : Name
  pub password : Name
  pub host : Name
  pub port : ℕ
  pub uri : Name

-- What `http_dest_create` allocates
abbrev pub no_dest : Dest
no_dest = record { scheme = []; user = []; password = []; host = []; port = 0; uri = [] }

-- How `http_parse_url` ends: with a destination, with an error, or with a fault of the program, when
-- the document or the number of the port does not fit
pub data Parsed : Type 0 where
  parsed : Dest → Parsed
  invalid : Parsed
  overrun : Parsed

-- What stands in front of the first character that a test holds for, and what follows, that character
-- included
unfoldable pub break_at : (ℕ → Bool) → Name → Name × Name
break_at stop [] = ([], [])
break_at stop (c ∷ s) = let rest = break_at stop s in if stop c then ([], c ∷ s) else consed c rest

-- `strstr(url, ":/")`: what stands in front of it, and what follows the colon
abbrev pub consed_before : ℕ → Option (Name × Name) → Option (Name × Name)
consed_before c none = none
consed_before c (some r) = some (consed c r)

abbrev pub starts_slash : Name → Bool
starts_slash [] = false
starts_slash (c ∷ s) = c == b'/'

unfoldable pub find_scheme : Name → Option (Name × Name)
find_scheme [] = none
find_scheme (c ∷ s) =
    let rest = find_scheme s in
    if c == b':' && starts_slash s then some ([], s) else consed_before c rest

-- Two slashes are passed over; one stays as a part of the document.
abbrev pub behind_slashes : Name → Name
behind_slashes [] = []
behind_slashes (c ∷ []) = c ∷ []
behind_slashes (c ∷ d ∷ s) = if d == b'/' then s else c ∷ d ∷ s

abbrev pub scheme_of : Option (Name × Name) → Dest → Dest
scheme_of none d = d
scheme_of (some r) d = record d { scheme = take url_scheme_len r.0 }

abbrev pub uri_of : Option (Name × Name) → Name → Name
uri_of none url = url
uri_of (some r) url = behind_slashes r.1

-- `!*uri || *uri == '/' || *uri == '.'`
abbrev pub has_no_host : Name → Bool
has_no_host [] = true
has_no_host (c ∷ s) = c == b'/' || c == b'.'

abbrev pub slash_or_at : ℕ → Bool
slash_or_at c = c == b'/' || c == b'@'

abbrev pub colon_or_at : ℕ → Bool
colon_or_at c = c == b':' || c == b'@'

abbrev pub slash_or_colon : ℕ → Bool
slash_or_colon c = c == b'/' || c == b':'

abbrev pub starts_at : Name → Bool
starts_at [] = false
starts_at (c ∷ s) = c == b'@'

-- The password, if a colon follows the user
unfoldable pub password_of : Name → Dest → Dest
password_of [] d = d
password_of (c ∷ s) d =
    if c == b':' then record d { password = take url_pwd_len ((break_at colon_or_at s).0) } else d

abbrev pub with_user : Name × Name → Dest → Dest
with_user r d = password_of r.1 (record d { user = take url_user_len r.0 })

abbrev pub credentials_of : Bool → Name → Dest → Dest
credentials_of true uri d = with_user (break_at colon_or_at uri) d
credentials_of false uri d = d

-- What follows the credentials: `p` behind the `@`
abbrev pub behind_at : Bool → Name → Name → Name
behind_at true uri p = drop 1 p
behind_at false uri p = uri

-- How the port is read: with what follows it, with another character, or with a number that is no `int`
pub data Port : Type 0 where
  port_is : ℕ → Name → Port
  no_port : Port
  too_large : Port

-- The digits of the port, up to a slash; the number is an `int` after every digit.
unfoldable pub port_from : ℕ → Name → Port
port_from n [] = port_is n []
port_from n (c ∷ s) =
    let next = n * 10 + (c - b'0') in
    let rest = port_from next s in
    if c == b'/'
    then port_is n (c ∷ s)
    else if not (is_digit_char c)
    then no_port
    else if leb (2 ^ 31) next
    then too_large
    else rest

abbrev pub default_port : Name → ℕ
default_port url = if same_name (take 6 url) (codes "https:") then 443 else 80

-- The port, and what follows it
unfoldable pub port_of : Name → Name → Port
port_of url [] = port_is (default_port url) []
port_of url (c ∷ s) = if c == b':' then port_from 0 s else port_is (default_port url) (c ∷ s)

-- The document, with white space escaped
unfoldable pub escape_spaces : Name → Name
escape_spaces [] = []
escape_spaces (c ∷ s) =
    let rest = escape_spaces s in
    if is_space c then b'%' ∷ to_hex (c / 16) ∷ to_hex (c % 16) ∷ rest else c ∷ rest
  where
    to_hex : ℕ → ℕ
    to_hex n = if ltb n 10 then b'0' + n else b'a' + (n - 10)

abbrev pub document : Name → Name
document [] = b'/' ∷ []
document (c ∷ s) = c ∷ s

-- The copy of the document, which is only made for the two schemes
unfoldable pub with_document : Name → Dest → Parsed
with_document p d =
    if same_header (d.scheme) (codes "http") || same_header (d.scheme) (codes "https")
    then if ltb max_uri_len (length (escape_spaces (document p)))
      then overrun
      else parsed (record d { uri = escape_spaces (document p) })
    else parsed d

abbrev pub with_port : Dest → Port → Parsed
with_port d no_port = invalid
with_port d too_large = overrun
with_port d (port_is n s) = with_document s (record d { port = n })

abbrev pub with_host : Name → Dest → Name × Name → Parsed
with_host url d r = with_port (record d { host = take max_host_name_len r.0 }) (port_of url r.1)

-- `http_parse_url` behind the scheme
unfoldable pub parse_authority : Name → Name → Dest → Parsed
parse_authority url uri d =
    let p = (break_at slash_or_at uri).1 in
    if has_no_host uri
    then with_document uri d
    else with_host url (credentials_of (starts_at p) uri d)
        (break_at slash_or_colon (behind_at (starts_at p) uri p))

-- `http_parse_url`
unfoldable pub parse_url : Dest → Name → Parsed
parse_url d url = parse_authority url (uri_of (find_scheme url) url) (scheme_of (find_scheme url) d)
