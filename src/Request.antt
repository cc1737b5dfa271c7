-- ===== src/Request.antt =====
-- Requests: `http_write_request`, `http_read_body` and `http_read_request` of
-- netcwmp_xo/libcwmp/src/http.c, over Chunk, Header, Response and Digest. `itoa` is what "%d" prints.
-- `none` is a fault of the program, where it is not said otherwise.
pub mod Write
pub mod Read
pub mod Body
pub mod Send
pub mod Tests
use netcwmp_xo.Base.{
  ℕ, zero, suc, ◌+◌, ◌-◌, Bool, true, false, not, ◌&&◌, Option, none, some, List, [], ◌∷◌, ◌++◌,
  ltb, leb, if◌then◌else◌, length, take, codes,
}
use netcwmp_xo.Param.{Name}
use netcwmp_xo.Chunk.{Chunk, copy}
use netcwmp_xo.Header.{Headers, same_header, parse_headers, get_variable}
use netcwmp_xo.Model.{pstrdup}
use netcwmp_xo.Digest.{DigestAuth, calc_digest_response}
use netcwmp_xo.Dest.{Dest, max_uri_len}
use netcwmp_xo.Response.{
  cr, lf, HeaderRead, header, failed, no_fuel, no_chunk, read_header, split_headers, next_word,
  word,
}

-- `http_method_t`
pub data Method : Type 0 where
  http_get http_put http_post http_options http_head http_delete http_trace http_unknown : Method

-- `http_method`
unfoldable pub http_method : Method → Name
http_method http_post = codes "POST"
http_method http_put = codes "PUT"
http_method _ = codes "GET"

-- `HTTP_DEFAULT_LEN`
abbrev pub default_len : ℕ
default_len = 1024

-- The members of `http_dest_t` that a request is written from
pub record Target : Type 0 where
  pub dest : Dest
  pub cookie : Name
  pub active : Bool
  pub digest_type : Bool
  pub challenge : DigestAuth

-- The buffer, and what `len1` counts
pub record Printed : Type 0 where
  pub text : Name
  pub count : ℕ

-- `TRsnprintf(buffer + len1, HTTP_DEFAULT_LEN - len1, ...)` for the text that is printed, with the sum
-- of the lengths; behind the end of the buffer the size is a large number.
unfoldable pub print : Name → Printed → Option Printed
print s b =
    if leb b.count default_len
    then some
        (record { text = b.text ++ take (default_len - b.count - 1) s; count = b.count + length s })
    else none

unfoldable pub print_all : List Name → Printed → Option Printed
print_all [] b = some b
print_all (s ∷ ss) b = elim (print s b) [ none ↦ none | some b' ↦ print_all ss b' ]

-- Lines with their ends
unfoldable pub ended : List Name → Name
ended [] = []
ended (l ∷ ls) = l ++ cr ∷ lf ∷ ended ls

-- The bytes of the chunk; NULL has none.
abbrev pub chunk_length : Option Chunk → ℕ
chunk_length none = 0
chunk_length (some c) = c.bytes

abbrev pub chunk_bytes : Option Chunk → Name
chunk_bytes none = []
chunk_bytes (some c) = copy c (c.bytes)

abbrev pub content_type : Option Name → Name
content_type none = codes "text/xml; charset=utf-8"
content_type (some t) = t

module _ (itoa : ℕ → Name) (md5 : Name → Name) (to_hex : Name → Name) where
  -- `header_fmt` with its arguments
  unfoldable pub header_lines : Method → Dest → Option Name → ℕ → List Name
  header_lines method dest cont_type len2 =
      (http_method method ++ b' ' ∷ (dest.uri ++ codes " HTTP/1.1"))
      ∷ (codes "Host: " ++ dest.host ++ b':' ∷ itoa dest.port)
      ∷ codes "User-Agent: CPE Netcwmp Agent"
      ∷ codes "Accept: */*"
      ∷ (codes "Content-Type: " ++ content_type cont_type)
      ∷ (codes "Content-Length: " ++ itoa len2)
      ∷ []

  abbrev pub digest_of : Target → Name
  digest_of t =
      calc_digest_response md5 to_hex t.dest.user t.dest.password t.challenge.realm
        t.challenge.nonce t.challenge.uri t.challenge.cnonce

  -- `auth_fmt` with its arguments
  unfoldable pub auth_line : Target → Name
  auth_line t =
      codes "Authorization: Digest username=\""
      ++ t.dest.user
      ++ codes "\", realm=\""
      ++ t.challenge.realm
      ++ codes "\", nonce=\""
      ++ t.challenge.nonce
      ++ codes "\", uri=\""
      ++ t.challenge.uri
      ++ codes "\", response=\""
      ++ digest_of t
      ++ codes "\""

  abbrev pub auth_piece : Target → Bool → List Name
  auth_piece t true = ended (auth_line t ∷ []) ∷ []
  auth_piece t false = []

  abbrev pub cookie_piece : Name → List Name
  cookie_piece [] = []
  cookie_piece (c ∷ s) = ended ((codes "Cookie: " ++ c ∷ s) ∷ []) ∷ []

  -- What is printed, piece by piece
  unfoldable pub pieces : Method → Target → Option Name → ℕ → List Name
  pieces method t cont_type len2 =
      ended (header_lines method (t.dest) cont_type len2)
      ∷ (auth_piece t (ltb 0 len2 && (not t.active && t.digest_type))
          ++ (cookie_piece (t.cookie) ++ (cr ∷ lf ∷ []) ∷ []))

  abbrev pub with_body : Option Chunk → Option Printed → Option (Name × ℕ)
  with_body chunk none = none
  with_body chunk (some b) = some (b.text ++ chunk_bytes chunk, length b.text + chunk_length chunk)

  -- `http_write_request`: the data, and the number of bytes that are given to `http_socket_write`
  unfoldable pub write_request : Method → Target → Option Name → Option Chunk → Option (Name × ℕ)
  write_request method t cont_type chunk =
      with_body chunk (
        print_all (pieces method t cont_type (chunk_length chunk))
          (record { text = []; count = 0 }))

-- `http_read_body`, for what the reads of the socket give: an error, nothing at the end, or bytes. What
-- the callback is given, and the number of bytes, or `none` for an error
unfoldable pub read_body : ℕ → ℕ → List (Option Name) → Name × Option ℕ
read_body max bytes [] = ([], some bytes)
read_body max bytes (none ∷ rs) = ([], if ltb bytes max then none else some bytes)
read_body max bytes (some [] ∷ rs) = ([], some bytes)
read_body max bytes (some (c ∷ s) ∷ rs) =
    let rest = read_body max (bytes + length (c ∷ s)) rs in
    if ltb bytes max then ((c ∷ s) ++ rest.0, rest.1) else ([], some bytes)

-- The comparisons of the method's name
unfoldable pub method_of : Name → Method
method_of t =
    if same_header (codes "GET") t
    then http_get
    else if same_header (codes "POST") t
    then http_post
    else if same_header (codes "HEAD") t
    then http_head
    else http_unknown

-- What `http_read_request` finds in the header: the method, the document, the type and the length of
-- the body, with the input that is left for it
pub record Asked : Type 0 where
  pub method : Method
  pub uri : Name
  pub cont_type : Option Name
  pub cont_len : ℕ
  pub headers : Headers
  pub left : Name

-- How `http_read_request` comes to the body: with the request, with an error or the end of the input,
-- with a fault of the program, or at the end of the fuel
pub data RequestRead : Type 0 where
  asked : Asked → RequestRead
  refused : RequestRead
  fault : RequestRead
  out_of_fuel : RequestRead

abbrev pub word_of : Option Name → Option Name
word_of none = none
word_of (some s) = some (word s)

module _ (has_memory : Headers → Bool) (pstrdup_lower : Name → Name) (atoi : Name → ℕ) where
  abbrev pub length_or : Option Name → ℕ
  length_or none = 0
  length_or (some t) = atoi t

  abbrev pub asked_of : Name → Name → Headers → Name → Asked
  asked_of line uri hs left = record {
    method = method_of (word line);
    uri = take max_uri_len uri;
    cont_type = pstrdup (get_variable hs (codes "Content-Type"));
    cont_len = length_or (get_variable hs (codes "Content-Length"));
    headers = hs;
    left = left;
  }

  -- For the document, which is appended a slash to where it is missing, and so written through NULL
  abbrev pub with_uri : Name → Option Name → Headers → Name → RequestRead
  with_uri line none hs left = fault
  with_uri line (some uri) hs left = asked (asked_of line uri hs left)

  abbrev pub of_lines : List Name → Name → RequestRead
  of_lines [] left = fault
  of_lines (line ∷ ls) left =
      with_uri line (word_of (next_word line))
        (parse_headers has_memory pstrdup_lower (line ∷ ls) []) left

  abbrev pub request_behind : HeaderRead → RequestRead
  request_behind (header c left) = of_lines (split_headers (copy c 2047)) left
  request_behind failed = refused
  request_behind no_fuel = out_of_fuel

  -- `http_read_request` up to the body, for a request with a place for the document
  unfoldable pub read_request : (Chunk → Bool) → Bool → ℕ → Name → RequestRead
  read_request pool eof fuel s = request_behind (read_header pool eof fuel s no_chunk)
