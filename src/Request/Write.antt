-- ===== src/Request/Write.antt =====
-- The bytes of a request that fits the buffer of `http_write_request`.
use netcwmp_xo.Base.{
  ℕ, ◌+◌, ◌-◌, ◌<◌, ◌≡◌, refl, sym, ap, ap₂, ◌∙◌, Bool, true, false, not, ◌&&◌, Option, some, List,
  [], ◌∷◌, ◌++◌, append-nil, append_assoc, arith, ltb, leb, length, length-append, take-all, codes,
}
use netcwmp_xo.Param.{Name}
use netcwmp_xo.Chunk.{Chunk}
use netcwmp_xo.Header.{Headers}
use netcwmp_xo.Header.Lookup.{print_lines}
use netcwmp_xo.Dest.{Dest}
use netcwmp_xo.Response.{cr, lf}
use netcwmp_xo.Response.Split.{rendered}
use netcwmp_xo.Request.{
  Method, http_method, default_len, Target, Printed, print, print_all, ended, chunk_length,
  chunk_bytes, content_type, header_lines, digest_of, auth_line, auth_piece, cookie_piece, pieces,
  with_body, write_request,
}

abbrev pub joined : List Name → Name
joined [] = []
joined (s ∷ ss) = s ++ joined ss

print-fits :
    (s : Name) (b : Printed)
    → b.count ≡ length b.text
    → length b.text + length s < default_len
    → print s b ≡ some (record { text = b.text ++ s; count = length (b.text ++ s) })
unfolding print
print-fits s b c h =
    let k = length-append (b.text) s in
    let few : leb b.count default_len ≡ true = ground arith in
    let all = take-all (default_len - b.count - 1) s (omega arith) in
    rw (few, all) (ap₂ (λ t n. some (record { text = t; count = n })) refl (omega arith))

print_all-fits :
    (ss : List Name) (b : Printed)
    → b.count ≡ length b.text
    → length b.text + length (joined ss) < default_len
    → print_all ss b
      ≡ some (record { text = b.text ++ joined ss; count = length (b.text ++ joined ss) })
unfolding print_all
print_all-fits [] b c h =
    let nothing = append-nil (b.text) in
    ap₂ (λ t n. some (record { text = t; count = n })) (sym nothing) (c ∙ ap length (sym nothing))
print_all-fits (s ∷ ss) b c h =
    let k = length-append s (joined ss) in
    let j = length-append (b.text) s in
    let next : Printed = record { text = b.text ++ s; count = length (b.text ++ s) } in
    rw (print_all, print-fits s b c (omega arith))
      (print_all-fits ss next refl (omega arith)
        ∙ ap (λ t. some (record { text = t; count = length t }))
            (append_assoc (b.text) s (joined ss)))

ended-rendered : (ls ms : List Name) → ended ls ++ rendered ms ≡ rendered (ls ++ ms)
unfolding ended
ended-rendered [] ms = refl
ended-rendered (l ∷ ls) ms =
    append_assoc l (cr ∷ lf ∷ ended ls) (rendered ms)
    ∙ ap (λ t. l ++ cr ∷ lf ∷ t) (ended-rendered ls ms)

-- The first line of a request
abbrev pub request_line : Method → Name → Name
request_line method uri = http_method method ++ b' ' ∷ (uri ++ codes " HTTP/1.1")

module _ (itoa : ℕ → Name) (md5 : Name → Name) (to_hex : Name → Name) where
  -- The value of the header that authorizes a request
  abbrev pub digest_value : Target → Name
  digest_value t =
      codes "Digest username=\""
      ++ t.dest.user
      ++ codes "\", realm=\""
      ++ t.challenge.realm
      ++ codes "\", nonce=\""
      ++ t.challenge.nonce
      ++ codes "\", uri=\""
      ++ t.challenge.uri
      ++ codes "\", response=\""
      ++ digest_of itoa md5 to_hex t
      ++ codes "\""

  abbrev pub auth_header : Target → Bool → Headers
  auth_header t true = (codes "Authorization", digest_value t) ∷ []
  auth_header t false = []

  abbrev pub cookie_header : Name → Headers
  cookie_header [] = []
  cookie_header (c ∷ s) = (codes "Cookie", c ∷ s) ∷ []

  -- A request with a body for which a digest is asked and none was accepted is authorized.
  abbrev pub is_authorized : Target → ℕ → Bool
  is_authorized t len2 = ltb 0 len2 && (not t.active && t.digest_type)

  -- The headers that describe a request
  abbrev pub fixed_headers : Dest → Option Name → ℕ → Headers
  fixed_headers dest cont_type len2 =
      (codes "Host", dest.host ++ b':' ∷ itoa dest.port)
      ∷ (codes "User-Agent", codes "CPE Netcwmp Agent")
      ∷ (codes "Accept", codes "*/*")
      ∷ (codes "Content-Type", content_type cont_type)
      ∷ (codes "Content-Length", itoa len2)
      ∷ []

  abbrev pub request_headers : Target → Option Name → ℕ → Headers
  request_headers t cont_type len2 =
      fixed_headers (t.dest) cont_type len2
      ++ (auth_header t (is_authorized t len2) ++ cookie_header (t.cookie))

  abbrev pub request_lines : Method → Target → Option Name → ℕ → List Name
  request_lines method t cont_type len2 =
      request_line method (t.dest.uri) ∷ print_lines (request_headers t cont_type len2)

  joined-ended :
      (ls ms ss : List Name)
      → joined ss ≡ rendered ms
      → joined (ended ls ∷ ss) ≡ rendered (ls ++ ms)
  joined-ended ls ms ss h = ap (λ t. ended ls ++ t) h ∙ ended-rendered ls ms

  joined-cookie :
      (s : Name)
      → joined (cookie_piece itoa md5 to_hex s ++ (cr ∷ lf ∷ []) ∷ [])
        ≡ rendered (print_lines (cookie_header s))
  joined-cookie [] = refl
  joined-cookie (c ∷ s) =
      joined-ended ((codes "Cookie: " ++ c ∷ s) ∷ []) [] ((cr ∷ lf ∷ []) ∷ []) refl

  joined-auth :
      (t : Target) (b : Bool) (ss : List Name) (hs : Headers)
      → joined ss ≡ rendered (print_lines hs)
      → joined (auth_piece itoa md5 to_hex t b ++ ss)
        ≡ rendered (print_lines (auth_header t b ++ hs))
  unfolding auth_line
  joined-auth t false ss hs h = h
  joined-auth t true ss hs h = joined-ended (auth_line itoa md5 to_hex t ∷ []) (print_lines hs) ss h

  joined-pieces :
      (method : Method) (t : Target) (cont_type : Option Name) (len2 : ℕ)
      → joined (pieces itoa md5 to_hex method t cont_type len2)
        ≡ rendered (request_lines method t cont_type len2)
  unfolding pieces header_lines
  joined-pieces method t cont_type len2 =
      joined-ended (header_lines itoa md5 to_hex method (t.dest) cont_type len2)
        (print_lines (auth_header t (is_authorized t len2) ++ cookie_header (t.cookie)))
        (auth_piece itoa md5 to_hex t (is_authorized t len2)
          ++ (cookie_piece itoa md5 to_hex (t.cookie) ++ (cr ∷ lf ∷ []) ∷ []))
        (joined-auth t (is_authorized t len2) _ (cookie_header (t.cookie))
          (joined-cookie (t.cookie)))

  -- A request whose lines, with their ends and the empty line, are shorter than 1024 characters is
  -- written as these lines and the bytes of the chunk, and as many bytes are given to the socket as the
  -- lines and the chunk have.
  pub write_request-rendered :
      (method : Method) (t : Target) (cont_type : Option Name) (chunk : Option Chunk)
      → length (rendered (request_lines method t cont_type (chunk_length chunk))) < default_len
      → write_request itoa md5 to_hex method t cont_type chunk
        ≡ some (
          rendered (request_lines method t cont_type (chunk_length chunk)) ++ chunk_bytes chunk,
          length (rendered (request_lines method t cont_type (chunk_length chunk)))
              + chunk_length chunk,
        )
  unfolding write_request
  write_request-rendered method t cont_type chunk h =
      let is = joined-pieces method t cont_type (chunk_length chunk) in
      let size = ap length is in
      ap (with_body itoa md5 to_hex chunk) (
        print_all-fits (pieces itoa md5 to_hex method t cont_type (chunk_length chunk))
          (record { text = []; count = 0 }) refl (omega arith))
      ∙ ap (λ l. some (l ++ chunk_bytes chunk, length l + chunk_length chunk)) is
