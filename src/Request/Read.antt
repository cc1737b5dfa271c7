-- ===== src/Request/Read.antt =====
-- A request that `http_write_request` has written, as `http_read_request` reads it.
use netcwmp_xo.Base.{
  ℕ, suc, ◌+◌, ◌≤◌, ◌<◌, ◌≡◌, refl, sym, ap, ap₂, ◌∙◌, subst, Bool, true, false, Option, some, List,
  [], ◌∷◌, ◌++◌, arith, length, length-append, ◌^◌, All, take, take-all, codes,
}
use netcwmp_xo.Param.{Name}
use netcwmp_xo.Chunk.{Chunk, copy}
use netcwmp_xo.Chunk.Write.{IsChunk, text}
use netcwmp_xo.Chunk.Copy.{HasNoNul, copy-text}
use netcwmp_xo.Header.{Headers, same_header, get_variable, max_headers, parse_headers}
use netcwmp_xo.Header.Lookup.{ArePrintable, print_lines, get_variable-parse_headers}
use netcwmp_xo.Model.{pstrdup}
use netcwmp_xo.Dest.{max_uri_len}
use netcwmp_xo.Response.{no_chunk, split_headers}
use netcwmp_xo.Response.Split.{
  IsWord, rendered, split_headers-rendered, next_word-append, word-append, starts_word,
}
use netcwmp_xo.Response.Read.{
  IsShortLine, read_header-rendered, rendered-HasNoNul, AreLines, no_chunk-IsChunk,
}
use netcwmp_xo.Request.{
  Method, http_method, Target, default_len, chunk_length, chunk_bytes, write_request, method_of,
  Asked, asked, with_uri, word_of, length_or, of_lines, request_behind, read_request,
}
use netcwmp_xo.Request.Write.{
  request_line, auth_header, cookie_header, is_authorized, request_headers, request_lines,
  write_request-rendered,
}

-- A method whose name is read as that method
abbrev pub IsSpoken : Method → Type 0
IsSpoken method = (method_of (http_method method) ≡ method) × IsWord (http_method method)

-- A document that stands in a request
abbrev pub IsUri : Name → Type 0
IsUri uri = (0 < length uri) × IsWord uri × (length uri ≤ max_uri_len)

length-print_lines : (hs : Headers) → length (print_lines hs) ≡ length hs
length-print_lines [] = refl
length-print_lines ((n, v) ∷ hs) = ap suc (length-print_lines hs)

module _ (itoa : ℕ → Name) (md5 : Name → Name) (to_hex : Name → Name) where
  length-late_headers :
      (t : Target) (b : Bool) (s : Name)
      → length (auth_header itoa md5 to_hex t b ++ cookie_header itoa md5 to_hex s) ≤ 2
  length-late_headers t true [] = omega arith
  length-late_headers t true (c ∷ s) = omega arith
  length-late_headers t false [] = omega arith
  length-late_headers t false (c ∷ s) = omega arith

  length-request_headers :
      (t : Target) (cont_type : Option Name) (len2 : ℕ)
      → length (request_headers itoa md5 to_hex t cont_type len2) ≤ 7
  length-request_headers t cont_type len2 =
      let late = length-late_headers t (is_authorized itoa md5 to_hex t len2) (t.cookie) in
      omega (arith, late)

module _ (has_memory : Headers → Bool) (pstrdup_lower : Name → Name) (atoi : Name → ℕ) where
  -- What is found for a method and a document
  abbrev pub request_of : Method → Name → Headers → Name → Asked
  request_of method uri hs left = record {
    method = method;
    uri = uri;
    cont_type = pstrdup (get_variable hs (codes "Content-Type"));
    cont_len = length_or has_memory pstrdup_lower atoi (get_variable hs (codes "Content-Length"));
    headers = hs;
    left = left;
  }

  of_lines-request :
      (method : Method) (uri : Name) (ls : List Name) (left : Name)
      → IsSpoken method
      → IsUri uri
      → of_lines has_memory pstrdup_lower atoi (request_line method uri ∷ ls) left
        ≡ asked (
            request_of method uri
              (parse_headers has_memory pstrdup_lower (request_line method uri ∷ ls) [])
              left)
  of_lines-request method uri ls left (spoken, plain) (given, one, fits) =
      let line = request_line method uri in
      let hs = parse_headers has_memory pstrdup_lower (line ∷ ls) [] in
      let version = codes " HTTP/1.1" in
      ap (λ w. with_uri has_memory pstrdup_lower atoi line (word_of w) hs left)
        (next_word-append (http_method method) (uri ++ version) plain
          (starts_word uri version given one))
      ∙ ap₂
          (λ (t u : Name). asked (record {
            method = method_of t;
            uri = take max_uri_len u;
            cont_type = pstrdup (get_variable hs (codes "Content-Type"));
            cont_len =
                length_or has_memory pstrdup_lower atoi (get_variable hs (codes "Content-Length"));
            headers = hs;
            left = left;
          }))
          (word-append (http_method method) (uri ++ version) plain)
          (word-append uri (codes "HTTP/1.1") one)
      ∙ ap₂ (λ m u. asked (request_of m u hs left)) spoken (take-all max_uri_len uri fits)

  module _ (pool : Chunk → Bool) (memory : (c : Chunk) → pool c ≡ true) (eof : Bool) where
    copy-rendered :
        (c : Chunk) (ls : List Name)
        → IsChunk c
        → text c ≡ rendered ls
        → All IsShortLine ls
        → length (rendered ls) ≤ 2047
        → copy c 2047 ≡ rendered ls
    copy-rendered c ls v t h fits =
        copy-text c 2047 v (subst HasNoNul (sym t) (rendered-HasNoNul pool memory eof ls h))
        ∙ ap (take 2047) t
        ∙ take-all 2047 (rendered ls) fits

    read_request-rendered :
        (fuel : ℕ) (l : Name) (ls : List Name) (left : Name)
        → All IsShortLine (l ∷ ls)
        → length (l ∷ ls) ≤ max_headers
        → length (l ∷ ls) < fuel
        → length (rendered (l ∷ ls)) ≤ 2047
        → read_request has_memory pstrdup_lower atoi pool eof fuel (rendered (l ∷ ls) ++ left)
          ≡ of_lines has_memory pstrdup_lower atoi (l ∷ ls) left
    unfolding read_request
    read_request-rendered fuel l ls left h few enough fits =
        let (d, e, v, t) =
          read_header-rendered pool memory eof fuel (l ∷ ls) left no_chunk h enough
            (no_chunk-IsChunk pool memory eof) in
        ap (request_behind has_memory pstrdup_lower atoi) e
        ∙ ap (λ z. of_lines has_memory pstrdup_lower atoi (split_headers z) left)
            (copy-rendered d (l ∷ ls) v t h fits)
        ∙ ap (λ z. of_lines has_memory pstrdup_lower atoi z left)
            (split_headers-rendered l ls (AreLines pool memory eof (l ∷ ls) h) few)

    module _ (itoa : ℕ → Name) (md5 : Name → Name) (to_hex : Name → Name) where
      -- A request for a method and a document that are read as what they are, with lines that fit the
      -- buffers and values that start with neither a space nor a colon, is written, and what is written is
      -- read as a request for that method and document with the length of the chunk, and leaves the bytes
      -- of the chunk; the number of bytes that is given to the socket is that of what is written. The pool
      -- has memory, its copies in lower case compare as the names themselves, the chunk counts the
      -- bytes that it holds, fewer than 2^31, and a number below 2^31 is read as what was printed for it.
      pub read_request-write_request :
          (fuel : ℕ) (method : Method) (t : Target) (cont_type : Option Name) (chunk : Option Chunk)
          → ((ks : Headers) → has_memory ks ≡ true)
          → ((n k : Name) → same_header (pstrdup_lower n) k ≡ same_header n k)
          → ((n : ℕ) → n < 2 ^ 31 → atoi (itoa n) ≡ n)
          → chunk_length chunk < 2 ^ 31
          → length (chunk_bytes chunk) ≡ chunk_length chunk
          → IsSpoken method
          → IsUri t.dest.uri
          → All IsShortLine (request_lines itoa md5 to_hex method t cont_type (chunk_length chunk))
          → ArePrintable (request_headers itoa md5 to_hex t cont_type (chunk_length chunk))
          → length
              (rendered (request_lines itoa md5 to_hex method t cont_type (chunk_length chunk)))
            < default_len
          → 8 < fuel
          → (bytes : Name) × (n : ℕ) × (r : Asked) × (write_request itoa md5 to_hex method t
                cont_type chunk
              ≡ some (bytes, n))
            × (read_request has_memory pstrdup_lower atoi pool eof fuel bytes ≡ asked r)
            × (n ≡ length bytes)
            × (r.method ≡ method)
            × (r.uri ≡ t.dest.uri)
            × (r.cont_len ≡ chunk_length chunk)
            × (r.left ≡ chunk_bytes chunk)
      unfolding get_variable same_header
      read_request-write_request fuel method t cont_type chunk m low num counted whole spoken u
            short values fits enough =
          let len2 = chunk_length chunk in
          let hs = request_headers itoa md5 to_hex t cont_type len2 in
          let line = request_line method (t.dest.uri) in
          let few = length-request_headers itoa md5 to_hex t cont_type len2 in
          let same = length-print_lines hs in
          let found =
            get_variable-parse_headers has_memory pstrdup_lower line hs (codes "Content-Length") m
              low values (omega arith) in
          (
            rendered (line ∷ print_lines hs) ++ chunk_bytes chunk,
            length (rendered (line ∷ print_lines hs)) + len2,
            request_of method (t.dest.uri)
                (parse_headers has_memory pstrdup_lower (line ∷ print_lines hs) [])
                (chunk_bytes chunk),
            write_request-rendered itoa md5 to_hex method t cont_type chunk fits,
            read_request-rendered fuel line (print_lines hs) (chunk_bytes chunk) short (omega arith)
                  (omega arith) (omega arith)
                ∙ of_lines-request method (t.dest.uri) (print_lines hs) (chunk_bytes chunk) spoken
                    u,
            sym (
                length-append (rendered (line ∷ print_lines hs)) (chunk_bytes chunk)
                ∙ ap (λ k. length (rendered (line ∷ print_lines hs)) + k) whole),
            refl,
            refl,
            ap (length_or has_memory pstrdup_lower atoi) found ∙ num len2 counted,
            refl,
          )
