-- ===== src/Request/Send/Challenged.antt =====
-- A session whose server answers the empty request with a challenge.
use netcwmp_xo.Base.{
  ℕ, ◌+◌, ◌≤◌, ◌<◌, ◌≡◌, refl, sym, ap, ◌∙◌, subst, ◌⊎◌, Bool, true, false, not, ◌&&◌, none, some,
  List, [], ◌∷◌, ◌++◌, arith, ltb, length, take, codes, if◌then◌else◌,
}
use netcwmp_xo.Param.{Name}
use netcwmp_xo.Chunk.{Chunk}
use netcwmp_xo.Header.{Headers, get_variable}
use netcwmp_xo.Header.Lookup.{print_lines}
use netcwmp_xo.Digest.{sized, realm_field, nonce_field, in_quotes}
use netcwmp_xo.Digest.Parse.{Fits}
use netcwmp_xo.Digest.Check.{challenge}
use netcwmp_xo.Response.{head}
use netcwmp_xo.Response.Split.{rendered}
use netcwmp_xo.Receive.{cookie_of}
use netcwmp_xo.Receive.Challenge.{recv_response-challenge}
use netcwmp_xo.Request.{http_post, default_len, chunk_bytes}
use netcwmp_xo.Request.Write.{
  request_line, request_lines, fixed_headers, digest_value, cookie_header, write_request-rendered,
}
use netcwmp_xo.Request.Send.{
  parse_cookie, Peer, target_of, heard, ask_first, post_writers, post_last, post, send_request,
}

-- The destination once the challenge has come
abbrev pub challenged : Bool → Headers → Name → Name → Peer → Peer
challenged informed hs realm nonce p = record p {
  auth = record {
    active = false;
    digest = some (record {
      realm = take 32 realm;
      nonce = nonce;
      uri = [];
      cnonce = [];
      qop = codes "auth";
      nc = [];
    });
  };
  cookie = parse_cookie (cookie_of informed hs) p.cookie;
}

module _ (itoa : ℕ → Name) (md5 : Name → Name) (to_hex : Name → Name) (socket : Name → Bool) where
  -- The lines of the request that follows, with the header that authorizes it
  abbrev pub authorized_lines : Peer → ℕ → List Name
  authorized_lines q len2 =
      request_line http_post (q.dest.uri)
      ∷ print_lines (
          fixed_headers itoa md5 to_hex (q.dest) none len2
          ++ ((codes "Authorization", digest_value itoa md5 to_hex (target_of q))
              ∷ cookie_header itoa md5 to_hex (q.cookie)))

  request_lines-challenged :
      (q : Peer) (len2 : ℕ)
      → q.digest_type ≡ true
      → q.auth.active ≡ false
      → 0 < len2
      → request_lines itoa md5 to_hex http_post (target_of q) none len2 ≡ authorized_lines q len2
  request_lines-challenged q len2 digest waiting size =
      let some_bytes : ltb 0 len2 ≡ true = ground arith in rw (some_bytes, waiting, digest) refl

  -- When a session with digests, none of which was accepted yet, asks with an empty request and the server
  -- answers 401 or 407 with a challenge whose realm and nonce have no quotes and fit, the request itself
  -- follows with the header that authorizes it for the nonce and the first 32 characters of the realm, and
  -- with its body; where both requests fit their buffer.
  pub send_request-challenged :
      (informed : Bool) (p : Peer) (writers : Chunk) (code size : ℕ) (hs : Headers)
      (rest realm nonce : Name)
      → let q = challenged informed hs realm nonce p in
        p.digest_type ≡ true
        → p.auth.active ≡ false
        → (code ≡ 401) ⊎ (code ≡ 407)
        → get_variable hs (codes "WWW-Authenticate") ≡ some (challenge realm nonce)
        → Fits in_quotes (sized "realm=" realm_field 128) realm
        → Fits in_quotes (sized "nonce=" nonce_field 33) nonce
        → length (challenge realm nonce) ≤ 511
        → 0 < writers.bytes
        → length (rendered (request_lines itoa md5 to_hex http_post (target_of p) none 0))
          < default_len
        → length (rendered (authorized_lines q (writers.bytes))) < default_len
        → (empty : Name × ℕ) × (send_request itoa md5 to_hex socket informed
              (head code hs size rest)
              writers
              p
            ≡ post_last itoa md5 to_hex socket (empty ∷ []) q (
                some (
                  rendered (authorized_lines q (writers.bytes)) ++ chunk_bytes (some writers),
                  length (rendered (authorized_lines q (writers.bytes))) + writers.bytes,
                )))
  unfolding send_request
  send_request-challenged informed p writers code size hs rest realm nonce digest waiting c h r n
        fits full one two =
      let q = challenged informed hs realm nonce p in
      let same = request_lines-challenged q (writers.bytes) digest refl full in
      let lines = request_lines itoa md5 to_hex http_post (target_of p) none 0 in
      let empty : Name × ℕ = (rendered lines ++ [], length (rendered lines) + 0) in
      let asks : (p.digest_type && not p.auth.active) ≡ true = rw (digest, waiting) refl in
      (
        empty,
        ap
              (λ b.
                if b
                then ask_first itoa md5 to_hex socket informed (head code hs size rest) writers p
                    (post itoa md5 to_hex socket none p)
                else post_writers itoa md5 to_hex socket writers [] (some p))
              asks
            ∙ ap (ask_first itoa md5 to_hex socket informed (head code hs size rest) writers p)
                (write_request-rendered itoa md5 to_hex http_post (target_of p) none none one)
            ∙ ap (λ o. post_writers itoa md5 to_hex socket writers (empty ∷ []) (heard p o))
                (recv_response-challenge informed (p.auth) code size hs rest realm nonce c h r n
                  fits)
            ∙ ap (post_last itoa md5 to_hex socket (empty ∷ []) q) (
                write_request-rendered itoa md5 to_hex http_post (target_of q) none (some writers)
                  (subst (λ ls. length (rendered ls) < default_len) (sym same) two)
                ∙ ap
                    (λ ls. some (
                      rendered ls ++ chunk_bytes (some writers),
                      length (rendered ls) + writers.bytes,
                    ))
                    same),
      )
