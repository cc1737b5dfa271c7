-- ===== src/Request/Tests.antt =====
-- Requests at concrete inputs, and the theorems at inputs that meet their hypotheses.
use netcwmp_xo.Base.{
  ℕ, zero, suc, ◌+◌, ◌≡◌, refl, ap, inl, Bool, true, false, none, some, [], ◌∷◌, ◌++◌, length,
  arith, codes,
}
use netcwmp_xo.Param.{Name}
use netcwmp_xo.Chunk.{Chunk, copy}
use netcwmp_xo.Header.{Headers, same_header, get_variable}
use netcwmp_xo.Digest.{DigestAuth}
use netcwmp_xo.Digest.Check.{challenge}
use netcwmp_xo.Dest.{Dest}
use netcwmp_xo.Response.{head}
use netcwmp_xo.Response.Split.{rendered}
use netcwmp_xo.Response.Check.{short_lines-All, is_word-IsWord, printable-ArePrintable}
use netcwmp_xo.Request.{
  http_post, http_method, method_of, Target, write_request, read_body, Asked, asked, read_request,
  chunk_bytes, print,
}
use netcwmp_xo.Request.Write.{request_lines, request_headers}
use netcwmp_xo.Request.Read.{read_request-write_request}
use netcwmp_xo.Request.Body.{TakesFrom, read_body-TakesFrom}
use netcwmp_xo.Request.Send.{Peer, parse_cookie, post_last, send_request}
use netcwmp_xo.Request.Send.Challenged.{challenged, authorized_lines, send_request-challenged}

-- Numbers as strokes
abbrev strokes : ℕ → Name
strokes zero = []
strokes (suc n) = b'1' ∷ strokes n

length-strokes : (n : ℕ) → length (strokes n) ≡ n
length-strokes zero = refl
length-strokes (suc n) = ap suc (length-strokes n)

abbrev count : Name → ℕ
count s = length s

abbrev same : Name → Name
same s = s

abbrev hex : Name → Name
hex s = codes "00"

abbrev has_memory : Headers → Bool
has_memory hs = true

abbrev pool : Chunk → Bool
pool c = true

abbrev acs : Dest
acs = record {
  scheme = codes "http";
  user = codes "u";
  password = codes "p";
  host = codes "acs";
  port = 7;
  uri = codes "/x";
}

abbrev target : Target
target = record {
  dest = acs;
  cookie = codes "s=1";
  active = true;
  digest_type = true;
  challenge = record { realm = []; nonce = []; uri = []; cnonce = []; qop = []; nc = [] };
}

-- A chunk with the body `abc`
abbrev body : Chunk
body = record {
  before = [];
  current = some (record { string = codes "abc"; readed = 0; size = 1024 });
  after = [];
  bytes = 3;
}

-- Behind the end of the buffer the next piece is a fault.
overrun : print (codes "x") (record { text = []; count = 1025 }) ≡ none
unfolding print
overrun = refl

read_request-write_request_example :
    (bytes : Name) × (n : ℕ) × (r : Asked) × (write_request strokes same hex http_post target none
        (some body)
      ≡ some (bytes, n))
    × (read_request has_memory same count pool true 9 bytes ≡ asked r)
    × (n ≡ length bytes)
    × (r.method ≡ http_post)
    × (r.uri ≡ codes "/x")
    × (r.cont_len ≡ 3)
    × (r.left ≡ chunk_bytes (some body))
unfolding method_of http_method same_header copy
read_request-write_request_example =
    read_request-write_request has_memory same count pool (λ c. refl) true strokes same hex 9
      http_post target none (some body) (λ ks. refl) (λ n k. refl) (λ n h. length-strokes n)
      (omega arith) refl (refl, is_word-IsWord (codes "POST") refl)
      (omega arith, is_word-IsWord (codes "/x") refl, omega arith)
      (short_lines-All (request_lines strokes same hex http_post target none 3) refl)
      (printable-ArePrintable (request_headers strokes same hex target none 3) refl) (omega arith)
      (omega arith)

read_body-TakesFrom_example :
    TakesFrom 5 0 (codes "abcdef") (read_body 5 0 (some (codes "abc") ∷ some (codes "def") ∷ []))
read_body-TakesFrom_example = read_body-TakesFrom 5 0 (some (codes "abc") ∷ some (codes "def") ∷ [])

abbrev peer : Peer
peer = record {
  dest = acs;
  cookie = [];
  digest_type = true;
  auth = record { active = false; digest = none };
}

abbrev challenge_headers : Headers
challenge_headers = (codes "www-authenticate", challenge (codes "acs") (codes "n")) ∷ []

send_request-challenged_example :
    (empty : Name × ℕ) × (send_request strokes same hex
        (λ d. true)
        false
        (head 401 challenge_headers 0 [])
        body
        peer
      ≡ post_last strokes same hex
          (λ d. true)
          (empty ∷ [])
          (challenged false challenge_headers (codes "acs") (codes "n") peer)
          (some (
            rendered (
                  authorized_lines strokes same hex
                    (λ d. true)
                    (challenged false challenge_headers (codes "acs") (codes "n") peer)
                    3)
                ++ chunk_bytes (some body),
            length (
                  rendered (
                    authorized_lines strokes same hex
                      (λ d. true)
                      (challenged false challenge_headers (codes "acs") (codes "n") peer)
                      3))
                + 3,
          )))
unfolding get_variable same_header http_method netcwmp_xo.Digest.calc_digest_response parse_cookie
send_request-challenged_example =
    send_request-challenged strokes same hex (λ d. true) false peer body 401 0 challenge_headers []
      (codes "acs") (codes "n") refl refl (inl refl) refl
      (omega arith, omega arith, (refl, (refl, (refl, tt)))) (omega arith, omega arith, (refl, tt))
      (omega arith) (omega arith) (omega arith) (omega arith)
