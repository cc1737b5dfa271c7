-- ===== src/Digest/Check.antt =====
-- `http_check_digest_auth`, netcwmp_xo/libcwmp/src/http.c, for the header of a client that knows the
-- password.
use netcwmp_xo.Base.{
  ◌≤◌, ◌≡◌, refl, sym, ap, ◌∙◌, true, some, [], ◌∷◌, ◌++◌, length, take, take-all, arith, codes,
}
use netcwmp_xo.Param.{Name, same_name}
use netcwmp_xo.Header.{same_header}
use netcwmp_xo.Digest.{
  Fields, no_fields, sized, user_field, realm_field, nonce_field, response_field, uri_field,
  qop_field, cnonce_field, nc_field, check_keys, parse_keys, kept_read, parse_text,
  parse_digest_auth, quote, in_quotes, unquoted, act, read_fields, skip_space, behind_scheme,
  digest_text, valid_response, accepts, accepts_read, check_text, check_digest_auth,
}
use netcwmp_xo.Digest.Parse.{Fits, HasNoQuote, read_fields-quoted, read_fields-unquoted}

-- A value in quotes, and the header that a client makes of its fields
abbrev pub quoted : Name → Name → Name
quoted v rest = quote ∷ v ++ quote ∷ rest

abbrev pub comma : Name → Name → Name
comma v rest = v ++ b',' ∷ rest

abbrev from_response : Fields → Name
from_response f = codes "response=" ++ quoted (f.response) []

abbrev from_cnonce : Fields → Name
from_cnonce f = codes "cnonce=" ++ quoted (f.cnonce) (codes ", " ++ from_response f)

abbrev from_nc : Fields → Name
from_nc f = codes "nc=" ++ comma (f.nc) (codes " " ++ from_cnonce f)

abbrev from_qop : Fields → Name
from_qop f = codes "qop=" ++ comma (f.qop) (codes " " ++ from_nc f)

abbrev from_uri : Fields → Name
from_uri f = codes "uri=" ++ quoted (f.uri) (codes ", " ++ from_qop f)

abbrev from_nonce : Fields → Name
from_nonce f = codes "nonce=" ++ quoted (f.nonce) (codes ", " ++ from_uri f)

abbrev from_realm : Fields → Name
from_realm f = codes "realm=" ++ quoted (f.realm) (codes ", " ++ from_nonce f)

abbrev from_user : Fields → Name
from_user f = codes "username=" ++ quoted (f.user) (codes ", " ++ from_realm f)

abbrev pub credentials : Fields → Name
credentials f = codes "Digest " ++ from_user f

-- The fields can stand in such a header and fit the sizes that the parser gives them.
abbrev pub IsSendable : Fields → Type 0
IsSendable f =
    Fits in_quotes (sized "username=" user_field 256) (f.user)
    × Fits in_quotes (sized "realm=" realm_field 16) (f.realm)
    × Fits in_quotes (sized "nonce=" nonce_field 33) (f.nonce)
    × Fits in_quotes (sized "uri=" uri_field 256) (f.uri)
    × (Fits unquoted (sized "qop=" qop_field 16) (f.qop) × HasNoQuote (f.qop))
    × (Fits unquoted (sized "nc=" nc_field 16) (f.nc) × HasNoQuote (f.nc))
    × Fits in_quotes (sized "cnonce=" cnonce_field 33) (f.cnonce)
    × Fits in_quotes (sized "response=" response_field 128) (f.response)

-- The steps of the loop over the header, field by field
read_fields-credentials :
    (f : Fields) → IsSendable f → read_fields check_keys 0 (from_user f) no_fields ≡ some f
unfolding read_fields act same_name
read_fields-credentials f (user, realm, nonce, uri, (qop, q), (nc, p), cnonce, response) =
    let f1 = record no_fields { user = f.user } in
    let f2 = record f1 { realm = f.realm } in
    let f3 = record f2 { nonce = f.nonce } in
    let f4 = record f3 { uri = f.uri } in
    let f5 = record f4 { qop = f.qop } in
    let f6 = record f5 { nc = f.nc } in
    let f7 = record f6 { cnonce = f.cnonce } in
    read_fields-quoted check_keys (sized "username=" user_field 256) b'u' (codes "sername=")
      (f.user) (codes ", " ++ from_realm f) no_fields refl refl user
    ∙ read_fields-quoted check_keys (sized "realm=" realm_field 16) b'r' (codes "ealm=") (f.realm)
        (codes ", " ++ from_nonce f) f1 refl refl realm
    ∙ read_fields-quoted check_keys (sized "nonce=" nonce_field 33) b'n' (codes "once=") (f.nonce)
        (codes ", " ++ from_uri f) f2 refl refl nonce
    ∙ read_fields-quoted check_keys (sized "uri=" uri_field 256) b'u' (codes "ri=") (f.uri)
        (codes ", " ++ from_qop f) f3 refl refl uri
    ∙ read_fields-unquoted check_keys (sized "qop=" qop_field 16) b'q' (codes "op=") (f.qop)
        (codes " " ++ from_nc f) f4 refl refl qop q
    ∙ read_fields-unquoted check_keys (sized "nc=" nc_field 16) b'n' (codes "c=") (f.nc)
        (codes " " ++ from_cnonce f) f5 refl refl nc p
    ∙ read_fields-quoted check_keys (sized "cnonce=" cnonce_field 33) b'c' (codes "nonce=")
        (f.cnonce) (codes ", " ++ from_response f) f6 refl refl cnonce
    ∙ read_fields-quoted check_keys (sized "response=" response_field 128) b'r' (codes "esponse=")
        (f.response) [] f7 refl refl response

module _ (md5 to_hex : Name → Name) where
  same_header_refl : (k : Name) → same_header k k ≡ true
  unfolding same_header
  same_header_refl [] = refl
  same_header_refl (c ∷ k) = ground (arith, same_header_refl k)

  same_name_refl : (k : Name) → same_name k k ≡ true
  unfolding same_name
  same_name_refl [] = refl
  same_name_refl (c ∷ k) = ground (arith, same_name_refl k)

  digest_text-credentials :
      (f : Fields) → length (credentials f) ≤ 511 → digest_text (credentials f) ≡ some (from_user f)
  unfolding digest_text skip_space same_header
  digest_text-credentials f h = ap behind_scheme (take-all 511 (credentials f) h)

  -- The header that a client makes of the name and the fields of the call, with the response that belongs
  -- to them and the password, is accepted, if no value is empty or holds a quote, `qop` and `nc` hold no
  -- comma, space or tab, each is shorter than the size that the parser gives it, and the header has at
  -- most 511 characters.
  pub check_digest_auth-accepts :
      (f : Fields) (pwd : Name)
      → IsSendable f
      → length (credentials f) ≤ 511
      → f.response ≡ valid_response md5 to_hex (f.user) pwd f
      → check_digest_auth md5 to_hex (some (credentials f)) (f.user) pwd ≡ some true
  unfolding check_digest_auth accepts
  check_digest_auth-accepts f pwd sendable h r =
      ap (check_text md5 to_hex (f.user) pwd) (digest_text-credentials f h)
      ∙ ap (accepts_read md5 to_hex (f.user) pwd) (read_fields-credentials f sendable)
      ∙ ap some (
          accepted (same_name_refl (f.user))
            (ap (λ z. same_header z (f.response)) (sym r) ∙ same_header_refl (f.response)))
    where
      accepted :
          same_name (f.user) (f.user) ≡ true
          → same_header (valid_response md5 to_hex (f.user) pwd f) (f.response) ≡ true
          → accepts md5 to_hex (f.user) pwd f ≡ true
      accepted u v = rw (u, v) refl

-- The challenge of a server
abbrev pub challenge : Name → Name → Name
challenge realm nonce =
    codes "Digest realm="
    ++ quoted realm (codes ", qop=" ++ quoted (codes "auth") (codes ", nonce=" ++ quoted nonce []))

read_fields-challenge :
    (realm nonce : Name)
    → Fits in_quotes (sized "realm=" realm_field 128) realm
    → Fits in_quotes (sized "nonce=" nonce_field 33) nonce
    → read_fields parse_keys 0
        (codes "realm="
          ++ quoted realm
              (codes ", qop=" ++ quoted (codes "auth") (codes ", nonce=" ++ quoted nonce [])))
        no_fields
      ≡ some (record no_fields { realm = realm; qop = codes "auth"; nonce = nonce })
unfolding read_fields act same_name
read_fields-challenge realm nonce r n =
    let f1 = record no_fields { realm = realm } in
    read_fields-quoted parse_keys (sized "realm=" realm_field 128) b'r' (codes "ealm=") realm
      (codes ", qop=" ++ quoted (codes "auth") (codes ", nonce=" ++ quoted nonce [])) no_fields refl
      refl r
    ∙ read_fields-quoted parse_keys (sized "qop=" qop_field 16) b'q' (codes "op=") (codes "auth")
        (codes ", nonce=" ++ quoted nonce []) f1 refl refl
        (omega arith, omega arith, (refl, (refl, (refl, (refl, tt)))))
    ∙ read_fields-quoted parse_keys (sized "nonce=" nonce_field 33) b'n' (codes "once=") nonce []
        (record f1 { qop = codes "auth" }) refl refl n

-- Of the challenge of a server with a realm and a nonce without quotes, `http_parse_digest_auth` keeps the
-- nonce, if it has at most 32 characters, and the first 32 characters of the realm, if it has at most 127.
pub parse_digest_auth-challenge :
    (realm nonce : Name)
    → Fits in_quotes (sized "realm=" realm_field 128) realm
    → Fits in_quotes (sized "nonce=" nonce_field 33) nonce
    → length (challenge realm nonce) ≤ 511
    → parse_digest_auth (some (challenge realm nonce))
      ≡ some (
          some (record {
            realm = take 32 realm;
            nonce = nonce;
            uri = [];
            cnonce = [];
            qop = codes "auth";
            nc = [];
          }))
unfolding parse_digest_auth digest_text skip_space same_header
parse_digest_auth-challenge realm nonce r n h =
    ap (λ z. parse_text (behind_scheme z)) (take-all 511 (challenge realm nonce) h)
    ∙ ap kept_read (read_fields-challenge realm nonce r n)
    ∙ ap
        (λ z. some (
          some (record {
            realm = take 32 realm;
            nonce = z;
            uri = [];
            cnonce = [];
            qop = codes "auth";
            nc = [];
          })))
        (take-all 32 nonce (omega (arith, n.1)))
