-- ===== src/Digest.antt =====
-- Digest authentication: `http_parse_key_value`, `http_digest_calc_ha1`, `http_check_digest_auth`,
-- `http_calc_digest_response` and `http_parse_digest_auth` of netcwmp_xo/libcwmp/src/http.c. MD5 and its
-- text in hexadecimal digits are parameters. `none` is a fault of the program.
pub mod Parse
pub mod Check
pub mod Tests
use Prim.Native.String.{String}
use netcwmp_xo.Base.{
  ℕ, zero, suc, ◌+◌, ◌-◌, ◌*◌, Bool, true, false, not, ◌&&◌, ◌||◌, Option, none, some, List, [],
  ◌∷◌, ◌++◌, ◌==◌, leb, if◌then◌else◌, length, take, drop, codes,
}
use netcwmp_xo.Param.{Name, same_name}
use netcwmp_xo.Header.{same_header}

-- What the loops read of a header
pub record Fields : Type 0 where
  pub user : Name
  pub realm : Name
  pub nonce : Name
  pub response : Name
  pub uri : Name
  pub qop : Name
  pub cnonce : Name
  pub nc : Name

abbrev pub no_fields : Fields
no_fields = record {
  user = [];
  realm = [];
  nonce = [];
  response = [];
  uri = [];
  qop = [];
  cnonce = [];
  nc = [];
}

pub data Field : Type 0 where
  user_field realm_field nonce_field response_field uri_field qop_field cnonce_field nc_field :
      Field

abbrev pub field_of : Field → Fields → Name
field_of user_field f = f.user
field_of realm_field f = f.realm
field_of nonce_field f = f.nonce
field_of response_field f = f.response
field_of uri_field f = f.uri
field_of qop_field f = f.qop
field_of cnonce_field f = f.cnonce
field_of nc_field f = f.nc

abbrev pub put_field : Field → Name → Fields → Fields
put_field user_field v f = record f { user = v }
put_field realm_field v f = record f { realm = v }
put_field nonce_field v f = record f { nonce = v }
put_field response_field v f = record f { response = v }
put_field uri_field v f = record f { uri = v }
put_field qop_field v f = record f { qop = v }
put_field cnonce_field v f = record f { cnonce = v }
put_field nc_field v f = record f { nc = v }

-- A test of a loop: a key, what it sets, and the size that is given for it
pub record Key : Type 0 where
  pub text : Name
  pub field : Field
  pub size : ℕ

abbrev pub sized : String → Field → ℕ → Key
sized text field size = record { text = codes text; field = field; size = size }

-- The tests of `http_check_digest_auth`, where `realm` is given the size of `nc`
abbrev pub check_keys : List Key
check_keys =
    sized "username=" user_field 256
    ∷ sized "nonce=" nonce_field 33
    ∷ sized "response=" response_field 128
    ∷ sized "uri=" uri_field 256
    ∷ sized "qop=" qop_field 16
    ∷ sized "cnonce=" cnonce_field 33
    ∷ sized "nc=" nc_field 16
    ∷ sized "realm=" realm_field 16
    ∷ []

-- The tests of `http_parse_digest_auth`
abbrev pub parse_keys : List Key
parse_keys =
    sized "realm=" realm_field 128
    ∷ sized "nonce=" nonce_field 33
    ∷ sized "response=" response_field 128
    ∷ sized "uri=" uri_field 256
    ∷ sized "qop=" qop_field 16
    ∷ sized "cnonce=" cnonce_field 33
    ∷ sized "nc=" nc_field 16
    ∷ sized "domain=" uri_field 256
    ∷ []

-- The characters at the start for which a test holds, at most `n`: what `sscanf` stores for a set
unfoldable pub span : (ℕ → Bool) → ℕ → Name → Name
span ok zero s = []
span ok (suc n) [] = []
span ok (suc n) (c ∷ s) = let rest = span ok n s in if ok c then c ∷ rest else []

abbrev pub quote : ℕ
quote = 34

-- The sets `[^"]` and `[^ \t,]`
abbrev pub in_quotes : ℕ → Bool
in_quotes c = not (c == quote)

abbrev pub unquoted : ℕ → Bool
unquoted c = not (c == b' ') && (not (c == 9) && not (c == b','))

-- What a test that matches does: how far it moves behind the first character, and what is read. When
-- nothing is left, `sscanf` returns a value that is not 0 without setting `n`.
abbrev pub Action : Type 0
Action = Option (ℕ × Fields)

abbrev pub stored : Key → ℕ → Name → Fields → Action
stored k moved [] f = some (moved, f)
stored k moved (c ∷ v) f = some (moved + length (c ∷ v), put_field (k.field) (c ∷ v) f)

unfoldable pub scan_value : Key → ℕ → (ℕ → Bool) → Name → Fields → Action
scan_value k moved ok [] f = none
scan_value k moved ok (c ∷ p) f = stored k moved (span ok (k.size - 1) (c ∷ p)) f

-- `http_parse_key_value`; behind a quote that nothing is read after, the pointer stays on the quote.
abbrev pub quoted_value : Key → Name → Fields → Action
quoted_value k [] f = none
quoted_value k (c ∷ p) f =
    if in_quotes c
    then scan_value k (length (k.text) + 1) in_quotes (c ∷ p) f
    else some (length (k.text), f)

unfoldable pub parse_key_value : Key → Name → Fields → Action
parse_key_value k [] f = none
parse_key_value k (c ∷ p) f =
    if c == quote then quoted_value k p f else scan_value k (length (k.text)) unquoted (c ∷ p) f

-- The tests of the loop, for what stands at `s`
unfoldable pub act : List Key → Name → Fields → Action
act [] s f = some (0, f)
act (k ∷ ks) s f =
    let rest = act ks s f in
    if same_name (take (length (k.text)) s) (k.text)
    then parse_key_value k (drop (length (k.text)) s) f
    else rest

-- The loop, which passes over `skip` characters first
unfoldable pub read_fields : List Key → ℕ → Name → Fields → Option Fields
read_fields ks skip [] f = some f
read_fields ks (suc skip) (c ∷ s) f = read_fields ks skip s f
read_fields ks zero (c ∷ s) f = elim (act ks (c ∷ s) f) [
  | none ↦ none
  | some moved ↦ read_fields ks moved.0 s moved.1
]

-- `isspace`, and the loops over spaces
abbrev pub is_space : ℕ → Bool
is_space c = c == b' ' || (leb 9 c && leb c 13)

unfoldable pub skip_space : Name → Name
skip_space [] = []
skip_space (c ∷ s) = let rest = skip_space s in if is_space c then rest else c ∷ s

-- The test of the scheme, for what is kept of a header
abbrev pub behind_scheme : Name → Option Name
behind_scheme kept =
    if same_header (take 6 kept) (codes "digest") then some (skip_space (drop 6 kept)) else none

-- The start of both functions: what the loop goes over, or NULL where the scheme is another one
unfoldable pub digest_text : Name → Option Name
digest_text auth = behind_scheme (take 511 (skip_space auth))

module _ (md5 : Name → Name) (to_hex : Name → Name) where
  -- `MD5` of several texts
  abbrev pub md5_text : Name → Name
  md5_text s = to_hex (md5 s)

  abbrev pub colon : Name
  colon = b':' ∷ []

  -- `http_digest_calc_ha1`
  unfoldable pub digest_calc_ha1 : Name → Name → Name → Name → Name → Name → Name
  digest_calc_ha1 alg user realm pwd nonce cnonce =
      let ha1 = md5 (user ++ colon ++ realm ++ colon ++ pwd) in
      if same_header alg (codes "md5-sess")
      then md5_text (ha1 ++ colon ++ nonce ++ colon ++ cnonce)
      else to_hex ha1

  -- What `http_check_digest_auth` compares the response with
  unfoldable pub valid_response : Name → Name → Fields → Name
  valid_response user pwd f = md5_text (
      digest_calc_ha1 (codes "MD5") user (f.realm) pwd (f.nonce) (f.cnonce)
      ++ colon
      ++ f.nonce
      ++ colon
      ++ f.nc
      ++ colon
      ++ f.cnonce
      ++ colon
      ++ f.qop
      ++ colon
      ++ md5_text (codes "GET:" ++ f.uri))

  -- The end of `http_check_digest_auth`: whether it returns 0
  unfoldable pub accepts : Name → Name → Fields → Bool
  accepts user pwd f =
      same_name user (f.user) && same_header (valid_response user pwd f) (f.response)

  abbrev pub accepts_read : Name → Name → Option Fields → Option Bool
  accepts_read user pwd none = none
  accepts_read user pwd (some f) = some (accepts user pwd f)

  abbrev pub check_text : Name → Name → Option Name → Option Bool
  check_text user pwd none = some false
  check_text user pwd (some s) = accepts_read user pwd (read_fields check_keys 0 s no_fields)

  -- `http_check_digest_auth`: whether it returns 0; its argument `auth_realm` is not used.
  unfoldable pub check_digest_auth : Option Name → Name → Name → Option Bool
  check_digest_auth none user pwd = some false
  check_digest_auth (some auth) user pwd = check_text user pwd (digest_text auth)

  -- `http_calc_digest_response`, for the text it stores
  unfoldable pub calc_digest_response : Name → Name → Name → Name → Name → Name → Name
  calc_digest_response user pwd realm nonce uri cnonce = take 32 (
      md5_text (
        digest_calc_ha1 (codes "MD5") user realm pwd nonce cnonce
        ++ colon
        ++ nonce
        ++ colon
        ++ md5_text (codes "POST:" ++ uri)))

-- What `http_parse_digest_auth` stores
pub record DigestAuth : Type 0 where
  pub realm : Name
  pub nonce : Name
  pub uri : Name
  pub cnonce : Name
  pub qop : Name
  pub nc : Name

-- `MIN_DEFAULT_LEN`
abbrev pub min_default_len : ℕ
min_default_len = 32

abbrev pub kept_auth : Fields → DigestAuth
kept_auth f = record {
  realm = take min_default_len (f.realm);
  nonce = take min_default_len (f.nonce);
  uri = take (min_default_len * 4) (f.uri);
  cnonce = take min_default_len (f.cnonce);
  qop = codes "auth";
  nc = take min_default_len (f.nc);
}

abbrev pub kept_read : Option Fields → Option (Option DigestAuth)
kept_read none = none
kept_read (some f) = some (some (kept_auth f))

abbrev pub parse_text : Option Name → Option (Option DigestAuth)
parse_text none = some none
parse_text (some s) = kept_read (read_fields parse_keys 0 s no_fields)

-- `http_parse_digest_auth`: what it stores, or nothing where it returns an error
unfoldable pub parse_digest_auth : Option Name → Option (Option DigestAuth)
parse_digest_auth none = some none
parse_digest_auth (some auth) = parse_text (digest_text auth)
