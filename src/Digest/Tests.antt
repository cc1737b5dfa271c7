-- ===== src/Digest/Tests.antt =====
-- Headers at concrete values, and the theorems at inputs that meet their hypotheses.
use netcwmp_xo.Base.{◌≡◌, refl, true, none, some, ◌++◌, take, arith, codes}
use netcwmp_xo.Param.{Name, same_name}
use netcwmp_xo.Header.{same_header}
use netcwmp_xo.Digest.{
  Fields, no_fields, check_keys, span, scan_value, parse_key_value, act, read_fields,
  digest_calc_ha1, valid_response, check_digest_auth,
}
use netcwmp_xo.Digest.Check.{credentials, check_digest_auth-accepts}

-- Of a realm of more than 15 characters 15 are read.
long_realm :
    read_fields check_keys 0 (codes "realm=0123456789abcdefg") no_fields
    ≡ some (record no_fields { realm = codes "0123456789abcde" })
unfolding read_fields act parse_key_value scan_value span same_name
long_realm = refl

-- A key without a value at the end is a fault of the program.
cut_off : read_fields check_keys 0 (codes "uri=") no_fields ≡ none
unfolding read_fields act parse_key_value scan_value same_name
cut_off = refl

-- For the theorems: a sum and its text
abbrev md5 : Name → Name
md5 s = take 2 s

abbrev to_hex : Name → Name
to_hex s = codes "x" ++ s

abbrev fields : Fields
fields = record {
  user = codes "u";
  realm = codes "r";
  nonce = codes "n";
  response = codes "xxu";
  uri = codes "/";
  qop = codes "auth";
  cnonce = codes "c";
  nc = codes "1";
}

check_digest_auth-accepts_example :
    check_digest_auth md5 to_hex (some (credentials fields)) (codes "u") (codes "p") ≡ some true
unfolding valid_response digest_calc_ha1 same_header
check_digest_auth-accepts_example =
    check_digest_auth-accepts md5 to_hex fields (codes "p")
      (
        (omega arith, omega arith, (refl, tt)),
        (omega arith, omega arith, (refl, tt)),
        (omega arith, omega arith, (refl, tt)),
        (omega arith, omega arith, (refl, tt)),
        ((omega arith, omega arith, (refl, (refl, (refl, (refl, tt))))), refl),
        ((omega arith, omega arith, (refl, tt)), refl),
        (omega arith, omega arith, (refl, tt)),
        (omega arith, omega arith, (refl, (refl, (refl, tt)))),
      )
      (omega arith) refl
