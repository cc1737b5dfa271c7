-- ===== src/Dest/Tests.antt =====
-- URLs at concrete values, and the theorem at an input that meets its hypotheses.
use netcwmp_xo.Base.{◌≡◌, refl, inl, ◌++◌, arith, codes}
use netcwmp_xo.Param.{same_name}
use netcwmp_xo.Header.{same_header}
use netcwmp_xo.Objects.{number_from}
use netcwmp_xo.Dest.{
  no_dest, parsed, invalid, overrun, break_at, find_scheme, password_of, port_from, port_of,
  escape_spaces, with_document, parse_authority, parse_url,
}
use netcwmp_xo.Dest.Parse.{authority, parse_url-port}

-- A user and a password, the port of the scheme, and a space in the document
with_credentials :
    parse_url no_dest (codes "https://u:p@h/a b")
    ≡ parsed (record {
      scheme = codes "https";
      user = codes "u";
      password = codes "p";
      host = codes "h";
      port = 443;
      uri = codes "/a%20b";
    })
unfolding parse_url find_scheme parse_authority break_at password_of port_of with_document
    escape_spaces same_header same_name
with_credentials = refl

-- A letter in the port
bad_port : parse_url no_dest (codes "http://h:8x/") ≡ invalid
unfolding parse_url find_scheme parse_authority break_at port_of port_from
bad_port = refl

parse_url-port_example :
    parse_url no_dest
      (codes "http" ++ (codes "://" ++ authority (codes "h") (codes "80") (codes "/x")))
    ≡ parsed
        (record no_dest { scheme = codes "http"; host = codes "h"; port = 80; uri = codes "/x" })
unfolding number_from
parse_url-port_example =
    parse_url-port (codes "http") (codes "h") (codes "80") (codes "/x") (inl refl)
      (omega arith, refl, (refl, tt), (refl, tt)) (refl, (refl, tt)) (omega arith)
      (refl, (refl, (refl, tt)), omega arith)

-- A port that is no `int`
large_port : parse_url no_dest (codes "http://h:2147483648/") ≡ overrun
unfolding parse_url find_scheme parse_authority break_at port_of port_from
large_port = refl
