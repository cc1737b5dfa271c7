-- ===== src/Httpd/Tests.antt =====
-- Connection requests at concrete inputs, and the theorems at inputs that meet their hypotheses.
use netcwmp_xo.Base.{
  ℕ, ◌≡◌, refl, ◌==◌, true, false, none, some, [], ◌∷◌, if◌then◌else◌, ◌⊎◌, arith, codes,
}
use netcwmp_xo.Param.{Name}
use netcwmp_xo.Header.{same_header, get_variable}
use netcwmp_xo.Event.{EventList, zeroed}
use netcwmp_xo.Event.Inform as Inform
use netcwmp_xo.Event.Slots.{IsValid, waits}
use netcwmp_xo.Digest.{Fields, valid_response, digest_calc_ha1}
use netcwmp_xo.Digest.Check.{credentials}
use netcwmp_xo.Request.{Asked, http_get, http_post}
use netcwmp_xo.Httpd.{
  Server, Handlers, response_200, response_400, serve_client, response_unauthorization,
}
use netcwmp_xo.Httpd.Granted.{Keeps, IsAuthorized, serve_client-IsAuthorized, serve_client-grants}

abbrev md5 : Name → Name
md5 s = s

abbrev to_hex : Name → Name
to_hex s = codes "00"

abbrev itoa : ℕ → Name
itoa n = codes "1"

abbrev handlers : Handlers
handlers = record { json = λ r s. s; urlcmd = λ r s. s }

abbrev empty_list : EventList
empty_list = record { events = zeroed ∷ zeroed ∷ []; count = 0; size = 2 }

empty_list-IsValid : IsValid empty_list
empty_list-IsValid = ground arith

abbrev server : Server
server = record {
  cpe_auth = true;
  user = codes "u";
  password = codes "p";
  nonce = 0;
  opaque = [];
  new_request = false;
  el = empty_list;
}

abbrev fields : Fields
fields = record {
  user = codes "u";
  realm = codes "r";
  nonce = codes "n";
  response = codes "00";
  uri = codes "/";
  qop = codes "auth";
  cnonce = codes "c";
  nc = codes "1";
}

abbrev bare : Asked
bare = record {
  method = http_get;
  uri = codes "/";
  cont_type = none;
  cont_len = 0;
  headers = [];
  left = [];
}

abbrev authorized : Asked
authorized = record bare { headers = (codes "authorization", credentials fields) ∷ [] }

-- A method other than GET
posted :
    serve_client md5 to_hex itoa handlers (some (record bare { method = http_post })) server
    ≡ some (record { text = some response_400; server = server })
unfolding serve_client same_header
posted = refl

-- A request without the header is answered with the next nonce.
challenged :
    serve_client md5 to_hex itoa handlers (some bare) server
    ≡ some (response_unauthorization md5 to_hex itoa handlers server)
unfolding serve_client same_header get_variable
challenged = refl

serve_client-IsAuthorized_example :
    Keeps server (response_unauthorization md5 to_hex itoa handlers server)
    ⊎ ((same_header (codes "/") (codes "/") ≡ true)
        × (http_get ≡ http_get)
        × IsAuthorized md5 to_hex itoa handlers bare server)
unfolding serve_client same_header get_variable
serve_client-IsAuthorized_example =
    serve_client-IsAuthorized md5 to_hex itoa handlers bare server
      (response_unauthorization md5 to_hex itoa handlers server) refl refl

serve_client-grants_example :
    (t : Server) × (serve_client md5 to_hex itoa handlers (some authorized) server
      ≡ some (record { text = some response_200; server = t }))
    × (t.new_request ≡ true)
    × ((j : ℕ)
        → waits j t.el ≡ (if j == Inform.connectionrequest then true else waits j empty_list))
unfolding same_header get_variable valid_response digest_calc_ha1
serve_client-grants_example =
    serve_client-grants md5 to_hex itoa handlers authorized server fields refl refl refl
      (
        (omega arith, omega arith, (refl, tt)),
        (omega arith, omega arith, (refl, tt)),
        (omega arith, omega arith, (refl, tt)),
        (omega arith, omega arith, (refl, tt)),
        ((omega arith, omega arith, (refl, (refl, (refl, (refl, tt))))), refl),
        ((omega arith, omega arith, (refl, tt)), refl),
        (omega arith, omega arith, (refl, tt)),
        (omega arith, omega arith, (refl, (refl, tt))),
      )
      (omega arith) refl refl empty_list-IsValid (omega arith)
