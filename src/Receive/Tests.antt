-- ===== src/Receive/Tests.antt =====
-- A response with a challenge, and the theorem at an input that meets its hypotheses.
use netcwmp_xo.Base.{◌≡◌, refl, true, none, some, [], ◌∷◌, cwmp_ok, codes}
use netcwmp_xo.Header.{Headers, same_header, get_variable}
use netcwmp_xo.Digest.Check.{challenge}
use netcwmp_xo.Response.{head}
use netcwmp_xo.Receive.{Auth, recv_response}

abbrev headers : Headers
headers = (codes "www-authenticate", challenge (codes "acs") (codes "n")) ∷ []

abbrev unknown : Auth
unknown = record { active = true; digest = none }

-- A code of success makes the authentication active, and after an Inform the cookie is read.
accepted :
    recv_response true unknown (head 200 ((codes "set-cookie", codes "s") ∷ []) 0 [])
    ≡ some (record {
      rc = cwmp_ok;
      auth = record { active = true; digest = none };
      cookie = some (codes "s");
    })
unfolding recv_response get_variable same_header
accepted = refl
