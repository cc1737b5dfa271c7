-- ===== src/Receive.antt =====
-- `cwmp_session_recv_response` of netcwmp_xo/libcwmp/src/session.c, over Response and Digest. The body
-- goes to the readers of the session; whatever is read of it, `http_read_response` returns the code.
pub mod Challenge
pub mod Tests
use netcwmp_xo.Base.{
  Bool, true, false, ◌||◌, Option, none, some, ◌==◌, if◌then◌else◌, Rc, cwmp_ok, cwmp_error, codes,
}
use netcwmp_xo.Base.Int.{pos, ◌==ℤ◌}
use netcwmp_xo.Param.{Name}
use netcwmp_xo.Transfer.{http_200}
use netcwmp_xo.Header.{Headers, get_variable}
use netcwmp_xo.Digest.{DigestAuth, parse_digest_auth}
use netcwmp_xo.Response.{Head, head, head_failed, head_no_fuel}

-- What the destination of a session keeps: whether the authentication is active, and the challenge
pub record Auth : Type 0 where
  pub active : Bool
  pub digest : Option DigestAuth

-- What is returned, what the destination keeps then, and the cookie that is handed on
pub record Received : Type 0 where
  pub rc : Rc
  pub auth : Auth
  pub cookie : Option Name

-- What `http_parse_digest_auth` stores; its result is not looked at.
abbrev pub store_digest : Auth → Option DigestAuth → Auth
store_digest a none = record a { active = false }
store_digest a (some d) = record { active = false; digest = some d }

abbrev pub stored : Auth → Option (Option DigestAuth) → Option Auth
stored a none = none
stored a (some d) = some (store_digest a d)

abbrev pub with_challenge : Auth → Option Name → Option Auth
with_challenge a none = some a
with_challenge a (some header) = stored a (parse_digest_auth (some header))

abbrev pub result : Rc → Option Name → Option Auth → Option Received
result rc cookie none = none
result rc cookie (some a) = some (record { rc = rc; auth = a; cookie = cookie })

-- The cookie is read after an Inform only.
abbrev pub cookie_of : Bool → Headers → Option Name
cookie_of informed hs = if informed then get_variable hs (codes "Set-Cookie") else none

-- `cwmp_session_recv_response`, for what `http_read_response` has read, and whether the last method was
-- an Inform. `none` is a fault of the program, or the end of the fuel.
unfoldable pub recv_response : Bool → Auth → Head → Option Received
recv_response informed a (head code hs length rest) =
    if pos code ==ℤ http_200
    then some
        (record { rc = cwmp_ok; auth = record a { active = true }; cookie = cookie_of informed hs })
    else result cwmp_error (cookie_of informed hs) (
        if code == 401 || code == 407
        then with_challenge a (get_variable hs (codes "WWW-Authenticate"))
        else some a)
recv_response informed a head_failed = some (record { rc = cwmp_error; auth = a; cookie = none })
recv_response informed a head_no_fuel = none
