-- ===== src/Httpd.antt =====
-- Connection requests, netcwmp_xo/libcwmp/src/httpd.c: what the server answers to a client whose request
-- was read. MD5, the numbers of the C library and the handlers of the address `/cwmp` are parameters.
-- `none` is a fault of the program.
pub mod Granted
pub mod Tests
use netcwmp_xo.Base.{
  ℕ, ◌+◌, Bool, true, false, not, Option, none, some, List, [], ◌∷◌, ◌++◌, if◌then◌else◌, take,
  codes,
}
use netcwmp_xo.Base.Int.{ℤ, pos}
use netcwmp_xo.Param.{Name}
use netcwmp_xo.Header.{same_header, get_variable}
use netcwmp_xo.Event.{EventList, set_value}
use netcwmp_xo.Event.Inform as Inform
use netcwmp_xo.Digest.{check_digest_auth}
use netcwmp_xo.Request.{Asked, Method, http_get}

-- What the server keeps: whether it asks for a digest, the name and the password of the configuration,
-- `AuthNonce` and `AuthOpaque`, and of the agent `new_request` and its events
pub record Server : Type 0 where
  pub cpe_auth : Bool
  pub user : Name
  pub password : Name
  pub nonce : ℕ
  pub opaque : Name
  pub new_request : Bool
  pub el : EventList

-- What is written to a client, if anything is, and what the server keeps then
pub record ClientAnswer : Type 0 where
  pub text : Option Name
  pub server : Server

abbrev pub crlf : Name
crlf = 13 ∷ 10 ∷ []

abbrev pub quoted_text : Name → Name
quoted_text s = 34 ∷ (s ++ 34 ∷ [])

-- `RESPONSE_200`, `RESPONSE_400` and `RESPONSE_401`
abbrev pub response_200 : Name
response_200 =
    codes "HTTP/1.1 200 OK"
    ++ crlf
    ++ codes "Connection: close"
    ++ crlf
    ++ codes "Content-Length: 2"
    ++ crlf
    ++ codes "Content-Type: text/xml; charset="
    ++ quoted_text (codes "utf-8")
    ++ crlf
    ++ crlf
    ++ codes "OK"

abbrev pub response_400 : Name
response_400 =
    codes "HTTP/1.1 400 Bad request"
    ++ crlf
    ++ codes "Server: CWMP-Agent"
    ++ crlf
    ++ codes "Connection: close"
    ++ crlf
    ++ codes "Content-Length: 5"
    ++ crlf
    ++ crlf
    ++ codes "Error"

abbrev pub response_401 : Name → Name → Name → Name → Name
response_401 qop nonce opaque realm =
    codes "HTTP/1.1 401 Unauthorized"
    ++ crlf
    ++ codes "WWW-Authenticate: Digest qop="
    ++ quoted_text qop
    ++ codes " nonce="
    ++ quoted_text nonce
    ++ codes " opaque="
    ++ quoted_text opaque
    ++ codes " realm="
    ++ quoted_text realm
    ++ crlf
    ++ codes "Server: TR069Agent"
    ++ crlf
    ++ codes "Content-Length: 0"
    ++ crlf
    ++ crlf

-- `http_json_proc` and `http_urlcmd_proc`
pub record Handlers : Type 0 where
  pub json : Asked → Server → Server
  pub urlcmd : Asked → Server → Server

module _ (md5 to_hex : Name → Name) (itoa : ℕ → Name) (h : Handlers) where
  -- `httpd_response_unauthorization`, which writes at most 255 characters
  unfoldable pub response_unauthorization : Server → ClientAnswer
  response_unauthorization s =
      let n = s.nonce + 1 in
      record {
        text = some (
            take 255 (
              response_401 (codes "auth") (take 32 (to_hex (md5 (itoa n)))) (s.opaque)
                (codes "cwmpd")));
        server = record s { nonce = n };
      }

  abbrev pub response_unknown_error : Server → ClientAnswer
  response_unknown_error s = record { text = some response_400; server = s }

  -- `httpd_cwmp_proc`
  abbrev pub by_type : Option Name → Asked → Server → Server
  by_type none r s = s
  by_type (some t) r s =
      if same_header t (codes "application/json")
      then h.json r s
      else if same_header t (codes "application/x-www-form-urlencoded")
      then h.urlcmd r s
      else s

  unfoldable pub cwmp_proc : Asked → Server → Server
  cwmp_proc r s = by_type (get_variable (r.headers) (codes "Content-Type")) r s

  -- The answer 200, and the event for the next session
  unfoldable pub grant : Server → ClientAnswer
  grant s = record {
    text = some response_200;
    server = record s {
      new_request = true;
      el = (set_value (pos Inform.connectionrequest) (pos 1) none (pos 0) 0 0 (s.el)).1;
    };
  }

  abbrev pub granted_if : Option Bool → Server → Option ClientAnswer
  granted_if none s = none
  granted_if (some false) s = some (response_unauthorization s)
  granted_if (some true) s = some (grant s)

  abbrev pub with_auth : Option Name → Server → Option ClientAnswer
  with_auth none s = some (response_unauthorization s)
  with_auth (some auth) s =
      granted_if (check_digest_auth md5 to_hex (some auth) (s.user) (s.password)) s

  abbrev pub connection_request : Asked → Server → Option ClientAnswer
  connection_request r s =
      if s.cpe_auth
      then with_auth (get_variable (r.headers) (codes "Authorization")) s
      else some (grant s)

  abbrev pub by_method : Method → Asked → Server → Option ClientAnswer
  by_method http_get r s = connection_request r s
  by_method _ r s = some (response_unknown_error s)

  -- The part of the loop of `httpd_build_server` for one client, for the request that was read, or
  -- `none` where `http_read_request` returned no positive number
  unfoldable pub serve_client : Option Asked → Server → Option ClientAnswer
  serve_client none s = some (response_unknown_error s)
  serve_client (some r) s =
      if same_header (codes "/") (r.uri)
      then by_method (r.method) r s
      else some (record {
        text = none;
        server = if same_header (codes "/cwmp") (r.uri) then cwmp_proc r s else s;
      })
