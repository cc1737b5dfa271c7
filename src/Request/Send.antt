-- ===== src/Request/Send.antt =====
-- `cwmp_session_send_request` of netcwmp_xo/libcwmp/src/session.c and `http_parse_cookie` of
-- netcwmp_xo/libcwmp/src/http.c, over Receive: an empty request that asks for a challenge, and the
-- request itself.
pub mod Challenged
use netcwmp_xo.Base.{
  ℕ, zero, suc, ◌-◌, Bool, true, false, not, ◌&&◌, Option, none, some, List, [], ◌∷◌, ◌++◌,
  if◌then◌else◌, length, take, Rc, cwmp_ok, cwmp_error,
}
use netcwmp_xo.Param.{Name}
use netcwmp_xo.Chunk.{Chunk}
use netcwmp_xo.Digest.{DigestAuth, skip_space}
use netcwmp_xo.Dest.{Dest}
use netcwmp_xo.Response.{Head}
use netcwmp_xo.Receive.{Auth, Received, recv_response}
use netcwmp_xo.Request.{Target, http_post, write_request}

-- `MIN_BUFFER_LEN`
abbrev pub min_buffer_len : ℕ
min_buffer_len = 256

-- `http_parse_cookie`, for what the destination keeps so far
unfoldable pub parse_cookie : Option Name → Name → Name
parse_cookie none kept = kept
parse_cookie (some cookie) kept = take min_buffer_len (skip_space cookie)

-- The destination of a session
pub record Peer : Type 0 where
  pub dest : Dest
  pub cookie : Name
  pub digest_type : Bool
  pub auth : Auth

-- The challenge that is kept, zeroed where there was none
abbrev pub challenge_of : Option DigestAuth → DigestAuth
challenge_of none = record { realm = []; nonce = []; uri = []; cnonce = []; qop = []; nc = [] }
challenge_of (some d) = d

abbrev pub target_of : Peer → Target
target_of p = record {
  dest = p.dest;
  cookie = p.cookie;
  active = p.auth.active;
  digest_type = p.digest_type;
  challenge = challenge_of p.auth.digest;
}

-- What is written to the socket, in its order, and how the call ends
pub record Sent : Type 0 where
  pub written : List (Name × ℕ)
  pub peer : Peer
  pub rc : Rc

abbrev pub heard : Peer → Option Received → Option Peer
heard p none = none
heard p (some r) = some (record p { auth = r.auth; cookie = parse_cookie r.cookie p.cookie })

-- For whether `http_socket_write` of some data returns a positive number
module _ (itoa : ℕ → Name) (md5 : Name → Name) (to_hex : Name → Name) (socket : Name → Bool) where
  abbrev pub post : Option Chunk → Peer → Option (Name × ℕ)
  post chunk p = write_request itoa md5 to_hex http_post (target_of p) none chunk

  abbrev pub post_last : List (Name × ℕ) → Peer → Option (Name × ℕ) → Option Sent
  post_last before p none = none
  post_last before p (some d) = some (record {
    written = before ++ d ∷ [];
    peer = p;
    rc = if socket d.0 then cwmp_ok else cwmp_error;
  })

  abbrev pub post_writers : Chunk → List (Name × ℕ) → Option Peer → Option Sent
  post_writers writers before none = none
  post_writers writers before (some p) = post_last before p (post (some writers) p)

  abbrev pub ask_first : Bool → Head → Chunk → Peer → Option (Name × ℕ) → Option Sent
  ask_first informed answer writers p none = none
  ask_first informed answer writers p (some d) =
      post_writers writers (d ∷ []) (heard p (recv_response informed (p.auth) answer))

  -- `cwmp_session_send_request`, for what is read of the response to the empty request; `none` is a fault
  -- of the program.
  unfoldable pub send_request : Bool → Head → Chunk → Peer → Option Sent
  send_request informed answer writers p =
      if p.digest_type && not p.auth.active
      then ask_first informed answer writers p (post none p)
      else post_writers writers [] (some p)
