-- ===== src/Transfer.antt =====
-- File transfers: `http_send_file` and `http_receive_file` of netcwmp_xo/libcwmp/src/http.c, and
-- `cwmp_agent_download_file` and `cwmp_agent_upload_file` of netcwmp_xo/cwmpd/src/agent.c.
pub mod Results
pub mod Tests
use netcwmp_xo.Base.{
  ℕ, zero, suc, ◌+◌, Bool, true, false, not, ◌&&◌, Option, none, some, List, [], ◌∷◌, leb, ltb,
  length, codes, ◌==◌, if◌then◌else◌, Rc, cwmp_ok, cwmp_error,
}
use netcwmp_xo.Base.Int.{ℤ, pos, negsuc, is_positive, ◌==ℤ◌}
use netcwmp_xo.Event.{Bytes}
use netcwmp_xo.Header.{to_lower}
use netcwmp_xo.Dest.{Parsed, parsed, invalid, overrun, no_dest, parse_url}

-- The fields of `download_arg_t` and `upload_arg_t` that a transfer reads.
pub record TransferArg : Type 0 where
  pub cmdkey : Option Bytes
  pub filetype : Option Bytes
  pub url : Option Bytes

-- What the sockets and the file system answer in one transfer: the results of
-- `http_socket_create` and `http_socket_connect`, whether `fopen` succeeds, the number of bytes that
-- the request wrote, and the result of `http_read_response`.
pub record Exchange : Type 0 where
  pub socket_rc : ℤ
  pub connect_rc : ℤ
  pub opened : Bool
  pub request_rc : ℤ
  pub response_rc : ℤ

abbrev is_ok : ℤ → Bool
is_ok rc = rc ==ℤ pos 0

-- `HTTP_200`
abbrev pub http_200 : ℤ
http_200 = pos 200

-- `http_receive_file`: what `rc` is when the function leaves
unfoldable pub receive_file : Exchange → ℤ
receive_file x =
    if not (is_ok x.socket_rc)
    then x.socket_rc
    else if not (is_ok x.connect_rc)
    then x.connect_rc
    else if not x.opened
    then x.connect_rc
    else if not (is_positive x.request_rc)
    then x.request_rc
    else x.response_rc

-- `http_send_file`
unfoldable pub send_file : Exchange → Rc
send_file x =
    let rc =
      if not (is_ok x.socket_rc)
      then x.socket_rc
      else if not (is_ok x.connect_rc)
      then x.connect_rc
      else if not (is_positive x.request_rc)
      then x.request_rc
      else x.response_rc in
    if rc ==ℤ http_200 then cwmp_ok else cwmp_error

-- `TRstrncasecmp(prefix, s, strlen(prefix)) == 0`, for a prefix in lower case
unfoldable pub has_prefix : Bytes → Bytes → Bool
has_prefix [] s = true
has_prefix (p ∷ ps) [] = false
has_prefix (p ∷ ps) (c ∷ s) = p == to_lower c && has_prefix ps s

-- `"ftp://"`
abbrev pub ftp : Bytes
ftp = b'f' ∷ b't' ∷ b'p' ∷ b':' ∷ b'/' ∷ b'/' ∷ []

unfoldable pub is_ftp : Option Bytes → Bool
unfolding has_prefix
is_ftp none = false
is_ftp (some url) = has_prefix ftp url

-- Whether `http_dest_create`, which both transfers call before anything else, comes back: it reads the
-- URL, and a part of it may not fit.
abbrev pub fits : Parsed → Bool
fits (parsed d) = true
fits invalid = true
fits overrun = false

unfoldable pub creates_dest : Option Bytes → Bool
creates_dest none = false
creates_dest (some url) = fits (parse_url no_dest url)

-- `cwmp_agent_download_file`: the fault code that is reported; `none` is a fault of the program.
unfoldable pub download_file : Exchange → TransferArg → Option ℤ
unfolding is_ftp receive_file creates_dest
download_file x arg =
    if is_ftp arg.url
    then some (pos 9001)
    else if not (creates_dest arg.url)
    then none
    else some (if not (is_ok (receive_file x)) then pos 9001 else pos 0)

-- The files that an upload may send
pub data Upload : Type 0 where
  mysystem_cfg mysystem_log : Upload

-- The characters of the text that `cwmp_agent_upload_file` copies over the file type, whose memory has
-- room for what it was made with
abbrev pub copied_type : ℕ
copied_type = length (codes "1 Vendor Configuration File")

-- The choice of `cwmp_agent_upload_file`: `strcpy` returns its destination, which is not NULL, so
-- neither comparison with 0 holds. `none` is a `strcpy` into NULL or beyond the memory of a file type.
unfoldable pub upload_source : TransferArg → Option Upload
upload_source arg = elim arg.filetype [
  | none ↦ none
  | some f ↦ if ltb (length f) copied_type then none else some mysystem_cfg
]

-- `cwmp_agent_upload_file`: the fault code that is reported; `none` is a fault of the program.
unfoldable pub upload_file : Exchange → TransferArg → Option ℤ
unfolding upload_source send_file creates_dest
upload_file x arg = elim (upload_source arg) [
  | none ↦ none
  | some file ↦
      if not (creates_dest arg.url)
      then none
      else elim (send_file x) [ cwmp_ok ↦ some (pos 0) | _ ↦ some (pos 9001) ]
]
