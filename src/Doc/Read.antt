-- ===== src/Doc/Read.antt =====
-- The parsers of netcwmp_xo/libcwmp/src/cwmp.c for the header and for the methods whose arguments the
-- other modules take as texts. `atoi` is that of the C library.
use netcwmp_xo.Base.{
  ℕ, ◌-◌, ◌^◌, Bool, true, false, ◌||◌, Option, none, some, List, [], ◌∷◌, if◌then◌else◌, take,
  codes,
}
use netcwmp_xo.Base.Int.{ℤ, pos, negsuc}
use netcwmp_xo.Param.{Name}
use netcwmp_xo.Model.{pstrdup}
use netcwmp_xo.Values.{Assignment}
use netcwmp_xo.Doc.{
  Xml, no_node, element, other, overrun, Ns, get_child_with_name, get_node_value, node_value,
  get_rpc_method_node, sibling_with_name,
}

-- `header_t`
pub record Header : Type 0 where
  pub id : Option Name
  pub hold_requests : ℤ
  pub no_more_requests : ℤ

-- `download_arg_t`
pub record DownloadArg : Type 0 where
  pub cmdkey : Option Name
  pub filetype : Option Name
  pub url : Option Name
  pub username : Option Name
  pub password : Option Name
  pub filesize : ℕ
  pub targetname : Option Name
  pub delaysec : ℕ
  pub succurl : Option Name
  pub failurl : Option Name

abbrev pub head_max : ℕ
head_max = 64

abbrev pub is_there : Xml → Bool
is_there no_node = false
is_there (element name value attributes child next) = true
is_there (other name value next) = true
is_there overrun = false

abbrev pub is_some : Option Name → Bool
is_some none = false
is_some (some s) = true

-- `TRstrncpy` of `CWMP_HEAD_MAX` characters into zeroed memory
abbrev pub head_copy : Option Name → Name
head_copy none = []
head_copy (some s) = take head_max s

-- What `cwmp_parse_header_node` stores for the id: the node, and the value of its text
unfoldable pub header_id : Xml → Option Name
header_id n =
    if is_there n || is_some (get_node_value n) then some (head_copy (get_node_value n)) else none

-- An `int` as an `unsigned int`
abbrev pub to_unsigned : ℤ → ℕ
to_unsigned (pos n) = n
to_unsigned (negsuc n) = 2 ^ 32 - 1 - n

module _ (atoi : Name → ℤ) where
  -- `TRatoi`
  abbrev pub to_int : Option Name → ℤ
  to_int none = pos 0
  to_int (some s) = atoi s

  abbrev pub flag_of : Xml → ℤ
  flag_of n = if is_there n then to_int (get_node_value n) else pos 0

  abbrev pub parsed_header : Xml → Header
  parsed_header n = record {
    id = header_id (get_child_with_name (codes "cwmp:ID") n);
    hold_requests = flag_of (get_child_with_name (codes "cwmp:HoldRequests") n);
    no_more_requests = flag_of (get_child_with_name (codes "cwmp:NoMoreRequests") n);
  }

  -- `cwmp_parse_header_node`; `none` is `CWMP_ERROR`, with a NULL header.
  unfoldable pub parse_header_node : Xml → Option Header
  parse_header_node n = if is_there n then some (parsed_header n) else none

  abbrev pub envelopes : Option Name → Option ℕ
  envelopes none = none
  envelopes (some s) = some (to_unsigned (atoi s))

  -- `cwmp_parse_inform_response_message`: the value of `MaxEnvelopes` itself, not of its text
  unfoldable pub parse_inform_response_message : Xml → Option ℕ
  parse_inform_response_message n =
      envelopes (node_value (get_child_with_name (codes "MaxEnvelopes") n))

-- What is copied of the text of the child with a name, and the text itself
abbrev pub child_text : Name → Xml → Option Name
child_text name n = get_node_value (get_child_with_name name n)

abbrev pub child_copy : Name → Xml → Option Name
child_copy name n = pstrdup (child_text name n)

-- `cwmp_parse_download_message`
unfoldable pub parse_download_message : (Name → ℤ) → Ns → Xml → DownloadArg
parse_download_message atoi ns doc =
    let n = get_rpc_method_node ns doc in
    record {
      cmdkey = child_copy (codes "CommandKey") n;
      filetype = child_copy (codes "FileType") n;
      url = child_copy (codes "URL") n;
      username = child_copy (codes "Username") n;
      password = child_copy (codes "Password") n;
      filesize = to_unsigned (to_int atoi (child_text (codes "FileSize") n));
      targetname = child_copy (codes "TargetFileName") n;
      delaysec = to_unsigned (to_int atoi (child_text (codes "DelaySeconds") n));
      succurl = child_copy (codes "SuccessURL") n;
      failurl = child_copy (codes "FailureURL") n;
    }

-- `cwmp_clone_download_arg` of an argument that is there, where memory is had for the copies
unfoldable pub clone_download_arg : DownloadArg → DownloadArg
clone_download_arg a = record {
  cmdkey = a.cmdkey;
  filetype = a.filetype;
  url = a.url;
  username = a.username;
  password = a.password;
  filesize = a.filesize;
  targetname = a.targetname;
  delaysec = a.delaysec;
  succurl = a.succurl;
  failurl = a.failurl;
}

-- `cwmp_parse_reboot_message`: the key, which may be NULL, or `none` for `CWMP_ERROR`
unfoldable pub parse_reboot_message : Ns → Xml → Option (Option Name)
parse_reboot_message ns doc =
    let n = get_child_with_name (codes "CommandKey") (get_rpc_method_node ns doc) in
    if is_there n then some (get_node_value n) else none

-- The texts that `cwmp_parse_getparameternames_message` takes from the document; the path is copied.
unfoldable pub parse_getparameternames_texts : Ns → Xml → Option Name × Option Name
parse_getparameternames_texts ns doc =
    let n = get_rpc_method_node ns doc in
    (child_copy (codes "ParameterPath") n, child_text (codes "NextLevel") n)

-- The names that the loop of `cwmp_parse_getparametervalues_message` meets: the texts of all nodes of
-- a chain, of which only elements have one
unfoldable pub texts : Xml → List (Option Name)
texts no_node = []
texts overrun = []
texts (other name value next) = none ∷ texts next
texts (element name value attributes child next) = node_value child ∷ texts next

-- The pairs that the loop of `cwmp_parse_setparametervalues_message` meets
unfoldable pub assignments : Xml → List Assignment
assignments no_node = []
assignments overrun = []
assignments (other name value next) = record { name = none; value = none } ∷ assignments next
assignments (element name value attributes child next) =
    record {
      name = get_node_value (sibling_with_name (codes "Name") child);
      value = get_node_value (sibling_with_name (codes "Value") child);
    }
    ∷ assignments next
