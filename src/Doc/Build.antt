-- ===== src/Doc/Build.antt =====
-- The nodes and the messages that netcwmp_xo/libcwmp/src/cwmp.c builds. `itoa` is what "%d" prints for an
-- `int`, at most 11 characters, so that the texts around it fit their buffer of 1023. The text of a node
-- that is built is its own value, which the library prints between its tags; the library stores a copy of
-- it that is trimmed (`XmlNodeSetNodeValue` in xmlet/node.c).
pub mod Fault
pub mod Rows
use netcwmp_xo.Base.{
  ℕ, ◌≡◌, refl, Bool, true, false, not, ◌&&◌, ◌||◌, Option, none, some, List, [], ◌∷◌, ◌++◌, ◌==◌,
  ltb, leb, if◌then◌else◌, length, codes, arith,
}
use netcwmp_xo.Base.Int.{ℤ, pos, negsuc}
use netcwmp_xo.Param.{Name, same_name}
use netcwmp_xo.Event.{EventCode}
use netcwmp_xo.Event.Inform as EventType
use netcwmp_xo.Names.{Entry}
use netcwmp_xo.Values.{Parameter}
use netcwmp_xo.Doc.{Xml, no_node, element, other, overrun, Attributes, Ns, get_type_string}
use netcwmp_xo.Doc.Read.{Header}

-- `XmlNodeAppendChild` for the children of the parent: one node, or several one after the other
unfoldable pub append_child : Xml → Xml → Xml
append_child no_node new = new
append_child overrun new = overrun
append_child (other name value next) new = other name value (append_child next new)
append_child (element name value attributes child next) new =
    element name value attributes child (append_child next new)

-- `XmlElementSetAttribute`: an attribute that is there gets the value.
unfoldable pub set_attribute : Name → Name → Attributes → Attributes
set_attribute name value [] = (name, value) ∷ []
set_attribute name value ((k, v) ∷ more) =
    let rest = set_attribute name value more in
    if same_name k name then (k, value) ∷ more else (k, v) ∷ rest

-- A character at which the copy of `XmlStrduptrim` can begin: above the blank as a signed `char`, or LF
abbrev pub begins_copy : ℕ → Bool
begins_copy c = c == 10 || ltb 32 c && ltb c 128

-- Its first loop
unfoldable pub trim_start : Name → Name
trim_start [] = []
trim_start (c ∷ s) = let rest = trim_start s in if begins_copy c then c ∷ s else rest

-- Its second loop: LF is not above the blank, so the end goes back to it.
abbrev pub cut_end : Name → Option Name
cut_end [] = none
cut_end (c ∷ s) = if c == 10 then some (c ∷ []) else some (c ∷ s)

-- `XmlStrduptrim` of a text; `none` where it reads past its 1024 characters: for a text that fills them,
-- and for one that has no character to begin at, such as the empty text.
unfoldable pub strduptrim : Name → Option Name
strduptrim s = if leb 1024 (length s) then none else cut_end (trim_start s)

-- `XmlNodeSetNodeValue` of a new element
abbrev pub with_value : Name → Option Name → Attributes → Xml → Xml
with_value name none attributes child = overrun
with_value name (some value) attributes child = element name (some value) attributes child no_node

-- `cwmp_xml_create_child_node` without a value, with the attributes and the children that the node gets
abbrev pub bare : Name → Attributes → Xml → Xml
bare name attributes child = element name none attributes child no_node

-- `cwmp_xml_create_child_node`, with the value, the attributes and the children that the new node gets
unfoldable pub node_with : Name → Option Name → Attributes → Xml → Xml
node_with name none attributes child = bare name attributes child
node_with name (some value) attributes child = with_value name (strduptrim value) attributes child

-- A text that the library stores as it is: at most 1023 characters, of which the first is above the blank
-- and below 128
abbrev pub is_clean : Name → Bool
is_clean [] = false
is_clean (c ∷ s) = ltb 32 c && ltb c 128 && leb (length s) 1022

abbrev pub is_clean_value : Option Name → Bool
is_clean_value none = true
is_clean_value (some s) = is_clean s

strduptrim-is_clean : (s : Name) → is_clean s ≡ true → strduptrim s ≡ some s
unfolding strduptrim trim_start
strduptrim-is_clean [] h = cc
strduptrim-is_clean (c ∷ s) h = ground arith

pub node_with-is_clean :
    (name : Name) (v : Option Name) (a : Attributes) (child : Xml)
    → is_clean_value v ≡ true
    → node_with name v a child ≡ element name v a child no_node
unfolding node_with
node_with-is_clean name none a child h = refl
node_with-is_clean name (some s) a child h = rw (strduptrim-is_clean s h) refl

abbrev pub leaf : Name → Option Name → Xml
leaf name value = node_with name value [] no_node

abbrev pub branch : Name → Xml → Xml
branch name child = bare name [] child

abbrev pub xsi_type : Name → Attributes
xsi_type type = (codes "xsi:type", type) ∷ []

abbrev pub typed : Name → Option Name → Name → Xml
typed name value type = node_with name value (xsi_type type) no_node

-- `cwmp_create_header_node`. The id is the text of a document that was parsed, which is trimmed already
-- and not empty, so it is stored as it is; a header whose ID has no text at all, for which the library
-- reads past its buffer, is not told apart from one with an empty id.
unfoldable pub create_header_node : Ns → Header → Xml
create_header_node ns header = branch (ns.header) (
    element (codes "cwmp:ID") header.id ((ns.env ++ codes ":mustUnderstand", codes "1") ∷ [])
      no_node no_node)

-- `cwmp_create_body_node`
unfoldable pub create_body_node : Ns → Xml → Xml
create_body_node ns child = branch (ns.body) child

abbrev pub xmlns : Name → Name
xmlns prefix = codes "xmlns:" ++ prefix

-- `cwmp_create_envelope_node`
unfoldable pub create_envelope_node : Ns → Xml → Xml
create_envelope_node ns child =
    bare ns.envelope
      (set_attribute (xmlns (codes "cwmp")) (codes "urn:dslforum-org:cwmp-1-0") (
        set_attribute (xmlns (codes "xsd")) (codes "http://www.w3.org/1999/XMLSchema") (
          set_attribute (xmlns (codes "xsi")) (codes "http://www.w3.org/1999/XMLSchema-instance") (
            set_attribute (xmlns ns.enc) (codes "http://schemas.xmlsoap.org/soap/encoding/") (
              set_attribute (xmlns ns.env) (codes "http://schemas.xmlsoap.org/soap/envelope/")
                [])))))
      child

abbrev pub header_part : Ns → Option Header → Xml
header_part ns none = no_node
header_part ns (some h) = create_header_node ns h

-- What the messages have in common: the root of the document around what stands in the body
unfoldable pub message : Ns → Option Header → Xml → Xml
message ns header child =
    create_envelope_node ns (append_child (header_part ns header) (create_body_node ns child))

-- `status == 0`
abbrev pub is_zero : ℤ → Bool
is_zero (pos n) = n == 0
is_zero (negsuc n) = false

abbrev pub status_text : Bool → Name
status_text is_ok = if is_ok then codes "0" else codes "1"

abbrev pub status_node : ℤ → Xml
status_node status = leaf (codes "Status") (some (status_text (is_zero status)))

-- The responses that have a status: `cwmp_create_setparametervalues_response_message`,
-- `cwmp_create_deleteobject_response_message`, and those of Download and Upload, with the empty times
unfoldable pub create_setparametervalues_response_message : Ns → Option Header → ℤ → Xml
create_setparametervalues_response_message ns header status =
    message ns header (branch (codes "cwmp:SetParameterValuesResponse") (status_node status))

unfoldable pub create_deleteobject_response_message : Ns → Option Header → ℤ → Xml
create_deleteobject_response_message ns header status =
    message ns header (branch (codes "cwmp:DeleteObjectResponse") (status_node status))

abbrev pub times : Xml
times = append_child (leaf (codes "StartTime") none) (leaf (codes "CompleteTime") none)

unfoldable pub create_download_response_message : Ns → Option Header → ℤ → Xml
create_download_response_message ns header status =
    message ns header
      (branch (codes "cwmp:DownloadResponse") (append_child (status_node status) times))

unfoldable pub create_upload_response_message : Ns → Option Header → ℤ → Xml
create_upload_response_message ns header status =
    message ns header
      (branch (codes "cwmp:UploadResponse") (append_child (status_node status) times))

-- `cwmp_create_reboot_response_message` and `cwmp_create_factoryreset_response_message`
unfoldable pub create_reboot_response_message : Ns → Option Header → Xml
create_reboot_response_message ns header =
    message ns header (branch (codes "cwmp:RebootResponse") no_node)

unfoldable pub create_factoryreset_response_message : Ns → Option Header → Xml
create_factoryreset_response_message ns header =
    message ns header (branch (codes "cwmp:FactoryResetResponse") no_node)

module _ (itoa : ℤ → Name) where
  -- `cwmp_create_addobject_response_message`
  unfoldable pub create_addobject_response_message : Ns → Option Header → ℤ → ℤ → Xml
  create_addobject_response_message ns header instances status = message ns header (
      branch (codes "cwmp:AddObjectResponse")
        (append_child (leaf (codes "InstanceNumber") (some (itoa instances))) (status_node status)))
