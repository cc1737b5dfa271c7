-- ===== src/Doc.antt =====
-- Documents as the XML library hands them out and as netcwmp_xo/libcwmp/src/cwmp.c reads and builds
-- them: the helpers on nodes, the names of the envelope, and the tables of types and faults. The pool
-- has memory, so no node is NULL that the library was asked to create.
pub mod Read
pub mod Build
pub mod Prefix
pub mod Found
pub mod Rows
pub mod Answer
pub mod Echo
pub mod Faults
pub mod Tests
use netcwmp_xo.Base.{
  ℕ, Bool, true, false, ◌&&◌, Option, none, some, List, [], ◌∷◌, ◌++◌, ◌==◌, ltb, if◌then◌else◌,
  length, take, codes,
}
use netcwmp_xo.Param.{Name, same_name, type_object}
use netcwmp_xo.Header.{same_header}
use netcwmp_xo.Model.{type_int, type_unsigned_int, type_string, type_string32, type_string64}

-- The attributes of an element, in their order
abbrev pub Attributes : Type 0
Attributes = List (Name × Name)

-- A `xmlnode_t *`: NULL; an element with its name, its value, its attributes, its first child and its
-- next sibling; or a node of another type, with its name, its value and its next sibling. `overrun` is in
-- the place of a node and of all behind it where the library reads past its buffer for the node's value:
-- nothing is known of the program from there on.
pub data Xml : Type 0 where
  no_node : Xml
  element : Name → Option Name → Attributes → Xml → Xml → Xml
  other : Name → Option Name → Xml → Xml
  overrun : Xml

-- `XmlNodeGetFirstChild`
abbrev pub first_child : Xml → Xml
first_child no_node = no_node
first_child (element name value attributes child next) = child
first_child (other name value next) = no_node
first_child overrun = overrun

-- `XmlNodeGetNodeValue`
abbrev pub node_value : Xml → Option Name
node_value no_node = none
node_value (element name value attributes child next) = value
node_value (other name value next) = value
node_value overrun = none

-- `nodeName` of a node that is not NULL
abbrev pub node_name : Xml → Option Name
node_name no_node = none
node_name (element name value attributes child next) = some name
node_name (other name value next) = some name
node_name overrun = none

-- `XmlElementGetAttribute`
unfoldable pub attribute : Name → Attributes → Option Name
attribute name [] = none
attribute name ((k, v) ∷ more) =
    let rest = attribute name more in if same_name k name then some v else rest

abbrev pub attributes_of : Xml → Attributes
attributes_of no_node = []
attributes_of (element name value attributes child next) = attributes
attributes_of (other name value next) = []
attributes_of overrun = []

-- `cwmp_xml_get_node_value`
abbrev pub get_node_value : Xml → Option Name
get_node_value n = node_value (first_child n)

-- `cwmp_xml_get_node_name`
abbrev pub get_node_name : Xml → Option Name
get_node_name n = node_name (first_child n)

-- `cwmp_xml_get_node_attribute`
abbrev pub get_node_attribute : Name → Xml → Option Name
get_node_attribute name n = attribute name (attributes_of n)

-- The loop of `cwmp_xml_get_child_with_name` over a chain of siblings
unfoldable pub sibling_with_name : Name → Xml → Xml
sibling_with_name sought no_node = no_node
sibling_with_name sought overrun = overrun
sibling_with_name sought (other name value next) = sibling_with_name sought next
sibling_with_name sought (element name value attributes child next) =
    let rest = sibling_with_name sought next in
    if same_header name sought then element name value attributes child next else rest

-- `cwmp_xml_get_child_with_name`
abbrev pub get_child_with_name : Name → Xml → Xml
get_child_with_name sought n = sibling_with_name sought (first_child n)

-- The names of the envelope that cwmp.c keeps
pub record Ns : Type 0 where
  pub env : Name
  pub enc : Name
  pub header : Name
  pub body : Name
  pub envelope : Name
  pub fault : Name
  pub array_type : Name

-- As the program starts
abbrev pub no_ns : Ns
no_ns = record {
  env = [];
  enc = [];
  header = [];
  body = [];
  envelope = [];
  fault = [];
  array_type = [];
}

-- `CWMP_NAME_MAX`
abbrev pub name_max : ℕ
name_max = 32

abbrev pub or_default : Name → Option Name → Name
or_default d none = d
or_default d (some s) = s

-- `TRsnprintf(buffer, CWMP_NAME_MAX, "%s:%s", prefix, name)`
unfoldable pub qualified : Name → Name → Name
qualified prefix name = take 31 (prefix ++ b':' ∷ name)

abbrev pub names_of : Name → Name → Ns
names_of envs encs = record {
  env = envs;
  enc = encs;
  header = qualified envs (codes "Header");
  body = qualified envs (codes "Body");
  envelope = qualified envs (codes "Envelope");
  fault = qualified envs (codes "Fault");
  array_type = qualified encs (codes "arrayType");
}

-- `cwmp_set_envelope_ns`; `none` where a prefix fills its array, so that no NUL ends it.
unfoldable pub set_envelope_ns : Option Name → Option Name → Ns → Option Ns
set_envelope_ns envstr encstr ns =
    let envs = or_default (codes "SOAP-ENV") envstr in
    let encs = or_default (codes "SOAP-ENC") encstr in
    if same_header (ns.env) envs
    then some ns
    else if ltb (length envs) name_max && ltb (length encs) name_max
    then some (names_of envs encs)
    else none

-- `XmlNodeGetDocRoot`, for the first child of the document: the first child of that
abbrev pub get_doc_root : Xml → Xml
get_doc_root doc = first_child doc

-- `cwmp_get_header_node` and `cwmp_get_body_node`
abbrev pub get_header_node : Ns → Xml → Xml
get_header_node ns doc = get_child_with_name (ns.header) (get_doc_root doc)

abbrev pub get_body_node : Ns → Xml → Xml
get_body_node ns doc = get_child_with_name (ns.body) (get_doc_root doc)

-- `cwmp_get_rpc_method_node`
abbrev pub get_rpc_method_node : Ns → Xml → Xml
get_rpc_method_node ns doc = first_child (get_body_node ns doc)

abbrev pub if_named : Name → Xml → Option Name → Xml
if_named method n none = no_node
if_named method n (some name) = if same_name name method then n else no_node

-- `cwmp_get_rpc_node`
unfoldable pub get_rpc_node : Ns → Xml → Name → Xml
get_rpc_node ns doc method =
    if_named method (get_rpc_method_node ns doc) (node_name (get_rpc_method_node ns doc))

-- `cwmp_get_rpc_method_name`
unfoldable pub get_rpc_method_name : Ns → Xml → Option Name
get_rpc_method_name ns doc = node_name (get_rpc_method_node ns doc)

-- `cwmp_get_type_string`
unfoldable pub get_type_string : ℕ → Name
get_type_string type =
    if type == type_object
    then codes "object"
    else if type == type_string
    then codes "xsd:string"
    else if type == type_int
    then codes "xsd:int"
    else if type == type_unsigned_int
    then codes "xsd:unsignedInt"
    else if type == type_string32
    then codes "xsd:string[32]"
    else if type == type_string64
    then codes "xsd:string[64]"
    else if type == 7
    then codes "xsd:string[128]"
    else if type == 8
    then codes "xsd:string[256]"
    else if type == 9
    then codes "xsd:string[1024]"
    else if type == 11
    then codes "xsd:bool"
    else if type == 10
    then codes "xsd:DateTime"
    else []

-- What is parsed for a message: `cwmp_agent_analyse_session` puts it between two tags.
abbrev pub wrapped : Xml → Xml
wrapped root = element (codes "cwmp") none [] root no_node
