-- ===== src/Model.antt =====
-- The tree of parameters that is built from the model file, netcwmp_xo/libcwmp/src/model.c, with
-- `cwmp_get_type_value` of netcwmp_xo/libcwmp/src/cwmp.c. The elements of the file are what the XML
-- library has read; the functions of the C library and of the configuration are parameters.
pub mod Copy
pub mod Load
pub mod Tests
use netcwmp_xo.Base.{
  ℕ, ◌%◌, ◌^◌, Bool, true, false, Option, none, some, List, [], ◌∷◌, ◌==◌, if◌then◌else◌, take,
  codes,
}
use netcwmp_xo.Param.{Name, Info, zeroed_info, type_object, Node, null, node}
use netcwmp_xo.Header.{same_header}
use netcwmp_xo.Names.{ends_with_dot}

-- The values of `enum cwmp_type_t` that `cwmp_get_type_value` returns
abbrev pub type_int : ℕ
type_int = 1

abbrev pub type_unsigned_int : ℕ
type_unsigned_int = 2

abbrev pub type_string : ℕ
type_string = 3

abbrev pub type_string16 : ℕ
type_string16 = 4

abbrev pub type_string32 : ℕ
type_string32 = 5

abbrev pub type_string64 : ℕ
type_string64 = 6

abbrev pub type_base64 : ℕ
type_base64 = 12

-- `cwmp_get_type_value` for a text
unfoldable pub get_type_value : Name → ℕ
get_type_value t =
    if same_header (take 3 t) (codes "Int")
    then type_int
    else if same_header (take 11 t) (codes "unsignedInt")
    then type_unsigned_int
    else if same_header t (codes "String")
    then type_string
    else if same_header t (codes "String(16)")
    then type_string16
    else if same_header t (codes "String(32)")
    then type_string32
    else if same_header t (codes "String(64)")
    then type_string64
    else if same_header t (codes "String(128)")
    then type_string64
    else if same_header t (codes "String(256)")
    then type_string64
    else if same_header t (codes "String(1024)")
    then type_string64
    else if same_header t (codes "DateTime")
    then type_string64
    else if same_header t (codes "Boolean")
    then type_string64
    else if same_header (take 4 t) (codes "base")
    then type_base64
    else if same_header t (codes "obj")
    then type_object
    else type_string

-- `pool_pstrdup`: an empty text becomes NULL.
abbrev pub pstrdup : Option Name → Option Name
pstrdup none = none
pstrdup (some []) = none
pstrdup (some (c ∷ s)) = some (c ∷ s)

-- `model_func_t`
pub record ModelFunc : Type 0 where
  pub name : Name
  pub func : ℕ

-- `cwmp_model_find_func` for a name that is not NULL
unfoldable pub find_func : List ModelFunc → Name → Option ℕ
find_func [] func_name = none
find_func (f ∷ fs) func_name =
    let rest = find_func fs func_name in
    if same_header func_name (f.name) then some f.func else rest

-- The attributes that are read of an element, besides its name
pub record Attributes : Type 0 where
  pub type : Option Name
  pub rw_flag : Option Name
  pub add_func : Option Name
  pub del_func : Option Name
  pub refresh_func : Option Name
  pub get_func : Option Name
  pub set_func : Option Name
  pub notify_func : Option Name
  pub ininame : Option Name
  pub value : Option Name

-- A `xmlnode_t *`: NULL, or an element with its attribute `name`, the other attributes, its first child
-- and its next sibling
pub data Xml : Type 0 where
  no_element : Xml
  element : Option Name → Attributes → Xml → Xml → Xml

module _ (atoi : Name → ℕ) (conf : Option Name → Option Name) (func_list : List ModelFunc) where
  -- The value of a number in a `cwmp_byte_t`; without the attribute it stays 0.
  abbrev pub rw_of : Option Name → ℕ
  rw_of none = 0
  rw_of (some text) = atoi text % 2 ^ 8

  abbrev pub func_of : Option Name → Option ℕ
  func_of none = none
  func_of (some func_name) = find_func func_list func_name

  -- The function named by an attribute, or that of the default name
  abbrev pub func_or : Name → Option Name → Option ℕ
  func_or default none = find_func func_list default
  func_or default (some func_name) = find_func func_list func_name

  abbrev pub type_of : Option Name → ℕ
  type_of none = type_string
  type_of (some text) = get_type_value text

  abbrev pub object_info : Attributes → Info
  object_info a = record zeroed_info {
    rw_flag = rw_of (a.rw_flag);
    add = func_of (a.add_func);
    del = func_of (a.del_func);
    refresh = func_of (a.refresh_func);
  }

  -- The value stands in the configuration, if the parameter has a name there.
  abbrev pub value_or : Option Name → Option Name → Option Name
  value_or none value = pstrdup value
  value_or (some ini) value = conf (pstrdup (some ini))

  -- The function of the attribute `setp` is left out, since no node is ever asked for it.
  abbrev pub parameter_info : ℕ → Attributes → Info
  parameter_info type a = record zeroed_info {
    rw_flag = rw_of (a.rw_flag);
    type = type;
    value = value_or (a.ininame) (a.value);
    ininame = pstrdup (a.ininame);
    get = func_or (codes "cpe_get_igd_ms_value") (a.get_func);
    set = func_or (codes "cpe_set_igd_ms_value") (a.set_func);
    notify = func_of (a.notify_func);
  }

  abbrev pub info_of : ℕ → Attributes → Info
  info_of type a = if type == type_object then object_info a else parameter_info type a

  -- A name that ends with a dot is an object's; `none` is a read in front of an empty name.
  abbrev pub typed : Option Bool → Attributes → Option Info
  typed none a = none
  typed (some true) a = some (info_of type_object a)
  typed (some false) a = some (info_of (type_of (a.type)) a)

  -- `cwmp_model_init_parameter`; without a name it returns early.
  unfoldable pub init_parameter : Option Name → Attributes → Option Info
  init_parameter none a = some zeroed_info
  init_parameter (some name) a = typed (ends_with_dot name) a

  abbrev pub linked : Option Name → Option Info → Option Node → Option Node → Option Node
  linked name none c s = none
  linked name (some i) none s = none
  linked name (some i) (some c) none = none
  linked name (some i) (some c) (some s) = some (node (pstrdup name) i c s)

  -- `cwmp_model_create_parameter` and `cwmp_model_create_child_parameter` for a chain of elements
  unfoldable pub create_parameter : Xml → Option Node
  create_parameter no_element = some null
  create_parameter (element name a c s) =
      linked name (init_parameter name a) (create_parameter c) (create_parameter s)

  abbrev pub below_root : Option Info → Option Node → Option Node
  below_root none c = none
  below_root (some i) c = c

  -- `cwmp_model_load_parameter`: the new `cwmp->root`, which stays NULL without an element
  unfoldable pub load_parameter : Xml → Option Node
  load_parameter no_element = some null
  load_parameter (element name a c s) = below_root (init_parameter name a) (create_parameter c)
