-- ===== src/Values.antt =====
-- GetParameterValues and SetParameterValues: their handlers of
-- netcwmp_xo/libcwmp/src/session.c, and `cwmp_get_parameter_node`,
-- `cwmp_parse_getparametervalues_message` and `cwmp_parse_setparametervalues_message` of
-- netcwmp_xo/libcwmp/src/cwmp.c. The pool has memory. `none` is a fault of the program.
pub mod Get
pub mod Set
pub mod Tests
use netcwmp_xo.Base.{
  ℕ, ◌-◌, Bool, true, false, Option, none, some, List, [], ◌∷◌, ◌++◌, ◌==◌, leb, if◌then◌else◌,
  length, Rc, cwmp_ok, cwmp_error, cwmp_timeout,
}
use netcwmp_xo.Param.{Name, Info, Node, null, node, same_name}

-- The fault codes of cwmp.h that are used here
abbrev pub fault_code_ok : ℕ
fault_code_ok = 0

abbrev pub fault_code_9003 : ℕ
fault_code_9003 = 9003

abbrev pub fault_code_9008 : ℕ
fault_code_9008 = 9008

-- `CWMP_RENEW_SIZE`
abbrev pub renew_size : ℕ
renew_size = 32

-- `parameter_t`, less the length of its value, which nothing reads
pub record Parameter : Type 0 where
  pub name : Option Name
  pub value : Option Name
  pub type : ℕ
  pub fault_code : ℕ

-- The loop over the siblings
unfoldable pub named_sibling : Name → Node → Option (Info × Node)
named_sibling sought null = none
named_sibling sought (node none i c s) = none
named_sibling sought (node (some m) i c s) =
    let rest = named_sibling sought s in
    if same_name m sought then some (i, node (some m) i c s) else rest

abbrev pub or_below : Option (Info × Node) → Option (Info × Node) → Option (Info × Node)
or_below none below = below
or_below (some found) below = some found

-- The loop over the first children
unfoldable pub named_below : Name → Node → Option (Info × Node)
named_below sought null = none
named_below sought (node m i c s) =
    or_below (named_sibling sought (node m i c s)) (named_below sought c)

-- `cwmp_get_parameter_node`, for what its array `name`, which it never sets, holds
unfoldable pub get_parameter_node : Name → Node → Option Name → Option (Info × Node)
get_parameter_node array root none = none
get_parameter_node array root (some param_name) = named_below array root

-- What a handler answers: a fault code, for a read the value, and the device after it
pub record Reading (S : Type 0) : Type 0 where
  pub code : ℕ
  pub value : Option Name
  pub device : S

pub record Writing (S : Type 0) : Type 0 where
  pub code : ℕ
  pub device : S

-- The tree of parameters, what the array of `cwmp_get_parameter_node` holds, and what the handlers do
-- that a node can have, by the number that stands for the pointer
pub record Device (S : Type 0) : Type 0 where
  pub root : S → Node
  pub array : S → Name
  pub call_get : ℕ → Node → Option Name → S → Reading S
  pub call_set : ℕ → Node → Option Name → Option Name → S → Writing S

-- The list takes `renew_size - 1` parameters; for the next one it is moved, and the place to write to
-- stands in memory that was given back.
unfoldable pub append : List Parameter → Parameter → Option (List Parameter)
append list p = if leb (renew_size - 1) (length list) then none else some (list ++ p ∷ [])

-- What a parser leaves: what it returns, the fault code if it has set it, the list, and the device
pub record Parsed (S : Type 0) : Type 0 where
  pub rc : Rc
  pub fault : Option ℕ
  pub list : List Parameter
  pub device : S

-- A pair of a name and a value of SetParameterValues, as the document has them
pub record Assignment : Type 0 where
  pub name : Option Name
  pub value : Option Name

-- The responses to SetParameterValues: a status, or the fault code and the faults of the parameters
pub data SetResponse : Type 0 where
  status : ℕ → SetResponse
  faults : Option ℕ → List Parameter → SetResponse

module _ {S : Type 0} (d : Device S) where
  -- The value of a node, for its name of the call
  abbrev pub read_value : Option Name → Info → Node → S → Reading S
  read_value name i pn s = elim (i.get) [
    | none ↦ record { code = fault_code_ok; value = i.value; device = s }
    | some g ↦ d.call_get g pn name s
  ]

  abbrev pub got : Option Name → Info → Option Name → Parameter
  got name i value = record { name = name; value = value; type = i.type; fault_code = 0 }

  -- The loop of `cwmp_parse_getparametervalues_message`
  unfoldable pub get_values : List (Option Name) → List Parameter → S → Option (Parsed S)
  get_values [] list s = some (record { rc = cwmp_ok; fault = none; list = list; device = s })
  get_values (name ∷ names) list s = elim (get_parameter_node (d.array s) (d.root s) name) [
    | none ↦
        some (record { rc = cwmp_error; fault = some fault_code_9003; list = list; device = s })
    | some found ↦
        let r = read_value name found.0 found.1 s in
        elim (r.code == fault_code_ok) [
          | false ↦
              some (record { rc = cwmp_error; fault = some r.code; list = list; device = r.device })
          | true ↦ elim (append list (got name found.0 r.value)) [
            | none ↦ none
            | some longer ↦ get_values names longer r.device
          ]
        ]
  ]

  abbrev pub listed : Option (Parsed S) → Option (List Parameter × S)
  listed none = none
  listed (some r) = some (r.list, r.device)

  -- The handler of GetParameterValues: the parameters of the response. Without the node
  -- `ParameterNames` the list is not set.
  unfoldable pub get_parameter_values :
      Option (List (Option Name)) → S → Option (List Parameter × S)
  get_parameter_values none s = none
  get_parameter_values (some names) s = listed (get_values names [] s)

  abbrev pub write_value : Info → Node → Assignment → S → Writing S
  write_value i pn a s = elim (i.set) [
    | none ↦ record { code = fault_code_9008; device = s }
    | some f ↦ d.call_set f pn a.name a.value s
  ]

  abbrev pub was_set : Info → Assignment → ℕ → Parameter
  was_set i a code = record { name = a.name; value = a.value; type = i.type; fault_code = code }

  -- The loop of `cwmp_parse_setparametervalues_message`, for what `rc` and the fault code are so far
  unfoldable pub set_values : List Assignment → Parsed S → Option (Parsed S)
  set_values [] r = some r
  set_values (a ∷ more) r = elim (get_parameter_node (d.array r.device) (d.root r.device) a.name) [
    | none ↦ set_values more r
    | some found ↦
        let w = write_value found.0 found.1 a r.device in
        elim (append r.list (was_set found.0 a w.code)) [
          | none ↦ none
          | some longer ↦ set_values more (record {
            rc = if w.code == fault_code_ok then r.rc else cwmp_error;
            fault = if w.code == fault_code_ok then r.fault else some fault_code_9003;
            list = longer;
            device = w.device;
          })
        ]
  ]

  abbrev pub response_of : Rc → Parsed S → SetResponse
  response_of cwmp_ok r = status 0
  response_of cwmp_error r = faults r.fault r.list
  response_of cwmp_timeout r = faults r.fault r.list

  abbrev pub answered : Option (Parsed S) → Option (SetResponse × S)
  answered none = none
  answered (some r) = some (response_of r.rc r, r.device)

  abbrev pub no_parameters : S → Parsed S
  no_parameters s = record { rc = cwmp_ok; fault = none; list = []; device = s }

  -- The handler of SetParameterValues. Without the node `ParameterList` the list is not set.
  unfoldable pub set_parameter_values : Option (List Assignment) → S → Option (SetResponse × S)
  set_parameter_values none s = none
  set_parameter_values (some assignments) s = answered (set_values assignments (no_parameters s))
