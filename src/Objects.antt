-- ===== src/Objects.antt =====
-- AddObject and DeleteObject: their handlers of netcwmp_xo/libcwmp/src/session.c, and
-- `cwmp_parse_addobject_message` and `cwmp_parse_deleteobject_message` of
-- netcwmp_xo/libcwmp/src/cwmp.c.
pub mod Parent
pub mod Guards
pub mod Kinds
pub mod Tests
use netcwmp_xo.Base.{
  ℕ, zero, suc, ◌+◌, ◌*◌, ◌-◌, ◌^◌, Bool, true, false, not, ◌&&◌, ◌||◌, Option, none, some, List,
  [], ◌∷◌, ◌==◌, leb, if◌then◌else◌,
}
use netcwmp_xo.Param.{
  Name, Info, type_object, Node, null, node, same_name, index_name, get_parameter_nodename, is_end,
  is_null, child, at_null, at_parent, at_node, scan, Lookup, found, too_long, out_of_fuel,
  get_parameter_path_node,
}
use netcwmp_xo.Names.{ends_with_dot}
use netcwmp_xo.Values.{Writing, fault_code_ok}

abbrev pub fault_code_9005 : ℕ
fault_code_9005 = 9005

-- What an add function answers: a fault code, the number of the instance, and the device after it
pub record Adding (S : Type 0) : Type 0 where
  pub code : ℕ
  pub instance_num : ℕ
  pub device : S

-- The tree below `top`, what the functions do that a node can have, and the node that `parent` points to
-- of the node that is found for a path: this link is no part of a `Node`, since the nodes of the model
-- file and the copies of an object are linked in different ways.
pub record Objects (S : Type 0) : Type 0 where
  pub top : S → Node
  pub root : S → Node
  pub parent : Name → S → Node
  pub call_add : ℕ → Node → S → Adding S
  pub call_del : ℕ → Node → ℕ → S → Writing S

-- The responses: a number and a status, a status, or a fault
pub data Reply : Type 0 where
  added : ℕ → ℕ → Reply
  deleted : ℕ → Reply
  refused : ℕ → Reply

-- How a handler ends: with a response, with a fault of the program, or at the end of the fuel of the
-- search.
pub data Outcome (S : Type 0) : Type 0 where
  replied : Reply → S → Outcome S
  fault : Outcome S
  no_fuel : Outcome S

-- `isdigit`, and `is_digit` for the name of a node
abbrev pub is_digit_char : ℕ → Bool
is_digit_char c = leb b'0' c && leb c b'9'

unfoldable pub is_digit : Name → Bool
is_digit [] = true
is_digit (c ∷ s) = is_digit_char c && is_digit s

-- `atoi` for digits whose number fits an `int`, behind the number `n`; other numbers are undefined
unfoldable pub number_from : ℕ → Name → ℕ
number_from n [] = n
number_from n (c ∷ s) = number_from (n * 10 + (c - b'0')) s

abbrev pub del_of : Node → Option (Option ℕ)
del_of null = none
del_of (node name i c s) = some (i.del)

-- `stack` is what `status` holds in the handlers, which never set it.
module _ {S : Type 0} (d : Objects S) (stack : ℕ) where
  abbrev pub status : ℕ
  status = if stack == 0 then 0 else 1

  abbrev pub refuse : S → Outcome S
  refuse s = replied (refused fault_code_9005) s

  unfoldable pub added_by : Adding S → Outcome S
  added_by r =
      if r.code == fault_code_ok
      then replied (added r.instance_num status) r.device
      else refuse r.device

  abbrev pub add_with : Option ℕ → Node → S → Outcome S
  add_with none pn s = refuse s
  add_with (some f) pn s = added_by (d.call_add f pn s)

  -- The test of the first child's name, which is read from NULL where there is none
  unfoldable pub add_below : Option ℕ → Node → Node → S → Outcome S
  add_below f pn null s = fault
  add_below f pn (node none i c r) s = refuse s
  add_below f pn (node (some k) i c r) s =
      if same_name k index_name then add_with f pn s else refuse s

  unfoldable pub add_at : Node → S → Outcome S
  add_at null s = refuse s
  add_at (node name i c r) s =
      let below = add_below (i.add) (node name i c r) c s in
      if not (i.type == type_object) || not (i.rw_flag == 1) then refuse s else below

  abbrev pub add_found : Lookup → S → Outcome S
  add_found (found m) s = add_at m s
  add_found too_long s = fault
  add_found out_of_fuel s = no_fuel

  -- The handler of AddObject
  unfoldable pub add_object : ℕ → Option Name → S → Outcome S
  add_object fuel object_name s =
      add_found (get_parameter_path_node fuel (d.top s) (d.root s) object_name) s

  unfoldable pub deleted_by : Writing S → Outcome S
  deleted_by r =
      if r.code == fault_code_ok then replied (deleted status) r.device else refuse r.device

  -- The call with the number of the name, which is undefined where it is no `int`
  abbrev pub del_with : Option ℕ → Node → Name → S → Outcome S
  del_with none pn k s = fault
  del_with (some f) pn k s =
      let number = number_from 0 k in
      if leb (2 ^ 31) number then fault else deleted_by (d.call_del f pn number s)

  -- The test of `parent->del`, before `param->del` is called
  unfoldable pub del_guarded : Option (Option ℕ) → Option ℕ → Node → Name → S → Outcome S
  del_guarded none f pn k s = fault
  del_guarded (some none) f pn k s = refuse s
  del_guarded (some (some g)) f pn k s = del_with f pn k s

  unfoldable pub del_named : Node → Option Name → Info → Node → S → Outcome S
  del_named parent none i pn s = refuse s
  del_named parent (some k) i pn s =
      if is_digit k then del_guarded (del_of parent) (i.del) pn k s else refuse s

  -- The test of the last character of `ObjectName`
  abbrev pub del_dotted : Option Bool → Node → Option Name → Info → Node → S → Outcome S
  del_dotted none parent name i pn s = fault
  del_dotted (some false) parent name i pn s = refuse s
  del_dotted (some true) parent name i pn s = del_named parent name i pn s

  unfoldable pub del_at : Name → Node → Node → S → Outcome S
  del_at path parent null s = refuse s
  del_at path parent (node name i c r) s =
      if i.type == type_object
      then del_dotted (ends_with_dot path) parent name i (node name i c r) s
      else refuse s

  abbrev pub del_found : Name → Node → Lookup → S → Outcome S
  del_found path parent (found m) s = del_at path parent m s
  del_found path parent too_long s = fault
  del_found path parent out_of_fuel s = no_fuel

  -- The handler of DeleteObject
  unfoldable pub delete_object : ℕ → Option Name → S → Outcome S
  delete_object fuel none s = refuse s
  delete_object fuel (some path) s =
      del_found path (d.parent path s)
        (get_parameter_path_node fuel (d.top s) (d.root s) (some path)) s
