-- ===== src/Model/Tests.antt =====
-- A model file with one kind of objects, and the theorems at inputs that meet their hypotheses.
use netcwmp_xo.Base.{
  ℕ, ◌+◌, ◌≡◌, refl, inl, Option, none, some, List, [], ◌∷◌, length, arith, codes,
}
use netcwmp_xo.Param.{
  Name, Info, zeroed_info, Node, null, node, same_name, index_name, child, found, path_loop,
}
use netcwmp_xo.Param.Path.{join_to}
use netcwmp_xo.Header.{same_header}
use netcwmp_xo.Names.{ends_with_dot}
use netcwmp_xo.Model.{
  get_type_value, find_func, ModelFunc, Attributes, Xml, no_element, element, init_parameter,
  create_parameter, load_parameter,
}
use netcwmp_xo.Model.Load.{path_loop-create_parameter}
use netcwmp_xo.Model.Copy.{copy_below, copy_parameter}
use netcwmp_xo.Model.Copy.Found.{copy_parameter-found}

abbrev atoi : Name → ℕ
atoi text = length text

abbrev conf : Option Name → Option Name
conf ini = ini

abbrev no_attributes : Attributes
no_attributes = record {
  type = none;
  rw_flag = none;
  add_func = none;
  del_func = none;
  refresh_func = none;
  get_func = none;
  set_func = none;
  notify_func = none;
  ininame = none;
  value = none;
}

-- An object by its type, and a parameter with a value in the configuration
abbrev object : Attributes
object = record no_attributes { type = some (codes "obj"); add_func = some (codes "ADD") }

abbrev parameter : Attributes
parameter = record no_attributes {
  type = some (codes "int");
  rw_flag = some (codes "1");
  get_func = some (codes "get");
  ininame = some (codes "ini");
}

abbrev funcs : List ModelFunc
funcs = record { name = codes "add"; func = 4 } ∷ record { name = codes "get"; func = 5 } ∷ []

-- `D` with the child `V`, as elements and as the nodes that are built of them
abbrev file : Xml
file =
    element (some (codes "D")) object (element (some (codes "V")) parameter no_element no_element)
      no_element

abbrev volume : Info
volume = record zeroed_info {
  rw_flag = 1;
  type = 1;
  value = some (codes "ini");
  ininame = some (codes "ini");
  get = some 5;
}

abbrev leaf : Node
leaf = node (some (codes "V")) volume null null

abbrev tree : Node
tree = node (some (codes "D")) (record zeroed_info { add = some 4 }) leaf null

loaded :
    load_parameter atoi conf funcs (element (some (codes "X")) no_attributes file no_element)
    ≡ some tree
unfolding load_parameter create_parameter init_parameter ends_with_dot get_type_value same_header
    find_func
loaded = refl

path_loop-create_parameter_example :
    (m : Node) × (create_parameter atoi conf funcs
        (element (some (codes "V")) parameter no_element no_element)
      ≡ some m)
    × (path_loop 3 null tree (join_to [] (codes "D") (codes "V" ∷ [])) ≡ found m)
unfolding create_parameter init_parameter ends_with_dot get_type_value same_header find_func
    same_name
path_loop-create_parameter_example =
    path_loop-create_parameter atoi conf funcs 3 null tree file
      (element (some (codes "V")) parameter no_element no_element) [] (codes "D") (codes "V" ∷ [])
      (inl refl)
      (((omega arith, omega arith), (refl, tt)), (((omega arith, omega arith), (refl, tt)), tt))
      refl refl (omega arith)

-- The text of a number below 10
abbrev itoa : ℕ → Name
itoa k = (b'0' + k) ∷ []

abbrev template : Node
template = node (some index_name) zeroed_info leaf null

-- The copy of a parameter below the instance 2 has its value, but not its type, and cannot be written.
copy_parameter-found_example :
    path_loop 3 null
      (child ((copy_parameter itoa (node (some (codes "D")) zeroed_info template null) 2).param))
      (join_to [] (codes "2") (codes "V" ∷ []))
    ≡ found (
        node
          (some (codes "V"))
          (record zeroed_info { value = some (codes "ini"); ininame = some (codes "ini") })
          null
          null)
unfolding same_name copy_below
copy_parameter-found_example =
    copy_parameter-found itoa (some (codes "D")) (some index_name) zeroed_info zeroed_info leaf null
      null leaf null 2 3 [] (codes "V") [] (omega arith) refl tt refl (omega arith, tt, tt)
      (inl refl)
      (((omega arith, omega arith), (refl, tt)), (((omega arith, omega arith), (refl, tt)), tt))
      refl (omega arith)
