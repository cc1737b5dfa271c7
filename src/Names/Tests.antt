-- ===== src/Names/Tests.antt =====
-- The list of names of a concrete tree, and the theorem at inputs that meet its hypotheses.
use netcwmp_xo.Base.{◌≡◌, refl, true, false, inl, inr, none, some, [], ◌∷◌, arith}
use netcwmp_xo.Param.{
  Name, Info, zeroed_info, Node, null, node, same_name, index_name, scan, get_parameter_nodename,
  path_loop, get_parameter_path_node,
}
use netcwmp_xo.Names.{
  names, fault, child_path, names_below, all_parameter_names, create_response, ends_with_dot,
  next_level_of, get_parameter_names,
}
use netcwmp_xo.Names.Listed.{AreListed, nodes_from, dot, all_parameter_names-IsListed}

abbrev object : Info
object = zeroed_info

abbrev parameter : Info
parameter = record zeroed_info { rw_flag = 1; type = 3 }

-- `D`, with the children `{i}`, `U` and `V`
abbrev d : Name
d = b'D' ∷ []

abbrev u : Name
u = b'U' ∷ []

abbrev v : Name
v = b'V' ∷ []

abbrev children : Node
children =
    node (some index_name) object null
      (node (some u) parameter null (node (some v) object null null))

abbrev device : Node
device = node (some d) object children null

-- GetParameterNames of `D.` with all levels
whole_tree :
    get_parameter_names 4 null device (some (b'D' ∷ dot)) none
    ≡ names (
        some (
          record { name = b'D' ∷ dot; writable = false }
          ∷ record { name = b'D' ∷ b'.' ∷ u; writable = true }
          ∷ record { name = b'D' ∷ b'.' ∷ b'V' ∷ dot; writable = false }
          ∷ []))
unfolding get_parameter_names get_parameter_path_node path_loop scan same_name
    get_parameter_nodename ends_with_dot next_level_of create_response all_parameter_names
    names_below child_path
whole_tree = refl

no_path : get_parameter_names 4 null device none none ≡ fault
unfolding get_parameter_names
no_path = refl

all_parameter_names-IsListed_example :
    AreListed null device (all_parameter_names (b'D' ∷ dot) device) (nodes_from device)
unfolding same_name
all_parameter_names-IsListed_example =
    all_parameter_names-IsListed null device device d []
      (((omega arith, omega arith), (refl, tt)), tt) refl
      (
        ((omega arith, omega arith), (refl, tt)),
        refl,
        omega arith,
        inr tt,
        tt,
        (((omega arith, omega arith), (refl, tt)), refl, omega arith, inl refl, tt, tt),
      )
