-- ===== src/Param/Tests.antt =====
-- Searches in a concrete tree, and the theorems at inputs that meet their hypotheses.
use netcwmp_xo.Base.{◌≡◌, refl, some, [], ◌∷◌, arith}
use netcwmp_xo.Param.{
  Name, Node, Info, zeroed_info, null, node, same_name, index_name, get_parameter_nodename, scan,
  found, path_loop, get_parameter_path_node,
}
use netcwmp_xo.Param.Path.{parts_fit, join, path_loop-locate, path_loop-ends}

-- `D`, `U` and `V`
abbrev d : Name
d = b'D' ∷ []

abbrev u : Name
u = b'U' ∷ []

abbrev v : Name
v = b'V' ∷ []

abbrev plain : Info
plain = record zeroed_info { rw_flag = 1 }

abbrev leaf : Node
leaf = node (some v) plain null null

-- `D.{i}`, `D.U` and `D.V`
abbrev root : Node
root = node (some d) plain (node (some index_name) plain leaf (node (some u) plain leaf leaf)) null

search : get_parameter_path_node 4 null root (some (join d (v ∷ []))) ≡ found leaf
unfolding get_parameter_path_node path_loop scan same_name get_parameter_nodename
search = refl

-- A last name that is missing leads to the first of the siblings, which the last one has for its parent.
missing :
    get_parameter_path_node 4 null root (some (join d (d ∷ [])))
    ≡ found (node (some index_name) plain leaf (node (some u) plain leaf leaf))
unfolding get_parameter_path_node path_loop scan same_name get_parameter_nodename
missing = refl

path_loop-locate_example : path_loop 9 null root (join d (u ∷ v ∷ [])) ≡ found leaf
unfolding same_name
path_loop-locate_example =
    path_loop-locate 9 null root leaf d (u ∷ v ∷ [])
      (
        ((omega arith, omega arith), (refl, tt)),
        (((omega arith, omega arith), (refl, tt)), (((omega arith, omega arith), (refl, tt)), tt)),
      )
      refl (omega arith)

path_loop-ends_example : (m : Node) × (path_loop 3 null root (join d (d ∷ [])) ≡ found m)
unfolding parts_fit
path_loop-ends_example = path_loop-ends 3 null root (join d (d ∷ [])) refl (omega arith)
