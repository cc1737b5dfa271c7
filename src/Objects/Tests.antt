-- ===== src/Objects/Tests.antt =====
-- A device with one kind of objects, and the theorems at inputs that meet their hypotheses.
use netcwmp_xo.Base.{
  ℕ, suc, ◌+◌, ◌≡◌, refl, Option, none, some, [], ◌∷◌, ◌==◌, if◌then◌else◌, arith,
}
use netcwmp_xo.Param.{
  Name, Info, zeroed_info, Node, null, node, same_name, index_name, get_parameter_nodename, scan,
  path_loop, get_parameter_path_node,
}
use netcwmp_xo.Param.Path.{join_to}
use netcwmp_xo.Objects.{
  Objects, deleted, refused, replied, is_digit, number_from, add_below, add_at, add_object,
  deleted_by, delete_object,
}
use netcwmp_xo.Objects.Guards.{IsGuarded, add_object-IsGuarded}
use netcwmp_xo.Objects.Parent.{dot, delete_object-calls}

abbrev d : Name
d = b'D' ∷ []

abbrev one : Name
one = b'1' ∷ []

-- What `{i}` and `1` hold, for the del function of `1`
abbrev template : Info
template = record zeroed_info { del = some 0 }

abbrev instance_info : Option ℕ → Info
instance_info del = record zeroed_info { del = del }

abbrev holder : Info
holder = record zeroed_info { rw_flag = 1; add = some 0 }

-- `D.{i}` and `D.1`
abbrev tree : Option ℕ → Node
tree del =
    node (some d) holder
      (node (some index_name) template null (node (some one) (instance_info del) null null)) null

-- A device that counts the calls of its functions; a new instance has the number of the calls and 2.
abbrev device : Option ℕ → Objects ℕ
device del = record {
  top = λ s. null;
  root = λ s. tree del;
  parent = λ path s. node (some index_name) template null null;
  call_add = λ f n s. record { code = 0; instance_num = s + 2; device = suc s };
  call_del = λ f n k s. record { code = if k == 1 then 0 else 9005; device = suc s };
}

-- The path of a parameter that is missing leads to the first of the siblings, which is no writable
-- object: the fault 9005.
missing : add_object (device none) 0 9 (some (join_to [] d (d ∷ []))) 0 ≡ replied (refused 9005) 0
unfolding add_object get_parameter_path_node path_loop scan same_name get_parameter_nodename add_at
    add_below
missing = refl

add_object-IsGuarded_example :
    IsGuarded (device none) 0 0 (add_object (device none) 0 2 (some (join_to dot d [])) 0)
add_object-IsGuarded_example =
    add_object-IsGuarded (device none) 0 0 2 (join_to dot d []) (omega arith)

delete_object-calls_example :
    delete_object (device (some 0)) 1 4 (some (join_to dot d (one ∷ []))) 0 ≡ replied (deleted 1) 1
unfolding deleted_by same_name is_digit number_from
delete_object-calls_example =
    delete_object-calls (device (some 0)) 1 0 4 d (one ∷ []) one (instance_info (some 0)) null null
      0 0 (((omega arith, omega arith), (refl, tt)), (((omega arith, omega arith), (refl, tt)), tt))
      refl (omega arith) refl refl refl refl (omega arith)
